-- ===== src/Risk/Gate.antt =====
-- The gate for new orders (`check_order` of src/risk/risk_manager.h) and what its answer is worth
-- after the fills.
use nebula_x_simulator.Prelude.{
  ℕ, ◌+◌, ◌<◌, ◌≤◌, ◌≡◌, ◌⊎◌, refl, ap, ◌∙◌, inl, inr, Bool, true, false, arith, u64_mod, ◌==◌,
  if◌then◌else◌, ◌-◌,
}
use nebula_x_simulator.Core.{Order, OrderSide, buy, sell, none_side}
use nebula_x_simulator.Risk.{
  RiskManager, check_order, book_fill, on_fill, position, update_equity, locate_idx,
}

abbrev pub is_buyer : OrderSide → Bool
is_buyer buy = true
is_buyer _ = false

pub side-cases : (s : OrderSide) → (s ≡ buy) ⊎ ((s ≡ sell) ⊎ (s ≡ none_side))
side-cases buy = inl refl
side-cases sell = inr (inl refl)
side-cases none_side = inr (inr refl)

pub update_equity-qty : (r : RiskManager) → (update_equity r).qty ≡ r.qty
unfolding update_equity
update_equity-qty r = ground arith

-- The position at `symbol` after a fill of an order of the side.
abbrev pub moved : RiskManager → Order → ℕ → ℕ → ℕ
moved r o filled symbol =
    if locate_idx symbol == locate_idx o.symbol_id
    then (if is_buyer o.side
        then position r o.symbol_id + filled
        else position r o.symbol_id - filled)
    else position r symbol

book_fill-moved :
    (r : RiskManager) (o : Order) (filled symbol : ℕ)
    → check_order r o ≡ true
    → filled ≤ o.quantity
    → position r o.symbol_id + o.quantity < u64_mod
    → (position (book_fill r o filled) symbol ≡ moved r o filled symbol)
      × (is_buyer o.side ≡ true → position r o.symbol_id + filled ≤ r.max_position)
      × (is_buyer o.side ≡ false → filled ≤ position r o.symbol_id)
unfolding book_fill position check_order
book_fill-moved r o filled symbol ok most small = elim (side-cases o.side) [
  | inl b ↦ (ground (arith, ok, b), λ h. ground (arith, ok, b), λ h. ground (arith, ok, b))
  | inr (inl s) ↦ (ground (arith, ok, s), λ h. ground (arith, ok, s), λ h. ground (arith, ok, s))
  | inr (inr n) ↦ absurd (ground (arith, ok, n))
]

-- Where the position of an order's symbol and its quantity add up to less than 2 ^ 64: a fill, of the
-- quantity at most, of an order that the gate admits moves the position of its symbol by the filled
-- shares, and no other. A buy stays within the position limit, and a sell takes
-- no more than is held: no position is sold short.
pub on_fill-moved :
    (r : RiskManager) (o : Order) (filled symbol : ℕ)
    → check_order r o ≡ true
    → filled ≤ o.quantity
    → position r o.symbol_id + o.quantity < u64_mod
    → (position (on_fill r o filled) symbol ≡ moved r o filled symbol)
      × (is_buyer o.side ≡ true → position r o.symbol_id + filled ≤ r.max_position)
      × (is_buyer o.side ≡ false → filled ≤ position r o.symbol_id)
unfolding on_fill position
on_fill-moved r o filled symbol ok most small =
    let (e, f, g) = book_fill-moved r o filled symbol ok most small in
    (ap (λ q. q (locate_idx symbol)) (update_equity-qty (book_fill r o filled)) ∙ e, f, g)
