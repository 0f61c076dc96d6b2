-- ===== src/Execution/Limits.antt =====
-- What a signal does to the positions (src/execution/execution_engine.h with
-- src/risk/risk_manager.h): no more than the gate allowed.
use nebula_x_simulator.Prelude.{
  ℕ, ◌+◌, ◌<◌, ◌≤◌, ◌≡◌, ◌≢◌, ◌⊎◌, refl, ap, ◌∙◌, Bool, true, false, List, [], ◌∷◌, arith,
  Bool-cases, inl, inr, u64_mod,
}
use nebula_x_simulator.Prelude.Int.{ℤ}
use nebula_x_simulator.Core.{Order, none_side}
use nebula_x_simulator.Oms.{on_accept}
use nebula_x_simulator.Risk.{
  RiskManager, drawdown_flatten, check_order, position, book_fill, locate_idx,
}
use nebula_x_simulator.Risk
use nebula_x_simulator.Risk.Gate.{is_buyer, moved, update_equity-qty, side-cases}
use nebula_x_simulator.Venue.{Fill, sum_fills, ExchangeSubmitResult}
use nebula_x_simulator.Execution.{
  Execution, book_execution, record_trade, take_fills, take_result, set_oms,
}

book_fill-moved :
    (r : RiskManager) (o : Order) (filled symbol : ℕ)
    → o.side ≢ none_side
    → position r o.symbol_id + filled < u64_mod
    → position (book_fill r o filled) symbol ≡ moved r o filled symbol
unfolding book_fill position
book_fill-moved r o filled symbol side small = elim (side-cases o.side) [
  | inl b ↦ ground (arith, b)
  | inr (inl s) ↦ ground (arith, s)
  | inr (inr n) ↦ absurd (side n)
]

on_fill-moved :
    (r : RiskManager) (o : Order) (filled symbol : ℕ)
    → o.side ≢ none_side
    → position r o.symbol_id + filled < u64_mod
    → position (Risk.on_fill r o filled) symbol ≡ moved r o filled symbol
unfolding Risk.on_fill position
on_fill-moved r o filled symbol side small =
    ap (λ q. q (locate_idx symbol)) (update_equity-qty (book_fill r o filled))
    ∙ book_fill-moved r o filled symbol side small

moved_none : (r : RiskManager) (o : Order) (symbol : ℕ) → position r symbol ≡ moved r o 0 symbol
unfolding position
moved_none r o symbol = ground arith

-- Two moves of one order are one.
moved_twice :
    (r r' : RiskManager) (o : Order) (a b symbol : ℕ)
    → position r' symbol ≡ moved r o a symbol
    → position r' o.symbol_id ≡ moved r o a o.symbol_id
    → moved r' o b symbol ≡ moved r o (a + b) symbol
moved_twice r r' o a b symbol here there = ground arith

module _ {X : Type 0} where
  book_execution-risk :
      (e : Execution X) (id : ℕ) (o : Order) (qty : ℕ) (price : ℤ) (p : Bool)
      → (book_execution e id o qty price p).shared.risk
        ≡ Risk.on_fill e.shared.risk (record o { price = price }) qty
  unfolding book_execution record_trade
  book_execution-risk e id o qty price p = elim (Bool-cases e.recorder) [
    | inl h ↦ rw (h, record_trade) refl
    | inr h ↦ rw (h, record_trade) refl
  ]

  take_fills-moved :
      (e : Execution X) (id : ℕ) (o : Order) (fs : List Fill) (symbol : ℕ)
      → o.side ≢ none_side
      → position e.shared.risk o.symbol_id + sum_fills fs < u64_mod
      → position (take_fills e id o fs).shared.risk symbol
        ≡ moved e.shared.risk o (sum_fills fs) symbol
  unfolding take_fills
  take_fills-moved e id o [] symbol side small = moved_none e.shared.risk o symbol
  take_fills-moved e id o (f ∷ fs) symbol side small =
      let r = e.shared.risk in
      let e' = book_execution e id o f.filled_qty f.fill_price false in
      take_fills-moved e' id o fs symbol side (room (step o.symbol_id))
      ∙ moved_twice r e'.shared.risk o f.filled_qty (sum_fills fs) symbol (step symbol)
          (step o.symbol_id)
    where
      step :
          (j : ℕ)
          → position (book_execution e id o f.filled_qty f.fill_price false).shared.risk j
            ≡ moved e.shared.risk o f.filled_qty j
      step j =
          ap (λ q. position q j) (book_execution-risk e id o f.filled_qty f.fill_price false)
          ∙ on_fill-moved e.shared.risk (record o { price = f.fill_price }) f.filled_qty j side
              (omega arith)

      room :
          {p : ℕ} → p ≡ moved e.shared.risk o f.filled_qty o.symbol_id → p + sum_fills fs < u64_mod
      room h = ground arith

-- What an order can do to the positions: some of its shares, and as the gate allowed.
pub record Moved (r : RiskManager) (o : Order) (r' : RiskManager) : Type 0 where
  pub shares : ℕ
  pub fits : shares ≤ o.quantity
  pub moves : (symbol : ℕ) → position r' symbol ≡ moved r o shares symbol
  pub bought :
      is_buyer o.side ≡ true → shares ≡ 0 ⊎ (position r o.symbol_id + shares ≤ r.max_position)
  pub sold : is_buyer o.side ≡ false → shares ≤ position r o.symbol_id

pub unmoved :
    (r r' : RiskManager) (o : Order)
    → ((symbol : ℕ) → position r' symbol ≡ position r symbol)
    → Moved r o r'
unmoved r r' o same = record {
  shares = 0;
  fits = omega arith;
  moves = λ symbol. same symbol ∙ moved_none r o symbol;
  bought = λ b. inl refl;
  sold = λ b. omega arith;
}

-- A move from where the positions are the same.
moved_from :
    (r r' : RiskManager) (o : Order) (n symbol : ℕ)
    → position r' symbol ≡ position r symbol
    → position r' o.symbol_id ≡ position r o.symbol_id
    → moved r' o n symbol ≡ moved r o n symbol
moved_from r r' o n symbol here there = ground arith

gate_allows :
    (r : RiskManager) (o : Order) (n : ℕ)
    → check_order r o ≡ true
    → position r o.symbol_id + o.quantity < u64_mod
    → n ≤ o.quantity
    → (o.side ≢ none_side)
      × (is_buyer o.side ≡ true → position r o.symbol_id + n ≤ r.max_position)
      × (is_buyer o.side ≡ false → n ≤ position r o.symbol_id)
unfolding check_order position
gate_allows r o n ok small most = elim (side-cases o.side) [
  | inl b ↦ (λ h. ground (arith, ok, b), λ h. ground (arith, ok, b), λ h. ground (arith, ok, b))
  | inr (inl s) ↦
      (λ h. ground (arith, ok, s), λ h. ground (arith, ok, s), λ h. ground (arith, ok, s))
  | inr (inr n) ↦ absurd (ground (arith, ok, n))
]

module _ {X : Type 0} where
  pub take_result-Moved :
      (e : Execution X) (id : ℕ) (o : Order) (r : ExchangeSubmitResult) (before : RiskManager)
      → ((symbol : ℕ) → position e.shared.risk symbol ≡ position before symbol)
      → check_order before o ≡ true
      → position before o.symbol_id + o.quantity < u64_mod
      → sum_fills r.fills ≤ o.quantity
      → Moved before o (take_result e id o r).shared.risk
  unfolding take_result
  take_result-Moved e id o r before same ok small most =
      let n = sum_fills r.fills in
      let (side, bought, sold) = gate_allows before o n ok small most in
      elim (Bool-cases r.accepted) [
        | inr h ↦ rw (h, take_result) (unmoved before e.shared.risk o same)
        | inl h ↦
            rw (h, take_result)
              (record {
                shares = n;
                fits = most;
                moves = λ symbol.
                    take_fills-moved (set_oms e (on_accept e.order_manager id 0)) id o r.fills
                      symbol side (room (same o.symbol_id) most)
                    ∙ moved_from before e.shared.risk o n symbol (same symbol) (same o.symbol_id);
                bought = λ b. inr (bought b);
                sold = sold;
              })
      ]
    where
      room : {p q : ℕ} → p ≡ position before o.symbol_id → q ≤ o.quantity → p + q < u64_mod
      room h k = omega arith
