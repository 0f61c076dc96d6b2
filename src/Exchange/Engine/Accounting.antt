-- ===== src/Exchange/Engine/Accounting.antt =====
-- What a matching loop of src/exchange/matching_engine.cpp does to its order: the shares that it
-- fills are the shares of the trades that it reports, at prices within the order's limit.
use nebula_x_simulator.Prelude.{
  ℕ, zero, suc, ◌+◌, ◌<◌, ◌≡◌, ◌≢◌, refl, sym, ap, subst, ◌∙◌, inl, inr, false, List, [], ◌∷◌, ◌++◌,
  arith, min, u32_mod, sub32, Bool-cases, Option-cases, All, All-append, ◌==◌, if◌then◌else◌,
}
use mathlib.Core.List.{append_assoc, append-nil}
use nebula_x_simulator.Exchange.Order.{Side, Order, filled, partially_filled, cancelled}
use nebula_x_simulator.Exchange.Protocol.{
  BinaryResponse, rsp_trade, rsp_ok, rsp_filled, rsp_cancelled, rsp_error,
}
use nebula_x_simulator.Exchange.Engine.{
  Matching, match_round, match_loop, opposite, refuses, best_for,
}

-- The shares of the trades among the responses.
abbrev pub traded : List BinaryResponse → ℕ
traded [] = 0
traded (rsp_trade t ∷ rs) = t.quantity + traded rs
traded (rsp_ok n ∷ rs) = traded rs
traded (rsp_filled n ∷ rs) = traded rs
traded (rsp_cancelled n ∷ rs) = traded rs
traded (rsp_error c ∷ rs) = traded rs

pub traded-append : (rs ss : List BinaryResponse) → traded (rs ++ ss) ≡ traded rs + traded ss
traded-append [] ss = omega arith
traded-append (rsp_trade t ∷ rs) ss = omega (arith, traded-append rs ss)
traded-append (rsp_ok n ∷ rs) ss = traded-append rs ss
traded-append (rsp_filled n ∷ rs) ss = traded-append rs ss
traded-append (rsp_cancelled n ∷ rs) ss = traded-append rs ss
traded-append (rsp_error c ∷ rs) ss = traded-append rs ss

-- A trade at the locate, against the other side, at a price that the limit admits.
abbrev pub IsFair : Side → ℕ → ℕ → BinaryResponse → Type 0
IsFair side locate limit (rsp_trade t) =
    (t.locate ≡ locate) × (t.side ≡ opposite side) × (refuses side limit t.price ≡ false)
IsFair side locate limit _ = ⊥

-- From one state of the loop to a later one.
pub record Matched (side : Side) (locate : ℕ) (m m' : Matching) : Type 0 where
  pub reports : List BinaryResponse
  pub appended : m'.out ≡ m.out ++ reports
  pub fills : m'.order.filled_qty ≡ m.order.filled_qty + traded reports
  pub leaves : m'.order.remaining_qty + traded reports ≡ m.order.remaining_qty
  pub fair : All (IsFair side locate m.order.price) reports
  pub price : m'.order.price ≡ m.order.price
  pub user_id : m'.order.user_id ≡ m.order.user_id
  pub order_id : m'.order.order_id ≡ m.order.order_id
  pub order_side : m'.order.side ≡ m.order.side

Matched-refl : (side : Side) (locate : ℕ) (m : Matching) → Matched side locate m m
Matched-refl side locate m = record {
  reports = [];
  appended = sym (append-nil m.out);
  fills = omega arith;
  leaves = omega arith;
  fair = tt;
  price = refl;
  user_id = refl;
  order_id = refl;
  order_side = refl;
}

Matched-trans :
    {side : Side} {locate : ℕ} {m n o : Matching}
    → Matched side locate m n
    → Matched side locate n o
    → Matched side locate m o
Matched-trans {side} {locate} {m} {n} {o} a b = record {
  reports = a.reports ++ b.reports;
  appended =
      b.appended ∙ ap (λ l. l ++ b.reports) a.appended ∙ append_assoc m.out a.reports b.reports;
  fills = omega (arith, a.fills, b.fills, traded-append a.reports b.reports);
  leaves = omega (arith, a.leaves, b.leaves, traded-append a.reports b.reports);
  fair =
      All-append (IsFair side locate m.order.price) a.reports b.reports a.fair
        (subst (λ p. All (IsFair side locate p) b.reports) a.price b.fair);
  price = b.price ∙ a.price;
  user_id = b.user_id ∙ a.user_id;
  order_id = b.order_id ∙ a.order_id;
  order_side = b.order_side ∙ a.order_side;
}

match_round-Matched :
    (side : Side) (locate seq : ℕ) (m : Matching) (i : ℕ)
    → m.order.filled_qty + m.order.remaining_qty < u32_mod
    → refuses side m.order.price (m.book.storage i).price ≡ false
    → Matched side locate m (match_round side locate seq m i)
unfolding match_round
match_round-Matched side locate seq m i small accepts =
    let maker = m.book.storage i in
    record {
      reports =
          rsp_trade (record {
            locate = locate;
            order_ref = maker.order_id;
            side = opposite side;
            price = maker.price;
            quantity = min m.order.remaining_qty maker.remaining_qty;
          })
          ∷ [];
      appended = refl;
      fills = omega arith;
      leaves = omega arith;
      fair = ((refl, refl, accepts), tt);
      price = refl;
      user_id = refl;
      order_id = refl;
      order_side = refl;
    }

-- The loop's whole effect on its order, for any book, by any number of rounds: what it fills is
-- what it reports as traded, fair trades only, and the order keeps its price, its side and
-- its numbers.
pub match_loop-Matched :
    (fuel : ℕ) (side : Side) (locate seq : ℕ) (m : Matching)
    → m.order.filled_qty + m.order.remaining_qty < u32_mod
    → Matched side locate m (match_loop fuel side locate seq m)
unfolding match_loop
match_loop-Matched zero side locate seq m small = Matched-refl side locate m
match_loop-Matched (suc fuel) side locate seq m small =
    elim (Bool-cases (m.order.remaining_qty == 0)) [
      | inl done ↦ rw (done, match_loop) (Matched-refl side locate m)
      | inr more ↦ elim (Option-cases (best_for side m.book m.order.user_id)) [
        | inl e ↦ rw (more, e, match_loop) (Matched-refl side locate m)
        | inr (i, e) ↦ elim (Bool-cases (refuses side m.order.price (m.book.storage i).price)) [
          | inl no_deal ↦ rw (more, e, no_deal, match_loop) (Matched-refl side locate m)
          | inr deal ↦
              let round = match_round-Matched side locate seq m i small deal in
              rw (more, e, deal, match_loop)
                (Matched-trans round (
                  match_loop-Matched fuel side locate seq (match_round side locate seq m i)
                    (omega (arith, round.fills, round.leaves))))
        ]
      ]
    ]

-- The order's state says whether anything is left of it, and no loop cancels it.
abbrev pub IsSettled : Order → Type 0
IsSettled o =
    (o.status ≡ filled → o.remaining_qty ≡ 0)
    × (o.remaining_qty ≡ 0 → o.status ≡ filled)
    × (o.status ≢ cancelled)

settled :
    (left : ℕ)
    → let s = if left == 0 then filled else partially_filled in
      (s ≡ filled → left ≡ 0) × (left ≡ 0 → s ≡ filled) × (s ≢ cancelled)
settled left = (λ e. ground arith, λ e. ground arith, λ e. ground arith)

match_round-IsSettled :
    (side : Side) (locate seq : ℕ) (m : Matching) (i : ℕ)
    → IsSettled (match_round side locate seq m i).order
unfolding match_round
match_round-IsSettled side locate seq m i =
    settled
      (sub32 m.order.remaining_qty (min m.order.remaining_qty (m.book.storage i).remaining_qty))

pub match_loop-IsSettled :
    (fuel : ℕ) (side : Side) (locate seq : ℕ) (m : Matching)
    → IsSettled m.order
    → IsSettled (match_loop fuel side locate seq m).order
unfolding match_loop
match_loop-IsSettled zero side locate seq m h = h
match_loop-IsSettled (suc fuel) side locate seq m h =
    elim (Bool-cases (m.order.remaining_qty == 0)) [
      | inl done ↦ rw (done, match_loop) h
      | inr more ↦ elim (Option-cases (best_for side m.book m.order.user_id)) [
        | inl e ↦ rw (more, e, match_loop) h
        | inr (i, e) ↦ elim (Bool-cases (refuses side m.order.price (m.book.storage i).price)) [
          | inl no_deal ↦ rw (more, e, no_deal, match_loop) h
          | inr deal ↦
              rw (more, e, deal, match_loop)
                (match_loop-IsSettled fuel side locate seq (match_round side locate seq m i)
                  (match_round-IsSettled side locate seq m i))
        ]
      ]
    ]
