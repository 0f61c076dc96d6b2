-- ===== src/Exchange/Engine/Endings.antt =====
-- How the report of `processAdd` (src/exchange/matching_engine.cpp) ends, and the rest of a day order.
use nebula_x_simulator.Prelude.{
  ℕ, ◌+◌, ◌<◌, ◌≡◌, refl, sym, ap, ◌⊎◌, inl, inr, true, false, some, List, [], ◌∷◌, ◌++◌, arith,
  u32_max, Bool-cases, ◌==◌, subst,
}
use nebula_x_simulator.Exchange.Order.{Side, buy, sell, Order}
use nebula_x_simulator.Exchange.Book.{OrderBook, find_order, place, add_order}
use nebula_x_simulator.Exchange.Book.Entry.{IsEntered}
use nebula_x_simulator.Exchange.Book.Placing.{
  add_order-full, add_order-placed, IsEntered-from, taken,
}
use nebula_x_simulator.Exchange.Pool.{head_of}
use nebula_x_simulator.Exchange.Protocol.{
  BinaryResponse, rsp_ok, rsp_filled, rsp_error, OrderTif, day, ioc, fok, pool_full,
  mkt_no_liquidity, fok_no_full_fill,
}
use nebula_x_simulator.Exchange.Engine.{Engine, Matching, load_book, store_book}
use nebula_x_simulator.Exchange.Engine.Requests.{rest_order, Outcome, note_pool, count_error}

-- What was asked for.
pub record Asked : Type 0 where
  pub order_ref : ℕ
  pub side : Side
  pub price : ℕ
  pub quantity : ℕ

abbrev pub asked : Order → ℕ → Asked
asked o quantity = record {
  order_ref = o.order_id;
  side = o.side;
  price = o.price;
  quantity = quantity;
}

-- A search for the order finds a slot that holds it, with so many shares left.
pub record IsResting (b : OrderBook) (a : Asked) (left : ℕ) : Type 0 where
  slot : ℕ
  found : find_order b a.order_ref ≡ some slot
  order_id : (b.storage slot).order_id ≡ a.order_ref
  side : (b.storage slot).side ≡ a.side
  price : (b.storage slot).price ≡ a.price
  remaining : (b.storage slot).remaining_qty ≡ left

-- The pool has no free slot.
abbrev pub IsFull : OrderBook → Type 0
IsFull b = head_of b.free_head ≡ u32_max

-- How the report ends: nothing left, or what becomes of the rest in the book `b`.
pub data Ending (a : Asked) (shares : ℕ) (b : OrderBook)
    : OrderTif → List BinaryResponse → Type 0 where
  all_filled :
      (tif : OrderTif) → shares ≡ a.quantity → Ending a shares b tif (rsp_filled a.order_ref ∷ [])
  rests :
      (left : ℕ)
      → 0 < left
      → left + shares ≡ a.quantity
      → IsResting b a left
      → Ending a shares b day (rsp_ok a.order_ref ∷ [])
  no_slot : shares < a.quantity → IsFull b → Ending a shares b day (rsp_error pool_full ∷ [])
  no_trade :
      shares ≡ 0 → shares < a.quantity → Ending a shares b ioc (rsp_error mkt_no_liquidity ∷ [])
  part_dropped : 0 < shares → shares < a.quantity → Ending a shares b ioc []
  not_all : shares < a.quantity → Ending a shares b fok (rsp_error fok_no_full_fill ∷ [])

same_locate : (n : ℕ) → (n == n) ≡ true
same_locate n = ground arith

-- The book that was stored is loaded.
load-store :
    (e : Engine) (locate : ℕ) (b : OrderBook) → load_book (store_book e locate b) locate ≡ b
load-store e locate b = rw (same_locate locate) refl

-- An outcome that goes on from the matching's report and has such an ending.
abbrev pub Ends : ℕ → Matching → ℕ → OrderTif → Outcome → Type 0
Ends locate m quantity tif r =
    (rs : List BinaryResponse) × (r.1 ≡ m.out ++ rs)
    × Ending (asked m.order quantity) m.order.filled_qty (load_book r.0 locate) tif rs

resting :
    (b b' : OrderBook) (o : Order) (idx quantity : ℕ)
    → IsEntered b o idx b'
    → IsResting b' (asked o quantity) o.remaining_qty
resting b b' o idx quantity v = record {
  slot = idx;
  found = v.found;
  order_id = ap (λ x. x.order_id) v.kept;
  side = ap (λ x. x.side) v.kept;
  price = ap (λ x. x.price) v.kept;
  remaining = ap (λ x. x.remaining_qty) v.kept;
}

rest_order-ok :
    (e : Engine) (locate : ℕ) (b b' : OrderBook) (o : Order) (out : List BinaryResponse)
    → add_order b o ≡ (b', true)
    → rest_order e locate b o out
      ≡ (note_pool (store_book e locate b'), out ++ rsp_ok o.order_id ∷ [])
unfolding rest_order
rest_order-ok e locate b b' o out h = rw (h, rest_order) refl

rest_order-full :
    (e : Engine) (locate : ℕ) (b b' : OrderBook) (o : Order) (out : List BinaryResponse)
    → add_order b o ≡ (b', false)
    → rest_order e locate b o out
      ≡ (note_pool (count_error (store_book e locate b')), out ++ rsp_error pool_full ∷ [])
unfolding rest_order
rest_order-full e locate b b' o out h = rw (h, rest_order) refl

pub rest-Ends :
    (e : Engine) (locate : ℕ) (m : Matching) (quantity : ℕ)
    → (m.order.side ≡ buy) ⊎ (m.order.side ≡ sell)
    → 0 < m.order.remaining_qty
    → m.order.remaining_qty + m.order.filled_qty ≡ quantity
    → Ends locate m quantity day (rest_order e locate m.book m.order m.out)
rest-Ends e locate m quantity sided some_left sum =
    elim (Bool-cases (head_of m.book.free_head == u32_max)) [
      | inl full ↦
          let done =
            rest_order-full e locate m.book m.book m.order m.out
              (add_order-full m.book m.order sided full) in
          subst (Ends locate m quantity day) (sym done)
            (_, refl, no_slot (omega (arith, sum, some_left)) (ground (arith, full)))
      | inr more ↦
          let i = head_of m.book.free_head in
          let b' = place (record (m.book) { pool = taken m.book }) m.order i in
          let done =
            rest_order-ok e locate m.book b' m.order m.out
              (add_order-placed m.book m.order sided more) in
          let entered = IsEntered-from m.book m.order (taken m.book) i in
          subst (Ends locate m quantity day) (sym done) (
            _,
            refl,
            rests m.order.remaining_qty some_left sum (
                subst (λ b. IsResting b (asked m.order quantity) m.order.remaining_qty)
                  (sym (load-store e locate b')) (resting m.book b' m.order i quantity entered)),
          )
    ]
