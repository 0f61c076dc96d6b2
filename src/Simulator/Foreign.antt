-- ===== src/Simulator/Foreign.antt =====
-- Whose orders stand in the exchange's index, before and after an immediate order of the
-- strategies (src/exchange/matching_engine.cpp, src/exchange/order_book.cpp).
use nebula_x_simulator.Prelude.{
  ℕ, zero, suc, ◌≡◌, ◌≢◌, refl, sym, ◌∙◌, some, List, [], ◌∷◌, ltb, ◌==◌, Bool-cases, Option-cases,
  inl, inr, ◌%◌, arith, min, sub32, add32, update, All, if◌then◌else◌,
}
use nebula_x_simulator.Core.{older}
use nebula_x_simulator.Exchange.Order.{
  Order, Side, buy, sell, OrderStatus, filled, partially_filled, is_buy,
}
use nebula_x_simulator.Exchange.Levels.{PriceLevel, Levels, find_level}
use nebula_x_simulator.Exchange.Pool.{deallocate, head_of}
use nebula_x_simulator.Exchange.Book.{
  OrderBook, levels_of, set_levels, unlink, detach, remove_slot, reduce_order_qty, set_storage,
}
use nebula_x_simulator.Exchange.Engine.{
  Engine, Matching, match_round, match_loop, match_buy_order, match_sell_order, best_for, refuses,
  matching_of, set_status, after_matching, sides_or_empty, load_book, book_for, max_locate,
}
use nebula_x_simulator.Exchange.Engine.Requests.{
  match_order, finish_add, execute_add, process_add, rejection, take_sequence, log, count_new,
  new_order, limit_price,
}
use nebula_x_simulator.Exchange.Journal.{WalEntry}
use nebula_x_simulator.Exchange.Protocol.{BinaryResponse, ioc}

-- Every slot that the index has is of another user.
abbrev pub IsForeign : ℕ → (ℕ → Order) → (ℕ → List ℕ) → Type 0
IsForeign user st index = (id : ℕ) → All (λ i. (st i).user_id ≢ user) (index id)

-- Such a state of a book, and of a later one.
abbrev SameUsers : (ℕ → Order) → (ℕ → Order) → Type 0
SameUsers st st' = (i : ℕ) → (st' i).user_id ≡ (st i).user_id

update-SameUsers :
    (st : ℕ → Order) (i : ℕ) (o : Order) → o.user_id ≡ (st i).user_id → SameUsers st (update st i o)
update-SameUsers st i o h z = ground (arith, h)

All-users :
    (user : ℕ) (st st' : ℕ → Order) (is : List ℕ)
    → SameUsers st st'
    → All (λ i. (st i).user_id ≢ user) is
    → All (λ i. (st' i).user_id ≢ user) is
All-users user st st' [] same a = tt
All-users user st st' (i ∷ is) same (h, a) =
    ((λ e. h (sym (same i) ∙ e)), All-users user st st' is same a)

All-older : (P : ℕ → Type 0) (is : List ℕ) → All P is → All P (older is)
All-older P [] a = tt
All-older P (i ∷ is) (h, a) = a

unlink-SameUsers : (st : ℕ → Order) (i : ℕ) → SameUsers st (unlink st i)
unfolding unlink
unlink-SameUsers st i z = ground arith

-- The index after an erase of one number.
older-IsForeign :
    (user : ℕ) (st : ℕ → Order) (index : ℕ → List ℕ) (k : ℕ)
    → IsForeign user st index
    → IsForeign user st (update index k (older (index k)))
older-IsForeign user st index k h id = elim (Bool-cases (k == id)) [
  | inl e ↦ rw e (All-older (λ i. (st i).user_id ≢ user) (index k) (h k))
  | inr e ↦ rw e (h id)
]

abbrev pub Foreign : ℕ → OrderBook → Type 0
Foreign user b = IsForeign user b.storage b.index

set_levels-Foreign :
    (user : ℕ) (b : OrderBook) (s : Side) (m : Levels)
    → Foreign user b
    → Foreign user (set_levels b s m)
set_levels-Foreign user b s m h = elim (Bool-cases (is_buy s)) [ inl k ↦ rw k h | inr k ↦ rw k h ]

-- A write that leaves the slot its user.
write-Foreign :
    (user : ℕ) (st : ℕ → Order) (index : ℕ → List ℕ) (i : ℕ) (o : Order)
    → o.user_id ≡ (st i).user_id
    → IsForeign user st index
    → IsForeign user (update st i o) index
write-Foreign user st index i o same h id =
    All-users user st (update st i o) (index id) (update-SameUsers st i o same) (h id)

reduce_order_qty-Foreign :
    (user : ℕ) (b : OrderBook) (i amount : ℕ)
    → Foreign user b
    → Foreign user (reduce_order_qty b i amount)
unfolding reduce_order_qty
reduce_order_qty-Foreign user b i amount h =
    let o = b.storage i in
    let o' = record o {
      remaining_qty = sub32 o.remaining_qty amount;
      filled_qty = add32 o.filled_qty amount;
    } in
    set_levels-Foreign user (set_storage b (update b.storage i o')) o.side _
      (write-Foreign user b.storage b.index i o' refl h)

detach-Foreign :
    (user : ℕ) (b : OrderBook) (i : ℕ) (lvl : PriceLevel)
    → Foreign user b
    → Foreign user (detach b i lvl)
unfolding detach deallocate
detach-Foreign user b i lvl h =
    let st = unlink b.storage i in
    let index = update b.index (st i).order_id (older (b.index (st i).order_id)) in
    write-Foreign user st index i (record (st i) { pool_next_free = head_of b.free_head }) refl
      (older-IsForeign user st b.index (st i).order_id
        (λ k. All-users user b.storage st (b.index k) (unlink-SameUsers b.storage i) (h k)))

remove_slot-Foreign :
    (user : ℕ) (b : OrderBook) (i : ℕ) → Foreign user b → Foreign user (remove_slot b i)
unfolding remove_slot
remove_slot-Foreign user b i h =
    elim (Option-cases (find_level (b.storage i).price (levels_of b (b.storage i).side))) [
      | inl e ↦ rw (e, remove_slot) h
      | inr (lvl, e) ↦ rw (e, remove_slot) (detach-Foreign user b i lvl h)
    ]

match_round-Foreign :
    (user : ℕ) (side : Side) (locate seq : ℕ) (m : Matching) (i : ℕ)
    → Foreign user m.book
    → Foreign user (match_round side locate seq m i).book
unfolding match_round
match_round-Foreign user side locate seq m i h =
    let qty = min m.order.remaining_qty (m.book.storage i).remaining_qty in
    let b = reduce_order_qty m.book i qty in
    let v = reduce_order_qty-Foreign user m.book i qty h in
    elim (Bool-cases ((b.storage i).remaining_qty == 0)) [
      | inl done ↦
          rw (done, match_round)
            (remove_slot-Foreign user (set_status b i filled) i (
              write-Foreign user b.storage b.index i (record (b.storage i) { status = filled }) refl
                v))
      | inr more ↦
          rw (more, match_round)
            (write-Foreign user b.storage b.index i
              (record (b.storage i) { status = partially_filled }) refl v)
    ]

match_loop-Foreign :
    (fuel user : ℕ) (side : Side) (locate seq : ℕ) (m : Matching)
    → Foreign user m.book
    → Foreign user (match_loop fuel side locate seq m).book
unfolding match_loop
match_loop-Foreign zero user side locate seq m h = h
match_loop-Foreign (suc fuel) user side locate seq m h =
    elim (Bool-cases (m.order.remaining_qty == 0)) [
      | inl done ↦ rw (done, match_loop) h
      | inr more ↦ elim (Option-cases (best_for side m.book m.order.user_id)) [
        | inl e ↦ rw (more, e, match_loop) h
        | inr (i, e) ↦ elim (Bool-cases (refuses side m.order.price (m.book.storage i).price)) [
          | inl no_deal ↦ rw (more, e, no_deal, match_loop) h
          | inr deal ↦
              rw (more, e, deal, match_loop)
                (match_loop-Foreign fuel user side locate seq (match_round side locate seq m i)
                  (match_round-Foreign user side locate seq m i h))
        ]
      ]
    ]

match_order-Foreign :
    (user : ℕ) (e : Engine) (locate : ℕ) (b : OrderBook) (o : Order) (out : List BinaryResponse)
    → Foreign user b
    → Foreign user (match_order e locate b o out).book
unfolding match_buy_order match_sell_order
match_order-Foreign user e locate b o out h = elim (Bool-cases (is_buy o.side)) [
  | inl k ↦
      rw (k, match_order)
        (match_loop-Foreign (suc b.capacity) user buy locate e.next_sequence
          (matching_of e buy b o out) h)
  | inr k ↦
      rw (k, match_order)
        (match_loop-Foreign (suc b.capacity) user sell locate e.next_sequence
          (matching_of e sell b o out) h)
]

-- The engine's index and pool.
abbrev pub EngineForeign : ℕ → Engine → Type 0
EngineForeign user e = IsForeign user e.pool.storage e.index

-- An immediate order is not put on the book.
finish_ioc :
    (user : ℕ) (e : Engine) (locate : ℕ) (m : Matching) (quantity : ℕ) (s : OrderStatus)
    → m.order.status ≡ s
    → EngineForeign user e
    → EngineForeign user (finish_add e locate m quantity ioc).0
unfolding finish_add
finish_ioc user e locate m quantity filled k h = rw (k, finish_add) h
finish_ioc user e locate m quantity _ k h = elim (Bool-cases (m.order.filled_qty == 0)) [
  | inl z ↦ rw (k, z, finish_add) h
  | inr z ↦ rw (k, z, finish_add) h
]

execute_add-Foreign :
    (user : ℕ) (e : Engine) (locate : ℕ) (b : OrderBook) (o : Order) (quantity : ℕ)
    (out : List BinaryResponse)
    → Foreign user b
    → EngineForeign user (execute_add e locate b o quantity ioc out).0
unfolding execute_add
execute_add-Foreign user e locate b o quantity out h =
    let e1 = take_sequence e in
    let entry : WalEntry = record {
      type = 1;
      side = if is_buy o.side then 1 else 2;
      locate = locate % 65536;
      price = o.price;
      quantity = quantity;
      user_id = o.user_id;
      order_id = o.order_id;
      wal_seq = e1.next_sequence;
    } in
    let e2 = log entry e1 in
    let m = match_order e2 locate b o out in
    finish_ioc user (after_matching e2 o.side locate m) locate m quantity m.order.status refl
      (match_order-Foreign user e2 locate b o out h)

pub process_add-Foreign :
    (user : ℕ) (e : Engine) (locate ref : ℕ) (side : Side) (price quantity by : ℕ)
    (out : List BinaryResponse)
    → EngineForeign user e
    → EngineForeign user (process_add e locate ref side price quantity by out ioc).0
unfolding process_add book_for
process_add-Foreign user e locate ref side price quantity by out h =
    elim (Bool-cases (ltb locate max_locate)) [
      | inr k ↦ rw (k, process_add) h
      | inl k ↦
          elim (Option-cases (rejection (load_book e locate) ref side price quantity by ioc)) [
            | inr (code, r) ↦ rw (k, r, process_add) h
            | inl r ↦
                let e1 = record (count_new e) {
                  books = update e.books locate (some (sides_or_empty (e.books locate)));
                } in
                let o = new_order e1 ref side (limit_price ioc side price) quantity by in
                rw (k, r, process_add)
                  (execute_add-Foreign user e1 locate (load_book e locate) o quantity out h)
          ]
    ]
