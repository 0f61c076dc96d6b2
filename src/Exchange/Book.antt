-- ===== src/Exchange/Book.antt =====
-- One order book (src/exchange/order_book.h, order_book.cpp). The pool and the index that the
-- books share stand in the record, since every operation goes through them. An `Order*` is a slot
-- number of the pool, a null pointer `none`. The index is the contract of `OrderMap` while its nodes
-- last and its chains are short: a number keeps the slots that were entered under it, the last one
-- first, a search finds that one and an erase takes it out.
pub mod Chain
pub mod Priority
pub mod Removal
pub mod Sorted
pub mod Erasure
pub mod Takeoff
pub mod Repairs
pub mod Upkeep
pub mod Arrival
pub mod Growth
pub mod Entry
pub mod Placing
use nebula_x_simulator.Prelude.{
  ℕ, zero, suc, Bool, true, false, Option, none, some, List, [], ◌∷◌, if◌then◌else◌, ltb, ◌==◌,
  update, u32_max, add32, sub32,
}
use nebula_x_simulator.Core.{newest, older}
use nebula_x_simulator.Exchange.Order.{Side, invalid, Order, is_buy}
use nebula_x_simulator.Exchange.Pool.{OrderPool, allocate, deallocate}
use nebula_x_simulator.Exchange.Levels.{
  PriceLevel, Levels, find_level, level_or_default, put_level, erase_level,
}

pub record OrderBook : Type 0 where
  pub bids : Levels
  pub asks : Levels
  pub pool : OrderPool
  pub open pool use *
  pub index : ℕ → List ℕ

pub record TopOfBook : Type 0 where
  pub bid_price : ℕ
  pub bid_volume : ℕ
  pub ask_price : ℕ
  pub ask_volume : ℕ

-- `bids_` is sorted by `std::greater`, `asks_` by `std::less`.
abbrev pub before_of : Side → ℕ → ℕ → Bool
before_of s p q = if is_buy s then ltb q p else ltb p q

-- `(side == Side::BUY) ? bids_ : asks_`
abbrev pub levels_of : OrderBook → Side → Levels
levels_of b s = if is_buy s then b.bids else b.asks

abbrev pub set_levels : OrderBook → Side → Levels → OrderBook
set_levels b s m = if is_buy s then record b { bids = m } else record b { asks = m }

abbrev pub set_storage : OrderBook → (ℕ → Order) → OrderBook
set_storage b st = record b { pool = record (b.pool) { storage = st } }

abbrev pub set_next : (ℕ → Order) → ℕ → ℕ → ℕ → Order
set_next st i n = update st i (record (st i) { next_idx = n })

abbrev pub set_prev : (ℕ → Order) → ℕ → ℕ → ℕ → Order
set_prev st i n = update st i (record (st i) { prev_idx = n })

-- The slot is taken: copy the order in and hang it at the level's tail.
unfoldable pub place : OrderBook → Order → ℕ → OrderBook
place b o idx =
    let lvl = level_or_default (find_level o.price (levels_of b o.side)) in
    let fresh = lvl.count == 0 in
    let node = record o {
      prev_idx = if fresh then u32_max else lvl.tail_idx;
      next_idx = u32_max;
    } in
    let st = update b.storage idx node in
    let lvl' : PriceLevel = record {
      head_idx = if fresh then idx else lvl.head_idx;
      tail_idx = idx;
      count = add32 lvl.count 1;
      total_qty = add32 lvl.total_qty o.remaining_qty;
    } in
    let b' = set_storage b (if fresh then st else set_next st lvl.tail_idx idx) in
    record (set_levels b' o.side (put_level (before_of o.side) o.price lvl' (levels_of b o.side))) {
      index = update b.index o.order_id (idx ∷ b.index o.order_id);
    }

unfoldable pub add_order : OrderBook → Order → OrderBook × Bool
unfolding place
add_order b o = elim o.side [
  | invalid ↦ (b, false)
  | _ ↦ elim (allocate b.pool) [
    | none ↦ (b, false)
    | some (idx, p) ↦ (place (record b { pool = p }) o idx, true)
  ]
]

-- `level.total_qty -= amount` on the order's level
abbrev pub reduce_level : OrderBook → Order → ℕ → OrderBook
reduce_level b o amount =
    let m = levels_of b o.side in
    let lvl = level_or_default (find_level o.price m) in
    set_levels b o.side (
      put_level (before_of o.side) o.price (record lvl { total_qty = sub32 lvl.total_qty amount })
        m)

unfoldable pub reduce_order_qty : OrderBook → ℕ → ℕ → OrderBook
reduce_order_qty b i amount =
    let o = b.storage i in
    let o' = record o {
      remaining_qty = sub32 o.remaining_qty amount;
      filled_qty = add32 o.filled_qty amount;
    } in
    reduce_level (set_storage b (update b.storage i o')) o amount

unfoldable pub reduce_qty_cancel : OrderBook → ℕ → ℕ → OrderBook
reduce_qty_cancel b i amount =
    let o = b.storage i in
    let o' = record o { remaining_qty = sub32 o.remaining_qty amount } in
    reduce_level (set_storage b (update b.storage i o')) o amount

-- The two writes that take slot `i` out of its level's list.
unfoldable pub unlink : (ℕ → Order) → ℕ → ℕ → Order
unlink st i =
    let st' =
      if (st i).prev_idx == u32_max then st else set_next st (st i).prev_idx (st i).next_idx in
    if (st' i).next_idx == u32_max then st' else set_prev st' (st' i).next_idx (st' i).prev_idx

unfoldable pub level_without : PriceLevel → Order → ℕ → PriceLevel
level_without lvl o i = record {
  head_idx = if lvl.head_idx == i then o.next_idx else lvl.head_idx;
  tail_idx = if lvl.tail_idx == i then o.prev_idx else lvl.tail_idx;
  count = sub32 lvl.count 1;
  total_qty = sub32 lvl.total_qty o.remaining_qty;
}

unfoldable pub detach : OrderBook → ℕ → PriceLevel → OrderBook
unfolding unlink level_without
detach b i lvl =
    let st = unlink b.storage i in
    let o = st i in
    let m = levels_of b o.side in
    let lvl' = level_without lvl o i in
    let m' =
      if lvl'.count == 0
      then erase_level o.price m
      else put_level (before_of o.side) o.price lvl' m in
    record (set_levels b o.side m') {
      index = update b.index o.order_id (older (b.index o.order_id));
      pool = deallocate (record (b.pool) { storage = st }) i;
    }

-- `removeOrder(Order*)`: an order with no level is left alone.
unfoldable pub remove_slot : OrderBook → ℕ → OrderBook
unfolding detach
remove_slot b i =
    let o = b.storage i in
    elim (find_level o.price (levels_of b o.side)) [ none ↦ b | some lvl ↦ detach b i lvl ]

-- `removeOrder(order_id, user_id)`
unfoldable pub remove_order : OrderBook → ℕ → ℕ → OrderBook × Bool
remove_order b order_id user_id = elim (newest (b.index order_id)) [
  | none ↦ (b, false)
  | some i ↦ if (b.storage i).user_id == user_id then (remove_slot b i, true) else (b, false)
]

-- The inner `while` of `getBestBid` and `getBestAsk`: the first order of a level's list that is
-- not of the user. The fuel is the pool's capacity, which no list exceeds.
unfoldable pub first_other : (ℕ → Order) → ℕ → ℕ → ℕ → Option ℕ
first_other st zero idx user = none
first_other st (suc f) idx user =
    let rest = first_other st f (st idx).next_idx user in
    if idx == u32_max then none else if (st idx).user_id == user then rest else some idx

-- The `for` over the levels, best price first.
unfoldable pub first_in_levels : (ℕ → Order) → ℕ → ℕ → Levels → Option ℕ
unfolding first_other
first_in_levels st f user [] = none
first_in_levels st f user ((p, lvl) ∷ m) =
    let rest = first_in_levels st f user m in
    elim (first_other st f lvl.head_idx user) [ none ↦ rest | some i ↦ some i ]

abbrev pub front : Levels → Option ℕ
front [] = none
front ((p, lvl) ∷ m) = if lvl.count == 0 then none else some lvl.head_idx

abbrev pub best_in : OrderBook → Levels → ℕ → Option ℕ
best_in b m user = if user == 0 then front m else first_in_levels b.storage b.capacity user m

unfoldable pub get_best_bid : OrderBook → ℕ → Option ℕ
get_best_bid b user = best_in b b.bids user

unfoldable pub get_best_ask : OrderBook → ℕ → Option ℕ
get_best_ask b user = best_in b b.asks user

-- The inner `while` of `availableQty`.
unfoldable pub list_qty : (ℕ → Order) → ℕ → ℕ → ℕ → ℕ
list_qty st zero idx total = total
list_qty st (suc f) idx total =
    let rest = list_qty st f (st idx).next_idx (add32 total (st idx).remaining_qty) in
    if idx == u32_max then total else rest

-- The `for` over the opposite levels, which stops at the first price beyond the limit.
unfoldable pub levels_qty : (ℕ → Order) → ℕ → (ℕ → Bool) → Levels → ℕ → ℕ
levels_qty st f beyond [] total = total
levels_qty st f beyond ((p, lvl) ∷ m) total =
    let rest = levels_qty st f beyond m (list_qty st f lvl.head_idx total) in
    if beyond p then total else rest

unfoldable pub available_qty : OrderBook → Side → ℕ → ℕ
unfolding list_qty levels_qty
available_qty b s price =
    if is_buy s
    then levels_qty b.storage b.capacity (λ p. ltb price p) b.asks 0
    else levels_qty b.storage b.capacity (λ p. ltb p price) b.bids 0

abbrev pub top_price : Levels → ℕ
top_price [] = 0
top_price ((p, lvl) ∷ m) = p

abbrev pub top_volume : Levels → ℕ
top_volume [] = 0
top_volume ((p, lvl) ∷ m) = lvl.total_qty

unfoldable pub get_top_of_book : OrderBook → TopOfBook
get_top_of_book b = record {
  bid_price = top_price b.bids;
  bid_volume = top_volume b.bids;
  ask_price = top_price b.asks;
  ask_volume = top_volume b.asks;
}

unfoldable pub find_order : OrderBook → ℕ → Option ℕ
find_order b order_id = newest (b.index order_id)
