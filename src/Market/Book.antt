-- ===== src/Market/Book.antt =====
-- The market's book of one stock (src/market/book/order_book.h). Pool and index are shared by all
-- books; the index keeps the slots entered under a number, the last one first, as `OrderMap` does
-- while its nodes last and its chains are short.
use nebula_x_simulator.Prelude.{
  ℕ, ◌+◌, ◌%◌, Bool, true, false, not, Option, none, some, List, ◌∷◌, if◌then◌else◌, ltb, ◌==◌,
  update, add32, sub32, sub64, u32_max, u32_mod,
}
use nebula_x_simulator.Prelude.Int.{ℤ, negsuc}
use nebula_x_simulator.Core.{OrderSide, none_side, newest, older}
use nebula_x_simulator.Execution.{is_buy_side}
use nebula_x_simulator.Market.Pool.{
  OrderSlot, SlotPool, allocate, deallocate, write_slot, set_prev, set_next,
}
use nebula_x_simulator.Market.Table.{
  Table, PriceLevel, level_of, put_level_at, access, erase, find, best_qty, is_empty,
}

pub record MarketBook : Type 0 where
  pub bids : Table
  pub asks : Table
  pub pool : SlotPool
  pub index : ℕ → List ℕ

abbrev pub side_table : MarketBook → OrderSide → Table
side_table b side = if is_buy_side side then b.bids else b.asks

abbrev pub set_side : MarketBook → OrderSide → Table → MarketBook
set_side b side t = record b {
  bids = if is_buy_side side then t else b.bids;
  asks = if is_buy_side side then b.asks else t;
}

abbrev pub set_pool : MarketBook → SlotPool → MarketBook
set_pool b p = record b { pool = p }

-- The new order at the head of its level.
abbrev pub push_front : PriceLevel → ℕ → ℕ → PriceLevel
push_front l idx shares = record {
  head_idx = idx;
  tail_idx = if l.tail_idx == u32_max then idx else l.tail_idx;
  count = add32 l.count 1;
  total_qty = (l.total_qty + shares) % u32_mod;
}

-- `add`: the slot, or none if the pool is full.
unfoldable pub add : MarketBook → ℕ → OrderSide → ℤ → ℕ → ℕ → MarketBook × Option ℕ
add b order_ref side price shares sequence = elim (allocate b.pool) [
  | none ↦ (b, none)
  | some (idx, pool) ↦
      let (t, i) = access (side_table b side) price in
      let l = level_of (t.slots i) in
      let behind = not (l.head_idx == u32_max) in
      let s = record (pool.storage idx) {
        order_ref = order_ref;
        side = side;
        price = price;
        shares = shares;
        remaining = shares;
        sequence = sequence;
        prev_idx = u32_max;
        next_idx = if behind then l.head_idx else u32_max;
      } in
      let p1 = write_slot pool idx s in
      let p2 = if behind then set_prev p1 l.head_idx idx else p1 in
      let b' = set_side b side (put_level_at t i (push_front l idx shares)) in
      (
        record b' { pool = p2; index = update b.index order_ref (idx ∷ b.index order_ref) },
        some idx,
      )
]

-- `dec_level_qty`
unfoldable pub dec_level_qty : MarketBook → OrderSide → ℤ → ℕ → MarketBook
dec_level_qty b side price shares =
    let (t, i) = access (side_table b side) price in
    let l = level_of (t.slots i) in
    let left = sub32 l.total_qty (shares % u32_mod) in
    let t' = put_level_at t i (record l { total_qty = left }) in
    set_side b side (if left == 0 then erase t' price else t')

-- The level without the order of a slot.
abbrev pub level_less : PriceLevel → OrderSlot → PriceLevel
level_less l s = record {
  head_idx = if s.prev_idx == u32_max then s.next_idx else l.head_idx;
  tail_idx = if s.next_idx == u32_max then s.prev_idx else l.tail_idx;
  count = sub32 l.count 1;
  total_qty = sub32 l.total_qty (s.shares % u32_mod);
}

-- The neighbours of the slot point past it.
abbrev pub bypass : SlotPool → OrderSlot → SlotPool
bypass p s =
    let p1 = if s.prev_idx == u32_max then p else set_next p s.prev_idx s.next_idx in
    if s.next_idx == u32_max then p1 else set_prev p1 s.next_idx s.prev_idx

unfoldable pub unlink_and_free : MarketBook → ℕ → MarketBook
unlink_and_free b idx =
    let s = b.pool.storage idx in
    let (t, i) = access (side_table b s.side) s.price in
    let l = level_less (level_of (t.slots i)) s in
    let t' = put_level_at t i l in
    record (set_side b s.side (if l.count == 0 then erase t' s.price else t')) {
      pool = deallocate (bypass b.pool s) idx;
    }

abbrev pub forget : MarketBook → ℕ → MarketBook
forget b order_ref = record b { index = update b.index order_ref (older (b.index order_ref)) }

unfoldable pub remove : MarketBook → ℕ → MarketBook × Bool
unfolding unlink_and_free
remove b order_ref = elim (newest (b.index order_ref)) [
  | none ↦ (b, false)
  | some idx ↦ (forget (unlink_and_free b idx) order_ref, true)
]

-- The shares leave the order and its level, and an order without shares leaves the book. `cancel`
-- and `execute` are both this.
unfoldable pub reduce : MarketBook → ℕ → ℕ → MarketBook × Bool
unfolding unlink_and_free dec_level_qty
reduce b order_ref shares = elim (newest (b.index order_ref)) [
  | none ↦ (b, false)
  | some idx ↦
      let s = b.pool.storage idx in
      let taken = if ltb s.remaining shares then s.remaining else shares in
      let left = sub64 s.remaining taken in
      let b1 = set_pool b (write_slot b.pool idx (record s { remaining = left })) in
      let b2 = dec_level_qty b1 s.side s.price taken in
      (if left == 0 then forget (unlink_and_free b2 idx) order_ref else b2, true)
]

unfoldable pub cancel : MarketBook → ℕ → ℕ → MarketBook × Bool
unfolding reduce
cancel b order_ref shares = reduce b order_ref shares

unfoldable pub execute : MarketBook → ℕ → ℕ → MarketBook × Bool
unfolding reduce
execute b order_ref shares = reduce b order_ref shares

abbrev pub is_some : Option ℕ → Bool
is_some none = false
is_some (some i) = true

unfoldable pub replace : MarketBook → ℕ → ℕ → OrderSide → ℤ → ℕ → ℕ → MarketBook × Bool
unfolding remove add
replace b old_ref new_ref side price shares sequence = elim (newest (b.index old_ref)) [
  | none ↦ (b, false)
  | some idx ↦
      let seq = if sequence == 0 then (b.pool.storage idx).sequence else sequence in
      let (b', slot) = add (remove b old_ref).0 new_ref side price shares seq in (b', is_some slot)
]

-- `get`: the view of an order is its slot.
unfoldable pub get : MarketBook → ℕ → Option OrderSlot
get b order_ref = elim (newest (b.index order_ref)) [
  | none ↦ none
  | some idx ↦ some (b.pool.storage idx)
]

unfoldable pub side_of : MarketBook → ℕ → OrderSide
side_of b order_ref = elim (newest (b.index order_ref)) [
  | none ↦ none_side
  | some idx ↦ (b.pool.storage idx).side
]

unfoldable pub best_bid : MarketBook → ℤ
best_bid b = if is_empty b.bids then negsuc 0 else b.bids.best

unfoldable pub best_ask : MarketBook → ℤ
best_ask b = if is_empty b.asks then negsuc 0 else b.asks.best

unfoldable pub best_bid_volume : MarketBook → ℕ
best_bid_volume b = best_qty b.bids

unfoldable pub best_ask_volume : MarketBook → ℕ
best_ask_volume b = best_qty b.asks

abbrev pub qty_of : Option PriceLevel → ℕ
qty_of none = 0
qty_of (some l) = l.total_qty

unfoldable pub bid_volume_at : MarketBook → ℤ → ℕ
bid_volume_at b price = qty_of (find b.bids price)

unfoldable pub ask_volume_at : MarketBook → ℤ → ℕ
ask_volume_at b price = qty_of (find b.asks price)
