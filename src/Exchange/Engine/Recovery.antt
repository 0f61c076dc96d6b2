-- ===== src/Exchange/Engine/Recovery.antt =====
-- Recovery (src/exchange/matching_engine.cpp): replay of the write-ahead log, the reload of a shared
-- pool, and snapshots.
use nebula_x_simulator.Prelude.{
  ℕ, zero, suc, ◌+◌, Bool, true, false, none, some, List, [], ◌∷◌, not, if◌then◌else◌, ltb, leb,
  ◌==◌, u32_max, add64, sub32, update,
}
use nebula_x_simulator.Exchange.Order.{buy, sell, Order, opened, filled, cancelled, default_order}
use nebula_x_simulator.Exchange.Pool.{init_free_list}
use nebula_x_simulator.Exchange.Book.{
  OrderBook, add_order, remove_order, remove_slot, reduce_order_qty, find_order, set_storage,
}
use nebula_x_simulator.Exchange.Journal.{WalEntry}
use nebula_x_simulator.Exchange.Engine.{Engine, store_book, load_book, book_for, after_matching}
use nebula_x_simulator.Exchange.Engine.Requests.{match_order, note_pool}

abbrev pub replayed_order : WalEntry → Order
replayed_order w = record default_order {
  user_id = w.user_id;
  order_id = w.order_id;
  side = if w.side == 1 then buy else sell;
  price = w.price;
  original_qty = w.quantity;
  remaining_qty = w.quantity;
  sequence = w.wal_seq;
  status = opened;
}

-- `type == 0x01`, for an order that the book does not have: it is matched, and what is left rests.
unfoldable pub replay_new : Engine → ℕ → OrderBook → Order → Engine
replay_new e locate b o =
    let m = match_order e locate b o [] in
    let e1 = after_matching e o.side locate m in
    elim m.order.status [
      | filled ↦ e1
      | cancelled ↦ e1
      | _ ↦ store_book e1 locate (add_order m.book m.order).0
    ]

-- `type == 0x03`
unfoldable pub replay_reduce : OrderBook → WalEntry → OrderBook
unfolding find_order
replay_reduce b w = elim (find_order b w.order_id) [
  | none ↦ b
  | some i ↦
      let o = b.storage i in
      let o' = record o { remaining_qty = sub32 o.remaining_qty w.quantity } in
      if not (ltb 0 w.quantity)
      then b
      else if leb o.remaining_qty w.quantity
      then remove_slot b i
      else reduce_order_qty (set_storage b (update b.storage i o')) i w.quantity
]

-- `type == 0x04`
unfoldable pub replay_replace : OrderBook → WalEntry → OrderBook
unfolding find_order
replay_replace b w = elim (find_order b w.order_id) [
  | none ↦ b
  | some i ↦ if (b.storage i).user_id == w.user_id then remove_slot b i else b
]

-- The counters move past the entry.
abbrev pub catch_up : ℕ → ℕ → Engine → Engine
catch_up sequence order_id e = record e {
  next_sequence = if leb e.next_sequence sequence then add64 sequence 1 else e.next_sequence;
  next_order_id = if leb e.next_order_id order_id then add64 order_id 1 else e.next_order_id;
}

-- The body of the loop of `recoverFromWal`. A known order's entry is skipped, counters and all.
unfoldable pub replay_entry : Engine → WalEntry → Engine
unfolding replay_new replay_reduce replay_replace find_order
replay_entry e w = elim (book_for e w.locate) [
  | none ↦ e
  | some (e1, b) ↦
      if w.type == 1
      then elim (find_order b w.order_id) [
        | some i ↦ e1
        | none ↦ catch_up w.wal_seq w.order_id (replay_new e1 w.locate b (replayed_order w))
      ]
      else catch_up w.wal_seq w.order_id (
          if w.type == 2
          then store_book e1 w.locate (remove_order b w.order_id w.user_id).0
          else if w.type == 3
          then store_book e1 w.locate (replay_reduce b w)
          else if w.type == 4
          then store_book e1 w.locate (replay_replace b w)
          else e1)
]

-- The loop, over the entries that the reader counts.
unfoldable pub replay_entries : Engine → List WalEntry → Engine
replay_entries e [] = e
replay_entries e (w ∷ ws) = replay_entries (replay_entry e w) ws

unfoldable pub recover_from_wal : Engine → List WalEntry → Engine
unfolding replay_entries
recover_from_wal e ws = note_pool (replay_entries e ws)

abbrev pub is_live : Order → Bool
is_live o =
    if o.order_id == 0
    then false
    else elim o.status [ filled ↦ false | cancelled ↦ false | _ ↦ true ]

-- The body of the loop of `recoverFromShared` at slot `i` of the pool's own storage.
unfoldable pub recover_slot : Engine → ℕ → Engine
recover_slot e i =
    let o = e.pool.storage i in
    let b = (add_order (load_book e 0) (record o { prev_idx = u32_max; next_idx = u32_max })).0 in
    let o' = b.storage i in
    if is_live o then catch_up o'.sequence o'.order_id (store_book e 0 b) else e

unfoldable pub recover_slots : Engine → ℕ → ℕ → Engine
recover_slots e i zero = e
recover_slots e i (suc left) = recover_slots (recover_slot e i) (i + 1) left

unfoldable pub recover_from_shared : Engine → Engine
unfolding recover_slots
recover_from_shared e =
    let e1 = record e { pool = init_free_list e.pool } in
    note_pool (recover_slots (store_book e1 0 (load_book e1 0)) 0 e.pool.capacity)
