-- ===== src/Oms.antt =====
-- The order manager (src/oms/order_manager.h, order.h): the life of each strategy order.
pub mod Reports
pub mod Diagram
pub mod Steps
pub mod Lifecycle
pub mod Accounting
pub mod Index
use nebula_x_simulator.Prelude.{
  ℕ, Bool, true, false, none, some, List, [], ◌∷◌, if◌then◌else◌, ltb, leb, ◌==◌, add64, sub64,
  update, suc,
}
use nebula_x_simulator.Prelude.Int.{ℤ, pos, ◌+ℤ◌, ◌*ℤ◌, div_ℤ}
use nebula_x_simulator.Core.{Order, lookup, put, add_id, erase_id}

pub data OrderStatus : Type 0 where
  pending submitted partial_fill pending_cancel filled cancelled rejected not_found : OrderStatus

pub record Entry : Type 0 where
  pub order : Order
  pub status : OrderStatus
  pub exchange_ref : ℕ
  pub filled : ℕ
  pub remaining : ℕ
  pub avg_fill_price : ℤ
  pub submit_time : ℕ
  pub update_time : ℕ

-- `counter` is the static counter of `now()`. The two indices hold the live orders by symbol and
-- by strategy.
pub record OrderManager : Type 0 where
  pub orders : List (ℕ × Entry)
  pub sym_orders : ℕ → List ℕ
  pub strat_orders : ℕ → List ℕ
  pub next_id : ℕ
  pub counter : ℕ

abbrev pub set_next_id : OrderManager → ℕ → OrderManager
set_next_id m base = record m { next_id = base }

abbrev pub insert_at : (ℕ → List ℕ) → ℕ → ℕ → ℕ → List ℕ
insert_at f k id = update f k (add_id id (f k))

abbrev pub erase_at : (ℕ → List ℕ) → ℕ → ℕ → ℕ → List ℕ
erase_at f k id = update f k (erase_id id (f k))

-- The entry of a new order, which has its number already.
abbrev pub first_entry : Order → Entry
first_entry o = record {
  order = o;
  status = OrderStatus.pending;
  exchange_ref = 0;
  filled = 0;
  remaining = o.quantity;
  avg_fill_price = pos 0;
  submit_time = o.timestamp;
  update_time = o.timestamp;
}

unfoldable pub new_order : OrderManager → Order → OrderManager × Order
new_order m o =
    let id = m.next_id in
    let o' = record o { order_id = id } in
    (
      record m {
        orders = put id (first_entry o') m.orders;
        sym_orders = insert_at m.sym_orders o.symbol_id id;
        strat_orders = insert_at m.strat_orders o.strategy_id id;
        next_id = add64 id 1;
      },
      o',
    )

-- `SUBMITTED` or `PARTIAL_FILL`: the order can be filled or cancelled.
abbrev pub is_active : OrderStatus → Bool
is_active OrderStatus.submitted = true
is_active OrderStatus.partial_fill = true
is_active _ = false

abbrev pub is_pending : OrderStatus → Bool
is_pending OrderStatus.pending = true
is_pending _ = false

abbrev pub is_pending_cancel : OrderStatus → Bool
is_pending_cancel OrderStatus.pending_cancel = true
is_pending_cancel _ = false

-- `now()`: the counter goes on, and is the time.
abbrev pub tick : OrderManager → OrderManager
tick m = record m { counter = add64 m.counter 1 }

-- The entry is written back, with the time.
abbrev pub write : OrderManager → ℕ → Entry → OrderManager
write m id e = record (tick m) {
  orders = put id (record e { update_time = add64 m.counter 1 }) m.orders;
}

-- The order is no longer live.
abbrev pub retire : OrderManager → ℕ → Order → OrderManager
retire m id o = record m {
  sym_orders = erase_at m.sym_orders o.symbol_id id;
  strat_orders = erase_at m.strat_orders o.strategy_id id;
}

unfoldable pub on_accept : OrderManager → ℕ → ℕ → OrderManager
on_accept m id ref = elim (lookup id m.orders) [
  | none ↦ m
  | some e ↦
      if is_pending e.status
      then write m id (record e { status = OrderStatus.submitted; exchange_ref = ref })
      else m
]

-- The entry after a fill of an active order: never past the order's quantity.
unfoldable pub fill_entry : Entry → ℕ → ℤ → Entry
fill_entry e filled_qty price =
    let q = e.order.quantity in
    let sum = add64 e.filled filled_qty in
    let over = ltb q sum in
    let qty = if over then sub64 q e.filled else filled_qty in
    let new_filled = if over then q else sum in
    let total_cost = e.avg_fill_price *ℤ pos e.filled +ℤ price *ℤ pos qty in
    record e {
      filled = new_filled;
      remaining = sub64 q new_filled;
      avg_fill_price = if new_filled == 0 then pos 0 else div_ℤ total_cost new_filled;
      status = if leb q new_filled then OrderStatus.filled else OrderStatus.partial_fill;
    }

unfoldable pub on_fill : OrderManager → ℕ → ℕ → ℤ → OrderManager
unfolding fill_entry
on_fill m id filled_qty price = elim (lookup id m.orders) [
  | none ↦ m
  | some e ↦
      let e' = fill_entry e filled_qty price in
      let m' = write m id e' in
      if is_active e.status
      then if leb e.order.quantity e'.filled then retire m' id e.order else m'
      else m
]

unfoldable pub request_cancel : OrderManager → ℕ → OrderManager × Bool
request_cancel m id = elim (lookup id m.orders) [
  | none ↦ (m, false)
  | some e ↦
      if is_active e.status
      then (write m id (record e { status = OrderStatus.pending_cancel }), true)
      else (m, false)
]

unfoldable pub on_cancel : OrderManager → ℕ → OrderManager × Bool
on_cancel m id = elim (lookup id m.orders) [
  | none ↦ (m, false)
  | some e ↦
      if is_pending_cancel e.status
      then (retire (write m id (record e { status = OrderStatus.cancelled })) id e.order, true)
      else (m, false)
]

unfoldable pub on_reject : OrderManager → ℕ → OrderManager
on_reject m id = elim (lookup id m.orders) [
  | none ↦ m
  | some e ↦
      if is_pending e.status
      then retire (write m id (record e { status = OrderStatus.rejected })) id e.order
      else m
]

unfoldable pub status : OrderManager → ℕ → OrderStatus
status m id = elim (lookup id m.orders) [ none ↦ OrderStatus.not_found | some e ↦ e.status ]

unfoldable pub open_orders : OrderManager → ℕ → List ℕ
open_orders m symbol_id = m.sym_orders symbol_id

unfoldable pub open_orders_by_strategy : OrderManager → ℕ → List ℕ
open_orders_by_strategy m strategy_id = m.strat_orders strategy_id

-- `order_count`, and `count_by_status` with the test for the status.
unfoldable pub count_by : (OrderStatus → Bool) → List (ℕ × Entry) → ℕ
count_by p [] = 0
count_by p ((id, e) ∷ m) = let n = count_by p m in if p e.status then suc n else n
