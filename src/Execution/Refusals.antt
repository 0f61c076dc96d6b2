-- ===== src/Execution/Refusals.antt =====
-- A signal that the risk gate refuses (src/execution/execution_engine.h).
use nebula_x_simulator.Prelude.{
  ℕ, ◌≡◌, ◌≢◌, refl, ◌∙◌, false, Option, some, if◌then◌else◌, arith, ◌==◌, List, add64,
}
use nebula_x_simulator.Core.{Order, OrderType, lookup, put}
use nebula_x_simulator.Core.Maps.{lookup-put}
use nebula_x_simulator.Oms.{
  OrderManager, OrderStatus, first_entry, new_order, on_reject, status, Entry,
}
use nebula_x_simulator.Risk.{check_order}
use nebula_x_simulator.Strategy.Signal.{Signal}
use nebula_x_simulator.Venue.{ExchangeOps}
use nebula_x_simulator.Execution.{
  Execution, submit_signal, place_order, no_order, order_of, order_qty, set_oms,
}

-- What is read at the place of a write.
read_back : (m : List (ℕ × Entry)) (id : ℕ) (e : Entry) → lookup id (put id e m) ≡ some e
read_back m id e = lookup-put id id e m ∙ same_key
  where
    same_key : (if id == id then some e else lookup id m) ≡ some e
    same_key = ground arith

-- A registered order that is refused at once.
reject_new :
    (m : OrderManager) (o : Order)
    → status (on_reject (new_order m o).0 m.next_id) m.next_id ≡ OrderStatus.rejected
unfolding on_reject new_order status
reject_new m o =
    let e = first_entry (record o { order_id = m.next_id }) in
    rw (read_back m.orders m.next_id e, on_reject)
      (rw
        (
          read_back (put m.next_id e m.orders) m.next_id
              (record e { update_time = add64 m.counter 1; status = OrderStatus.rejected }),
          status,
        )
        refl)

-- It leaves every other entry.
reject_new_others :
    (m : OrderManager) (o : Order) (j : ℕ)
    → j ≢ m.next_id
    → lookup j (on_reject (new_order m o).0 m.next_id).orders ≡ lookup j m.orders
unfolding on_reject new_order
reject_new_others m o j other =
    let e = first_entry (record o { order_id = m.next_id }) in
    let e' = record e { update_time = add64 m.counter 1; status = OrderStatus.rejected } in
    rw (read_back m.orders m.next_id e, on_reject)
      (lookup-put j m.next_id e' (put m.next_id e m.orders)
        ∙ skip e' _
        ∙ lookup-put j m.next_id e m.orders
        ∙ skip e (lookup j m.orders))
  where
    skip : (x : Entry) (y : Option Entry) → (if m.next_id == j then some x else y) ≡ y
    skip x y = ground arith

module _ {X : Type 0} (ops : ExchangeOps X) where
  -- A signal that passes the guards and that the risk gate refuses: the call returns the number of a
  -- new order, which is rejected. The exchange, the risk manager, the trade records and the entry of
  -- every other order stay.
  pub submit_signal_refused :
      (e : Execution X) (sig : Signal) (strategy_id : ℕ) (type : OrderType)
      → no_order sig type (order_qty e.base_qty sig.strength) ≡ false
      → check_order e.shared.risk
          (order_of sig strategy_id type (order_qty e.base_qty sig.strength))
        ≡ false
      → (e' : Execution X) × (submit_signal ops e sig strategy_id type
          ≡ some (e', e.order_manager.next_id))
        × (status e'.order_manager e.order_manager.next_id ≡ OrderStatus.rejected)
        × ((j : ℕ)
            → j ≢ e.order_manager.next_id
            → lookup j e'.order_manager.orders ≡ lookup j e.order_manager.orders)
        × (e'.exchange ≡ e.exchange)
        × (e'.shared ≡ e.shared)
        × (e'.trades ≡ e.trades)
  unfolding submit_signal place_order check_order new_order
  submit_signal_refused e sig strategy_id type orders refused =
      let m = e.order_manager in
      let o = order_of sig strategy_id type (order_qty e.base_qty sig.strength) in
      (
        set_oms e (on_reject (new_order m o).0 m.next_id),
        rw (orders, refused, submit_signal, place_order) refl,
        reject_new m o,
        reject_new_others m o,
        refl,
        refl,
        refl,
      )
