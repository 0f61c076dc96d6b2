-- ===== src/Execution/Positions.antt =====
-- What a signal does to the positions, through the gate and the exchange
-- (src/execution/execution_engine.h).
use nebula_x_simulator.Prelude.{
  ℕ, ◌+◌, ◌<◌, ◌≡◌, refl, sym, subst, true, Option, none, some, List, [], ◌∷◌, Bool-cases,
  Option-cases, List-cases, inl, inr, u64_mod,
}
use nebula_x_simulator.Core.{Order, OrderType}
use nebula_x_simulator.Execution.Drives.{WhenDone, WhenDone-map}
use nebula_x_simulator.Oms.{Entry, is_active, new_order}
use nebula_x_simulator.Risk.{RiskManager, drawdown_flatten, check_order, position}
use nebula_x_simulator.Strategy.Signal.{Signal}
use nebula_x_simulator.Venue.{Shared, ExchangeOps, ExchangeLaws, strategy_user_id}
use nebula_x_simulator.Execution.{
  Execution, take_result, set_oms, cancel_locked, flatten_order, flatten_orders,
  flatten_on_drawdown, send_order, tif_of, place_order, and_value, submit_signal, order_of,
  order_qty, no_order,
}
use nebula_x_simulator.Execution.Limits.{Moved, unmoved, take_result-Moved}

module _ {X : Type 0} (ops : ExchangeOps X) where
  -- What the subscribers see is the same after the call, if it returns.
  abbrev SharedAs : Shared → Option (Execution X) → Type 0
  SharedAs s o = WhenDone (λ e'. e'.shared ≡ s) o

  cancel_locked-SharedAs :
      (e : Execution X) (id symbol_id : ℕ) → SharedAs e.shared (cancel_locked ops e id symbol_id)
  unfolding cancel_locked
  cancel_locked-SharedAs e id symbol_id = elim (Option-cases e.exchange) [
    | inl h ↦ rw (h, cancel_locked) refl
    | inr (x, h) ↦ elim (List-cases (ops.cancel x id symbol_id strategy_user_id).1) [
      | inl k ↦ rw (h, k, cancel_locked) refl
      | inr (r, rs, k) ↦ rw (h, k, cancel_locked) tt
    ]
  ]

  flatten_order-SharedAs :
      (e : Execution X) (o : ℕ × Entry) → SharedAs e.shared (flatten_order ops e o)
  unfolding flatten_order
  flatten_order-SharedAs e (id, entry) = elim (Bool-cases (is_active entry.status)) [
    | inl h ↦ rw (h, flatten_order) (cancel_locked-SharedAs _ id entry.order.symbol_id)
    | inr h ↦ rw (h, flatten_order) refl
  ]

  flatten_orders-SharedAs :
      (e : Execution X) (os : List (ℕ × Entry)) → SharedAs e.shared (flatten_orders ops e os)
  unfolding flatten_orders
  flatten_orders-SharedAs e [] = refl
  flatten_orders-SharedAs e (o ∷ os) = elim (Option-cases (flatten_order ops e o)) [
    | inl h ↦ rw (h, flatten_orders) tt
    | inr (e', h) ↦
        rw (h, flatten_orders)
          (subst (λ s. SharedAs s (flatten_orders ops e' os))
            (subst (SharedAs e.shared) h (flatten_order-SharedAs e o))
            (flatten_orders-SharedAs e' os))
  ]

  flatten_on_drawdown-SharedAs : (e : Execution X) → SharedAs e.shared (flatten_on_drawdown ops e)
  unfolding flatten_on_drawdown
  flatten_on_drawdown-SharedAs e = elim (Bool-cases e.flatten_issued) [
    | inl h ↦ rw (h, flatten_on_drawdown) refl
    | inr h ↦ elim (Bool-cases (drawdown_flatten e.shared.risk)) [
      | inl k ↦
          rw (h, k, flatten_on_drawdown)
            (flatten_orders-SharedAs (record e { flatten_issued = true }) e.order_manager.orders)
      | inr k ↦ rw (h, k, flatten_on_drawdown) refl
    ]
  ]

  send_order-Moved :
      ExchangeLaws ops
      → (e : Execution X) (id : ℕ) (o : Order) (x : X) → check_order e.shared.risk o ≡ true
      → position e.shared.risk o.symbol_id + o.quantity < u64_mod
      → WhenDone (λ e'. Moved e.shared.risk o e'.shared.risk) (send_order ops e id o x)
  unfolding send_order
  send_order-Moved laws e id o x ok small =
      let (x', shared, r) = ops.submit x e.shared o id (tif_of ops o.type) in
      let e1 = record e { exchange = some x'; shared = shared } in
      let e2 = take_result e1 id o r in
      WhenDone-map (λ e'. e'.shared ≡ e2.shared) (λ e'. Moved e.shared.risk o e'.shared.risk)
        (flatten_on_drawdown ops e2)
        (λ e' same.
          subst (λ s. Moved e.shared.risk o s.risk) (sym same)
            (take_result-Moved e1 id o r e.shared.risk
              (laws.keeps x e.shared o id (tif_of ops o.type)) ok small
              (laws.fits x e.shared o id (tif_of ops o.type))))
        (flatten_on_drawdown-SharedAs e2)

  and_value-Moved :
      (before : RiskManager) (o : Order) (id : ℕ) (r : Option (Execution X))
      → WhenDone (λ e'. Moved before o e'.shared.risk) r
      → WhenDone (λ a. Moved before o a.0.shared.risk) (and_value r id)
  and_value-Moved before o id none h = tt
  and_value-Moved before o id (some e) h = h

  place_order-Moved :
      ExchangeLaws ops
      → (e : Execution X) (o : Order) → position e.shared.risk o.symbol_id + o.quantity < u64_mod
      → WhenDone
          (λ a. Moved e.shared.risk (new_order e.order_manager o).1 a.0.shared.risk)
          (place_order ops e o)
  unfolding place_order new_order
  place_order-Moved laws e o small =
      let m = (new_order e.order_manager o).0 in
      let o' = (new_order e.order_manager o).1 in
      let here = unmoved e.shared.risk e.shared.risk o' (λ symbol. refl) in
      elim (Bool-cases (check_order e.shared.risk o')) [
        | inr h ↦ rw (h, place_order) here
        | inl h ↦ elim (Option-cases e.exchange) [
          | inl k ↦ rw (h, k, place_order) here
          | inr (x, k) ↦
              rw (h, k, place_order)
                (and_value-Moved e.shared.risk o' o'.order_id
                  (send_order ops (set_oms e m) o'.order_id o' x)
                  (send_order-Moved laws (set_oms e m) o'.order_id o' x h small))
        ]
      ]

  -- The order that a signal makes.
  abbrev pub signal_order : Execution X → Signal → ℕ → OrderType → Order
  signal_order e sig strategy_id type =
      (new_order e.order_manager
        (order_of sig strategy_id type (order_qty e.base_qty sig.strength))).1

  -- At an exchange that keeps its laws, and below the numbers' limit, a signal that is submitted moves
  -- the position of its symbol by some shares of its order on its side, perhaps none, and no other
  -- position. A buy stays within the position limit, and a sell takes no more than is held.
  pub submit_signal-Moved :
      (e : Execution X) (sig : Signal) (strategy_id : ℕ) (type : OrderType)
      → ExchangeLaws ops
      → position e.shared.risk sig.locate + order_qty e.base_qty sig.strength < u64_mod
      → WhenDone
          (λ a. Moved e.shared.risk (signal_order e sig strategy_id type) a.0.shared.risk)
          (submit_signal ops e sig strategy_id type)
  unfolding submit_signal
  submit_signal-Moved e sig strategy_id type laws small =
      let qty = order_qty e.base_qty sig.strength in
      elim (Bool-cases (no_order sig type qty)) [
        | inl h ↦
            rw (h, submit_signal)
              (unmoved e.shared.risk e.shared.risk (signal_order e sig strategy_id type)
                (λ symbol. refl))
        | inr h ↦
            rw (h, submit_signal)
              (place_order-Moved laws e (order_of sig strategy_id type qty) small)
      ]
