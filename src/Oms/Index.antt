-- ===== src/Oms/Index.antt =====
-- The indices of live orders by symbol and by strategy (src/oms/order_manager.h) agree with the
-- entries.
use nebula_x_simulator.Prelude.{
  ℕ, ◌≡◌, refl, sym, inl, inr, Bool, true, false, Option, none, some, List, [], ◌∷◌, arith, ◌&&◌,
  ◌==◌, leb, not, if◌then◌else◌, Option-cases, Bool-cases, add64, ◌∙◌,
}
use nebula_x_simulator.Prelude.Int.{ℤ}
use nebula_x_simulator.Core.{Order, lookup, has}
use nebula_x_simulator.Core.Maps.{lookup-put, has-add_id, has-erase_id}
use nebula_x_simulator.Oms.{
  OrderManager, Entry, OrderStatus, new_order, on_accept, on_fill, fill_entry, request_cancel,
  on_cancel, on_reject, is_active, is_pending, is_pending_cancel, retire, write, first_entry,
}
use nebula_x_simulator.Oms.Reports.{
  Report, accept, fill, ask_cancel, cancel, reject, apply, apply_all,
}

-- Not in a final state.
abbrev pub is_live : OrderStatus → Bool
is_live OrderStatus.filled = false
is_live OrderStatus.cancelled = false
is_live OrderStatus.rejected = false
is_live _ = true

-- Whether an order belongs in the index at the key `k`.
abbrev pub belongs : (Order → ℕ) → ℕ → Option Entry → Bool
belongs key k none = false
belongs key k (some e) = key e.order == k && is_live e.status

abbrev by_symbol : Order → ℕ
by_symbol o = o.symbol_id

abbrev by_strategy : Order → ℕ
by_strategy o = o.strategy_id

-- Both indices hold exactly the live orders, each under its key.
pub record IsIndexed (m : OrderManager) : Type 0 where
  pub symbols : (k id : ℕ) → has (m.sym_orders k) id ≡ belongs by_symbol k (lookup id m.orders)
  pub strategies :
      (k id : ℕ) → has (m.strat_orders k) id ≡ belongs by_strategy k (lookup id m.orders)

write-IsIndexed :
    (m : OrderManager) (id : ℕ) (e e' : Entry)
    → lookup id m.orders ≡ some e
    → e'.order ≡ e.order
    → is_live e.status ≡ is_live e'.status
    → IsIndexed m
    → IsIndexed (write m id e')
write-IsIndexed m id e e' found same live v = record {
  symbols = λ k j. ground (
    arith,
    v.symbols k j,
    lookup-put j id (record e' { update_time = add64 m.counter 1 }) m.orders,
  );
  strategies = λ k j. ground (
    arith,
    v.strategies k j,
    lookup-put j id (record e' { update_time = add64 m.counter 1 }) m.orders,
  );
}

retire-IsIndexed :
    (m : OrderManager) (id : ℕ) (e e' : Entry)
    → lookup id m.orders ≡ some e
    → e'.order ≡ e.order
    → is_live e'.status ≡ false
    → IsIndexed m
    → IsIndexed (retire (write m id e') id e.order)
retire-IsIndexed m id e e' found same dead v = record {
  symbols = λ k j. ground (
    arith,
    v.symbols k j,
    has-erase_id j id (m.sym_orders k),
    lookup-put j id (record e' { update_time = add64 m.counter 1 }) m.orders,
  );
  strategies = λ k j. ground (
    arith,
    v.strategies k j,
    has-erase_id j id (m.strat_orders k),
    lookup-put j id (record e' { update_time = add64 m.counter 1 }) m.orders,
  );
}

on_accept-IsIndexed : (m : OrderManager) (id ref : ℕ) → IsIndexed m → IsIndexed (on_accept m id ref)
unfolding on_accept
on_accept-IsIndexed m id ref v = elim (Option-cases (lookup id m.orders)) [
  | inl e ↦ rw (e, on_accept) v
  | inr (e, found) ↦ elim (Bool-cases (is_pending e.status)) [
    | inl h ↦
        rw (found, h, on_accept)
          (write-IsIndexed m id e (record e { status = OrderStatus.submitted; exchange_ref = ref })
            found refl (ground arith) v)
    | inr h ↦ rw (found, h, on_accept) v
  ]
]

request_cancel-IsIndexed :
    (m : OrderManager) (id : ℕ) → IsIndexed m → IsIndexed (request_cancel m id).0
unfolding request_cancel
request_cancel-IsIndexed m id v = elim (Option-cases (lookup id m.orders)) [
  | inl e ↦ rw (e, request_cancel) v
  | inr (e, found) ↦ elim (Bool-cases (is_active e.status)) [
    | inl h ↦
        rw (found, h, request_cancel)
          (write-IsIndexed m id e (record e { status = OrderStatus.pending_cancel }) found refl
            (ground arith) v)
    | inr h ↦ rw (found, h, request_cancel) v
  ]
]

on_cancel-IsIndexed : (m : OrderManager) (id : ℕ) → IsIndexed m → IsIndexed (on_cancel m id).0
unfolding on_cancel
on_cancel-IsIndexed m id v = elim (Option-cases (lookup id m.orders)) [
  | inl e ↦ rw (e, on_cancel) v
  | inr (e, found) ↦ elim (Bool-cases (is_pending_cancel e.status)) [
    | inl h ↦
        rw (found, h, on_cancel)
          (retire-IsIndexed m id e (record e { status = OrderStatus.cancelled }) found refl refl v)
    | inr h ↦ rw (found, h, on_cancel) v
  ]
]

on_reject-IsIndexed : (m : OrderManager) (id : ℕ) → IsIndexed m → IsIndexed (on_reject m id)
unfolding on_reject
on_reject-IsIndexed m id v = elim (Option-cases (lookup id m.orders)) [
  | inl e ↦ rw (e, on_reject) v
  | inr (e, found) ↦ elim (Bool-cases (is_pending e.status)) [
    | inl h ↦
        rw (found, h, on_reject)
          (retire-IsIndexed m id e (record e { status = OrderStatus.rejected }) found refl refl v)
    | inr h ↦ rw (found, h, on_reject) v
  ]
]

-- A fill ends an order in `FILLED` exactly where its quantity is reached.
fill_entry-is_live :
    (e : Entry) (qty : ℕ) (price : ℤ) {b : Bool}
    → leb e.order.quantity (fill_entry e qty price).filled ≡ b
    → is_live (fill_entry e qty price).status ≡ not b
unfolding fill_entry
fill_entry-is_live e qty price h = ground arith

fill_entry-order : (e : Entry) (qty : ℕ) (price : ℤ) → (fill_entry e qty price).order ≡ e.order
unfolding fill_entry
fill_entry-order e qty price = refl

active_live : (s : OrderStatus) → is_active s ≡ true → is_live s ≡ true
active_live s h = ground arith

if-IsIndexed :
    (b : Bool) (m n : OrderManager)
    → (b ≡ true → IsIndexed m)
    → (b ≡ false → IsIndexed n)
    → IsIndexed (if b then m else n)
if-IsIndexed true m n h k = h refl
if-IsIndexed false m n h k = k refl

on_fill-IsIndexed :
    (m : OrderManager) (id qty : ℕ) (price : ℤ) → IsIndexed m → IsIndexed (on_fill m id qty price)
unfolding on_fill
on_fill-IsIndexed m id qty price v = elim (Option-cases (lookup id m.orders)) [
  | inl e ↦ rw (e, on_fill) v
  | inr (e, found) ↦ elim (Bool-cases (is_active e.status)) [
    | inr h ↦ rw (found, h, on_fill) v
    | inl h ↦
        let e' = fill_entry e qty price in
        let same = fill_entry-order e qty price in
        rw (found, h, on_fill)
          (if-IsIndexed (leb e.order.quantity e'.filled) _ _
            (λ full. retire-IsIndexed m id e e' found same (fill_entry-is_live e qty price full) v)
            λ part.
              write-IsIndexed m id e e' found same
                (active_live e.status h ∙ sym (fill_entry-is_live e qty price part)) v)
  ]
]

apply-IsIndexed : (m : OrderManager) (r : Report) → IsIndexed m → IsIndexed (apply m r)
unfolding apply
apply-IsIndexed m (accept id ref) v = on_accept-IsIndexed m id ref v
apply-IsIndexed m (fill id qty price) v = on_fill-IsIndexed m id qty price v
apply-IsIndexed m (ask_cancel id) v = request_cancel-IsIndexed m id v
apply-IsIndexed m (cancel id) v = on_cancel-IsIndexed m id v
apply-IsIndexed m (reject id) v = on_reject-IsIndexed m id v

-- Over any sequence of reports the two indices hold exactly the orders that are not in a final
-- state, each under its own symbol and its own strategy.
pub apply_all-IsIndexed :
    (m : OrderManager) (rs : List Report) → IsIndexed m → IsIndexed (apply_all m rs)
unfolding apply_all
apply_all-IsIndexed m [] v = v
apply_all-IsIndexed m (r ∷ rs) v = apply_all-IsIndexed (apply m r) rs (apply-IsIndexed m r v)

-- A new order under a number that is not in use enters both indices, and no other changes there.
pub new_order-IsIndexed :
    (m : OrderManager) (o : Order)
    → lookup m.next_id m.orders ≡ none
    → IsIndexed m
    → IsIndexed (new_order m o).0
unfolding new_order
new_order-IsIndexed m o unused v = record {
  symbols = λ k j. ground (
    arith,
    v.symbols k j,
    has-add_id j m.next_id (m.sym_orders k),
    lookup-put j m.next_id (first_entry (record o { order_id = m.next_id })) m.orders,
  );
  strategies = λ k j. ground (
    arith,
    v.strategies k j,
    has-add_id j m.next_id (m.strat_orders k),
    lookup-put j m.next_id (first_entry (record o { order_id = m.next_id })) m.orders,
  );
}
