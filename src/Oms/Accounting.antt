-- ===== src/Oms/Accounting.antt =====
-- The quantities of the orders (src/oms/order_manager.h): filled and remaining shares always add up
-- to the order.
use nebula_x_simulator.Prelude.{
  ℕ, ◌+◌, ◌-◌, ◌<◌, ◌≡◌, refl, sym, ap, subst, inl, inr, some, true, List, [], ◌∷◌, arith, min,
  u64_mod, ◌==◌, ◌∙◌, Bool-cases, add64,
}
use nebula_x_simulator.Prelude.Int.{ℤ}
use nebula_x_simulator.Core.{Order, lookup, put}
use nebula_x_simulator.Core.Maps.{lookup-put}
use nebula_x_simulator.Oms.{OrderManager, Entry, new_order, on_fill, fill_entry, is_active}
use nebula_x_simulator.Oms.Steps.{IsValid, Effect, apply-Effect, on_fill-orders}
use nebula_x_simulator.Oms.Reports.{Report, apply, apply_all}

-- Every registered order's entry is valid.
abbrev pub AllValid : OrderManager → Type 0
AllValid m = (id : ℕ) (e : Entry) → lookup id m.orders ≡ some e → IsValid e

put-AllValid :
    (m m' : OrderManager) (id : ℕ) (e' : Entry)
    → AllValid m
    → IsValid e'
    → m'.orders ≡ put id e' m.orders
    → AllValid m'
put-AllValid m m' id e' v ok w j e found =
    let read = sym (ap (lookup j) w ∙ lookup-put j id e' m.orders) ∙ found in
    elim (Bool-cases (id == j)) [
      | inl h ↦ subst IsValid (ground (arith, read)) ok
      | inr h ↦ v j e (ground (arith, read))
    ]

Effect-AllValid : (m m' : OrderManager) → AllValid m → Effect m m' → AllValid m'
Effect-AllValid m m' v (inl h) = subst AllValid (sym h) v
Effect-AllValid m m' v (inr (id, e, e', found, step, w)) =
    put-AllValid m m' id e' v (step.keeps (v id e found)) w

apply-AllValid : (m : OrderManager) (r : Report) → AllValid m → AllValid (apply m r)
apply-AllValid m r v = Effect-AllValid m (apply m r) v (apply-Effect m r)

-- Any sequence of reports keeps every entry valid: filled and remaining shares add up to the order,
-- a filled order is filled to its quantity and a partly filled one is not, and an order that was
-- never accepted has no fill.
pub apply_all-AllValid :
    (m : OrderManager) (rs : List Report) → AllValid m → AllValid (apply_all m rs)
unfolding apply_all
apply_all-AllValid m [] v = v
apply_all-AllValid m (r ∷ rs) v = apply_all-AllValid (apply m r) rs (apply-AllValid m r v)

-- A registered order starts with a valid entry, and the others keep theirs.
pub new_order-AllValid :
    (m : OrderManager) (o : Order) → o.quantity < u64_mod → AllValid m → AllValid (new_order m o).0
unfolding new_order
new_order-AllValid m o h v = put-AllValid m (new_order m o).0 m.next_id _ v (ground arith) refl

-- A fill of an active order whose entry is valid, where the filled shares and the fill's add up to less
-- than 2 ^ 64, counts exactly the smaller of its shares and the shares that were still open.
pub on_fill_exact :
    (m : OrderManager) (id qty : ℕ) (price : ℤ) (e : Entry)
    → lookup id m.orders ≡ some e
    → IsValid e
    → is_active e.status ≡ true
    → e.filled + qty < u64_mod
    → (e' : Entry) × (lookup id (on_fill m id qty price).orders ≡ some e')
      × (e'.filled ≡ e.filled + min qty e.remaining)
      × (e'.remaining ≡ e.remaining - min qty e.remaining)
unfolding fill_entry
on_fill_exact m id qty price e found v active small =
    let e' : Entry = record (fill_entry e qty price) { update_time = add64 m.counter 1 } in
    (
      e',
      ap (lookup id) (on_fill-orders m id qty price e found active)
          ∙ lookup-put id id e' m.orders
          ∙ ground arith,
      ground arith,
      ground arith,
    )
