-- ===== src/Oms/Steps.antt =====
-- What one report does to the entries: nothing, or a step of one entry.
use nebula_x_simulator.Prelude.{
  ℕ, ◌+◌, ◌<◌, ◌≡◌, refl, ◌⊎◌, inl, inr, some, arith, u64_mod, Option-cases, Bool-cases, Bool, true,
  false, add64, if◌then◌else◌,
}
use nebula_x_simulator.Prelude.Int.{ℤ}
use nebula_x_simulator.Core.{lookup, put}
use nebula_x_simulator.Oms.{
  OrderManager, Entry, OrderStatus, on_accept, on_fill, fill_entry, request_cancel, on_cancel,
  on_reject, is_pending, is_active, is_pending_cancel,
}
use nebula_x_simulator.Oms.Diagram.{◌⟶◌, edges}
use nebula_x_simulator.Oms.Reports.{Report, accept, fill, ask_cancel, cancel, reject, apply}

-- The quantities of an entry fit its order and its state.
pub record IsValid (e : Entry) : Type 0 where
  pub fits : e.order.quantity < u64_mod
  pub balance : e.filled + e.remaining ≡ e.order.quantity
  pub full : e.status ≡ OrderStatus.filled → e.filled ≡ e.order.quantity
  pub part : e.status ≡ OrderStatus.partial_fill → e.filled < e.order.quantity
  pub waiting : e.status ≡ OrderStatus.pending → e.filled ≡ 0
  pub accepted : e.status ≡ OrderStatus.submitted → e.filled ≡ 0
  pub refused : e.status ≡ OrderStatus.rejected → e.filled ≡ 0

pub record EntryStep (e e' : Entry) : Type 0 where
  pub edge : e.status ⟶ e'.status
  pub same : e'.order ≡ e.order
  pub keeps : IsValid e → IsValid e'

-- The effect of a report on the entries.
abbrev pub Effect : OrderManager → OrderManager → Type 0
Effect m m' =
    (m' ≡ m)
    ⊎ ((id : ℕ) × (e e' : Entry) × (lookup id m.orders ≡ some e)
        × EntryStep e e'
        × (m'.orders ≡ put id e' m.orders))

accept_step :
    (e : Entry) (ref t : ℕ)
    → is_pending e.status ≡ true
    → EntryStep e (record e { status = OrderStatus.submitted; exchange_ref = ref; update_time = t })
accept_step e ref t h = record {
  edge = grind (arith, edges);
  same = refl;
  keeps = λ v. ground arith;
}

reject_step :
    (e : Entry) (t : ℕ)
    → is_pending e.status ≡ true
    → EntryStep e (record e { status = OrderStatus.rejected; update_time = t })
reject_step e t h = record { edge = grind (arith, edges); same = refl; keeps = λ v. ground arith }

ask_cancel_step :
    (e : Entry) (t : ℕ)
    → is_active e.status ≡ true
    → EntryStep e (record e { status = OrderStatus.pending_cancel; update_time = t })
ask_cancel_step e t h = record {
  edge = grind (arith, edges);
  same = refl;
  keeps = λ v. ground arith;
}

cancel_step :
    (e : Entry) (t : ℕ)
    → is_pending_cancel e.status ≡ true
    → EntryStep e (record e { status = OrderStatus.cancelled; update_time = t })
cancel_step e t h = record { edge = grind (arith, edges); same = refl; keeps = λ v. ground arith }

fill_step :
    (e : Entry) (qty : ℕ) (price : ℤ) (t : ℕ)
    → is_active e.status ≡ true
    → EntryStep e (record (fill_entry e qty price) { update_time = t })
unfolding fill_entry
fill_step e qty price t h = record {
  edge = grind (arith, edges);
  same = refl;
  keeps = λ v. ground arith;
}

on_accept-Effect : (m : OrderManager) (id ref : ℕ) → Effect m (on_accept m id ref)
unfolding on_accept
on_accept-Effect m id ref = elim (Option-cases (lookup id m.orders)) [
  | inl e ↦ rw (e, on_accept) (inl refl)
  | inr (e, found) ↦ elim (Bool-cases (is_pending e.status)) [
    | inl h ↦
        rw (found, h, on_accept)
          (inr (id, e, _, found, accept_step e ref (add64 m.counter 1) h, refl))
    | inr h ↦ rw (found, h, on_accept) (inl refl)
  ]
]

on_reject-Effect : (m : OrderManager) (id : ℕ) → Effect m (on_reject m id)
unfolding on_reject
on_reject-Effect m id = elim (Option-cases (lookup id m.orders)) [
  | inl e ↦ rw (e, on_reject) (inl refl)
  | inr (e, found) ↦ elim (Bool-cases (is_pending e.status)) [
    | inl h ↦
        rw (found, h, on_reject) (inr (id, e, _, found, reject_step e (add64 m.counter 1) h, refl))
    | inr h ↦ rw (found, h, on_reject) (inl refl)
  ]
]

request_cancel-Effect : (m : OrderManager) (id : ℕ) → Effect m (request_cancel m id).0
unfolding request_cancel
request_cancel-Effect m id = elim (Option-cases (lookup id m.orders)) [
  | inl e ↦ rw (e, request_cancel) (inl refl)
  | inr (e, found) ↦ elim (Bool-cases (is_active e.status)) [
    | inl h ↦
        rw (found, h, request_cancel)
          (inr (id, e, _, found, ask_cancel_step e (add64 m.counter 1) h, refl))
    | inr h ↦ rw (found, h, request_cancel) (inl refl)
  ]
]

on_cancel-Effect : (m : OrderManager) (id : ℕ) → Effect m (on_cancel m id).0
unfolding on_cancel
on_cancel-Effect m id = elim (Option-cases (lookup id m.orders)) [
  | inl e ↦ rw (e, on_cancel) (inl refl)
  | inr (e, found) ↦ elim (Bool-cases (is_pending_cancel e.status)) [
    | inl h ↦
        rw (found, h, on_cancel) (inr (id, e, _, found, cancel_step e (add64 m.counter 1) h, refl))
    | inr h ↦ rw (found, h, on_cancel) (inl refl)
  ]
]

-- Whether or not the order leaves the indices, its entry is written.
if_orders :
    (b : Bool) (m n : OrderManager) → m.orders ≡ n.orders → (if b then m else n).orders ≡ n.orders
if_orders true m n h = h
if_orders false m n h = refl

-- The entries after a fill of an active order.
pub on_fill-orders :
    (m : OrderManager) (id qty : ℕ) (price : ℤ) (e : Entry)
    → lookup id m.orders ≡ some e
    → is_active e.status ≡ true
    → (on_fill m id qty price).orders
      ≡ put id (record (fill_entry e qty price) { update_time = add64 m.counter 1 }) m.orders
unfolding on_fill
on_fill-orders m id qty price e found h = rw (found, h, on_fill) (if_orders _ _ _ refl)

on_fill-Effect : (m : OrderManager) (id qty : ℕ) (price : ℤ) → Effect m (on_fill m id qty price)
unfolding on_fill
on_fill-Effect m id qty price = elim (Option-cases (lookup id m.orders)) [
  | inl e ↦ rw (e, on_fill) (inl refl)
  | inr (e, found) ↦ elim (Bool-cases (is_active e.status)) [
    | inl h ↦ inr (
      id,
      e,
      _,
      found,
      fill_step e qty price (add64 m.counter 1) h,
      on_fill-orders m id qty price e found h,
    )
    | inr h ↦ rw (found, h, on_fill) (inl refl)
  ]
]

pub apply-Effect : (m : OrderManager) (r : Report) → Effect m (apply m r)
unfolding apply
apply-Effect m (accept id ref) = on_accept-Effect m id ref
apply-Effect m (fill id qty price) = on_fill-Effect m id qty price
apply-Effect m (ask_cancel id) = request_cancel-Effect m id
apply-Effect m (cancel id) = on_cancel-Effect m id
apply-Effect m (reject id) = on_reject-Effect m id
