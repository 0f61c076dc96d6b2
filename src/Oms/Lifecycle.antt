-- ===== src/Oms/Lifecycle.antt =====
-- Every report moves an order along the diagram at the head of src/oms/order_manager.h.
use nebula_x_simulator.Prelude.{
  ℕ, ◌≡◌, refl, sym, ap, subst, ◌∙◌, inl, inr, some, List, [], ◌∷◌, arith,
}
use nebula_x_simulator.Core.{lookup, put}
use nebula_x_simulator.Core.Maps.{lookup-put}
use nebula_x_simulator.Oms.{OrderManager, Entry, OrderStatus, status}
use nebula_x_simulator.Oms.Diagram.{
  ◌⟶◌, ◌⟶*◌, here, then_on, Moves, accepted, refused, first_part, next_part, all_at_once, last_part,
  withdraw, withdraw_rest, withdrawn,
}
use nebula_x_simulator.Oms.Steps.{EntryStep, Effect, apply-Effect}
use nebula_x_simulator.Oms.Reports.{Report, apply, apply_all}

write-Moves :
    (m m' : OrderManager) (id j : ℕ) (e e' : Entry)
    → lookup id m.orders ≡ some e
    → EntryStep e e'
    → m'.orders ≡ put id e' m.orders
    → Moves (status m j) (status m' j)
unfolding status
write-Moves m m' id j e e' found step w = ground (arith, lookup-put j id e' m.orders, step.edge)

Effect-Moves : (m m' : OrderManager) (j : ℕ) → Effect m m' → Moves (status m j) (status m' j)
Effect-Moves m m' j (inl h) = inl (ap (λ k. status k j) (sym h))
Effect-Moves m m' j (inr (id, e, e', found, step, w)) = write-Moves m m' id j e e' found step w

-- A report leaves each order's state as it is or moves it along one edge of the diagram, from an
-- unknown order on: no report makes up an order.
pub apply-Moves :
    (m : OrderManager) (r : Report) (j : ℕ) → Moves (status m j) (status (apply m r) j)
apply-Moves m r j = Effect-Moves m (apply m r) j (apply-Effect m r)

extend : {s t u : OrderStatus} → s ⟶* t → Moves t u → s ⟶* u
extend {s} w (inl e) = subst (λ x. s ⟶* x) e w
extend w (inr e) = then_on w e

apply_all_from :
    (s : OrderStatus) (m : OrderManager) (rs : List Report) (j : ℕ)
    → s ⟶* status m j
    → s ⟶* status (apply_all m rs) j
unfolding apply_all
apply_all_from s m [] j w = w
apply_all_from s m (r ∷ rs) j w = apply_all_from s (apply m r) rs j (extend w (apply-Moves m r j))

-- Over any sequence of reports each order's state follows a path of the diagram.
pub apply_all-⟶* :
    (m : OrderManager) (rs : List Report) (j : ℕ) → status m j ⟶* status (apply_all m rs) j
apply_all-⟶* m rs j = apply_all_from (status m j) m rs j here

-- The states that `order.h` marks as final, and the answer for an unknown order.
pub data IsFinal : OrderStatus → Type 0 where
  is_filled : IsFinal OrderStatus.filled
  is_cancelled : IsFinal OrderStatus.cancelled
  is_rejected : IsFinal OrderStatus.rejected
  is_unknown : IsFinal OrderStatus.not_found

⟶-not_final : {s t : OrderStatus} → s ⟶ t → IsFinal s → ⊥
⟶-not_final accepted f = elim f [ ]
⟶-not_final refused f = elim f [ ]
⟶-not_final first_part f = elim f [ ]
⟶-not_final next_part f = elim f [ ]
⟶-not_final all_at_once f = elim f [ ]
⟶-not_final last_part f = elim f [ ]
⟶-not_final withdraw f = elim f [ ]
⟶-not_final withdraw_rest f = elim f [ ]
⟶-not_final withdrawn f = elim f [ ]

final_stays : {s t : OrderStatus} → Moves s t → IsFinal s → t ≡ s
final_stays (inl e) f = sym e
final_stays (inr e) f = absurd (⟶-not_final e f)

-- A final state is kept through any further reports, and so is the absence of an order.
pub apply_all_final :
    (m : OrderManager) (rs : List Report) (j : ℕ)
    → IsFinal (status m j)
    → status (apply_all m rs) j ≡ status m j
unfolding apply_all
apply_all_final m [] j f = refl
apply_all_final m (r ∷ rs) j f =
    let same = final_stays (apply-Moves m r j) f in
    apply_all_final (apply m r) rs j (subst IsFinal (sym same) f) ∙ same
