-- ===== src/Oms/Diagram.antt =====
-- The state machine of an order, as the comment at the head of src/oms/order_manager.h draws it.
use nebula_x_simulator.Prelude.{◌≡◌, ◌⊎◌}
use nebula_x_simulator.Oms.{OrderStatus}

-- The edges of the diagram.
infix 40 ◌⟶◌ ◌⟶*◌
pub data ◌⟶◌ : OrderStatus → OrderStatus → Type 0 where
  accepted : OrderStatus.pending ⟶ OrderStatus.submitted
  refused : OrderStatus.pending ⟶ OrderStatus.rejected
  first_part : OrderStatus.submitted ⟶ OrderStatus.partial_fill
  next_part : OrderStatus.partial_fill ⟶ OrderStatus.partial_fill
  all_at_once : OrderStatus.submitted ⟶ OrderStatus.filled
  last_part : OrderStatus.partial_fill ⟶ OrderStatus.filled
  withdraw : OrderStatus.submitted ⟶ OrderStatus.pending_cancel
  withdraw_rest : OrderStatus.partial_fill ⟶ OrderStatus.pending_cancel
  withdrawn : OrderStatus.pending_cancel ⟶ OrderStatus.cancelled

pub data ◌⟶*◌ (s : OrderStatus) : OrderStatus → Type 0 where
  here : s ⟶* s
  then_on : {t u : OrderStatus} → s ⟶* t → t ⟶ u → s ⟶* u

pub ruleset edges = (
  accepted, refused, first_part, next_part, all_at_once, last_part, withdraw, withdraw_rest,
  withdrawn,
)

abbrev pub Moves : OrderStatus → OrderStatus → Type 0
Moves s t = (s ≡ t) ⊎ (s ⟶ t)
