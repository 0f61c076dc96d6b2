-- ===== src/Oms/Reports.antt =====
-- The reports that drive the order manager, as the execution engine hands them over one by one.
use nebula_x_simulator.Prelude.{ℕ, List, [], ◌∷◌}
use nebula_x_simulator.Prelude.Int.{ℤ}
use nebula_x_simulator.Oms.{OrderManager, on_accept, on_fill, request_cancel, on_cancel, on_reject}

pub data Report : Type 0 where
  accept : ℕ → ℕ → Report
  fill : ℕ → ℕ → ℤ → Report
  ask_cancel cancel reject : ℕ → Report

unfoldable pub apply : OrderManager → Report → OrderManager
apply m (accept id ref) = on_accept m id ref
apply m (fill id qty price) = on_fill m id qty price
apply m (ask_cancel id) = (request_cancel m id).0
apply m (cancel id) = (on_cancel m id).0
apply m (reject id) = on_reject m id

unfoldable pub apply_all : OrderManager → List Report → OrderManager
apply_all m [] = m
apply_all m (r ∷ rs) = apply_all (apply m r) rs
