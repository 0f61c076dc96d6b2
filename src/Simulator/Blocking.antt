-- ===== src/Simulator/Blocking.antt =====
-- The reports of the simulator while the execution engine holds its mutex
-- (src/exchange/exchange_simulator.cpp, src/execution/execution_engine.h).
use nebula_x_simulator.Prelude.{ℕ, ◌≡◌, refl, true, some, none, [], ◌∷◌}
use nebula_x_simulator.Prelude.Int.{pos}
use nebula_x_simulator.Core.{lookup}
use nebula_x_simulator.Exchange.Protocol.{rsp_cancelled}
use nebula_x_simulator.Exchange.Engine.Requests.{process_cancel}
use nebula_x_simulator.Oms.{Entry, is_active}
use nebula_x_simulator.Execution.{Execution, cancel_order}
use nebula_x_simulator.Execution.Flatten.{cancel_order_active}
use nebula_x_simulator.Simulator.{Simulator, simulator_ops, cancel, take_cancels}
use nebula_x_simulator.Venue.{FillType, strategy_user_id}

-- A cancel of an active order that the exchange takes off its book does not return: the exchange
-- reports it at once, and the report takes the mutex that the cancel holds.
pub cancel_order_blocks :
    (e : Execution Simulator) (s : Simulator) (id n : ℕ) (entry : Entry)
    → e.exchange ≡ some s
    → lookup id e.order_manager.orders ≡ some entry
    → is_active entry.status ≡ true
    → (process_cancel s.engine entry.order.symbol_id id strategy_user_id []).1
      ≡ rsp_cancelled n ∷ []
    → cancel_order simulator_ops e id ≡ none
unfolding simulator_ops cancel
cancel_order_blocks e s id n entry at known active done =
    (cancel_order_active simulator_ops e s id entry at known active).1
      (record {
        type = FillType.canceled;
        order_id = id;
        exchange_ref = 0;
        filled_qty = 0;
        fill_price = pos 0;
      })
      [] (rw (done, cancel, take_cancels) refl)
