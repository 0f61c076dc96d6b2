-- ===== src/Samples/SimulatorTests.antt =====
-- The simulator on small inputs.
use nebula_x_simulator.Prelude.{
  Bool-cases, inl, inr, ◌==◌, arith, ◌≡◌, refl, true, false, none, some, [], ◌∷◌,
}
use nebula_x_simulator.Prelude.Int.{pos}
use nebula_x_simulator.Core.{Order, OrderType, lookup}
use nebula_x_simulator.Core
use nebula_x_simulator.Exchange.Order.{Side}
use nebula_x_simulator.Exchange.Protocol.{day}
use nebula_x_simulator.Exchange.Engine.{Engine, book_for, match_buy_order, match_loop}
use nebula_x_simulator.Exchange.Book.{remove_order, get_best_ask, first_in_levels, add_order}
use nebula_x_simulator.Exchange.Levels.{find_level}
use nebula_x_simulator.Exchange.Pool.{allocate}
use nebula_x_simulator.Exchange.Engine.Requests.{process_add, process_cancel}
use nebula_x_simulator.Oms.{Entry, OrderStatus}
use nebula_x_simulator.Execution.{Execution, cancel_order}
use nebula_x_simulator.Simulator.{Simulator, simulator_ops}
use nebula_x_simulator.Simulator.Segment.{NoneResting, arbitrate-Returns}
use nebula_x_simulator.Worker.{arbitrate}
use nebula_x_simulator.Worker.Returns.{Returns}
use nebula_x_simulator.Simulator.Blocking.{cancel_order_blocks}
use nebula_x_simulator.Samples.{empty_engine, empty_manager, pool_of}
use nebula_x_simulator.Samples.MarketTests.{books}
use nebula_x_simulator.Samples.TradingTests.{flat, follower, broken}
use nebula_x_simulator.Venue.{strategy_user_id}

-- A strategy's buy order rests on the exchange's book.
abbrev engine : Engine
engine = (process_add empty_engine 5 1 Side.buy 900 10 strategy_user_id [] day).0

abbrev simulator : Simulator
simulator = record {
  engine = engine;
  view = books;
  workers = [];
  strategy_refs = 1 ∷ [];
  trades = 0;
  clock = 1;
}

abbrev resting : Entry
resting = record {
  order = record {
    order_id = 1;
    strategy_id = 1;
    symbol_id = 5;
    side = Core.buy;
    type = OrderType.limit;
    price = pos 900;
    quantity = 10;
    timestamp = 0;
  };
  status = OrderStatus.submitted;
  exchange_ref = 0;
  filled = 0;
  remaining = 10;
  avg_fill_price = pos 0;
  submit_time = 0;
  update_time = 1;
}

abbrev trader : Execution Simulator
trader = record {
  order_manager = record empty_manager { orders = (1, resting) ∷ []; next_id = 2 };
  shared = record { risk = flat; segment = 0; seq = 0 };
  exchange = some simulator;
  base_qty = 50;
  flatten_issued = false;
  recorder = true;
  trades = [];
  mid_map = [];
}

cancel_order_blocks_example : cancel_order simulator_ops trader 1 ≡ none
unfolding lookup process_add process_cancel book_for remove_order match_buy_order match_loop
    get_best_ask first_in_levels add_order allocate pool_of find_level
cancel_order_blocks_example = cancel_order_blocks trader simulator 1 1 resting refl refl refl refl

-- Another user's order rests, none of the strategies; the order manager has an active order.
abbrev market_engine : Engine
market_engine = (process_add empty_engine 5 9 Side.buy 900 10 77 [] day).0

abbrev losing : Execution Simulator
losing = record trader {
  shared = record { risk = broken; segment = 0; seq = 0 };
  exchange = some (record simulator { engine = market_engine });
}

market_NoneResting : NoneResting (record simulator { engine = market_engine })
unfolding process_add book_for match_buy_order match_loop get_best_ask first_in_levels add_order
    allocate pool_of find_level
market_NoneResting id = elim (Bool-cases (9 == id)) [
  | inl e ↦ rw e (λ k. ground (arith, k), tt)
  | inr e ↦ rw e tt
]

arbitrate-Returns_example : Returns (arbitrate simulator_ops follower losing 1)
arbitrate-Returns_example =
    arbitrate-Returns follower losing (record simulator { engine = market_engine }) 1 refl
      market_NoneResting
