-- ===== src/Samples.antt =====
-- Small engines, books and order managers, for tests and witnesses.
mod EngineTests
mod BookTests
mod OmsTests
mod StrategyTests
mod ReplayTests
mod RiskTests
mod TradingTests
mod MarketTests
mod SimulatorTests
mod IndexTests
use nebula_x_simulator.Prelude.{ℕ, zero, suc, none, some, [], ◌∷◌, update, u32_max}
use nebula_x_simulator.Exchange.Order.{Order, default_order, sell}
use nebula_x_simulator.Exchange.Pool.{OrderPool, init_free_list}
use nebula_x_simulator.Exchange.Book.{OrderBook}
use nebula_x_simulator.Exchange.Engine.{Engine}
use nebula_x_simulator.Oms.{OrderManager}

abbrev pub pool_of : ℕ → OrderPool
unfolding init_free_list
pool_of n =
    init_free_list (record { storage = λ i. default_order; capacity = n; free_head = 0; size = 0 })

-- An engine with an empty pool of four slots and no log.
abbrev pub empty_engine : Engine
empty_engine = record {
  books = λ i. none;
  pool = pool_of 4;
  index = λ i. [];
  next_order_id = 1;
  next_sequence = 1;
  metrics = none;
  wal = none;
  trade_pool = none;
  buy_trade_id = 0;
  sell_trade_id = 0;
}

-- A sell order for some shares at 1000, with its links.
abbrev pub ask_of : ℕ → ℕ → ℕ → ℕ → ℕ → Order
ask_of id user qty prev next = record default_order {
  order_id = id;
  user_id = user;
  side = sell;
  price = 1000;
  original_qty = qty;
  remaining_qty = qty;
  prev_idx = prev;
  next_idx = next;
}

-- Three sell orders in the slots 0, 1 and 2, in the order of their numbers.
abbrev pub three_asks : ℕ → Order
three_asks zero = ask_of 11 7 5 u32_max 1
three_asks (suc zero) = ask_of 12 8 6 0 2
three_asks (suc (suc zero)) = ask_of 13 9 7 1 u32_max
three_asks (suc (suc (suc n))) = default_order

-- The book with those orders.
abbrev pub book_of_asks : OrderBook
book_of_asks = record {
  bids = [];
  asks = (1000, record { head_idx = 0; tail_idx = 2; count = 3; total_qty = 18 }) ∷ [];
  pool = record { storage = three_asks; capacity = 8; free_head = 3; size = 3 };
  index = update (update (update (λ i. []) 11 (0 ∷ [])) 12 (1 ∷ [])) 13 (2 ∷ []);
}

abbrev pub empty_manager : OrderManager
empty_manager = record {
  orders = [];
  sym_orders = λ k. [];
  strat_orders = λ k. [];
  next_id = 1;
  counter = 0;
}
