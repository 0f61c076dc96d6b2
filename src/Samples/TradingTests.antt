-- ===== src/Samples/TradingTests.antt =====
-- The strategies, the execution engine and the worker on small inputs.
use nebula_x_simulator.Prelude.{
  ℕ, zero, suc, ◌≡◌, ◌≢◌, refl, true, false, none, some, [], ◌∷◌, arith, All, take,
}
use nebula_x_simulator.Prelude.Int.{pos, negsuc, ◌+ℤ◌, ◌-ℤ◌}
use nebula_x_simulator.Core.{OrderType, buy, none_side, lookup}
use nebula_x_simulator.Core.Event.{MarketEvent, EventBody}
use nebula_x_simulator.Oms.{OrderManager, OrderStatus, Entry, first_entry, status}
use nebula_x_simulator.Oms.Accounting.{AllValid}
use nebula_x_simulator.Risk.{
  RiskManager, check_order, position, drawdown_flatten, drawdown, equity, floating_sum, max_locate,
  daily_loss_breached,
}
use nebula_x_simulator.Strategy.Signal.{Signal, BookContext}
use nebula_x_simulator.Strategy.OrderFlow.{order_flow, window_size}
use nebula_x_simulator.Strategy.OrderFlow.Window.{flows, heard_all, sum_ℤ, heard_all-ofi}
use nebula_x_simulator.Strategy.OrderFlow.Strength.{IsScaled}
use nebula_x_simulator.Strategy.BookImbalance.{book_imbalance, on_book}
use nebula_x_simulator.Strategy.BookImbalance.Strength.{on_book-IsScaled}
use nebula_x_simulator.Strategy.Arbitrate.Direction.{is_side}
use nebula_x_simulator.Strategy.Arbitrate.Strength.{strength_scale}
use nebula_x_simulator.Venue.{FillType, ExchangeOps, ExchangeLaws}
use nebula_x_simulator.Execution.{Execution, submit_signal, order_qty, order_of}
use nebula_x_simulator.Execution.Drives.{WhenDone}
use nebula_x_simulator.Execution.Refusals.{submit_signal_refused}
use nebula_x_simulator.Execution.Runs.{signal_call, cancel_call, calls, calls-Keeps}
use nebula_x_simulator.Execution.Limits.{Moved}
use nebula_x_simulator.Execution.Positions.{signal_order, submit_signal-Moved}
use nebula_x_simulator.Worker.{Worker, flow_strategy, decision, arbitrate}
use nebula_x_simulator.Worker.Scaled.{WeightedIsTuned}
use nebula_x_simulator.Worker.Trades.{Traded, arbitrate-Traded}
use nebula_x_simulator.Samples.{empty_manager}

-- An exchange without a state that fills every order and confirms no cancel.
abbrev generous : ExchangeOps Unit
generous = record {
  submit = λ x s o id tif. (
    x,
    s,
    record {
      accepted = true;
      fully_filled = true;
      fills =
          record {
            type = FillType.executed;
            order_id = id;
            exchange_ref = 0;
            filled_qty = o.quantity;
            fill_price = pos 1000;
          }
          ∷ [];
    },
  );
  cancel = λ x id symbol user. (x, []);
  book_quote = λ x symbol. (x, none);
}

generous_laws : ExchangeLaws generous
generous_laws = record { keeps = λ x s o id tif symbol. refl; fits = λ x s o id tif. omega arith }

-- Nothing is held, and the equity is 500 below its peak, within the first limit.
abbrev pub flat : RiskManager
flat = record {
  max_position = 100;
  max_daily_loss = pos 5000;
  initial_equity = pos 100000;
  max_drawdown_pause = pos 1000;
  max_drawdown_flatten = pos 2000;
  qty = λ l. 0;
  avg_cost = λ l. pos 0;
  mark_price = λ l. pos 0;
  realized_pnl = pos 0;
  equity_peak = pos 100500;
}

abbrev trader : RiskManager → OrderManager → Execution Unit
trader r m = record {
  order_manager = m;
  shared = record { risk = r; segment = 0; seq = 0 };
  exchange = some tt;
  base_qty = 50;
  flatten_issued = false;
  recorder = true;
  trades = [];
  mid_map = [];
}

abbrev buy_signal : Signal
buy_signal = record { side = buy; locate = 5; price = pos 0; timestamp = 3; strength = pos 6000 }

submit_signal-Moved_example :
    WhenDone
      (λ a.
        Moved flat
          (signal_order generous (trader flat empty_manager) buy_signal 1 OrderType.market)
          a.0.shared.risk)
      (submit_signal generous (trader flat empty_manager) buy_signal 1 OrderType.market)
unfolding position order_qty
submit_signal-Moved_example =
    submit_signal-Moved generous (trader flat empty_manager) buy_signal 1 OrderType.market
      generous_laws (omega arith)

-- A loss past the limit of the day.
abbrev lost : RiskManager
lost = record flat { realized_pnl = negsuc 5999 }

submit_signal_refused_example :
    (e' : Execution Unit) × (submit_signal generous
        (trader lost empty_manager)
        buy_signal
        1
        OrderType.market
      ≡ some (e', 1))
    × (status e'.order_manager 1 ≡ OrderStatus.rejected)
    × ((j : ℕ) → j ≢ 1 → lookup j e'.order_manager.orders ≡ lookup j empty_manager.orders)
    × (e'.exchange ≡ some tt)
    × (e'.shared ≡ (trader lost empty_manager).shared)
    × (e'.trades ≡ [])
unfolding order_qty check_order daily_loss_breached ◌-ℤ◌
submit_signal_refused_example =
    submit_signal_refused generous (trader lost empty_manager) buy_signal 1 OrderType.market refl
      refl

-- A run: a signal, and a cancel of its order, which is filled by then.
calls-Keeps_example :
    WhenDone
      (λ e'. AllValid e'.order_manager)
      (calls generous
        (trader flat empty_manager)
        (signal_call buy_signal 1 OrderType.market ∷ cancel_call 1 ∷ []))
unfolding lookup
calls-Keeps_example =
    calls-Keeps generous (trader flat empty_manager)
      (signal_call buy_signal 1 OrderType.market ∷ cancel_call 1 ∷ []) (λ id e h. ground (arith, h))

-- An order of thirty shares that rests at the exchange.
abbrev resting : Entry
resting = record (first_entry (order_of buy_signal 1 OrderType.market 30)) {
  status = OrderStatus.submitted;
}

abbrev manager : OrderManager
manager = record empty_manager { orders = (1, resting) ∷ []; next_id = 2 }

-- The equity is far below its peak.
abbrev pub broken : RiskManager
broken = record flat { equity_peak = pos 103000 }

no_floating : (n : ℕ) → floating_sum broken n ≡ pos 0
unfolding floating_sum ◌+ℤ◌
no_floating zero = refl
no_floating (suc n) = rw (no_floating n) refl

pub broken-drawdown : drawdown_flatten broken ≡ true
unfolding drawdown_flatten drawdown equity ◌+ℤ◌ ◌-ℤ◌
broken-drawdown = rw (no_floating max_locate) refl

-- A worker with one strategy that sees more buyers.
abbrev pub follower : Worker
follower = record {
  strategies =
      (
        flow_strategy (record (order_flow (pos 500)) {
          ofi = pos 800;
          current = buy;
          strength = pos 6000;
          locate = 5;
        }),
        pos 10000,
      )
      ∷ [];
  primary_idx = 0;
  threshold_bp = pos 0;
  id = 0;
  nworkers = 1;
  strategy_id = 1;
  max_position = 100;
  last_side = none_side;
  last_str = negsuc 0;
  cur_segment = 0;
}

follower-IsTuned : All WeightedIsTuned follower.strategies
unfolding order_flow
follower-IsTuned = ((((500, refl), (6000, refl, omega arith)), (10000, refl)), tt)

arbitrate-Traded_example :
    WhenDone
      (λ a. Traded follower 50 (decision follower) flat a.1.shared.risk)
      (arbitrate generous follower (trader flat empty_manager) 1)
unfolding position
arbitrate-Traded_example =
    arbitrate-Traded generous follower (trader flat empty_manager) 1 generous_laws follower-IsTuned
      (omega arith) (λ symbol. omega arith)

-- A new buy order of the market, and the context for it.
abbrev addition : MarketEvent
addition = record {
  body =
      EventBody.add
        (record { side = buy; price = pos 1000; shares = 40; order_ref = 7; new_order_ref = 0 });
  seq_id = 0;
  locate = 5;
  timestamp = 9;
}

abbrev seen : BookContext
seen = record {
  has_book = true;
  side = buy;
  mid = pos 1000;
  bid = pos 990;
  bid_vol = 10;
  ask = pos 1010;
  ask_vol = 20;
  seq = 9;
}

heard_all-ofi_example :
    (heard_all ((addition, seen) ∷ []) (order_flow (pos 500))).ofi
    ≡ sum_ℤ (take window_size (flows ((addition, seen) ∷ [])))
heard_all-ofi_example = heard_all-ofi (pos 500) ((addition, seen) ∷ []) (omega arith)

on_book-IsScaled_example :
    let s' = on_book (book_imbalance (pos 3000)) 5 (pos 990) 90 (pos 1010) 10 9 in
    IsScaled s'.strength × (is_side s'.current ≡ true → s'.strength ≡ pos strength_scale)
unfolding book_imbalance
on_book-IsScaled_example =
    on_book-IsScaled (book_imbalance (pos 3000)) 3000 5 (pos 990) 90 (pos 1010) 10 9 refl
