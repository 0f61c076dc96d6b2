-- ===== src/Worker.antt =====
-- The worker (src/sim/sim_worker.h): it feeds the market's events to its strategies, and at the end
-- of a segment lets them vote and submits the decision. The tuple of strategies, with their weights,
-- is a list.
pub mod Trades
pub mod Returns
pub mod Scaled
use nebula_x_simulator.Prelude.{
  ℕ, suc, ◌%◌, Bool, true, false, Option, none, some, List, [], ◌∷◌, map, if◌then◌else◌, ltb, leb,
  ◌==◌, ◌&&◌, ◌||◌, not,
}
use nebula_x_simulator.Prelude.Int.{ℤ, pos, negsuc, ◌+ℤ◌, div_ℤ, ltb_ℤ, leb_ℤ}
use nebula_x_simulator.Core.{OrderSide, buy, sell, none_side, OrderType}
use nebula_x_simulator.Core.Event.{MarketEvent, EventBody}
use nebula_x_simulator.Risk.{RiskManager, mark, position}
use nebula_x_simulator.Strategy.Signal.{Signal, BookContext}
use nebula_x_simulator.Strategy.Arbitrate.{ArbSignal, ArbDecision, same_side, arbitrate_decide}
use nebula_x_simulator.Strategy.OrderFlow.{OrderFlow}
use nebula_x_simulator.Strategy.OrderFlow
use nebula_x_simulator.Strategy.BookImbalance.{BookImbalance}
use nebula_x_simulator.Strategy.BookImbalance
use nebula_x_simulator.Venue.{Shared, ExchangeOps}
use nebula_x_simulator.Execution.{Execution, set_mid, set_segment_ctx, live_mid, submit_signal}

pub data Strategy : Type 0 where
  flow_strategy : OrderFlow → Strategy
  imbalance_strategy : BookImbalance → Strategy

unfoldable pub on_market : Strategy → MarketEvent → BookContext → Strategy
on_market (flow_strategy s) ev ctx = flow_strategy (OrderFlow.on_market s ev ctx)
on_market (imbalance_strategy s) ev ctx = imbalance_strategy (BookImbalance.on_market s ev ctx)

unfoldable pub signal : Strategy → Signal
signal (flow_strategy s) = OrderFlow.signal s
signal (imbalance_strategy s) = BookImbalance.signal s

pub record Worker : Type 0 where
  pub strategies : List (Strategy × ℤ)
  pub primary_idx : ℕ
  pub threshold_bp : ℤ
  pub id : ℕ
  pub nworkers : ℕ
  pub strategy_id : ℕ
  pub max_position : ℕ
  pub last_side : OrderSide
  pub last_str : ℤ
  pub cur_segment : ℕ

-- What the configuration says of a strategy: its weight, if it is listed, and whether its name is
-- the primary's.
pub record StrategyChoice : Type 0 where
  pub weight : Option ℤ
  pub primary : Bool

abbrev pub weight_or : Option ℤ → ℤ
weight_or none = pos 10000
weight_or (some w) = w

-- The loop of `init` from index `i`; a strategy without an entry keeps its weight.
unfoldable pub weigh : List (Strategy × ℤ) → List StrategyChoice → List (Strategy × ℤ)
weigh [] cs = []
weigh ((s, w) ∷ ss) [] = (s, w) ∷ ss
weigh ((s, w) ∷ ss) (c ∷ cs) = (s, weight_or c.weight) ∷ weigh ss cs

unfoldable pub primary_from : ℕ → ℕ → List (Strategy × ℤ) → List StrategyChoice → ℕ
primary_from idx i [] cs = idx
primary_from idx i (s ∷ ss) [] = idx
primary_from idx i (s ∷ ss) (c ∷ cs) = primary_from (if c.primary then i else idx) (suc i) ss cs

unfoldable pub init : Worker → ℕ → ℕ → ℕ → ℕ → List StrategyChoice → ℤ → Worker
unfolding weigh primary_from
init w id nworkers strategy_id max_position choices threshold = record w {
  strategies = weigh w.strategies choices;
  primary_idx = primary_from w.primary_idx 0 w.strategies choices;
  threshold_bp = threshold;
  id = id;
  nworkers = nworkers;
  strategy_id = strategy_id;
  max_position = max_position;
}

-- What the worker reads of the market's book; the best prices are -1 where a side is empty.
pub record BookView : Type 0 where
  pub best_bid : ℤ
  pub best_bid_volume : ℕ
  pub best_ask : ℤ
  pub best_ask_volume : ℕ
  pub side_of : ℕ → OrderSide

abbrev pub two_sided : BookView → Bool
two_sided b = leb_ℤ (pos 0) b.best_bid && leb_ℤ (pos 0) b.best_ask

abbrev pub mid_of : BookView → ℤ
mid_of b = div_ℤ (b.best_bid +ℤ b.best_ask) 2

-- The side of an event: its own for a new or a changed order, the book's for another.
unfoldable pub event_side : EventBody → Option BookView → OrderSide
event_side (EventBody.add o) b = o.side
event_side (EventBody.replace o) b = o.side
event_side (EventBody.trade t) (some b) = b.side_of t.order_ref
event_side (EventBody.execute t) (some b) = b.side_of t.order_ref
event_side (EventBody.delete o) (some b) = b.side_of o.order_ref
event_side (EventBody.cancel o) (some b) = b.side_of o.order_ref
event_side _ none = none_side

abbrev pub no_context : OrderSide → ℕ → BookContext
no_context side seq = record {
  has_book = false;
  side = side;
  mid = negsuc 0;
  bid = negsuc 0;
  bid_vol = 0;
  ask = negsuc 0;
  ask_vol = 0;
  seq = seq;
}

unfoldable pub context : MarketEvent → Option BookView → BookContext
unfolding event_side
context ev none = no_context (event_side ev.body none) ev.timestamp
context ev (some b) =
    let c = record (no_context (event_side ev.body (some b)) ev.timestamp) { has_book = true } in
    if two_sided b
    then record c {
      bid = b.best_bid;
      bid_vol = b.best_bid_volume;
      ask = b.best_ask;
      ask_vol = b.best_ask_volume;
      mid = mid_of b;
    }
    else c

-- The market price for the risk manager.
unfoldable pub mark_book : Shared → ℕ → Option BookView → Shared
mark_book s locate none = s
mark_book s locate (some b) =
    if two_sided b then record s { risk = mark s.risk locate (mid_of b) } else s

abbrev pub feed : List (Strategy × ℤ) → MarketEvent → BookContext → List (Strategy × ℤ)
feed [] ev ctx = []
feed ((s, w) ∷ ss) ev ctx = (on_market s ev ctx, w) ∷ feed ss ev ctx

unfoldable pub on_market_event : Worker → Shared → MarketEvent → Option BookView → Worker × Shared
unfolding context mark_book
on_market_event w s ev book =
    if ltb 1 w.nworkers && not (ev.locate % w.nworkers == w.id) then (w, s) else (
      record w { strategies = feed w.strategies ev (context ev book) },
      record (mark_book s ev.locate book) { segment = w.cur_segment; seq = ev.timestamp },
    )

abbrev pub strength_step : ℤ
strength_step = pos 500

abbrev pub from_signal : Signal → ArbSignal
from_signal s = record {
  side = s.side;
  locate = s.locate;
  strength = s.strength;
  seq = s.timestamp;
}

abbrev pub build_sigs : List (Strategy × ℤ) → List (ArbSignal × ℤ)
build_sigs [] = []
build_sigs ((s, w) ∷ ss) = (from_signal (signal s), w) ∷ build_sigs ss

unfoldable pub decision : Worker → ArbDecision
decision w = arbitrate_decide (build_sigs w.strategies) w.primary_idx w.threshold_bp

abbrev pub is_empty : List (Strategy × ℤ) → Bool
is_empty [] = true
is_empty _ = false

-- `blocked`: a buy at the position limit, or a sell of what is not held.
unfoldable pub blocked : Worker → RiskManager → ArbDecision → Bool
blocked w r d =
    same_side d.dir buy && leb w.max_position (position r d.locate)
    || same_side d.dir sell && position r d.locate == 0

-- `fresh_dir || strength_ge`
unfoldable pub due : Worker → ArbDecision → Bool
due w d = not (same_side d.dir w.last_side) || leb_ℤ (w.last_str +ℤ strength_step) d.strength

abbrev pub decision_signal : ArbDecision → Signal
decision_signal d = record {
  side = d.dir;
  locate = d.locate;
  price = pos 0;
  timestamp = 0;
  strength = d.strength;
}

abbrev pub note_order : Worker → ArbDecision → ℕ → Worker
note_order w d oid = if oid == 0 then w else record w { last_side = d.dir; last_str = d.strength }

module _ {X : Type 0} (ops : ExchangeOps X) where
  -- The context of the trade records, with the exchange's price as the reference for the slippage.
  unfoldable pub prepare : Execution X → ℕ → ArbDecision → Execution X
  prepare e segment d =
      let (e', live) = live_mid ops e d.locate in
      set_segment_ctx (if ltb_ℤ (pos 0) live then set_mid e' d.locate live else e') segment 0

  abbrev pub noted : Worker → ArbDecision → Option (Execution X × ℕ) → Option (Worker × Execution X)
  noted w d none = none
  noted w d (some (e, oid)) = some (note_order w d oid, e)

  unfoldable pub submit_decision :
      Worker → Execution X → ℕ → ArbDecision → Option (Worker × Execution X)
  unfolding prepare
  submit_decision w e segment d =
      noted w d
        (submit_signal ops (prepare e segment d) (decision_signal d) w.strategy_id OrderType.market)

  unfoldable pub arbitrate : Worker → Execution X → ℕ → Option (Worker × Execution X)
  unfolding decision blocked due submit_decision
  arbitrate w e segment =
      let w1 = record w { cur_segment = segment } in
      let d = decision w1 in
      if is_empty w.strategies
      then some (w, e)
      else if not d.act || blocked w1 e.shared.risk d || not (due w1 d)
      then some (w1, e)
      else submit_decision w1 e segment d
