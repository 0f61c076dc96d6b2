-- ===== src/Worker/Scaled.antt =====
-- The strengths of the worker's strategies (src/sim/sim_worker.h), from the market's events to the
-- decision.
use nebula_x_simulator.Prelude.{
  ℕ, ◌*◌, ◌/◌, ◌%◌, ◌≤◌, ◌<◌, ◌≡◌, ◌∙◌, true, false, Bool, Option, List, [], ◌∷◌, if◌then◌else◌,
  arith, u64_mod, All, Bool-cases, inl, inr,
}
use nebula_x_simulator.Prelude.Int.{ℤ, pos}
use nebula_x_simulator.Core.{OrderSide, buy, sell, none_side}
use nebula_x_simulator.Core.Event.{MarketEvent}
use nebula_x_simulator.Strategy.Signal.{BookContext}
use nebula_x_simulator.Strategy.Arbitrate.Strength.{
  strength_scale, InScale, arbitrate_decide_bounded,
}
use nebula_x_simulator.Strategy.OrderFlow.{
  OrderFlow, on_event, slide, signal_up, heard, set_last_price,
}
use nebula_x_simulator.Strategy.OrderFlow
use nebula_x_simulator.Strategy.OrderFlow.Strength.{IsScaled, flow_strength-IsScaled}
use nebula_x_simulator.Strategy.BookImbalance.{BookImbalance, on_book}
use nebula_x_simulator.Strategy.BookImbalance
use nebula_x_simulator.Strategy.BookImbalance.Strength.{on_book-IsScaled}
use nebula_x_simulator.Execution.{order_qty}
use nebula_x_simulator.Venue.{Shared}
use nebula_x_simulator.Worker.{
  Worker, Strategy, flow_strategy, imbalance_strategy, on_market, signal, feed, build_sigs,
  decision, on_market_event, BookView, context,
}

-- A threshold that is not negative, and a strength between none and full.
abbrev pub IsTuned : ℤ → ℤ → Type 0
IsTuned threshold strength = ((t : ℕ) × (threshold ≡ pos t)) × IsScaled strength

abbrev pub StrategyIsTuned : Strategy → Type 0
StrategyIsTuned (flow_strategy s) = IsTuned s.threshold s.strength
StrategyIsTuned (imbalance_strategy s) = IsTuned s.threshold s.strength

-- The same for a strategy with its weight, which is not negative.
abbrev pub WeightedIsTuned : Strategy × ℤ → Type 0
WeightedIsTuned (s, w) = StrategyIsTuned s × ((b : ℕ) × (w ≡ pos b))

on_event-IsTuned :
    (s : OrderFlow) (ev : MarketEvent) (side : OrderSide)
    → IsTuned s.threshold s.strength
    → IsTuned (on_event s ev side).threshold (on_event s ev side).strength
unfolding on_event slide signal_up
on_event-IsTuned s ev side ((t, e), h) = ((t, e), rw e (flow_strength-IsScaled _ t))

heard-IsTuned :
    (s : OrderFlow) (ev : MarketEvent) (side : OrderSide)
    → IsTuned s.threshold s.strength
    → IsTuned (heard s ev side).threshold (heard s ev side).strength
heard-IsTuned s ev buy h = on_event-IsTuned s ev buy h
heard-IsTuned s ev sell h = on_event-IsTuned s ev sell h
heard-IsTuned s ev none_side h = h

priced-IsTuned :
    (s : OrderFlow) (b : Bool) (p : ℤ)
    → IsTuned s.threshold s.strength
    → let s' = if b then set_last_price s p else s in IsTuned s'.threshold s'.strength
priced-IsTuned s true p h = h
priced-IsTuned s false p h = h

on_book-threshold :
    (s : BookImbalance) (l : ℕ) (bid : ℤ) (bid_vol : ℕ) (ask : ℤ) (ask_vol time : ℕ)
    → (on_book s l bid bid_vol ask ask_vol time).threshold ≡ s.threshold
unfolding on_book
on_book-threshold s l bid bid_vol ask ask_vol time = ground arith

on_market-IsTuned :
    (s : Strategy) (ev : MarketEvent) (ctx : BookContext)
    → StrategyIsTuned s
    → StrategyIsTuned (on_market s ev ctx)
unfolding on_market OrderFlow.on_market BookImbalance.on_market
on_market-IsTuned (flow_strategy s) ev ctx h =
    priced-IsTuned (heard s ev ctx.side) _ ctx.mid (heard-IsTuned s ev ctx.side h)
on_market-IsTuned (imbalance_strategy s) ev ctx ((t, e), h) = elim (Bool-cases ctx.has_book) [
  | inl seen ↦
      rw (seen, BookImbalance.on_market)
        (
          (
            t,
            on_book-threshold s ev.locate ctx.bid ctx.bid_vol ctx.ask ctx.ask_vol ev.timestamp ∙ e,
          ),
          (on_book-IsScaled s t ev.locate ctx.bid ctx.bid_vol ctx.ask ctx.ask_vol ev.timestamp e).0,
        )
  | inr unseen ↦ rw (unseen, BookImbalance.on_market) ((t, e), h)
]

feed-IsTuned :
    (ss : List (Strategy × ℤ)) (ev : MarketEvent) (ctx : BookContext)
    → All WeightedIsTuned ss
    → All WeightedIsTuned (feed ss ev ctx)
feed-IsTuned [] ev ctx all = tt
feed-IsTuned ((s, w) ∷ ss) ev ctx ((h, wh), all) =
    ((on_market-IsTuned s ev ctx h, wh), feed-IsTuned ss ev ctx all)

build_sigs-InScale :
    (ss : List (Strategy × ℤ)) → All WeightedIsTuned ss → All InScale (build_sigs ss)
unfolding signal OrderFlow.signal BookImbalance.signal
build_sigs-InScale [] all = tt
build_sigs-InScale ((flow_strategy s, w) ∷ ss) ((((t, x), (n, e, h)), (b, k)), all) =
    ((n, b, e, k, h), build_sigs-InScale ss all)
build_sigs-InScale ((imbalance_strategy s, w) ∷ ss) ((((t, x), (n, e, h)), (b, k)), all) =
    ((n, b, e, k, h), build_sigs-InScale ss all)

-- A market's event keeps every strategy of the worker tuned.
pub on_market_event-IsTuned :
    (w : Worker) (s : Shared) (ev : MarketEvent) (book : Option BookView)
    → All WeightedIsTuned w.strategies
    → All WeightedIsTuned (on_market_event w s ev book).0.strategies
unfolding on_market_event
on_market_event-IsTuned w s ev book all =
    pick _ (w, s) _ all (feed-IsTuned w.strategies ev (context ev book) all)
  where
    pick :
        (b : Bool) (v w : Worker × Shared)
        → All WeightedIsTuned v.0.strategies
        → All WeightedIsTuned w.0.strategies
        → All WeightedIsTuned (if◌then◌else◌ {A = Worker × Shared} b v w).0.strategies
    pick true v w h k = h
    pick false v w h k = k

-- The decision of tuned strategies has a strength between none and full.
pub decision-IsScaled :
    (w : Worker) → All WeightedIsTuned w.strategies → IsScaled (decision w).strength
unfolding decision
decision-IsScaled w all =
    arbitrate_decide_bounded (build_sigs w.strategies) w.primary_idx w.threshold_bp
      (build_sigs-InScale w.strategies all)

-- A strength between none and full makes an order of at most the base quantity.
pub order_qty_scaled :
    (base : ℕ) (x : ℤ) → IsScaled x → base * strength_scale < u64_mod → order_qty base x ≤ base
unfolding order_qty
order_qty_scaled base x (n, e, h) small = rw e (part base n h small)
  where
    small_mod : (a : ℕ) → a < u64_mod → a % u64_mod ≡ a
    small_mod a h = omega arith

    less : (base n : ℕ) → n ≤ strength_scale → base * strength_scale < u64_mod → base * n < u64_mod
    less base n h small = grind arith

    share : (base n : ℕ) → n ≤ strength_scale → base * n / strength_scale ≤ base
    share base n h = grind arith

    part :
        (base n : ℕ)
        → n ≤ strength_scale
        → base * strength_scale < u64_mod
        → base * (n % u64_mod) % u64_mod / strength_scale ≤ base
    part base n h small =
        rw (small_mod n (omega arith), small_mod (base * n) (less base n h small)) (share base n h)
