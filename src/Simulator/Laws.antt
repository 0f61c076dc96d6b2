-- ===== src/Simulator/Laws.antt =====
-- The simulator keeps what the execution engine relies on (src/exchange/exchange_simulator.cpp
-- against src/exchange/i_exchange_simulator.h).
use nebula_x_simulator.Prelude.{
  ℕ, ◌+◌, ◌%◌, ◌<◌, ◌≤◌, ◌≡◌, refl, sym, ap, ◌∙◌, subst, Option, none, some, List, [], ◌∷◌, ltb,
  arith, Bool-cases, Option-cases, inl, inr, u32_mod, ◌&&◌, not, ◌==◌, add64, ltb→lt,
}
use nebula_x_simulator.Prelude.Int.{ℤ}
use nebula_x_simulator.Core.{Order}
use nebula_x_simulator.Core.Event.{MarketEvent}
use nebula_x_simulator.Exchange.Protocol.{
  BinaryResponse, Trade, OrderTif, rsp_trade, rsp_ok, rsp_filled, rsp_cancelled, rsp_error,
}
use nebula_x_simulator.Exchange.Order.{Side}
use nebula_x_simulator.Exchange.Engine.{Engine, book_for, load_book, max_locate}
use nebula_x_simulator.Exchange.Engine.Accounting.{traded, traded-append}
use nebula_x_simulator.Exchange.Engine.Requests.{process_add, rejection}
use nebula_x_simulator.Exchange.Book.{OrderBook}
use nebula_x_simulator.Exchange.Engine.AddReport.{process_add-Ending}
use nebula_x_simulator.Exchange.Engine.Endings.{
  Asked, Ending, all_filled, rests, no_slot, no_trade, part_dropped, not_all,
}
use nebula_x_simulator.Execution.{to_u64}
use nebula_x_simulator.Market.Consumer.{Consumer, view_of}
use nebula_x_simulator.Market.Consumer
use nebula_x_simulator.Risk.{RiskManager, locate_idx, position, mark}
use nebula_x_simulator.Risk.Gate.{update_equity-qty}
use nebula_x_simulator.Simulator.{
  Simulator, tell_trade, tell_workers, broadcast, take_answers, submit, simulator_ops, make_execute,
  no_result, engine_side, tick_clock,
}
use nebula_x_simulator.Venue.{
  strategy_user_id, Shared, ExchangeLaws, ExchangeSubmitResult, sum_fills,
}
use nebula_x_simulator.Worker.{Worker, on_market_event, mark_book, two_sided, mid_of, BookView}

mark-qty : (r : RiskManager) (symbol : ℕ) (price : ℤ) → (mark r symbol price).qty ≡ r.qty
unfolding mark
mark-qty r symbol price = update_equity-qty _

mark_book-qty :
    (s : Shared) (locate : ℕ) (b : Option BookView) → (mark_book s locate b).risk.qty ≡ s.risk.qty
unfolding mark_book
mark_book-qty s locate none = refl
mark_book-qty s locate (some b) = elim (Bool-cases (two_sided b)) [
  | inl h ↦ rw (h, mark_book) (mark-qty s.risk locate (mid_of b))
  | inr h ↦ rw (h, mark_book) refl
]

on_market_event-qty :
    (w : Worker) (s : Shared) (ev : MarketEvent) (b : Option BookView)
    → (on_market_event w s ev b).1.risk.qty ≡ s.risk.qty
unfolding on_market_event
on_market_event-qty w s ev b =
    elim (Bool-cases (ltb 1 w.nworkers && not (ev.locate % w.nworkers == w.id))) [
      | inl h ↦ rw (h, on_market_event) refl
      | inr h ↦ rw (h, on_market_event) (mark_book-qty s ev.locate b)
    ]

tell_workers-qty :
    (ws : List Worker) (s : Shared) (c : Consumer) (ev : MarketEvent)
    → (tell_workers ws s c ev).1.risk.qty ≡ s.risk.qty
unfolding tell_workers
tell_workers-qty [] s c ev = refl
tell_workers-qty (w ∷ ws) s c ev =
    tell_workers-qty ws _ c ev ∙ on_market_event-qty w s ev (view_of c ev.locate)

broadcast-qty :
    (m : Simulator) (s : Shared) (ev : MarketEvent) → (broadcast m s ev).1.risk.qty ≡ s.risk.qty
unfolding broadcast
broadcast-qty m s ev = tell_workers-qty m.workers s (Consumer.on_event m.view ev) ev

tell_trade-qty :
    (m : Simulator) (s : Shared) (locate : ℕ) (t : Trade)
    → (tell_trade m s locate t).1.risk.qty ≡ s.risk.qty
unfolding tell_trade
tell_trade-qty m s locate t =
    broadcast-qty (record m { trades = add64 m.trades 1 }) s
      (make_execute locate t.order_ref t.quantity)

take_answers-qty :
    (rs : List BinaryResponse) (m : Simulator) (s : Shared) (locate id : ℕ)
    (r : ExchangeSubmitResult)
    → (take_answers m s locate id rs r).1.risk.qty ≡ s.risk.qty
unfolding take_answers
take_answers-qty [] m s locate id r = refl
take_answers-qty (rsp_trade t ∷ rs) m s locate id r =
    let (m', s') = tell_trade m s locate t in
    take_answers-qty rs m' s' locate id r ∙ tell_trade-qty m s locate t
take_answers-qty (rsp_ok n ∷ rs) m s locate id r = take_answers-qty rs _ s locate id _
take_answers-qty (rsp_filled n ∷ rs) m s locate id r = take_answers-qty rs m s locate id _
take_answers-qty (rsp_cancelled n ∷ rs) m s locate id r = take_answers-qty rs m s locate id r
take_answers-qty (rsp_error c ∷ rs) m s locate id r = take_answers-qty rs m s locate id r

take_answers-fills :
    (rs : List BinaryResponse) (m : Simulator) (s : Shared) (locate id : ℕ)
    (r : ExchangeSubmitResult)
    → sum_fills (take_answers m s locate id rs r).2.fills ≡ traded rs + sum_fills r.fills
unfolding take_answers
take_answers-fills [] m s locate id r = omega arith
take_answers-fills (rsp_trade t ∷ rs) m s locate id r =
    let (m', s') = tell_trade m s locate t in omega (arith, take_answers-fills rs m' s' locate id r)
take_answers-fills (rsp_ok n ∷ rs) m s locate id r = take_answers-fills rs _ s locate id _
take_answers-fills (rsp_filled n ∷ rs) m s locate id r = take_answers-fills rs m s locate id _
take_answers-fills (rsp_cancelled n ∷ rs) m s locate id r = take_answers-fills rs m s locate id r
take_answers-fills (rsp_error c ∷ rs) m s locate id r = take_answers-fills rs m s locate id r

traded-Ending :
    (a : Asked) (shares : ℕ) (b : OrderBook) (tif : OrderTif) (rs : List BinaryResponse)
    → Ending a shares b tif rs
    → (traded rs ≡ 0) × (shares ≤ a.quantity)
traded-Ending a shares b tif rs (all_filled t h) = (refl, omega arith)
traded-Ending a shares b tif rs (rests left some_left h v) = (refl, omega arith)
traded-Ending a shares b tif rs (no_slot h f) = (refl, omega arith)
traded-Ending a shares b tif rs (no_trade z h) = (refl, omega arith)
traded-Ending a shares b tif rs (part_dropped z h) = (refl, omega arith)
traded-Ending a shares b tif rs (not_all h) = (refl, omega arith)

-- The engine trades no more than the order's quantity, whatever it answers.
process_add-traded :
    (e : Engine) (locate ref : ℕ) (side : Side) (price quantity user : ℕ) (tif : OrderTif)
    → quantity < u32_mod
    → traded (process_add e locate ref side price quantity user [] tif).1 ≤ quantity
unfolding process_add book_for
process_add-traded e locate ref side price quantity user tif small =
    elim (Bool-cases (ltb locate max_locate)) [
      | inr h ↦ rw (h, process_add) (omega arith)
      | inl h ↦
          elim (Option-cases (rejection (load_book e locate) ref side price quantity user tif)) [
            | inr (code, k) ↦ rw (h, k, process_add) (omega arith)
            | inl k ↦
                let (ts, rs, same, fair, end) =
                  process_add-Ending e locate ref side price quantity user [] tif
                    (ltb→lt locate max_locate h) small k in
                let (nothing_more, most) = traded-Ending _ (traded ts) _ tif rs end in
                subst (λ out. traded out ≤ quantity) (sym same)
                  (omega (arith, traded-append ts rs, nothing_more, most))
          ]
    ]

submit-qty :
    (m : Simulator) (s : Shared) (o : Order) (id : ℕ) (tif : OrderTif)
    → (submit m s o id tif).1.risk.qty ≡ s.risk.qty
unfolding submit
submit-qty m s o id tif =
    let (e, rs) =
      process_add m.engine o.symbol_id id (engine_side o.side) (to_u64 o.price % u32_mod)
        (o.quantity % u32_mod) strategy_user_id [] tif in
    take_answers-qty rs (record (tick_clock m) { engine = e }) s o.symbol_id id no_result

submit-fills :
    (m : Simulator) (s : Shared) (o : Order) (id : ℕ) (tif : OrderTif)
    → sum_fills (submit m s o id tif).2.fills ≤ o.quantity
unfolding submit
submit-fills m s o id tif =
    let (e, rs) =
      process_add m.engine o.symbol_id id (engine_side o.side) (to_u64 o.price % u32_mod)
        (o.quantity % u32_mod) strategy_user_id [] tif in
    omega (
      arith,
      take_answers-fills rs (record (tick_clock m) { engine = e }) s o.symbol_id id no_result,
      process_add-traded m.engine o.symbol_id id (engine_side o.side) (to_u64 o.price % u32_mod)
          (o.quantity % u32_mod) strategy_user_id tif (wraps o.quantity),
      narrow o.quantity,
    )
  where
    wraps : (n : ℕ) → n % u32_mod < u32_mod
    wraps n = omega arith

    narrow : (n : ℕ) → n % u32_mod ≤ n
    narrow n = omega arith

-- The simulator keeps the laws of the exchange: the subscribers of its broadcast leave the positions,
-- and the fills of an order are never more than its quantity.
pub simulator_laws : ExchangeLaws simulator_ops
unfolding simulator_ops position
simulator_laws = record {
  keeps = λ m s o id tif symbol. ap (λ q. q (locate_idx symbol)) (submit-qty m s o id tif);
  fits = submit-fills;
}
