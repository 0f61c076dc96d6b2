-- ===== src/Simulator.antt =====
-- The simulator that joins the exchange to the trading side (src/exchange/exchange_simulator.h,
-- exchange_simulator.cpp), with the subscribers that src/sim_main.cpp binds: the market's books as
-- the view, the workers as the sink, the execution engine for the reports.
pub mod Laws
pub mod Blocking
pub mod Flattening
pub mod Foreign
pub mod Segment
pub mod Deletes
use nebula_x_simulator.Prelude.{
  ℕ, ◌+◌, ◌%◌, Bool, true, false, Option, none, some, List, [], ◌∷◌, if◌then◌else◌, ltb, ◌==◌, ◌&&◌,
  add64, u32_mod,
}
use nebula_x_simulator.Prelude.Int.{ℤ, pos, negsuc, ltb_ℤ}
use nebula_x_simulator.Core.{Order, OrderSide, buy, sell, has, add_id, erase_id}
use nebula_x_simulator.Core.Event.{MarketEvent, EventBody, OrderInfo, TradeInfo}
use nebula_x_simulator.Exchange.Order.{Side, invalid}
use nebula_x_simulator.Exchange.Book.{OrderBook, find_order, get_top_of_book}
use nebula_x_simulator.Exchange.Protocol.{
  OrderTif, day, BinaryResponse, Trade, rsp_trade, rsp_ok, rsp_filled, rsp_cancelled, rsp_error,
}
use nebula_x_simulator.Exchange.Engine.{Engine, book_for}
use nebula_x_simulator.Exchange.Engine.Requests.{
  process_add, process_cancel, process_cancel_shares, process_replace,
}
use nebula_x_simulator.Exchange.ItchParser.{ItchEvent}
use nebula_x_simulator.Execution.{Execution, to_u64, on_order_report, is_buy_side}
use nebula_x_simulator.Market.Consumer.{Consumer, view_of}
use nebula_x_simulator.Market.Consumer
use nebula_x_simulator.Venue.{
  Fill, FillType, BookQuote, ExchangeSubmitResult, Shared, ExchangeOps, strategy_user_id,
}
use nebula_x_simulator.Worker.{Worker, on_market_event}

pub record Simulator : Type 0 where
  pub engine : Engine
  pub view : Consumer
  pub workers : List Worker
  pub strategy_refs : List ℕ
  pub trades : ℕ
  pub clock : ℕ

abbrev pub tick_clock : Simulator → Simulator
tick_clock s = record s { clock = add64 s.clock 1 }

-- Every worker hears the event, with the view as the event has left it.
unfoldable pub tell_workers : List Worker → Shared → Consumer → MarketEvent → List Worker × Shared
tell_workers [] sh view ev = ([], sh)
tell_workers (w ∷ ws) sh view ev =
    let (w', sh') = on_market_event w sh ev (view_of view ev.locate) in
    let (ws', sh'') = tell_workers ws sh' view ev in (w' ∷ ws', sh'')

unfoldable pub broadcast : Simulator → Shared → MarketEvent → Simulator × Shared
unfolding tell_workers
broadcast s sh ev =
    let view = Consumer.on_event s.view ev in
    let (ws, sh') = tell_workers s.workers sh view ev in
    (record s { view = view; workers = ws }, sh')

-- `MarketEvent m{}`: all fields are zero, so the side is the first one, a buy.
abbrev pub zero_order : OrderInfo
zero_order = record { side = buy; price = pos 0; shares = 0; order_ref = 0; new_order_ref = 0 }

abbrev pub event_at : Simulator → ℕ → EventBody → MarketEvent
event_at s locate body = record { body = body; seq_id = 0; locate = locate; timestamp = s.clock }

abbrev pub from_side : Side → OrderSide
from_side Side.buy = buy
from_side _ = sell

unfoldable pub to_market_event : Simulator → ItchEvent → MarketEvent
to_market_event s (ItchEvent.add locate ref side shares price) = event_at s locate (
    EventBody.add (record zero_order {
      side = from_side side;
      price = pos price;
      shares = shares;
      order_ref = ref;
    }))
to_market_event s (ItchEvent.delete locate ref) =
    event_at s locate (EventBody.delete (record zero_order { order_ref = ref }))
to_market_event s (ItchEvent.cancel locate ref shares) =
    event_at s locate (EventBody.cancel (record zero_order { order_ref = ref; shares = shares }))
to_market_event s (ItchEvent.replace locate ref new_ref shares price) = event_at s locate (
    EventBody.replace (record zero_order {
      order_ref = ref;
      new_order_ref = new_ref;
      price = pos price;
      shares = shares;
    }))
to_market_event s (ItchEvent.book locate) = event_at s locate (EventBody.add zero_order)

unfoldable pub make_execute : ℕ → ℕ → ℕ → MarketEvent
make_execute locate ref qty = record {
  body = EventBody.execute (record { side = buy; price = negsuc 0; volume = qty; order_ref = ref });
  seq_id = 0;
  locate = locate;
  timestamp = 0;
}

abbrev pub is_strategy_order : Simulator → ℕ → Bool
is_strategy_order s ref = has s.strategy_refs ref

unfoldable pub unregister_if_gone : Simulator → ℕ → ℕ → Simulator
unfolding find_order
unregister_if_gone s locate ref =
    let gone = record s { strategy_refs = erase_id ref s.strategy_refs } in
    elim (book_for s.engine locate) [
      | none ↦ gone
      | some (e, b) ↦ elim (find_order b ref) [
        | none ↦ record gone { engine = e }
        | some i ↦ record s { engine = e }
      ]
    ]

-- The side of the old order of a replacement; without it the engine refuses the side.
abbrev pub old_side : OrderBook → ℕ → Side
old_side b ref = elim (find_order b ref) [ none ↦ invalid | some i ↦ (b.storage i).side ]

-- The engine's answer to an order of the market; other events do not reach it.
unfoldable pub engine_answer : Engine → ItchEvent → Option (Engine × List BinaryResponse)
engine_answer e (ItchEvent.add locate ref side shares price) =
    some (process_add e locate ref side price shares ref [] day)
engine_answer e (ItchEvent.delete locate ref) = some (process_cancel e locate ref ref [])
engine_answer e (ItchEvent.cancel locate ref shares) =
    some (process_cancel_shares e locate ref shares ref [])
engine_answer e (ItchEvent.replace locate ref new_ref shares price) = elim (book_for e locate) [
  | none ↦ some (process_replace e locate ref new_ref invalid price shares ref [])
  | some (e', b) ↦ some (process_replace e' locate ref new_ref (old_side b ref) price shares ref [])
]
engine_answer e (ItchEvent.book locate) = none

abbrev pub locate_of : ItchEvent → ℕ
locate_of (ItchEvent.add locate ref side shares price) = locate
locate_of (ItchEvent.delete locate ref) = locate
locate_of (ItchEvent.cancel locate ref shares) = locate
locate_of (ItchEvent.replace locate ref new_ref shares price) = locate
locate_of (ItchEvent.book locate) = locate

abbrev pub taker_of : ItchEvent → ℕ
taker_of (ItchEvent.add locate ref side shares price) = ref
taker_of (ItchEvent.delete locate ref) = ref
taker_of (ItchEvent.cancel locate ref shares) = ref
taker_of (ItchEvent.replace locate ref new_ref shares price) = new_ref
taker_of (ItchEvent.book locate) = 0

-- A trade of a strategy's order takes shares from the market's order, which the view hears of.
unfoldable pub tell_trade : Simulator → Shared → ℕ → Trade → Simulator × Shared
unfolding broadcast make_execute
tell_trade s sh locate t =
    broadcast (record s { trades = add64 s.trades 1 }) sh
      (make_execute locate t.order_ref t.quantity)

-- `submit`: what each answer of the engine does, and the result so far.
unfoldable pub take_answers :
    Simulator
    → Shared
    → ℕ
    → ℕ
    → List BinaryResponse
    → ExchangeSubmitResult
    → Simulator × Shared × ExchangeSubmitResult
unfolding tell_trade
take_answers s sh locate id [] r = (s, sh, r)
take_answers s sh locate id (rsp_trade t ∷ rs) r =
    let (s', sh') = tell_trade s sh locate t in
    let (s'', sh'', r') = take_answers s' sh' locate id rs r in
    (
      s'',
      sh'',
      record r' {
        accepted = true;
        fills =
            record {
              type = FillType.executed;
              order_id = id;
              exchange_ref = 0;
              filled_qty = t.quantity;
              fill_price = pos t.price;
            }
            ∷ r'.fills;
      },
    )
take_answers s sh locate id (rsp_ok n ∷ rs) r =
    take_answers (record s { strategy_refs = add_id id s.strategy_refs }) sh locate id rs
      (record r { accepted = true })
take_answers s sh locate id (rsp_filled n ∷ rs) r =
    take_answers s sh locate id rs (record r { accepted = true })
take_answers s sh locate id (rsp_cancelled n ∷ rs) r = take_answers s sh locate id rs r
take_answers s sh locate id (rsp_error c ∷ rs) r = take_answers s sh locate id rs r

abbrev pub filled_total : List BinaryResponse → ℕ
filled_total [] = 0
filled_total (rsp_trade t ∷ rs) = add64 t.quantity (filled_total rs)
filled_total (_ ∷ rs) = filled_total rs

abbrev pub no_result : ExchangeSubmitResult
no_result = record { accepted = false; fully_filled = false; fills = [] }

abbrev pub engine_side : OrderSide → Side
engine_side side = if is_buy_side side then Side.buy else Side.sell

unfoldable pub submit :
    Simulator → Shared → Order → ℕ → OrderTif → Simulator × Shared × ExchangeSubmitResult
unfolding take_answers
submit s sh o id tif =
    let (e, rs) =
      process_add s.engine o.symbol_id id (engine_side o.side) (to_u64 o.price % u32_mod)
        (o.quantity % u32_mod) strategy_user_id [] tif in
    let (s', sh', r) =
      take_answers (record (tick_clock s) { engine = e }) sh o.symbol_id id rs no_result in
    (s', sh', record r { fully_filled = filled_total rs == o.quantity })

-- One answer to a cancel: the order is no longer registered, and the engine is told.
abbrev pub take_cancels : Simulator → ℕ → List BinaryResponse → Simulator × List Fill
take_cancels s id [] = (s, [])
take_cancels s id (r ∷ rs) =
    let told = record s { strategy_refs = erase_id id s.strategy_refs } in
    let fill : Fill = record {
      type = FillType.canceled;
      order_id = id;
      exchange_ref = 0;
      filled_qty = 0;
      fill_price = pos 0;
    } in
    elim r [
      | rsp_cancelled n ↦ let (s', fs) = take_cancels told id rs in (s', fill ∷ fs)
      | rsp_ok n ↦ let (s', fs) = take_cancels told id rs in (s', fill ∷ fs)
      | _ ↦ take_cancels s id rs
    ]

unfoldable pub cancel : Simulator → ℕ → ℕ → ℕ → Simulator × List Fill
cancel s id symbol_id user_id =
    let (e, rs) = process_cancel s.engine symbol_id id user_id [] in
    take_cancels (record (tick_clock s) { engine = e }) id rs

unfoldable pub book_quote : Simulator → ℕ → Simulator × Option BookQuote
book_quote s symbol_id = elim (book_for s.engine symbol_id) [
  | none ↦ (s, none)
  | some (e, b) ↦
      let t = get_top_of_book b in
      (
        record s { engine = e },
        if ltb 0 t.bid_price && ltb 0 t.ask_price
            then some (record {
              symbol_id = symbol_id;
              bid = pos t.bid_price;
              bid_vol = t.bid_volume;
              ask = pos t.ask_price;
              ask_vol = t.ask_volume;
            })
            else none,
      )
]

-- The simulator as the exchange of the execution engine.
unfoldable pub simulator_ops : ExchangeOps Simulator
simulator_ops = record { submit = submit; cancel = cancel; book_quote = book_quote }

-- A step of the simulator inside the execution engine that holds it.
abbrev pub with_simulator :
    (Simulator → Shared → Simulator × Shared) → Execution Simulator → Execution Simulator
with_simulator f e = elim e.exchange [
  | none ↦ e
  | some s ↦ let (s', sh) = f s e.shared in record e { exchange = some s'; shared = sh }
]

abbrev pub broadcast_execute : ℕ → ℕ → ℕ → Execution Simulator → Execution Simulator
broadcast_execute locate ref qty =
    with_simulator (λ s sh. broadcast s sh (make_execute locate ref qty))

-- A resting order of a strategy was filled: the report, then the register.
unfoldable pub on_strategy_maker_fill :
    Execution Simulator → ℕ → ℕ → ℕ → ℕ → Option (Execution Simulator)
unfolding unregister_if_gone
on_strategy_maker_fill e locate ref qty price =
    elim (on_order_report simulator_ops e (record {
      type = FillType.executed;
      order_id = ref;
      exchange_ref = 0;
      filled_qty = qty;
      fill_price = pos price;
    })) [
      | none ↦ none
      | some e' ↦ some (with_simulator (λ s sh. (unregister_if_gone s locate ref, sh)) e')
    ]

abbrev pub is_registered : Execution Simulator → ℕ → Bool
is_registered e ref = elim e.exchange [ none ↦ false | some s ↦ is_strategy_order s ref ]

abbrev pub count_trade : Execution Simulator → Execution Simulator
count_trade = with_simulator (λ s sh. (record s { trades = add64 s.trades 1 }, sh))

-- The loop over the engine's answers to an order of the market; other answers are passed over.
unfoldable pub tell_trades :
    Execution Simulator → ℕ → List BinaryResponse → Option (Execution Simulator)
unfolding on_strategy_maker_fill broadcast make_execute
tell_trades e locate [] = some e
tell_trades e locate (rsp_trade t ∷ rs) =
    let e1 = count_trade e in
    let e2 =
      if is_registered e1 t.order_ref
      then on_strategy_maker_fill e1 locate t.order_ref t.quantity t.price
      else some (broadcast_execute locate t.order_ref t.quantity e1) in
    elim e2 [ none ↦ none | some e' ↦ tell_trades e' locate rs ]
tell_trades e locate (rsp_ok n ∷ rs) = tell_trades e locate rs
tell_trades e locate (rsp_filled n ∷ rs) = tell_trades e locate rs
tell_trades e locate (rsp_cancelled n ∷ rs) = tell_trades e locate rs
tell_trades e locate (rsp_error c ∷ rs) = tell_trades e locate rs

-- What is told of an order of the market, once the engine has answered.
unfoldable pub tell_order :
    Execution Simulator → ItchEvent → List BinaryResponse → Option (Execution Simulator)
unfolding tell_trades to_market_event
tell_order e ev rs =
    let e1 = with_simulator (λ s sh. broadcast s sh (to_market_event s ev)) e in
    let fill = filled_total rs in
    elim (tell_trades e1 (locate_of ev) rs) [
      | none ↦ none
      | some e2 ↦
          some (if ltb 0 fill then broadcast_execute (locate_of ev) (taker_of ev) fill e2 else e2)
    ]

unfoldable pub on_market_order : Execution Simulator → ItchEvent → Option (Execution Simulator)
unfolding engine_answer tell_order
on_market_order e ev = elim e.exchange [
  | none ↦ some e
  | some s ↦ elim (engine_answer s.engine ev) [
    | none ↦ some (record e { exchange = some (tick_clock s) })
    | some (engine, rs) ↦
        tell_order (record e { exchange = some (record (tick_clock s) { engine = engine }) }) ev rs
  ]
]
