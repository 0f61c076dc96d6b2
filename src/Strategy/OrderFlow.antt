-- ===== src/Strategy/OrderFlow.antt =====
-- The order flow strategy (src/strategy/tick/order_flow_imbalance_strategy.h): the net flow of the
-- last 1024 events, in a ring. int64 values are integers; the write position wraps at 64 bits.
pub mod Window
pub mod Strength
use nebula_x_simulator.Prelude.{ℕ, ◌%◌, true, false, if◌then◌else◌, ltb, add64, update, ◌&&◌}
use nebula_x_simulator.Prelude.Int.{ℤ, pos, pos_part, ◌+ℤ◌, ◌-ℤ◌, ◌*ℤ◌, div_ℤ, ltb_ℤ, leb_ℤ}
use nebula_x_simulator.Core.{OrderSide, buy, sell, none_side}
use nebula_x_simulator.Core.Event.{MarketEvent, EventBody}
use nebula_x_simulator.Strategy.Arbitrate.{direction}
use nebula_x_simulator.Strategy.Arbitrate.Strength.{strength_scale}
use nebula_x_simulator.Strategy.Signal.{Signal, BookContext}

pub record OrderFlow : Type 0 where
  pub threshold : ℤ
  pub ofi : ℤ
  pub win : ℕ → ℤ
  pub widx : ℕ
  pub current : OrderSide
  pub locate : ℕ
  pub last_price : ℤ
  pub last_ts : ℕ
  pub strength : ℤ

abbrev pub window_size : ℕ
window_size = 1024

abbrev pub saturate : ℤ
saturate = pos 2

unfoldable pub order_flow : ℤ → OrderFlow
order_flow threshold = record {
  threshold = threshold;
  ofi = pos 0;
  win = λ i. pos 0;
  widx = 0;
  current = none_side;
  locate = 0;
  last_price = pos 0;
  last_ts = 0;
  strength = pos 0;
}

unfoldable pub reset : OrderFlow → OrderFlow
reset s = record s {
  ofi = pos 0;
  current = none_side;
  strength = pos 0;
  win = λ i. pos 0;
  widx = 0;
}

-- `(side == BUY) ? n : -n`
abbrev pub signed : OrderSide → ℕ → ℤ
signed buy n = pos n
signed _ n = pos 0 -ℤ pos n

abbrev pub signed_away : OrderSide → ℕ → ℤ
signed_away buy n = pos 0 -ℤ pos n
signed_away _ n = pos n

-- What an event adds to the flow.
unfoldable pub flow : EventBody → OrderSide → ℤ
flow (EventBody.add o) side = signed side o.shares
flow (EventBody.delete o) side = signed_away side o.shares
flow (EventBody.cancel o) side = signed_away side o.shares
flow (EventBody.replace o) side = signed side o.shares
flow (EventBody.execute t) side = signed_away side t.volume
flow (EventBody.trade t) side = signed_away side t.volume

-- The window takes the new value and, when it is full, drops the oldest.
unfoldable pub slide : OrderFlow → ℤ → OrderFlow
slide s delta =
    let filling = ltb s.widx window_size in
    let slot = s.widx % window_size in
    record s {
      win = update s.win (if filling then s.widx else slot) delta;
      ofi = (if filling then s.ofi else s.ofi -ℤ s.win slot) +ℤ delta;
      widx = add64 s.widx 1;
    }

unfoldable pub flow_strength : ℤ → ℤ → OrderSide → ℤ
flow_strength ofi threshold none_side = pos 0
flow_strength ofi threshold side =
    let mag = if ltb_ℤ (pos 0) ofi then ofi else pos 0 -ℤ ofi in
    let over = mag -ℤ threshold in
    let span = threshold *ℤ (saturate -ℤ pos 1) in
    if leb_ℤ span over
    then pos strength_scale
    else div_ℤ (over *ℤ pos strength_scale) (pos_part span)

-- The side and the strength, from the window's sum.
unfoldable pub signal_up : OrderFlow → OrderFlow
signal_up s =
    let side = direction s.ofi s.threshold in
    record s { current = side; strength = flow_strength s.ofi s.threshold side }

unfoldable pub on_event : OrderFlow → MarketEvent → OrderSide → OrderFlow
unfolding slide signal_up
on_event s ev side =
    signal_up (slide (record s { locate = ev.locate; last_ts = ev.timestamp }) (flow ev.body side))

abbrev pub set_last_price : OrderFlow → ℤ → OrderFlow
set_last_price s p = record s { last_price = p }

abbrev pub heard : OrderFlow → MarketEvent → OrderSide → OrderFlow
heard s ev none_side = s
heard s ev side = on_event s ev side

unfoldable pub on_market : OrderFlow → MarketEvent → BookContext → OrderFlow
on_market s ev ctx =
    let s' = heard s ev ctx.side in
    if leb_ℤ (pos 0) ctx.bid && leb_ℤ (pos 0) ctx.ask then set_last_price s' ctx.mid else s'

unfoldable pub signal : OrderFlow → Signal
signal s = record {
  side = s.current;
  locate = s.locate;
  price = s.last_price;
  timestamp = s.last_ts;
  strength = s.strength;
}
