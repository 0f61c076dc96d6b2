-- ===== src/Strategy/BookImbalance.antt =====
-- The book imbalance strategy (src/strategy/tick/order_book_imbalance_strategy.h). The threshold is
-- the source's (int64_t)(threshold * 10000), since its double is only read there.
pub mod Strength
use nebula_x_simulator.Prelude.{ℕ, Bool, true, false, if◌then◌else◌, add64, ◌==◌}
use nebula_x_simulator.Prelude.Int.{ℤ, pos, pos_part, ◌+ℤ◌, ◌-ℤ◌, ◌*ℤ◌, div_ℤ, ltb_ℤ, leb_ℤ}
use nebula_x_simulator.Core.{OrderSide, buy, sell, none_side}
use nebula_x_simulator.Core.Event.{MarketEvent}
use nebula_x_simulator.Strategy.Arbitrate.{direction}
use nebula_x_simulator.Strategy.Arbitrate.Strength.{strength_scale}
use nebula_x_simulator.Strategy.Signal.{Signal, BookContext}

pub record BookImbalance : Type 0 where
  pub threshold : ℤ
  pub current : OrderSide
  pub locate : ℕ
  pub bid_price : ℤ
  pub ask_price : ℤ
  pub timestamp : ℕ
  pub strength : ℤ

unfoldable pub book_imbalance : ℤ → BookImbalance
book_imbalance threshold = record {
  threshold = threshold;
  current = none_side;
  locate = 0;
  bid_price = pos 0;
  ask_price = pos 0;
  timestamp = 0;
  strength = pos 0;
}

-- `(bid_vol - ask_vol) * 10000 / sum`
unfoldable pub imbalance : ℕ → ℕ → ℤ
imbalance bid_vol ask_vol =
    div_ℤ ((pos bid_vol -ℤ pos ask_vol) *ℤ pos strength_scale) (add64 bid_vol ask_vol)

unfoldable pub imbalance_strength : ℤ → ℤ → ℤ
imbalance_strength obi th =
    let mag = if ltb_ℤ (pos 0) obi then obi else pos 0 -ℤ obi in
    if leb_ℤ th mag
    then pos strength_scale
    else div_ℤ (mag *ℤ pos strength_scale) (pos_part (th +ℤ pos 1))

unfoldable pub on_book : BookImbalance → ℕ → ℤ → ℕ → ℤ → ℕ → ℕ → BookImbalance
unfolding imbalance imbalance_strength
on_book s locate bid bid_vol ask ask_vol timestamp =
    let seen = record s {
      locate = locate;
      bid_price = bid;
      ask_price = ask;
      timestamp = timestamp;
    } in
    let obi = imbalance bid_vol ask_vol in
    if add64 bid_vol ask_vol == 0
    then record seen { current = none_side; strength = pos 0 }
    else record seen {
      current = direction obi s.threshold;
      strength = imbalance_strength obi s.threshold;
    }

unfoldable pub on_market : BookImbalance → MarketEvent → BookContext → BookImbalance
on_market s ev ctx =
    if ctx.has_book
    then on_book s ev.locate ctx.bid ctx.bid_vol ctx.ask ctx.ask_vol ev.timestamp
    else s

abbrev pub is_buy_side : OrderSide → Bool
is_buy_side buy = true
is_buy_side _ = false

unfoldable pub signal : BookImbalance → Signal
signal s = record {
  side = s.current;
  locate = s.locate;
  price = if is_buy_side s.current then s.bid_price else s.ask_price;
  timestamp = s.timestamp;
  strength = s.strength;
}
