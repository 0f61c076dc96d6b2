-- ===== src/Strategy/Signal.antt =====
-- What a strategy reads and gives (src/strategy/base/signal.h, strategy.h).
use nebula_x_simulator.Prelude.{ℕ, Bool}
use nebula_x_simulator.Prelude.Int.{ℤ}
use nebula_x_simulator.Core.{OrderSide}

pub record Signal : Type 0 where
  pub side : OrderSide
  pub locate : ℕ
  pub price : ℤ
  pub timestamp : ℕ
  pub strength : ℤ

-- `has_book` is the test of the book's pointer, which no strategy follows.
pub record BookContext : Type 0 where
  pub has_book : Bool
  pub side : OrderSide
  pub mid : ℤ
  pub bid : ℤ
  pub bid_vol : ℕ
  pub ask : ℤ
  pub ask_vol : ℕ
  pub seq : ℕ
