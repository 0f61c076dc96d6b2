-- ===== src/Core/Event.antt =====
-- The market events (src/core/market_event.h): the tagged union as one constructor per type.
use nebula_x_simulator.Prelude.{ℕ}
use nebula_x_simulator.Prelude.Int.{ℤ}
use nebula_x_simulator.Core.{OrderSide}

pub record TradeInfo : Type 0 where
  pub side : OrderSide
  pub price : ℤ
  pub volume : ℕ
  pub order_ref : ℕ

pub record OrderInfo : Type 0 where
  pub side : OrderSide
  pub price : ℤ
  pub shares : ℕ
  pub order_ref : ℕ
  pub new_order_ref : ℕ

pub data EventBody : Type 0 where
  add delete cancel replace : OrderInfo → EventBody
  trade execute : TradeInfo → EventBody

pub record MarketEvent : Type 0 where
  pub body : EventBody
  pub seq_id : ℕ
  pub locate : ℕ
  pub timestamp : ℕ
