-- ===== src/Exchange/Order.antt =====
-- Orders and their states (src/exchange/order.h).
use nebula_x_simulator.Prelude.{ℕ, Bool, true, false, u32_max}

pub data Side : Type 0 where
  invalid buy sell : Side

pub data OrderStatus : Type 0 where
  opened partially_filled filled cancelled : OrderStatus

-- A pool slot. The links hold slot numbers, with UINT32_MAX for none.
pub record Order : Type 0 where
  pub user_id : ℕ
  pub order_id : ℕ
  pub side : Side
  pub price : ℕ
  pub original_qty : ℕ
  pub remaining_qty : ℕ
  pub filled_qty : ℕ
  pub sequence : ℕ
  pub status : OrderStatus
  pub prev_idx : ℕ
  pub next_idx : ℕ
  pub pool_next_free : ℕ

-- The member initialisers.
abbrev pub default_order : Order
default_order = record {
  user_id = 0;
  order_id = 0;
  side = Side.invalid;
  price = 0;
  original_qty = 0;
  remaining_qty = 0;
  filled_qty = 0;
  sequence = 0;
  status = OrderStatus.opened;
  prev_idx = u32_max;
  next_idx = u32_max;
  pool_next_free = u32_max;
}

-- `side == Side::BUY`
abbrev pub is_buy : Side → Bool
is_buy Side.buy = true
is_buy _ = false
