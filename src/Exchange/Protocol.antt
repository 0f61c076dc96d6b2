-- ===== src/Exchange/Protocol.antt =====
-- Responses, error codes and times in force (src/exchange/protocol.h). A response is the union
-- with its discriminator; the frame types of the network threads do not occur in the simulator.
use nebula_x_simulator.Prelude.{ℕ}
use nebula_x_simulator.Exchange.Order.{Side}

pub data ErrorCode : Type 0 where
  invalid_side invalid_price_qty_user order_not_found invalid_command_type : ErrorCode
  pool_full mkt_no_liquidity fok_no_full_fill : ErrorCode

pub data OrderTif : Type 0 where
  day ioc fok : OrderTif

-- `data.trade`; the side is that of the resting order.
pub record Trade : Type 0 where
  pub locate : ℕ
  pub order_ref : ℕ
  pub side : Side
  pub price : ℕ
  pub quantity : ℕ

pub data BinaryResponse : Type 0 where
  rsp_trade : Trade → BinaryResponse
  rsp_ok rsp_filled rsp_cancelled : ℕ → BinaryResponse
  rsp_error : ErrorCode → BinaryResponse
