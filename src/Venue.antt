-- ===== src/Venue.antt =====
-- The exchange as the trading side sees it (src/exchange/i_exchange_simulator.h): reports, quotes,
-- and the interface that the execution engine takes as a parameter.
use nebula_x_simulator.Prelude.{ℕ, ◌+◌, ◌≤◌, ◌≡◌, Bool, List, [], ◌∷◌, Option}
use nebula_x_simulator.Prelude.Int.{ℤ}
use nebula_x_simulator.Core.{Order}
use nebula_x_simulator.Exchange.Protocol.{OrderTif}
use nebula_x_simulator.Risk.{RiskManager, position}

-- 'A', 'E', 'C', 'J', and any other letter.
pub data FillType : Type 0 where
  accepted executed canceled rejected other_type : FillType

pub record Fill : Type 0 where
  pub type : FillType
  pub order_id : ℕ
  pub exchange_ref : ℕ
  pub filled_qty : ℕ
  pub fill_price : ℤ

pub record BookQuote : Type 0 where
  pub symbol_id : ℕ
  pub bid : ℤ
  pub bid_vol : ℕ
  pub ask : ℤ
  pub ask_vol : ℕ

pub record ExchangeSubmitResult : Type 0 where
  pub accepted : Bool
  pub fully_filled : Bool
  pub fills : List Fill

-- `kStrategyUserId`
abbrev pub strategy_user_id : ℕ
strategy_user_id = 1314414421

-- What the subscribers of the exchange's broadcast write while it runs: the risk manager's market
-- prices, and the context for the trade records.
pub record Shared : Type 0 where
  pub risk : RiskManager
  pub segment : ℕ
  pub seq : ℕ

-- `IExchangeSimulator` over a state `X`. `cancel` gives the reports that it calls
-- `on_order_report` with, in their order.
pub record ExchangeOps (X : Type 0) : Type 0 where
  pub submit : X → Shared → Order → ℕ → OrderTif → X × Shared × ExchangeSubmitResult
  pub cancel : X → ℕ → ℕ → ℕ → X × List Fill
  pub book_quote : X → ℕ → X × Option BookQuote

abbrev pub sum_fills : List Fill → ℕ
sum_fills [] = 0
sum_fills (f ∷ fs) = f.filled_qty + sum_fills fs

-- What the execution engine relies on: the subscribers leave the positions, and an order is not
-- filled past its quantity.
pub record ExchangeLaws {X : Type 0} (ops : ExchangeOps X) : Type 0 where
  pub keeps :
      (x : X) (s : Shared) (o : Order) (id : ℕ) (tif : OrderTif) (symbol : ℕ)
      → position (ops.submit x s o id tif).1.risk symbol ≡ position s.risk symbol
  pub fits :
      (x : X) (s : Shared) (o : Order) (id : ℕ) (tif : OrderTif)
      → sum_fills (ops.submit x s o id tif).2.fills ≤ o.quantity
