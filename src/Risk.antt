-- ===== src/Risk.antt =====
-- The risk manager (src/risk/risk_manager.h): gate before an order, positions and profit after a
-- fill, mark to market. Money is signed 64-bit in the source and an integer here.
pub mod Gate
pub mod Peak
use nebula_x_simulator.Prelude.{
  ℕ, zero, suc, Bool, false, if◌then◌else◌, ltb, leb, ◌==◌, add64, sub64, update, ◌||◌, ◌&&◌,
}
use nebula_x_simulator.Prelude.Int.{ℤ, pos, ◌+ℤ◌, ◌-ℤ◌, ◌*ℤ◌, div_ℤ, ltb_ℤ, leb_ℤ}
use nebula_x_simulator.Core.{Order, buy, sell, none_side}

pub record RiskManager : Type 0 where
  pub max_position : ℕ
  pub max_daily_loss : ℤ
  pub initial_equity : ℤ
  pub max_drawdown_pause : ℤ
  pub max_drawdown_flatten : ℤ
  pub qty : ℕ → ℕ
  pub avg_cost : ℕ → ℤ
  pub mark_price : ℕ → ℤ
  pub realized_pnl : ℤ
  pub equity_peak : ℤ

abbrev pub max_locate : ℕ
max_locate = 65536

unfoldable pub locate_idx : ℕ → ℕ
locate_idx symbol_id = if ltb symbol_id max_locate then symbol_id else 0

-- A position's share of the equity: `q > 0 && mk > 0` counts `q * (mk - avg_cost)`.
abbrev pub floating : RiskManager → ℕ → ℤ
floating r l =
    if ltb 0 (r.qty l) && ltb_ℤ (pos 0) (r.mark_price l)
    then pos (r.qty l) *ℤ (r.mark_price l -ℤ r.avg_cost l)
    else pos 0

-- The sum over the locates below `n`.
unfoldable pub floating_sum : RiskManager → ℕ → ℤ
floating_sum r zero = pos 0
floating_sum r (suc n) = floating_sum r n +ℤ floating r n

unfoldable pub equity : RiskManager → ℤ
equity r = r.initial_equity +ℤ r.realized_pnl +ℤ floating_sum r max_locate

unfoldable pub drawdown : RiskManager → ℤ
drawdown r = r.equity_peak -ℤ equity r

unfoldable pub drawdown_paused : RiskManager → Bool
drawdown_paused r = ltb_ℤ r.max_drawdown_pause (drawdown r)

unfoldable pub drawdown_flatten : RiskManager → Bool
drawdown_flatten r = ltb_ℤ r.max_drawdown_flatten (drawdown r)

unfoldable pub update_equity : RiskManager → RiskManager
update_equity r = if ltb_ℤ r.equity_peak (equity r) then record r { equity_peak = equity r } else r

unfoldable pub daily_loss_breached : RiskManager → Bool
daily_loss_breached r = leb_ℤ r.realized_pnl (pos 0 -ℤ r.max_daily_loss)

unfoldable pub check_order : RiskManager → Order → Bool
check_order r o =
    if o.quantity == 0 || daily_loss_breached r || drawdown_paused r then false else elim o.side [
      | buy ↦ leb (add64 (r.qty (locate_idx o.symbol_id)) o.quantity) r.max_position
      | sell ↦ leb o.quantity (r.qty (locate_idx o.symbol_id))
      | none_side ↦ false
    ]

-- The position after a fill; the equity's peak follows.
unfoldable pub book_fill : RiskManager → Order → ℕ → RiskManager
book_fill r o filled_qty =
    let loc = locate_idx o.symbol_id in
    let old = r.qty loc in
    let bought = add64 old filled_qty in
    let total = r.avg_cost loc *ℤ pos old +ℤ o.price *ℤ pos filled_qty in
    let sold = if ltb filled_qty old then filled_qty else old in
    let left = sub64 old sold in
    elim o.side [
      | buy ↦ record r {
        qty = update r.qty loc bought;
        avg_cost = update r.avg_cost loc (if bought == 0 then pos 0 else div_ℤ total bought);
      }
      | sell ↦ record r {
        realized_pnl = r.realized_pnl +ℤ (o.price -ℤ r.avg_cost loc) *ℤ pos sold;
        qty = update r.qty loc left;
        avg_cost = if left == 0 then update r.avg_cost loc (pos 0) else r.avg_cost;
      }
      | none_side ↦ r
    ]

unfoldable pub on_fill : RiskManager → Order → ℕ → RiskManager
unfolding book_fill
on_fill r o filled_qty = update_equity (book_fill r o filled_qty)

unfoldable pub mark : RiskManager → ℕ → ℤ → RiskManager
mark r symbol_id price =
    update_equity (record r { mark_price = update r.mark_price (locate_idx symbol_id) price })

unfoldable pub position : RiskManager → ℕ → ℕ
position r symbol_id = r.qty (locate_idx symbol_id)

unfoldable pub set_initial_equity : RiskManager → ℤ → RiskManager
set_initial_equity r eq = record r { initial_equity = eq; equity_peak = eq }
