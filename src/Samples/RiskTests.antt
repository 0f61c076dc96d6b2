-- ===== src/Samples/RiskTests.antt =====
-- The risk manager on small inputs.
use nebula_x_simulator.Prelude.{ℕ, zero, suc, ◌<◌, u64_mod, ◌≡◌, ◌≤◌, ◌+◌, true, false, refl, arith}
use nebula_x_simulator.Prelude.Int.{pos, ◌+ℤ◌, ◌-ℤ◌}
use nebula_x_simulator.Core.{Order, sell, limit}
use nebula_x_simulator.Risk.{
  RiskManager, check_order, on_fill, mark, position, floating_sum, equity, max_locate,
  daily_loss_breached, drawdown_paused, drawdown, locate_idx,
}
use nebula_x_simulator.Risk.Gate.{moved, is_buyer, on_fill-moved}
use nebula_x_simulator.Risk.Peak.{IsPeak, fill_mark-IsPeak}

-- Thirty shares of the stock 5, bought at 1000.
abbrev holder : RiskManager
holder = record {
  max_position = 100;
  max_daily_loss = pos 5000;
  initial_equity = pos 100000;
  max_drawdown_pause = pos 1000;
  max_drawdown_flatten = pos 2000;
  qty = λ l. 30;
  avg_cost = λ l. pos 1000;
  mark_price = λ l. pos 0;
  realized_pnl = pos 0;
  equity_peak = pos 100000;
}

abbrev sale : Order
sale = record {
  order_id = 1;
  strategy_id = 2;
  symbol_id = 5;
  side = sell;
  type = limit;
  price = pos 990;
  quantity = 20;
  timestamp = 0;
}

fill_mark-IsPeak_example :
    IsPeak (pos 100000) (on_fill holder sale 20) × IsPeak (pos 100000) (mark holder 5 (pos 1010))
fill_mark-IsPeak_example = fill_mark-IsPeak holder sale 20 5 (pos 1010)

-- Nothing is marked to market yet.
no_floating : (n : ℕ) → floating_sum holder n ≡ pos 0
unfolding floating_sum ◌+ℤ◌
no_floating zero = refl
no_floating (suc n) = rw (no_floating n) refl

holder-equity : equity holder ≡ pos 100000
unfolding equity ◌+ℤ◌
holder-equity = rw (no_floating max_locate) refl

sale_open : check_order holder sale ≡ true
unfolding check_order daily_loss_breached drawdown_paused drawdown locate_idx ◌-ℤ◌
sale_open = rw (holder-equity) refl

small_position : position holder sale.symbol_id + sale.quantity < u64_mod
unfolding position
small_position = omega arith

on_fill-moved_example :
    (position (on_fill holder sale 20) 5 ≡ moved holder sale 20 5)
    × (is_buyer sale.side ≡ true → position holder 5 + 20 ≤ 100)
    × (is_buyer sale.side ≡ false → 20 ≤ position holder 5)
on_fill-moved_example = on_fill-moved holder sale 20 5 sale_open (omega arith) small_position
