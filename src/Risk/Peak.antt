-- ===== src/Risk/Peak.antt =====
-- The peak of the equity (`update_equity` of src/risk/risk_manager.h), which the drawdown is
-- measured from.
use nebula_x_simulator.Prelude.{
  ℕ, zero, suc, ◌≡◌, refl, ap, sym, subst, inl, inr, arith, Bool-cases,
}
use nebula_x_simulator.Prelude.Int.{ℤ, ◌≤ℤ◌, ◌+ℤ◌, ltb_ℤ, ltb_ℤ→lt, ltb_ℤ→ge}
use nebula_x_simulator.Core.{Order}
use nebula_x_simulator.Risk.{
  RiskManager, book_fill, on_fill, mark, update_equity, equity, floating, floating_sum, max_locate,
}

-- The manager with another peak.
abbrev with_peak : RiskManager → ℤ → RiskManager
with_peak r p = record r { equity_peak = p }

floating_sum-with_peak :
    (r : RiskManager) (p : ℤ) (n : ℕ) → floating_sum (with_peak r p) n ≡ floating_sum r n
unfolding floating_sum
floating_sum-with_peak r p zero = refl
floating_sum-with_peak r p (suc n) = ap (λ s. s +ℤ floating r n) (floating_sum-with_peak r p n)

equity-with_peak : (r : RiskManager) (p : ℤ) → equity (with_peak r p) ≡ equity r
unfolding equity
equity-with_peak r p =
    ap (λ s. r.initial_equity +ℤ r.realized_pnl +ℤ s) (floating_sum-with_peak r p max_locate)

-- The peak is at least the equity, and has not fallen from `p`.
pub record IsPeak (p : ℤ) (r : RiskManager) : Type 0 where
  pub high : equity r ≤ℤ r.equity_peak
  pub kept : p ≤ℤ r.equity_peak

update_equity-IsPeak : (r : RiskManager) → IsPeak r.equity_peak (update_equity r)
unfolding update_equity
update_equity-IsPeak r = elim (Bool-cases (ltb_ℤ r.equity_peak (equity r))) [
  | inl h ↦
      rw (h, update_equity)
        (record {
          high = subst (λ q. q ≤ℤ equity r) (sym (equity-with_peak r (equity r))) (omega arith);
          kept = ground (arith, ltb_ℤ→lt r.equity_peak (equity r) h);
        })
  | inr h ↦
      rw (h, update_equity)
        (record { high = ltb_ℤ→ge r.equity_peak (equity r) h; kept = omega arith })
]

book_fill-peak :
    (r : RiskManager) (o : Order) (filled : ℕ) → (book_fill r o filled).equity_peak ≡ r.equity_peak
unfolding book_fill
book_fill-peak r o filled = ground arith

-- After any fill, and after any new market price, the peak of the equity is at least the equity, so
-- that the drawdown is not negative, and it is at least the peak before.
pub fill_mark-IsPeak :
    (r : RiskManager) (o : Order) (filled symbol : ℕ) (price : ℤ)
    → IsPeak r.equity_peak (on_fill r o filled) × IsPeak r.equity_peak (mark r symbol price)
unfolding on_fill mark
fill_mark-IsPeak r o filled symbol price = (
  subst (λ p. IsPeak p (on_fill r o filled)) (book_fill-peak r o filled)
      (update_equity-IsPeak (book_fill r o filled)),
  update_equity-IsPeak _,
)
