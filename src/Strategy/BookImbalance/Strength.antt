-- ===== src/Strategy/BookImbalance/Strength.antt =====
-- The strength of the book imbalance (src/strategy/tick/order_book_imbalance_strategy.h).
use nebula_x_simulator.Prelude.{
  ℕ, zero, suc, ◌+◌, ◌*◌, ◌/◌, ◌≡◌, refl, true, if◌then◌else◌, add64, ◌==◌, arith, Bool-cases, inl,
  inr,
}
use nebula_x_simulator.Prelude.Int.{ℤ, pos, negsuc, ◌-ℤ◌, div_ℤ, ltb_ℤ, leb_ℤ, pos-*ℤ, pos-+ℤ}
use nebula_x_simulator.Strategy.Arbitrate.{direction}
use nebula_x_simulator.Strategy.Arbitrate.Direction.{is_side}
use nebula_x_simulator.Strategy.Arbitrate.Strength.{strength_scale}
use nebula_x_simulator.Strategy.OrderFlow.Strength.{IsScaled, share_bounded}
use nebula_x_simulator.Strategy.BookImbalance.{
  BookImbalance, on_book, imbalance, imbalance_strength,
}

abbrev pub mag : ℤ → ℤ
mag x = if ltb_ℤ (pos 0) x then x else pos 0 -ℤ x

mag_natural : (x : ℤ) → (k : ℕ) × (mag x ≡ pos k)
unfolding ◌-ℤ◌
mag_natural (pos zero) = (0, refl)
mag_natural (pos (suc k)) = (suc k, ground arith)
mag_natural (negsuc k) = (suc k, ground arith)

imbalance_strength-IsScaled : (obi : ℤ) (t : ℕ) → IsScaled (imbalance_strength obi (pos t))
unfolding imbalance_strength div_ℤ
imbalance_strength-IsScaled obi t =
    let (k, e) = mag_natural obi in
    elim (Bool-cases (leb_ℤ (pos t) (pos k))) [
      | inl h ↦ rw (e, h) (strength_scale, refl, omega arith)
      | inr h ↦
          rw (e, h, pos-*ℤ k strength_scale, pos-+ℤ t 1)
            (k * strength_scale / (t + 1), refl, share_bounded k (t + 1) (ground arith))
    ]

-- A side is only there when the imbalance reaches the threshold.
reached :
    (obi : ℤ) (t : ℕ) → is_side (direction obi (pos t)) ≡ true → leb_ℤ (pos t) (mag obi) ≡ true
unfolding direction ◌-ℤ◌
reached (pos zero) t h = ground arith
reached (pos (suc k)) t h = ground arith
reached (negsuc k) t h = ground arith

side_full :
    (obi : ℤ) (t : ℕ)
    → is_side (direction obi (pos t)) ≡ true
    → imbalance_strength obi (pos t) ≡ pos strength_scale
unfolding imbalance_strength
side_full obi t h = rw (reached obi t h) refl

-- With a threshold that is not negative, the strength after any view of the book lies between none
-- and full, and a signal to buy or to sell always has full strength.
pub on_book-IsScaled :
    (s : BookImbalance) (t l : ℕ) (bid : ℤ) (bid_vol : ℕ) (ask : ℤ) (ask_vol time : ℕ)
    → s.threshold ≡ pos t
    → let s' = on_book s l bid bid_vol ask ask_vol time in
      IsScaled s'.strength × (is_side s'.current ≡ true → s'.strength ≡ pos strength_scale)
unfolding on_book
on_book-IsScaled s t l bid bid_vol ask ask_vol time e =
    elim (Bool-cases (add64 bid_vol ask_vol == 0)) [
      | inl h ↦ rw h ((0, refl, omega arith), λ k. ground arith)
      | inr h ↦
          rw (h, e)
            (
              imbalance_strength-IsScaled (imbalance bid_vol ask_vol) t,
              side_full (imbalance bid_vol ask_vol) t,
            )
    ]
