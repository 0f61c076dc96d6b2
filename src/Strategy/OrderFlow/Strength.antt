-- ===== src/Strategy/OrderFlow/Strength.antt =====
-- The strength of the order flow signal (src/strategy/tick/order_flow_imbalance_strategy.h).
use nebula_x_simulator.Prelude.{
  ℕ, suc, ◌-◌, ◌*◌, ◌/◌, ◌≤◌, ◌<◌, ◌≡◌, refl, if◌then◌else◌, arith, ltb, Bool-cases, inl, inr,
}
use nebula_x_simulator.Prelude.Int.{ℤ, pos, negsuc, ◌-ℤ◌, ◌*ℤ◌, div_ℤ, ltb_ℤ, leb_ℤ, pos-*ℤ}
use nebula_x_simulator.Core.{buy, sell, none_side}
use nebula_x_simulator.Strategy.Arbitrate.{direction}
use nebula_x_simulator.Strategy.Arbitrate.Strength.{strength_scale}
use nebula_x_simulator.Strategy.OrderFlow.{flow_strength, saturate}

-- A value between none and full strength.
abbrev pub IsScaled : ℤ → Type 0
IsScaled x = (n : ℕ) × (x ≡ pos n) × (n ≤ strength_scale)

pub share_bounded : (a d : ℕ) → a < d → a * strength_scale / d ≤ strength_scale
share_bounded a d h = grind arith

-- Above the saturation full, below it a share of full.
abbrev pub ramp : ℕ → ℕ → ℤ
ramp over span =
    if leb_ℤ (pos span) (pos over)
    then pos strength_scale
    else div_ℤ (pos over *ℤ pos strength_scale) span

ramp-IsScaled : (over span : ℕ) → IsScaled (ramp over span)
unfolding div_ℤ
ramp-IsScaled over span = elim (Bool-cases (leb_ℤ (pos span) (pos over))) [
  | inl h ↦ rw h (strength_scale, refl, omega arith)
  | inr h ↦
      rw (h, pos-*ℤ over strength_scale)
        (over * strength_scale / span, refl, share_bounded over span (ground arith))
]

span_one : (t : ℕ) → pos t *ℤ (saturate -ℤ pos 1) ≡ pos t
unfolding ◌*ℤ◌ ◌-ℤ◌
span_one t = ground arith

over_up :
    (o t : ℕ)
    → t < o
    → (if ltb_ℤ (pos 0) (pos o) then pos o else pos 0 -ℤ pos o) -ℤ pos t ≡ pos (o - t)
unfolding ◌-ℤ◌
over_up o t h = ground arith

over_down :
    (o t : ℕ)
    → t < suc o
    → (if ltb_ℤ (pos 0) (negsuc o) then negsuc o else pos 0 -ℤ negsuc o) -ℤ pos t ≡ pos (suc o - t)
unfolding ◌-ℤ◌
over_down o t h = ground arith

rise-ramp : (o t : ℕ) → t < o → flow_strength (pos o) (pos t) buy ≡ ramp (o - t) t
unfolding flow_strength
rise-ramp o t h = rw (over_up o t h, span_one t) refl

fall-ramp : (o t : ℕ) → t < suc o → flow_strength (negsuc o) (pos t) sell ≡ ramp (suc o - t) t
unfolding flow_strength
fall-ramp o t h = rw (over_down o t h, span_one t) refl

direction_up : (o t : ℕ) → t < o → direction (pos o) (pos t) ≡ buy
unfolding direction
direction_up o t h = ground arith

direction_down : (o t : ℕ) → t < suc o → direction (negsuc o) (pos t) ≡ sell
unfolding direction ◌-ℤ◌
direction_down o t h = ground arith

direction_low : (o t : ℕ) → o ≤ t → direction (pos o) (pos t) ≡ none_side
unfolding direction ◌-ℤ◌
direction_low o t h = ground arith

direction_high : (o t : ℕ) → suc o ≤ t → direction (negsuc o) (pos t) ≡ none_side
unfolding direction ◌-ℤ◌
direction_high o t h = ground arith

no_strength : (x t : ℤ) → IsScaled (flow_strength x t none_side)
unfolding flow_strength
no_strength x t = (0, refl, omega arith)

-- The strength of the side that the flow has, at a threshold that is not negative.
pub flow_strength-IsScaled :
    (ofi : ℤ) (t : ℕ) → IsScaled (flow_strength ofi (pos t) (direction ofi (pos t)))
flow_strength-IsScaled (pos o) t = elim (Bool-cases (ltb t o)) [
  | inl h ↦
      rw (direction_up o t (ground arith), rise-ramp o t (ground arith)) (ramp-IsScaled (o - t) t)
  | inr h ↦ rw (direction_low o t (ground arith)) (no_strength (pos o) (pos t))
]
flow_strength-IsScaled (negsuc o) t = elim (Bool-cases (ltb t (suc o))) [
  | inl h ↦
      rw (direction_down o t (ground arith), fall-ramp o t (ground arith))
        (ramp-IsScaled (suc o - t) t)
  | inr h ↦ rw (direction_high o t (ground arith)) (no_strength (negsuc o) (pos t))
]
