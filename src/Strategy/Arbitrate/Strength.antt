-- ===== src/Strategy/Arbitrate/Strength.antt =====
-- How strong the decision is (src/strategy/base/arbitrate.h).
use nebula_x_simulator.Prelude.{
  ℕ, ◌+◌, ◌*◌, ◌/◌, ◌≤◌, ◌<◌, ◌≡◌, refl, List, [], ◌∷◌, get_elem?, arith, ltb, Option-cases,
  Bool-cases, inl, inr, All,
}
use nebula_x_simulator.Prelude.Int.{ℤ, pos, div_ℤ, pos-*ℤ, pos-+ℤ}
use nebula_x_simulator.Core.{OrderSide, buy, sell, none_side}
use nebula_x_simulator.Strategy.Arbitrate.{
  ArbSignal, same_side, weigh_from, average, decide_dir, direction, net_from, arbitrate_decide,
}

-- A full strength, `Signal::kStrengthScale`.
abbrev pub strength_scale : ℕ
strength_scale = 10000

-- The weight is not negative, and the strength lies between none and full.
abbrev pub InScale : ArbSignal × ℤ → Type 0
InScale (s, w) = (a b : ℕ) × (s.strength ≡ pos a) × (w ≡ pos b) × (a ≤ strength_scale)

mul_scale :
    (a b w sw : ℕ)
    → a ≤ strength_scale
    → sw ≤ strength_scale * w
    → sw + a * b ≤ strength_scale * (w + b)
mul_scale a b w sw h k = grind arith

-- The two sums are not negative, and the strengths' is at most full strength times the weights'.
weigh_bounded :
    (d : OrderSide) (sigs : List (ArbSignal × ℤ)) (w sw : ℕ)
    → All InScale sigs
    → sw ≤ strength_scale * w
    → (w' sw' : ℕ) × (weigh_from (pos w) (pos sw) d sigs ≡ (pos w', pos sw'))
      × (sw' ≤ strength_scale * w')
unfolding weigh_from
weigh_bounded d [] w sw all h = (w, sw, refl, h)
weigh_bounded d ((s, x) ∷ sigs) w sw ((a, b, es, ex, ha), all) h =
    elim (Bool-cases (same_side s.side d)) [
      | inl on ↦
          rw (on, es, ex, pos-*ℤ a b, pos-+ℤ w b, pos-+ℤ sw (a * b), weigh_from)
            (weigh_bounded d sigs (w + b) (sw + a * b) all (mul_scale a b w sw ha h))
      | inr off ↦ rw (off, weigh_from) (weigh_bounded d sigs w sw all h)
    ]

div_scale : (w sw : ℕ) → 0 < w → sw ≤ strength_scale * w → sw / w ≤ strength_scale
div_scale w sw p h = grind arith

average_bounded :
    (w sw : ℕ)
    → sw ≤ strength_scale * w
    → (n : ℕ) × (average (pos w, pos sw) ≡ pos n) × (n ≤ strength_scale)
unfolding average div_ℤ
average_bounded w sw h = elim (Bool-cases (ltb 0 (w + 0))) [
  | inl some_weight ↦ (sw / w, rw (some_weight, average), div_scale w sw (ground arith) h)
  | inr no_weight ↦ (0, rw (no_weight, average), omega arith)
]

decide_dir_bounded :
    (d : OrderSide) (p : ArbSignal) (sigs : List (ArbSignal × ℤ))
    → All InScale sigs
    → (n : ℕ) × ((decide_dir d p sigs).strength ≡ pos n) × (n ≤ strength_scale)
unfolding decide_dir
decide_dir_bounded none_side p sigs all = (0, refl, omega arith)
decide_dir_bounded buy p sigs all =
    let (w, sw, e, h) = weigh_bounded buy sigs 0 0 all (omega arith) in
    rw e (average_bounded w sw h)
decide_dir_bounded sell p sigs all =
    let (w, sw, e, h) = weigh_bounded sell sigs 0 0 all (omega arith) in
    rw e (average_bounded w sw h)

-- If no weight is negative and every strength lies between none and full, so does the decision's.
pub arbitrate_decide_bounded :
    (sigs : List (ArbSignal × ℤ)) (primary : ℕ) (threshold : ℤ)
    → All InScale sigs
    → (n : ℕ) × ((arbitrate_decide sigs primary threshold).strength ≡ pos n) × (n ≤ strength_scale)
unfolding arbitrate_decide
arbitrate_decide_bounded sigs primary threshold all = elim (Option-cases (get_elem? sigs primary)) [
  | inl e ↦ rw (e, arbitrate_decide) (0, refl, omega arith)
  | inr ((p, w), e) ↦
      rw (e, arbitrate_decide)
        (decide_dir_bounded (direction (net_from (pos 0) sigs) threshold) p sigs all)
]
