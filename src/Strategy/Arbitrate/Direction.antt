-- ===== src/Strategy/Arbitrate/Direction.antt =====
-- Who wins the vote (src/strategy/base/arbitrate.h).
use nebula_x_simulator.Prelude.{
  ℕ, ◌≡◌, refl, sym, ap, ◌∙◌, inl, inr, Bool, true, false, some, List, [], ◌∷◌, get_elem?,
  if◌then◌else◌, Bool-cases,
}
use nebula_x_simulator.Prelude.Int.{
  ℤ, pos, ◌+ℤ◌, ◌-ℤ◌, ◌≤ℤ◌, ◌<ℤ◌, ltb_ℤ, int_laws, ltb_ℤ→lt, ltb_ℤ→ge,
}
use nebula_x_simulator.Core.{OrderSide, buy, sell, none_side}
use nebula_x_simulator.Strategy.Arbitrate.{
  ArbSignal, same_side, vote, net_from, direction, decide_dir, arbitrate_decide,
}

-- The buyers' and the sellers' weights, summed apart.
abbrev pub weight_on : OrderSide → List (ArbSignal × ℤ) → ℤ
weight_on d [] = pos 0
weight_on d ((s, w) ∷ sigs) =
    let rest = weight_on d sigs in if same_side s.side d then w +ℤ rest else rest

net_step :
    (acc w a b : ℤ) (d : OrderSide)
    → acc +ℤ vote d w +ℤ (a -ℤ b)
      ≡ acc +ℤ ((if same_side d buy then w +ℤ a else a) -ℤ (if same_side d sell then w +ℤ b else b))
unfolding vote
net_step acc w a b buy = omega int_laws
net_step acc w a b sell = omega int_laws
net_step acc w a b none_side = omega int_laws

net_from_lem :
    (acc : ℤ) (sigs : List (ArbSignal × ℤ))
    → net_from acc sigs ≡ acc +ℤ (weight_on buy sigs -ℤ weight_on sell sigs)
unfolding net_from
net_from_lem acc [] = omega int_laws
net_from_lem acc ((s, w) ∷ sigs) =
    net_from_lem (acc +ℤ vote s.side w) sigs
    ∙ net_step acc w (weight_on buy sigs) (weight_on sell sigs) s.side

-- The winner with the buyers' weight `b` and the sellers' weight `s`: the side that is ahead by more
-- than the threshold.
abbrev pub Wins : OrderSide → ℤ → ℤ → ℤ → Type 0
Wins buy threshold b s = threshold +ℤ s <ℤ b
Wins sell threshold b s = threshold +ℤ b <ℤ s
Wins none_side threshold b s = (b ≤ℤ threshold +ℤ s) × (s ≤ℤ threshold +ℤ b)

direction-Wins : (threshold b s : ℤ) → Wins (direction (pos 0 +ℤ (b -ℤ s)) threshold) threshold b s
unfolding direction
direction-Wins threshold b s =
    let net = pos 0 +ℤ (b -ℤ s) in
    let low = pos 0 -ℤ threshold in
    elim (Bool-cases (ltb_ℤ threshold net)) [
      | inl h ↦ rw (h, direction) (omega (int_laws, ltb_ℤ→lt threshold net h))
      | inr h ↦ elim (Bool-cases (ltb_ℤ net low)) [
        | inl k ↦ rw (h, k, direction) (omega (int_laws, ltb_ℤ→lt net low k))
        | inr k ↦
            rw (h, k, direction)
              (omega (int_laws, ltb_ℤ→ge threshold net h), omega (int_laws, ltb_ℤ→ge net low k))
      ]
    ]

decide_dir-dir :
    (d : OrderSide) (p : ArbSignal) (sigs : List (ArbSignal × ℤ)) → (decide_dir d p sigs).dir ≡ d
unfolding decide_dir
decide_dir-dir none_side p sigs = refl
decide_dir-dir buy p sigs = refl
decide_dir-dir sell p sigs = refl

abbrev pub is_side : OrderSide → Bool
is_side none_side = false
is_side _ = true

decide_dir-act :
    (d : OrderSide) (p : ArbSignal) (sigs : List (ArbSignal × ℤ))
    → (decide_dir d p sigs).act ≡ is_side d
unfolding decide_dir
decide_dir-act none_side p sigs = refl
decide_dir-act buy p sigs = refl
decide_dir-act sell p sigs = refl

-- When the primary strategy has a number within the signals, the decision's side is the one that is ahead by more
-- than the threshold, and is none where neither is; an order is placed exactly if there is a side.
pub arbitrate_decide-Wins :
    (sigs : List (ArbSignal × ℤ)) (primary : ℕ) (threshold : ℤ) (p : ArbSignal) (w : ℤ)
    → get_elem? sigs primary ≡ some (p, w)
    → let d = arbitrate_decide sigs primary threshold in
      Wins d.dir threshold (weight_on buy sigs) (weight_on sell sigs) × (d.act ≡ is_side d.dir)
unfolding arbitrate_decide
arbitrate_decide-Wins sigs primary threshold p w found =
    rw (found, arbitrate_decide, net_from_lem (pos 0) sigs)
      (
        rw (decide_dir-dir _ p sigs)
            (direction-Wins threshold (weight_on buy sigs) (weight_on sell sigs)),
        decide_dir-act _ p sigs ∙ ap is_side (sym (decide_dir-dir _ p sigs)),
      )
