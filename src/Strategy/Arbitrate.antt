-- ===== src/Strategy/Arbitrate.antt =====
-- The vote over the strategies (src/strategy/base/arbitrate.h). The two parallel arrays are one
-- list of signals with their weights; int64 values are integers.
pub mod Direction
pub mod Strength
use nebula_x_simulator.Prelude.{
  ℕ, Bool, true, false, Option, none, some, List, [], ◌∷◌, if◌then◌else◌, get_elem?,
}
use nebula_x_simulator.Prelude.Int.{ℤ, pos, pos_part, ◌+ℤ◌, ◌-ℤ◌, ◌*ℤ◌, div_ℤ, ltb_ℤ}
use nebula_x_simulator.Core.{OrderSide, buy, sell, none_side}

pub record ArbSignal : Type 0 where
  pub side : OrderSide
  pub locate : ℕ
  pub strength : ℤ
  pub seq : ℕ

pub record ArbDecision : Type 0 where
  pub act : Bool
  pub dir : OrderSide
  pub locate : ℕ
  pub strength : ℤ
  pub seq : ℕ

abbrev pub no_decision : ArbDecision
no_decision = record { act = false; dir = none_side; locate = 0; strength = pos 0; seq = 0 }

-- `sign * weight`
unfoldable pub vote : OrderSide → ℤ → ℤ
vote buy w = w
vote sell w = pos 0 -ℤ w
vote none_side w = pos 0

-- The first loop, from its accumulator.
unfoldable pub net_from : ℤ → List (ArbSignal × ℤ) → ℤ
net_from acc [] = acc
net_from acc ((s, w) ∷ sigs) = net_from (acc +ℤ vote s.side w) sigs

abbrev pub same_side : OrderSide → OrderSide → Bool
same_side buy buy = true
same_side sell sell = true
same_side none_side none_side = true
same_side _ _ = false

-- The second loop: the weights of the signals on the side, and their weighted strengths.
unfoldable pub weigh_from : ℤ → ℤ → OrderSide → List (ArbSignal × ℤ) → ℤ × ℤ
weigh_from sum_w sum_sw d [] = (sum_w, sum_sw)
weigh_from sum_w sum_sw d ((s, w) ∷ sigs) =
    let on = same_side s.side d in
    weigh_from (if on then sum_w +ℤ w else sum_w) (if on then sum_sw +ℤ s.strength *ℤ w else sum_sw)
      d sigs

-- `(sum_w > 0) ? sum_sw / sum_w : 0`
unfoldable pub average : ℤ × ℤ → ℤ
average (sum_w, sum_sw) = if ltb_ℤ (pos 0) sum_w then div_ℤ sum_sw (pos_part sum_w) else pos 0

unfoldable pub direction : ℤ → ℤ → OrderSide
direction net threshold =
    if ltb_ℤ threshold net then buy else if ltb_ℤ net (pos 0 -ℤ threshold) then sell else none_side

unfoldable pub decide_dir : OrderSide → ArbSignal → List (ArbSignal × ℤ) → ArbDecision
unfolding weigh_from average
decide_dir none_side p sigs = no_decision
decide_dir d p sigs = record {
  act = true;
  dir = d;
  locate = p.locate;
  strength = average (weigh_from (pos 0) (pos 0) d sigs);
  seq = p.seq;
}

unfoldable pub arbitrate_decide : List (ArbSignal × ℤ) → ℕ → ℤ → ArbDecision
unfolding net_from direction decide_dir
arbitrate_decide sigs primary_idx threshold = elim (get_elem? sigs primary_idx) [
  | none ↦ no_decision
  | some (p, w) ↦ decide_dir (direction (net_from (pos 0) sigs) threshold) p sigs
]
