-- ===== src/Samples/StrategyTests.antt =====
-- The vote on a small input.
use nebula_x_simulator.Prelude.{ℕ, ◌≡◌, ◌≤◌, refl, List, [], ◌∷◌, arith}
use nebula_x_simulator.Prelude.Int.{ℤ, pos}
use nebula_x_simulator.Core.{buy, sell}
use nebula_x_simulator.Strategy.Arbitrate.{ArbSignal, arbitrate_decide}
use nebula_x_simulator.Strategy.Arbitrate.Direction.{
  Wins, weight_on, is_side, arbitrate_decide-Wins,
}
use nebula_x_simulator.Strategy.Arbitrate.Strength.{strength_scale, arbitrate_decide_bounded}

-- A buyer with more weight than a seller.
abbrev signals : List (ArbSignal × ℤ)
signals =
    (record { side = buy; locate = 5; strength = pos 8000; seq = 1 }, pos 7000)
    ∷ (record { side = sell; locate = 5; strength = pos 9000; seq = 2 }, pos 3000)
    ∷ []

arbitrate_decide-Wins_example :
    let d = arbitrate_decide signals 0 (pos 1000) in
    Wins d.dir (pos 1000) (weight_on buy signals) (weight_on sell signals) × (d.act ≡ is_side d.dir)
arbitrate_decide-Wins_example =
    arbitrate_decide-Wins signals 0 (pos 1000)
      (record { side = buy; locate = 5; strength = pos 8000; seq = 1 }) (pos 7000) refl

arbitrate_decide_bounded_example :
    (n : ℕ) × ((arbitrate_decide signals 0 (pos 1000)).strength ≡ pos n) × (n ≤ strength_scale)
arbitrate_decide_bounded_example =
    arbitrate_decide_bounded signals 0 (pos 1000)
      ((8000, 7000, refl, refl, omega arith), ((9000, 3000, refl, refl, omega arith), tt))
