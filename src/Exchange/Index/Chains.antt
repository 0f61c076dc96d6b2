-- ===== src/Exchange/Index/Chains.antt =====
-- The chain of a bucket (src/exchange/order_map.h) against the list of the entries that it holds.
use nebula_x_simulator.Prelude.{ℕ, zero, suc, ◌<◌, ◌≡◌, some, List, [], ◌∷◌, arith, u32_max, length}
use nebula_x_simulator.Core.{lookup}
use nebula_x_simulator.Exchange.Index.{Node, hash, walk}

-- The nodes from `idx` on hold the entries, in this order, all of bucket `b`.
abbrev pub Holds : ℕ → ℕ → (ℕ → Node) → ℕ → List (ℕ × ℕ) → Type 0
Holds bits b nodes idx [] = idx ≡ u32_max
Holds bits b nodes idx ((id, order) ∷ es) =
    (idx < u32_max)
    × ((nodes idx).bucket ≡ b)
    × ((nodes idx).order_id ≡ id)
    × ((nodes idx).order ≡ order)
    × (hash bits id ≡ b)
    × Holds bits b nodes (nodes idx).next_idx es

-- The walk along the chain, with a step for every node and one more, reads the list.
pub walk-lookup :
    (n : ℕ) (nodes : ℕ → Node) (bits start b id idx : ℕ) (es : List (ℕ × ℕ))
    → Holds bits b nodes idx es
    → length es < n
    → walk n nodes start b id idx ≡ some (lookup id es)
unfolding walk lookup
walk-lookup zero nodes bits start b id idx es h lt = absurd (omega arith)
walk-lookup (suc n) nodes bits start b id idx [] h lt = ground (arith, h)
walk-lookup (suc n) nodes bits start b id idx ((j, order) ∷ es) (small, bk, key, val, _, h) lt =
    ground (
      arith,
      small,
      bk,
      key,
      val,
      walk-lookup n nodes bits start b id (nodes idx).next_idx es h (omega arith),
    )
