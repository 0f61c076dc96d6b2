-- ===== src/Core.antt =====
-- The trading side's shared types (src/core/types.h, market_event.h) and maps. Prices are signed
-- 64-bit in the source and integers here; quantities and numbers wrap at 64 bits.
pub mod Maps
pub mod Event
use nebula_x_simulator.Prelude.{
  ℕ, Bool, true, false, Option, none, some, List, [], ◌∷◌, if◌then◌else◌, ◌==◌,
}
use nebula_x_simulator.Prelude.Int.{ℤ}

pub data OrderSide : Type 0 where
  buy sell none_side : OrderSide

pub data OrderType : Type 0 where
  market limit iceberg : OrderType

pub record Order : Type 0 where
  pub order_id : ℕ
  pub strategy_id : ℕ
  pub symbol_id : ℕ
  pub side : OrderSide
  pub type : OrderType
  pub price : ℤ
  pub quantity : ℕ
  pub timestamp : ℕ

-- A map with numbers for keys, as a list of its entries.
module _ {ℓ} {V : Type ℓ} where
  unfoldable pub lookup : ℕ → List (ℕ × V) → Option V
  lookup k [] = none
  lookup k ((j, v) ∷ m) = if j == k then some v else lookup k m

  unfoldable pub put : ℕ → V → List (ℕ × V) → List (ℕ × V)
  put k v [] = (k, v) ∷ []
  put k v ((j, w) ∷ m) = if j == k then (k, v) ∷ m else (j, w) ∷ put k v m

-- The slots entered under a number, the last entered first: what a search finds, and what is left
-- when it is taken out.
abbrev pub newest : List ℕ → Option ℕ
newest [] = none
newest (i ∷ is) = some i

abbrev pub older : List ℕ → List ℕ
older [] = []
older (i ∷ is) = is

-- A set of numbers, as a list without repetitions.
unfoldable pub has : List ℕ → ℕ → Bool
has [] k = false
has (j ∷ s) k = if j == k then true else has s k

unfoldable pub add_id : ℕ → List ℕ → List ℕ
unfolding has
add_id k s = if has s k then s else k ∷ s

-- `unordered_set::erase`
unfoldable pub erase_id : ℕ → List ℕ → List ℕ
erase_id k [] = []
erase_id k (j ∷ s) = let rest = erase_id k s in if j == k then rest else j ∷ rest
