-- ===== src/Exchange/Levels.antt =====
-- The price levels of one side: `std::map<uint32_t, PriceLevel>` as a list in the map's order,
-- which the argument `before` is (src/exchange/order_book.h). A write through `map[price]` makes
-- a missing level first.
use nebula_x_simulator.Prelude.{
  ℕ, Bool, Option, none, some, List, [], ◌∷◌, if◌then◌else◌, ◌==◌, u32_max,
}

pub record PriceLevel : Type 0 where
  pub head_idx : ℕ
  pub tail_idx : ℕ
  pub count : ℕ
  pub total_qty : ℕ

abbrev pub default_level : PriceLevel
default_level = record { head_idx = u32_max; tail_idx = u32_max; count = 0; total_qty = 0 }

abbrev pub Levels : Type 0
Levels = List (ℕ × PriceLevel)

-- `map.find(price)`
unfoldable pub find_level : ℕ → Levels → Option PriceLevel
find_level p [] = none
find_level p ((q, l) ∷ m) = if q == p then some l else find_level p m

-- The value of `map[price]`, default where there is none.
abbrev pub level_or_default : Option PriceLevel → PriceLevel
level_or_default none = default_level
level_or_default (some l) = l

-- `map[price] = l`
unfoldable pub put_level : (ℕ → ℕ → Bool) → ℕ → PriceLevel → Levels → Levels
put_level before p l [] = (p, l) ∷ []
put_level before p l ((q, k) ∷ m) =
    if q == p
    then (p, l) ∷ m
    else if before p q
    then (p, l) ∷ (q, k) ∷ m
    else (q, k) ∷ put_level before p l m

-- `map.erase(price)`
unfoldable pub erase_level : ℕ → Levels → Levels
erase_level p [] = []
erase_level p ((q, k) ∷ m) = if q == p then m else (q, k) ∷ erase_level p m
