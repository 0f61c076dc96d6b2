-- ===== src/Market/Lookup.antt =====
-- The price table as a finite map (`PriceLevelTable` of src/market/book/order_book.h): what is found
-- after `operator[]` and `erase`.
use nebula_x_simulator.Prelude.{
  ℕ, ◌<◌, ◌≡◌, ◌≢◌, refl, sym, ◌∙◌, subst, none, some, arith, inl, inr, Option-cases, ◌^◌,
}
use nebula_x_simulator.Prelude.Int.{ℤ}
use nebula_x_simulator.Market.Table.{
  Table, Place, level_at, PriceLevel, Scan, hit, miss, full, search_price, probe, cap_of, find,
}
use nebula_x_simulator.Market.Walk.{along, Clear, Stands, scan-hit, scan-Stands}

-- Every level can be reached by its search, and no price has two.
pub record IsProbed (slots : ℕ → Place) (bits : ℕ) : Type 0 where
  pub reach :
      (price : ℤ) (k : ℕ)
      → Stands slots price k
      → (d : ℕ) × (d < 2 ^ bits)
        × (along bits (probe bits price) d ≡ k)
        × Clear slots bits (probe bits price) d
  pub single : (price : ℤ) (j k : ℕ) → Stands slots price j → Stands slots price k → j ≡ k

-- The search meets the level of the price at its place.
pub search_price-hit :
    (t : Table) (price : ℤ) (k : ℕ) (l : PriceLevel)
    → search_price t price ≡ hit k l
    → t.slots k ≡ level_at price l
unfolding search_price
search_price-hit t price k l h =
    scan-hit (cap_of t) t.slots t.bits price (probe t.bits price) none k l h

pub search_price-Stands :
    (t : Table) (price : ℤ) (k : ℕ) (l : PriceLevel)
    → IsProbed t.slots t.bits
    → t.slots k ≡ level_at price l
    → search_price t price ≡ hit k l
unfolding search_price
search_price-Stands t price k l v e =
    let (d, less, at, clear) = v.reach price k (l, e) in
    let (j, m, found) =
      scan-Stands (cap_of t) t.slots t.bits price (probe t.bits price) none d less clear
        (subst (Stands t.slots price) (sym at) (l, e)) in
    let f = search_price-hit t price j m found in
    let same = v.single price j k (m, f) (l, e) in found ∙ ground (arith, e, f, same)

-- What stands in the table is found, and what is found stands there.
pub find_lem :
    (t : Table) (price : ℤ) (l : PriceLevel)
    → IsProbed t.slots t.bits
    → (find t price ≡ some l → (k : ℕ) × (t.slots k ≡ level_at price l))
      × ((k : ℕ) → t.slots k ≡ level_at price l → find t price ≡ some l)
unfolding find
find_lem t price l v = (
  λ h. stood (search_price t price) refl h,
  λ k e. rw (search_price-Stands t price k l v e, find) refl,
)
  where
    stood :
        (s : Scan)
        → search_price t price ≡ s
        → elim s [ hit i m ↦ some m | miss i tomb ↦ none | full ↦ none ] ≡ some l
        → (k : ℕ) × (t.slots k ≡ level_at price l)
    stood (hit k m) e h = (k, ground (arith, search_price-hit t price k m e, h))
    stood (miss i tomb) e h = ground (arith, h)
    stood full e h = ground (arith, h)

-- Two tables in which a price stands alike.
pub same_find :
    (t t' : Table) (price : ℤ)
    → IsProbed t.slots t.bits
    → IsProbed t'.slots t'.bits
    → ((k : ℕ) (l : PriceLevel) → t.slots k ≡ level_at price l → t'.slots k ≡ level_at price l)
    → ((k : ℕ) (l : PriceLevel) → t'.slots k ≡ level_at price l → t.slots k ≡ level_at price l)
    → find t' price ≡ find t price
same_find t t' price v v' to from = elim (Option-cases (find t' price)) [
  | inr (l, h) ↦
      let (k, e) = (find_lem t' price l v').0 h in h ∙ sym ((find_lem t price l v).1 k (from k l e))
  | inl h ↦ elim (Option-cases (find t price)) [
    | inl g ↦ h ∙ sym g
    | inr (l, g) ↦
        let (k, e) = (find_lem t price l v).0 g in (find_lem t' price l v').1 k (to k l e) ∙ sym g
  ]
]

-- A price that is not found does not stand.
pub nowhere :
    (t : Table) (price : ℤ)
    → IsProbed t.slots t.bits
    → ((k : ℕ) (l : PriceLevel) → t.slots k ≢ level_at price l)
    → find t price ≡ none
nowhere t price v absent = elim (Option-cases (find t price)) [
  | inl h ↦ h
  | inr (l, h) ↦ let (k, e) = (find_lem t price l v).0 h in absurd (absent k l e)
]
