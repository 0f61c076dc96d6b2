-- ===== src/Market/Walk.antt =====
-- The search of the price table (`PriceLevelTable` of src/market/book/order_book.h) along the places
-- from where a price's search begins.
use nebula_x_simulator.Prelude.{
  ℕ, zero, suc, ◌<◌, ◌≡◌, ◌⊎◌, refl, sym, ◌∙◌, subst, true, false, Option, none, some, arith,
  Bool-cases, inl, inr,
}
use nebula_x_simulator.Prelude.Int.{ℤ}
use nebula_x_simulator.Market.Table.{
  Place, empty, tombstone, level_at, PriceLevel, hit, miss, scan, after, first_tomb, tomb_or, ◌==ℤ◌,
}

pub same_price : (p q : ℤ) → p ==ℤ q ≡ true → p ≡ q
same_price p q h = ground arith

pub same_self : (p : ℤ) → p ==ℤ p ≡ true
same_self p = ground arith

-- The place after `d` steps.
abbrev pub along : ℕ → ℕ → ℕ → ℕ
along bits i zero = i
along bits i (suc d) = along bits (after bits i) d

-- The place does not end a search.
abbrev pub IsUsed : Place → Type 0
IsUsed empty = ⊥
IsUsed _ = Unit

-- The level of a price stands in a place.
abbrev pub Stands : (ℕ → Place) → ℤ → ℕ → Type 0
Stands slots p k = (l : PriceLevel) × (slots k ≡ level_at p l)

-- No place that ends a search stands before the `d`-th.
abbrev pub Clear : (ℕ → Place) → ℕ → ℕ → ℕ → Type 0
Clear slots bits i d = (j : ℕ) → j < d → IsUsed (slots (along bits i j))

Place-cases :
    (x : Place)
    → (x ≡ empty) ⊎ ((x ≡ tombstone) ⊎ ((p : ℤ) × (l : PriceLevel) × (x ≡ level_at p l)))
Place-cases empty = inl refl
Place-cases tombstone = inr (inl refl)
Place-cases (level_at p l) = inr (inr (p, l, refl))

-- One step of the search.
module _ (slots : ℕ → Place) (bits : ℕ) (price : ℤ) (n i : ℕ) (tomb : Option ℕ) where
  scan-empty : slots i ≡ empty → scan (suc n) slots bits price i tomb ≡ miss i tomb
  unfolding scan
  scan-empty e = rw (e, scan) refl

  scan-tombstone :
      slots i ≡ tombstone
      → scan (suc n) slots bits price i tomb
        ≡ scan n slots bits price (after bits i) (first_tomb tomb i)
  unfolding scan
  scan-tombstone e = rw (e, scan) refl

  scan-other :
      (p : ℤ) (l : PriceLevel)
      → slots i ≡ level_at p l
      → p ==ℤ price ≡ false
      → scan (suc n) slots bits price i tomb ≡ scan n slots bits price (after bits i) tomb
  unfolding scan
  scan-other p l e h = rw (e, scan) (rw h refl)

  scan-here :
      (p : ℤ) (l : PriceLevel)
      → slots i ≡ level_at p l
      → p ==ℤ price ≡ true
      → scan (suc n) slots bits price i tomb ≡ hit i l
  unfolding scan
  scan-here p l e h = rw (e, scan) (rw h refl)

-- A hit is the price's level.
pub scan-hit :
    (n : ℕ) (slots : ℕ → Place) (bits : ℕ) (price : ℤ) (i : ℕ) (tomb : Option ℕ) (k : ℕ)
    (l : PriceLevel)
    → scan n slots bits price i tomb ≡ hit k l
    → slots k ≡ level_at price l
unfolding scan
scan-hit zero slots bits price i tomb k l h = ground (arith, h)
scan-hit (suc n) slots bits price i tomb k l h = elim (Place-cases (slots i)) [
  | inl e ↦ ground (arith, sym (scan-empty slots bits price n i tomb e) ∙ h)
  | inr (inl e) ↦
      scan-hit n slots bits price (after bits i) (first_tomb tomb i) k l
        (sym (scan-tombstone slots bits price n i tomb e) ∙ h)
  | inr (inr (p, l', e)) ↦ elim (Bool-cases (p ==ℤ price)) [
    | inl b ↦
        ground
          (arith, e, same_price p price b, sym (scan-here slots bits price n i tomb p l' e b) ∙ h)
    | inr b ↦
        scan-hit n slots bits price (after bits i) tomb k l
          (sym (scan-other slots bits price n i tomb p l' e b) ∙ h)
  ]
]

later :
    (slots : ℕ → Place) (bits i d : ℕ)
    → Clear slots bits i (suc d)
    → Clear slots bits (after bits i) d
later slots bits i d clear j h = clear (suc j) (omega arith)

-- The search finds a price that stands where no free place comes before it.
pub scan-Stands :
    (n : ℕ) (slots : ℕ → Place) (bits : ℕ) (price : ℤ) (i : ℕ) (tomb : Option ℕ) (d : ℕ)
    → d < n
    → Clear slots bits i d
    → Stands slots price (along bits i d)
    → (k : ℕ) × (l : PriceLevel) × (scan n slots bits price i tomb ≡ hit k l)
scan-Stands zero slots bits price i tomb d less clear h = ground arith
scan-Stands (suc n) slots bits price i tomb zero less clear (l, e) =
    (i, l, scan-here slots bits price n i tomb price l e (same_self price))
scan-Stands (suc n) slots bits price i tomb (suc d) less clear h = elim (Place-cases (slots i)) [
  | inl e ↦ absurd (subst IsUsed e (clear 0 (omega arith)))
  | inr (inl e) ↦
      let (k, l, found) =
        scan-Stands n slots bits price (after bits i) (first_tomb tomb i) d (omega arith)
          (later slots bits i d clear) h in
      (k, l, scan-tombstone slots bits price n i tomb e ∙ found)
  | inr (inr (p, l', e)) ↦ elim (Bool-cases (p ==ℤ price)) [
    | inl b ↦ (i, l', scan-here slots bits price n i tomb p l' e b)
    | inr b ↦
        let (k, l, found) =
          scan-Stands n slots bits price (after bits i) tomb d (omega arith)
            (later slots bits i d clear) h in
        (k, l, scan-other slots bits price n i tomb p l' e b ∙ found)
  ]
]

-- A place on the way that holds no level, with no free place before it.
abbrev pub Vacant : (ℕ → Place) → ℕ → ℕ → ℕ → ℕ → Type 0
Vacant slots bits i n k =
    (d : ℕ) × (d < n)
    × (along bits i d ≡ k)
    × Clear slots bits i d
    × ((slots k ≡ empty) ⊎ (slots k ≡ tombstone))

step_back :
    (slots : ℕ → Place) (bits i n k : ℕ)
    → IsUsed (slots i)
    → Vacant slots bits (after bits i) n k
    → Vacant slots bits i (suc n) k
step_back slots bits i n k used (d, less, at, clear, free) = (suc d, omega arith, at, before, free)
  where
    before : Clear slots bits i (suc d)
    before zero h = used
    before (suc j) h = clear j (omega arith)

-- The first erased place so far, or one further on.
abbrev pub Going : (ℕ → Place) → ℕ → ℕ → ℕ → Option ℕ → ℕ → Option ℕ → Type 0
Going slots bits i n tomb k tb =
    ((j : ℕ) × (tomb ≡ some j) × (tb ≡ some j)) ⊎ Vacant slots bits i n (tomb_or tb k)

ends_here :
    (slots : ℕ → Place) (bits i n : ℕ) (tomb : Option ℕ) (k : ℕ) (tb : Option ℕ)
    → slots i ≡ empty
    → miss i tomb ≡ miss k tb
    → Going slots bits i (suc n) tomb k tb
ends_here slots bits i n none k tb e h =
    inr (0, omega arith, ground (arith, h), λ j l. ground arith, inl (ground (arith, e, h)))
ends_here slots bits i n (some j) k tb e h = inl (j, refl, ground (arith, h))

goes_on :
    (slots : ℕ → Place) (bits i n : ℕ) (tomb : Option ℕ) (k : ℕ) (tb : Option ℕ)
    → slots i ≡ tombstone
    → Going slots bits (after bits i) n (first_tomb tomb i) k tb
    → Going slots bits i (suc n) tomb k tb
goes_on slots bits i n (some j) k tb e (inl (m, f, g)) = inl (m, f, g)
goes_on slots bits i n none k tb e (inl (m, f, g)) =
    inr (0, omega arith, ground (arith, f, g), λ j l. ground arith, inr (ground (arith, e, f, g)))
goes_on slots bits i n tomb k tb e (inr v) =
    inr (step_back slots bits i n (tomb_or tb k) (subst IsUsed (sym e) tt) v)

-- A miss gives the first erased place so far, or one further on where the price may go.
pub scan-miss :
    (n : ℕ) (slots : ℕ → Place) (bits : ℕ) (price : ℤ) (i : ℕ) (tomb : Option ℕ) (k : ℕ)
    (tb : Option ℕ)
    → scan n slots bits price i tomb ≡ miss k tb
    → Going slots bits i n tomb k tb
unfolding scan
scan-miss zero slots bits price i tomb k tb h = ground (arith, h)
scan-miss (suc n) slots bits price i tomb k tb h = elim (Place-cases (slots i)) [
  | inl e ↦ ends_here slots bits i n tomb k tb e (sym (scan-empty slots bits price n i tomb e) ∙ h)
  | inr (inl e) ↦ goes_on slots bits i n tomb k tb e (
      scan-miss n slots bits price (after bits i) (first_tomb tomb i) k tb
        (sym (scan-tombstone slots bits price n i tomb e) ∙ h))
  | inr (inr (p, l', e)) ↦ elim (Bool-cases (p ==ℤ price)) [
    | inl b ↦ ground (arith, sym (scan-here slots bits price n i tomb p l' e b) ∙ h)
    | inr b ↦
        elim (scan-miss n slots bits price (after bits i) tomb k tb
          (sym (scan-other slots bits price n i tomb p l' e b) ∙ h)) [
            | inl old ↦ inl old
            | inr v ↦ inr (step_back slots bits i n (tomb_or tb k) (subst IsUsed (sym e) tt) v)
          ]
  ]
]
