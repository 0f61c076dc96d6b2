-- ===== src/Market/FiniteMap.antt =====
-- The price table (`PriceLevelTable` of src/market/book/order_book.h) as a map: `operator[]` and
-- `erase` against what is found afterwards.
use nebula_x_simulator.Prelude.{
  ℕ, ◌^◌, ◌≡◌, ◌≢◌, ◌⊎◌, refl, sym, ap, ◌∙◌, Option, none, some, arith, inl, inr, update, add64,
}
use nebula_x_simulator.Prelude.Int.{ℤ}
use nebula_x_simulator.Market.Table.{
  Table, Place, empty, tombstone, level_at, PriceLevel, default_level, Scan, hit, miss, full,
  search_price, probe, cap_of, access, enter, find, raise_best, tomb_or,
}
use nebula_x_simulator.Market.Walk.{Vacant, scan-miss}
use nebula_x_simulator.Market.Lookup.{
  IsProbed, search_price-hit, search_price-Stands, same_find, find_lem,
}
use nebula_x_simulator.Market.Writes.{read_here, read_there, same_or_not, enter-IsProbed}

raise_best-slots : (t : Table) (p : ℤ) → (raise_best t p).slots ≡ t.slots
raise_best-slots t p = ground arith

raise_best-bits : (t : Table) (p : ℤ) → (raise_best t p).bits ≡ t.bits
raise_best-bits t p = ground arith

enter-slots :
    (t : Table) (p : ℤ) (i : ℕ) → (enter t p i).slots ≡ update t.slots i (level_at p default_level)
unfolding enter
enter-slots t p i =
    raise_best-slots
      (record t { slots = update t.slots i (level_at p default_level); count = add64 t.count 1 }) p

enter-bits : (t : Table) (p : ℤ) (i : ℕ) → (enter t p i).bits ≡ t.bits
unfolding enter
enter-bits t p i =
    raise_best-bits
      (record t { slots = update t.slots i (level_at p default_level); count = add64 t.count 1 }) p

abbrev pub or_default : Option PriceLevel → PriceLevel
or_default none = default_level
or_default (some l) = l

-- The table after `operator[]`.
pub record Accessed (t : Table) (price : ℤ) (t' : Table) (i : ℕ) : Type 0 where
  pub probed : IsProbed t'.slots t'.bits
  pub place : t'.slots i ≡ level_at price (or_default (find t price))
  pub others : (q : ℤ) → price ≢ q → find t' q ≡ find t q

pub Scan-cases :
    (s : Scan)
    → ((k : ℕ) × (l : PriceLevel) × (s ≡ hit k l))
      ⊎ (((k : ℕ) × (tb : Option ℕ) × (s ≡ miss k tb)) ⊎ (s ≡ full))
Scan-cases (hit k l) = inl (k, l, refl)
Scan-cases (miss k tb) = inr (inl (k, tb, refl))
Scan-cases full = inr (inr refl)

-- A price whose search misses stands nowhere, and is not found.
missed :
    (t : Table) (p : ℤ) (k : ℕ) (tb : Option ℕ)
    → IsProbed t.slots t.bits
    → search_price t p ≡ miss k tb
    → ((j : ℕ) (m : PriceLevel) → t.slots j ≢ level_at p m) × (find t p ≡ none)
unfolding find
missed t p k tb v h =
    (λ j m e. ground (arith, sym (search_price-Stands t p j m v e) ∙ h), rw (h, find) refl)

vacancy :
    (t : Table) (p : ℤ) (k : ℕ) (tb : Option ℕ)
    → search_price t p ≡ miss k tb
    → Vacant t.slots t.bits (probe t.bits p) (2 ^ t.bits) (tomb_or tb k)
unfolding search_price
vacancy t p k tb h = elim (scan-miss (cap_of t) t.slots t.bits p (probe t.bits p) none k tb h) [
  | inl (j, e, f) ↦ ground (arith, e)
  | inr v ↦ v
]

pub at_place : (f g : ℕ → Place) (k : ℕ) → f ≡ g → f k ≡ g k
at_place f g k e = ap (λ h. h k) e

-- A table whose slots are another's, with a level written for a price that is not this one.
find_beside :
    (t t' : Table) (price q : ℤ) (i : ℕ) (l : PriceLevel)
    → IsProbed t.slots t.bits
    → IsProbed t'.slots t'.bits
    → t'.slots ≡ update t.slots i (level_at price l)
    → ((m : PriceLevel) → t.slots i ≢ level_at q m)
    → price ≢ q
    → find t' q ≡ find t q
find_beside t t' price q i l v v' e free other =
    same_find t t' q v v' (λ k m h. at_place t'.slots _ k e ∙ kept k m h)
      (λ k m h. back k m (sym (at_place t'.slots _ k e) ∙ h))
  where
    kept :
        (k : ℕ) (m : PriceLevel)
        → t.slots k ≡ level_at q m
        → update t.slots i (level_at price l) k ≡ level_at q m
    kept k m h = elim (same_or_not i k) [
      | inl same ↦ absurd (free m (ap t.slots same ∙ h))
      | inr n ↦ read_there t.slots i k (level_at price l) n ∙ h
    ]

    back :
        (k : ℕ) (m : PriceLevel)
        → update t.slots i (level_at price l) k ≡ level_at q m
        → t.slots k ≡ level_at q m
    back k m h = elim (same_or_not i k) [
      | inl same ↦ absurd (
          other (
            ground (
              arith,
              sym (read_here t.slots i (level_at price l))
                  ∙ ap (update t.slots i (level_at price l)) same
                  ∙ h,
            )))
      | inr n ↦ sym (read_there t.slots i k (level_at price l) n) ∙ h
    ]

-- In a table whose levels can be reached and whose search for the price ends before every place is
-- seen, `operator[]` gives the place of the price's level, which is a default one if there was none;
-- all levels can be reached again, and every other price is found as before.
pub access-Accessed :
    (t : Table) (price : ℤ)
    → IsProbed t.slots t.bits
    → search_price t price ≢ full
    → Accessed t price (access t price).0 (access t price).1
unfolding access
access-Accessed t price v room = elim (Scan-cases (search_price t price)) [
  | inl (k, l, h) ↦
      let t' = raise_best t price in
      let v' : IsProbed t'.slots t'.bits =
        rw (raise_best-slots t price, raise_best-bits t price) v in
      let e = search_price-hit t price k l h in
      rw (h, access)
        (record {
          probed = v';
          place =
              at_place t'.slots t.slots k (raise_best-slots t price)
              ∙ e
              ∙ ap (λ o. level_at price (or_default o)) (sym ((find_lem t price l v).1 k e));
          others = λ q other.
              same_find t t' q v v'
                (λ j m g. at_place t'.slots t.slots j (raise_best-slots t price) ∙ g)
                (λ j m g. sym (at_place t'.slots t.slots j (raise_best-slots t price)) ∙ g);
        })
  | inr (inl (k, tb, h)) ↦
      let i = tomb_or tb k in
      let (absent, unknown) = missed t price k tb v h in
      let (d, less, at, clear, free) = vacancy t price k tb h in
      let t' = enter t price i in
      let v' : IsProbed t'.slots t'.bits =
        rw (enter-slots t price i, enter-bits t price i)
          (enter-IsProbed t.slots t.bits i price default_level v (d, less, at, clear, free)
            absent) in
      rw (h, access)
        (record {
          probed = v';
          place =
              at_place t'.slots _ i (enter-slots t price i)
              ∙ read_here t.slots i (level_at price default_level)
              ∙ ap (λ o. level_at price (or_default o)) (sym unknown);
          others = λ q other.
              find_beside t t' price q i default_level v v' (enter-slots t price i)
                (λ m g. not_level q m free g) other;
        })
  | inr (inr h) ↦ absurd (room h)
]
  where
    not_level :
        {x : Place} → (q : ℤ) (m : PriceLevel) → (x ≡ empty) ⊎ (x ≡ tombstone) → x ≢ level_at q m
    not_level q m (inl e) g = ground (arith, sym e ∙ g)
    not_level q m (inr e) g = ground (arith, sym e ∙ g)
