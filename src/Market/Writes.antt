-- ===== src/Market/Writes.antt =====
-- The price table after `operator[]` and `erase` (`PriceLevelTable` of
-- src/market/book/order_book.h).
use nebula_x_simulator.Prelude.{
  ℕ, ◌<◌, ◌^◌, ◌≡◌, ◌≢◌, ◌⊎◌, sym, ap, ◌∙◌, subst, arith, Bool-cases, inl, inr, update, ◌==◌,
}
use nebula_x_simulator.Prelude.Int.{ℤ}
use nebula_x_simulator.Market.Table.{Place, tombstone, level_at, PriceLevel, probe}
use nebula_x_simulator.Market.Walk.{along, Clear, Stands, IsUsed, Vacant}
use nebula_x_simulator.Market.Lookup.{IsProbed}

-- What is read after a write.
pub read_here : (slots : ℕ → Place) (i : ℕ) (x : Place) → update slots i x i ≡ x
read_here slots i x = ground arith

pub read_there : (slots : ℕ → Place) (i k : ℕ) (x : Place) → i ≢ k → update slots i x k ≡ slots k
read_there slots i k x h = ground arith

pub same_or_not : (i k : ℕ) → (i ≡ k) ⊎ (i ≢ k)
same_or_not i k = elim (Bool-cases (i == k)) [
  | inl h ↦ inl (ground (arith, h))
  | inr h ↦ inr (λ e. ground (arith, h, e))
]

-- A write that keeps places used keeps every way clear.
module _ (slots : ℕ → Place) (i : ℕ) (x : Place) (used : IsUsed x) where
  still-IsUsed : (k : ℕ) → IsUsed (slots k) → IsUsed (update slots i x k)
  still-IsUsed k h = elim (same_or_not i k) [
    | inl e ↦
        subst (λ j. IsUsed (update slots i x j)) e (subst IsUsed (sym (read_here slots i x)) used)
    | inr n ↦ subst IsUsed (sym (read_there slots i k x n)) h
  ]

  still-Clear : (bits j d : ℕ) → Clear slots bits j d → Clear (update slots i x) bits j d
  still-Clear bits j d clear m h = still-IsUsed (along bits j m) (clear m h)

-- Where a price stands after a level is written, or a place erased.
pub Stands-after :
    (slots : ℕ → Place) (i k : ℕ) (p q : ℤ) (l : PriceLevel)
    → Stands (update slots i (level_at p l)) q k
    → ((i ≡ k) × (p ≡ q)) ⊎ ((i ≢ k) × Stands slots q k)
Stands-after slots i k p q l (m, e) = elim (same_or_not i k) [
  | inl same ↦ inl (
    same,
    ground (
      arith,
      sym (read_here slots i (level_at p l)) ∙ ap (update slots i (level_at p l)) same ∙ e,
    ),
  )
  | inr other ↦ inr (other, (m, sym (read_there slots i k (level_at p l) other) ∙ e))
]

pub Stands-erased :
    (slots : ℕ → Place) (i k : ℕ) (q : ℤ)
    → Stands (update slots i tombstone) q k
    → (i ≢ k) × Stands slots q k
Stands-erased slots i k q (m, e) = elim (same_or_not i k) [
  | inl same ↦
      absurd
        (ground (arith, sym (read_here slots i tombstone) ∙ ap (update slots i tombstone) same ∙ e))
  | inr other ↦ (other, (m, sym (read_there slots i k tombstone other) ∙ e))
]

-- The level of a price that is not in the table, in a vacant place on its way.
pub enter-IsProbed :
    (slots : ℕ → Place) (bits i : ℕ) (p : ℤ) (l : PriceLevel)
    → IsProbed slots bits
    → Vacant slots bits (probe bits p) (2 ^ bits) i
    → ((k : ℕ) (m : PriceLevel) → slots k ≢ level_at p m)
    → IsProbed (update slots i (level_at p l)) bits
enter-IsProbed slots bits i p l v (d, less, at, clear, free) absent = record {
  reach = λ q k h. reached q k (Stands-after slots i k p q l h);
  single = λ q j k h g. one q j k (Stands-after slots i j p q l h) (Stands-after slots i k p q l g);
}
  where
    now : ℕ → Place
    now = update slots i (level_at p l)

    kept : (j n : ℕ) → Clear slots bits j n → Clear now bits j n
    kept = still-Clear slots i (level_at p l) tt bits

    reached :
        (q : ℤ) (k : ℕ)
        → ((i ≡ k) × (p ≡ q)) ⊎ ((i ≢ k) × Stands slots q k)
        → (n : ℕ) × (n < 2 ^ bits)
          × (along bits (probe bits q) n ≡ k)
          × Clear now bits (probe bits q) n
    reached q k (inl (same, price)) =
        subst
          (λ r.
            (n : ℕ) × (n < 2 ^ bits)
            × (along bits (probe bits r) n ≡ k)
            × Clear now bits (probe bits r) n)
          price (d, less, at ∙ same, kept (probe bits p) d clear)
    reached q k (inr (other, h)) =
        let (n, few, there, ways) = v.reach q k h in (n, few, there, kept (probe bits q) n ways)

    one :
        (q : ℤ) (j k : ℕ)
        → ((i ≡ j) × (p ≡ q)) ⊎ ((i ≢ j) × Stands slots q j)
        → ((i ≡ k) × (p ≡ q)) ⊎ ((i ≢ k) × Stands slots q k)
        → j ≡ k
    one q j k (inl (a, b)) (inl (c, e)) = sym a ∙ c
    one q j k (inl (a, b)) (inr (c, (m, h))) =
        absurd (absent k m (h ∙ ap (λ r. level_at r m) (sym b)))
    one q j k (inr (a, (m, h))) (inl (c, b)) =
        absurd (absent j m (h ∙ ap (λ r. level_at r m) (sym b)))
    one q j k (inr (a, h)) (inr (c, g)) = v.single q j k h g

pub erase-IsProbed :
    (slots : ℕ → Place) (bits i : ℕ)
    → IsProbed slots bits
    → IsProbed (update slots i tombstone) bits
erase-IsProbed slots bits i v = record {
  reach = λ q k h.
      let (n, few, there, ways) = v.reach q k (Stands-erased slots i k q h).1 in
      (n, few, there, still-Clear slots i tombstone tt bits (probe bits q) n ways);
  single =
      λ q j k h g. v.single q j k (Stands-erased slots i j q h).1 (Stands-erased slots i k q g).1;
}
