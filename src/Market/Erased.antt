-- ===== src/Market/Erased.antt =====
-- The price table after `erase` (`PriceLevelTable` of src/market/book/order_book.h), and when it is
-- new.
use nebula_x_simulator.Prelude.{
  ℕ, ◌≡◌, ◌≢◌, refl, sym, ap, ◌∙◌, Bool, none, if◌then◌else◌, arith, inl, inr, update, sub64,
}
use nebula_x_simulator.Prelude.Int.{ℤ}
use nebula_x_simulator.Market.Table.{
  Table, tombstone, level_at, PriceLevel, search_price, erase, find, rescan_best, ◌==ℤ◌, new_table,
}
use nebula_x_simulator.Market.Walk.{Stands}
use nebula_x_simulator.Market.Lookup.{IsProbed, search_price-hit, same_find, nowhere}
use nebula_x_simulator.Market.Writes.{read_there, same_or_not, Stands-erased, erase-IsProbed}
use nebula_x_simulator.Market.FiniteMap.{at_place, Scan-cases}

pub new_table-IsProbed : (b : Bool) → IsProbed (new_table b).slots (new_table b).bits
unfolding new_table
new_table-IsProbed b = record {
  reach = λ price k (l, e). ground (arith, e);
  single = λ price j k (l, e) h. ground (arith, e);
}

-- The table after `erase`.
pub record Erased (t : Table) (price : ℤ) (t' : Table) : Type 0 where
  pub probed : IsProbed t'.slots t'.bits
  pub gone : find t' price ≡ none
  pub others : (q : ℤ) → price ≢ q → find t' q ≡ find t q

-- What `erase` leaves when the price stands in place `i`.
abbrev cleared : Table → ℤ → ℕ → Table
cleared t price i =
    let t' = record t { slots = update t.slots i tombstone; count = sub64 t.count 1 } in
    if price ==ℤ t.best then rescan_best t' else t'

cleared-slots :
    (t : Table) (price : ℤ) (i : ℕ) → (cleared t price i).slots ≡ update t.slots i tombstone
unfolding rescan_best
cleared-slots t price i = ground arith

cleared-bits : (t : Table) (price : ℤ) (i : ℕ) → (cleared t price i).bits ≡ t.bits
unfolding rescan_best
cleared-bits t price i = ground arith

cleared-Erased :
    (t t' : Table) (price : ℤ) (i : ℕ) (l : PriceLevel)
    → IsProbed t.slots t.bits
    → t.slots i ≡ level_at price l
    → t'.slots ≡ update t.slots i tombstone
    → t'.bits ≡ t.bits
    → Erased t price t'
cleared-Erased t t' price i l v e slots bits = record {
  probed = v';
  gone = nowhere t' price v' (λ k m h.
      twice k m (Stands-erased t.slots i k price (m, sym (at_place t'.slots _ k slots) ∙ h)));
  others = λ q other.
      same_find t t' q v v' (λ k m h. at_place t'.slots _ k slots ∙ kept q other k m h)
        (λ k m h.
          old q k (Stands-erased t.slots i k q (m, sym (at_place t'.slots _ k slots) ∙ h)) m h);
}
  where
    v' : IsProbed t'.slots t'.bits
    v' = rw (slots, bits) (erase-IsProbed t.slots t.bits i v)

    twice : (k : ℕ) (m : PriceLevel) → (i ≢ k) × Stands t.slots price k → ⊥
    twice k m (n, h) = n (v.single price i k (l, e) h)

    kept :
        (q : ℤ)
        → price ≢ q
        → (k : ℕ) (m : PriceLevel) → t.slots k ≡ level_at q m
        → update t.slots i tombstone k ≡ level_at q m
    kept q other k m h = elim (same_or_not i k) [
      | inl same ↦ absurd (other (ground (arith, sym e ∙ ap t.slots same ∙ h)))
      | inr n ↦ read_there t.slots i k tombstone n ∙ h
    ]

    old :
        (q : ℤ) (k : ℕ)
        → (i ≢ k) × Stands t.slots q k
        → (m : PriceLevel) → t'.slots k ≡ level_at q m
        → t.slots k ≡ level_at q m
    old q k (n, h) m g =
        sym (read_there t.slots i k tombstone n) ∙ sym (at_place t'.slots _ k slots) ∙ g

-- In a table whose levels can be reached, `erase` takes the price's level out and no other; all
-- levels can be reached again.
pub erase-Erased :
    (t : Table) (price : ℤ) → IsProbed t.slots t.bits → Erased t price (erase t price)
unfolding erase find
erase-Erased t price v = elim (Scan-cases (search_price t price)) [
  | inl (i, l, h) ↦
      rw (h, erase)
        (cleared-Erased t (cleared t price i) price i l v (search_price-hit t price i l h)
          (cleared-slots t price i) (cleared-bits t price i))
  | inr (inl (k, tb, h)) ↦
      rw (h, erase) (record { probed = v; gone = rw (h, find) refl; others = λ q other. refl })
  | inr (inr h) ↦
      rw (h, erase) (record { probed = v; gone = rw (h, find) refl; others = λ q other. refl })
]
