-- ===== src/Exchange/Book/Growth.antt =====
-- A price level that is there grows by an order at its end (`addOrder` of
-- src/exchange/order_book.cpp).
use nebula_x_simulator.Prelude.{
  ℕ, ◌+◌, ◌<◌, ◌≡◌, ◌≢◌, sym, ap, subst, ◌∙◌, inl, inr, true, false, some, List, [], ◌∷◌, ◌++◌,
  arith, u32_max, u32_mod, length, length-append, All, ◌==◌, Bool-cases,
}
use nebula_x_simulator.Exchange.Order.{Side, Order, is_buy}
use nebula_x_simulator.Exchange.Levels.{PriceLevel, Levels, find_level, put_level}
use nebula_x_simulator.Exchange.Book.{before_of}
use nebula_x_simulator.Exchange.Book.Chain.{
  Linked, Linked-append, hang, last_from, last_from-ne, NotIn, Distinct,
}
use nebula_x_simulator.Exchange.Book.Priority.{Queues}
use nebula_x_simulator.Exchange.Book.Removal.{NotIn-left, NotIn-right}
use nebula_x_simulator.Exchange.Book.Erasure.{last_from-append, Distinct-left, Distinct-right}
use nebula_x_simulator.Exchange.Book.Repairs.{find-price}
use nebula_x_simulator.Exchange.Book.Takeoff.{
  All-put, All-both, Linked-apart, Distinct-apart, Stands-small, NotIn-flip, All-join,
}
use nebula_x_simulator.Exchange.Book.Sorted.{
  IsLive, IsLevel, IsLevel-frame, Later, Stands, Stands-frame, slots, SameSlot, All-map,
}
use nebula_x_simulator.Exchange.Book.Arrival.{arrive, level_with, hang-IsLive, hang-SameSlot}

All-end : (P : ℕ → Type 0) (xs : List ℕ) (y : ℕ) → All P xs → P y → All P (xs ++ y ∷ [])
All-end P xs y a q = All-join P xs (y ∷ []) a (q, tt)

-- What the slot `i` and its order are to the level `lvl`: a free slot, with the order's links to the
-- level's end.
pub record Arrives (st : ℕ → Order) (sd : Side) (p i tail : ℕ) (node : Order) : Type 0 where
  pub small : i < u32_max
  pub prev : node.prev_idx ≡ tail
  pub next : node.next_idx ≡ u32_max
  pub price : node.price ≡ p
  pub side : is_buy node.side ≡ is_buy sd

hang_price :
    (st : ℕ → Order) (tail i : ℕ) (node : Order) → (hang st tail i node i).price ≡ node.price
hang_price st tail i node = ground arith

hang_side : (st : ℕ → Order) (tail i : ℕ) (node : Order) → (hang st tail i node i).side ≡ node.side
hang_side st tail i node = ground arith

grow-IsLevel :
    (st : ℕ → Order) (sd : Side) (p i total : ℕ) (lvl : PriceLevel) (node : Order) (xs : List ℕ)
    → Arrives st sd p i lvl.tail_idx node
    → IsLevel st sd p lvl xs
    → Distinct xs
    → NotIn i xs
    → length xs + 1 < u32_mod
    → IsLevel (hang st lvl.tail_idx i node) sd p (level_with lvl i total) (xs ++ i ∷ [])
grow-IsLevel st sd p i total lvl node [] o v d n room = absurd (omega (arith, v.some_order))
grow-IsLevel st sd p i total lvl node (x ∷ xs) o v d n room = record {
  head = v.head;
  tail = sym (last_from-append u32_max (x ∷ xs) (i ∷ []));
  count = omega (arith, v.count, room, length-append (x ∷ xs) (i ∷ []));
  some_order = omega arith;
  small = omega (arith, room, length-append (x ∷ xs) (i ∷ []));
  linked =
      subst (λ t. Linked (hang st t i node) u32_max ((x ∷ xs) ++ i ∷ [])) (sym v.tail)
        (Linked-append st u32_max x i xs node v.linked d n o.small (o.prev ∙ v.tail) o.next);
  live =
      All-end (IsLive (hang st lvl.tail_idx i node) sd p) (x ∷ xs) i
        (hang-IsLive st sd p lvl.tail_idx i node (x ∷ xs) n v.live)
        (
          hang_price st lvl.tail_idx i node ∙ o.price,
          ap is_buy (hang_side st lvl.tail_idx i node) ∙ o.side,
        );
}

-- A slot outside the queues is not the end of a level.
tail-apart :
    (st : ℕ → Order) (sd : Side) (m : Levels) (qs : Queues) (p z : ℕ) (lvl : PriceLevel)
    → Stands st sd m qs
    → find_level p m ≡ some lvl
    → z < u32_max
    → NotIn z (slots qs)
    → z ≢ lvl.tail_idx
unfolding find_level
tail-apart st sd [] qs p z lvl v found small n = absurd (ground (arith, found))
tail-apart st sd (l ∷ m) [] p z lvl v found small n = absurd v
tail-apart st sd ((q, l) ∷ m) ((r, xs) ∷ qs) p z lvl (e, v, a, s) found small n =
    elim (Bool-cases (q == p)) [
      | inl k ↦
          let same : l ≡ lvl = ground (arith, k, found) in
          let far = last_from-ne z u32_max xs (λ w. omega arith) (NotIn-left z xs (slots qs) n) in
          λ w. far (w ∙ ap (λ c. c.tail_idx) (sym same) ∙ v.tail)
      | inr k ↦
          tail-apart st sd m qs p z lvl s (ground (arith, k, found)) small
            (NotIn-right z xs (slots qs) n)
    ]

far_from_end :
    {l lvl : PriceLevel} (xs : List ℕ) (z : ℕ)
    → l.tail_idx ≡ last_from u32_max xs
    → l ≡ lvl
    → z < u32_max
    → NotIn z xs
    → z ≢ lvl.tail_idx
far_from_end xs z tail same small n =
    λ w. last_from-ne z u32_max xs (λ u. omega arith) n (w ∙ ap (λ c. c.tail_idx) (sym same) ∙ tail)

others-SameSlot :
    (st : ℕ → Order) (tail i : ℕ) (node : Order) (zs : List ℕ)
    → NotIn i zs
    → All (λ z. z ≢ tail) zs
    → All (SameSlot st (hang st tail i node)) zs
others-SameSlot st tail i node zs n a =
    All-map zs (λ z h. hang-SameSlot st tail i z node h.0 h.1)
      (All-both _ _ zs (NotIn-flip i zs n) a)

-- The level of a price that is there grows by the slot.
pub grow-Stands :
    (st : ℕ → Order) (sd : Side) (m : Levels) (qs : Queues) (p i total : ℕ) (lvl : PriceLevel)
    (node : Order)
    → Arrives st sd p i lvl.tail_idx node
    → Stands st sd m qs
    → Distinct (slots qs)
    → NotIn i (slots qs)
    → length (slots qs) + 1 < u32_mod
    → find_level p m ≡ some lvl
    → Stands
        (hang st lvl.tail_idx i node)
        sd
        (put_level (before_of sd) p (level_with lvl i total) m)
        (arrive (before_of sd) p i qs)
unfolding find_level put_level
grow-Stands st sd [] qs p i total lvl node o v d n room found = absurd (ground (arith, found))
grow-Stands st sd (l ∷ m) [] p i total lvl node o v d n room found = absurd v
grow-Stands st sd ((q, l) ∷ m) ((r, xs) ∷ qs) p i total lvl node o (e, v, a, s) d n room found =
    elim (Bool-cases (q == p)) [
      | inl k ↦
          let k' : (r == p) ≡ true = subst (λ j. (j == p) ≡ true) e k in
          let at : q ≡ p = ground (arith, k) in
          let same : l ≡ lvl = ground (arith, k, found) in
          let level =
            grow-IsLevel st sd p i total lvl node xs o
              (subst (λ j. IsLevel st sd j lvl xs) at (subst (λ j. IsLevel st sd q j xs) same v))
              (Distinct-left xs (slots qs) d) (NotIn-left i xs (slots qs) n)
              (omega (arith, room, length-append xs (slots qs))) in
          let far =
            All-map (slots qs) (λ z h. far_from_end xs z v.tail same h.0 h.1)
              (All-both _ _ (slots qs) (Stands-small st sd m qs s)
                (Distinct-apart xs (slots qs) d)) in
          rw (k, k', put_level)
            (
              sym at ∙ e,
              level,
              subst (λ j. All (Later sd j) m) at a,
              Stands-frame st (hang st lvl.tail_idx i node) sd m qs
                  (others-SameSlot st lvl.tail_idx i node (slots qs) (NotIn-right i xs (slots qs) n)
                    far)
                  s,
            )
      | inr k ↦
          let k' : (r == p) ≡ false = subst (λ j. (j == p) ≡ false) e k in
          let found' : find_level p m ≡ some lvl = ground (arith, k, found) in
          let later = find-price (λ j. (q ≢ j) × (before_of sd j q ≡ false)) p lvl m found' a in
          let after : before_of sd p r ≡ false = subst (λ j. before_of sd p j ≡ false) e later.1 in
          let far =
            All-map xs (λ z h. tail-apart st sd m qs p z lvl s found' h.0 h.1)
              (Linked-apart st u32_max xs (slots qs) v.linked d) in
          rw (k, k', later.1, after, put_level)
            (
              e,
              IsLevel-frame st (hang st lvl.tail_idx i node) sd q l xs
                  (others-SameSlot st lvl.tail_idx i node xs (NotIn-left i xs (slots qs) n) far) v,
              All-put (Later sd q) (before_of sd) p _ m later a,
              grow-Stands st sd m qs p i total lvl node o s (Distinct-right xs (slots qs) d)
                  (NotIn-right i xs (slots qs) n) (omega (arith, room, length-append xs (slots qs)))
                  found',
            )
    ]
