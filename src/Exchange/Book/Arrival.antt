-- ===== src/Exchange/Book/Arrival.antt =====
-- Adding an order to its side (`addOrder` of src/exchange/order_book.cpp): the slot goes to the end of
-- the queue at its price, or starts a queue there.
use nebula_x_simulator.Prelude.{
  ℕ, ◌≡◌, ◌≢◌, refl, sym, ap, subst, ◌∙◌, inl, inr, Bool, true, false, none, List, [], ◌∷◌, ◌++◌,
  arith, add32, All, ◌==◌, if◌then◌else◌, Bool-cases, ltb,
}
use nebula_x_simulator.Exchange.Order.{Side, Order, is_buy}
use nebula_x_simulator.Exchange.Levels.{PriceLevel, Levels, find_level, put_level}
use nebula_x_simulator.Exchange.Book.{before_of}
use nebula_x_simulator.Exchange.Book.Chain.{hang, NotIn}
use nebula_x_simulator.Exchange.Book.Priority.{Queues}
use nebula_x_simulator.Exchange.Book.Takeoff.{All-put}
use nebula_x_simulator.Exchange.Book.Sorted.{IsLive, IsLevel, Later, Stands, SameSlot}

-- The queues with the slot `i` behind the others at the price `p`.
abbrev pub arrive : (ℕ → ℕ → Bool) → ℕ → ℕ → Queues → Queues
arrive before p i [] = (p, i ∷ []) ∷ []
arrive before p i ((q, xs) ∷ qs) =
    if q == p
    then (q, xs ++ i ∷ []) ∷ qs
    else if before p q
    then (p, i ∷ []) ∷ (q, xs) ∷ qs
    else (q, xs) ∷ arrive before p i qs

before-Later :
    (sd : Side) (p q : ℕ) (lvl : PriceLevel) → q ≢ p → before_of sd p q ≡ true → Later sd p (q, lvl)
before-Later sd p q lvl ne h = elim (Bool-cases (is_buy sd)) [
  | inl k ↦
      let h' : ltb q p ≡ true = subst (λ c. (if c then ltb q p else ltb p q) ≡ true) k h in
      (λ e. ne (sym e), rw k (ground (arith, h')))
  | inr k ↦
      let h' : ltb p q ≡ true = subst (λ c. (if c then ltb q p else ltb p q) ≡ true) k h in
      (λ e. ne (sym e), rw k (ground (arith, h')))
]

Later-trans :
    (sd : Side) (p q : ℕ) (x : ℕ × PriceLevel)
    → before_of sd p q ≡ true
    → Later sd q x
    → Later sd p x
Later-trans sd p q (r, lvl) h (ne, l) = elim (Bool-cases (is_buy sd)) [
  | inl k ↦
      let h' : ltb q p ≡ true = subst (λ c. (if c then ltb q p else ltb p q) ≡ true) k h in
      let l' : ltb q r ≡ false = subst (λ c. (if c then ltb q r else ltb r q) ≡ false) k l in
      (ground (arith, h', l', ne), rw k (ground (arith, h', l', ne)))
  | inr k ↦
      let h' : ltb p q ≡ true = subst (λ c. (if c then ltb q p else ltb p q) ≡ true) k h in
      let l' : ltb r q ≡ false = subst (λ c. (if c then ltb q r else ltb r q) ≡ false) k l in
      (ground (arith, h', l', ne), rw k (ground (arith, h', l', ne)))
]

Later-All :
    (sd : Side) (p q : ℕ) (m : Levels)
    → before_of sd p q ≡ true
    → All (Later sd q) m
    → All (Later sd p) m
Later-All sd p q [] h a = tt
Later-All sd p q (x ∷ m) h (l, a) = (Later-trans sd p q x h l, Later-All sd p q m h a)

none_here :
    (p q : ℕ) (l : PriceLevel) (m : Levels)
    → find_level p ((q, l) ∷ m) ≡ none
    → ((q == p) ≡ false) × (find_level p m ≡ none)
unfolding find_level
none_here p q l m h = elim (Bool-cases (q == p)) [
  | inl k ↦ absurd (ground (arith, h, k))
  | inr k ↦ (k, ground (arith, h, k))
]

-- A level for a new price.
pub insert-Stands :
    (st : ℕ → Order) (sd : Side) (m : Levels) (qs : Queues) (p i : ℕ) (lvl : PriceLevel)
    → Stands st sd m qs
    → find_level p m ≡ none
    → IsLevel st sd p lvl (i ∷ [])
    → Stands st sd (put_level (before_of sd) p lvl m) (arrive (before_of sd) p i qs)
unfolding put_level
insert-Stands st sd [] [] p i lvl v n new = (refl, new, tt, tt)
insert-Stands st sd [] (q ∷ qs) p i lvl v n new = absurd v
insert-Stands st sd (l ∷ m) [] p i lvl v n new = absurd v
insert-Stands st sd ((q, l) ∷ m) ((r, xs) ∷ qs) p i lvl (e, v, a, s) n new =
    let (other, rest) = none_here p q l m n in
    let other' : (r == p) ≡ false = subst (λ k. (k == p) ≡ false) e other in
    let ne : q ≢ p = ground (arith, other) in
    elim (Bool-cases (before_of sd p q)) [
      | inl k ↦
          let k' : before_of sd p r ≡ true = subst (λ j. before_of sd p j ≡ true) e k in
          rw (other, other', k, k', put_level)
            (refl, new, (before-Later sd p q l ne k, Later-All sd p q m k a), (e, v, a, s))
      | inr k ↦
          let k' : before_of sd p r ≡ false = subst (λ j. before_of sd p j ≡ false) e k in
          rw (other, other', k, k', put_level)
            (
              e,
              v,
              All-put (Later sd q) (before_of sd) p lvl m (ne, k) a,
              insert-Stands st sd m qs p i lvl s rest new,
            )
    ]

-- The level with the slot `i` behind its last order.
abbrev pub level_with : PriceLevel → ℕ → ℕ → PriceLevel
level_with lvl i total = record {
  head_idx = lvl.head_idx;
  tail_idx = i;
  count = add32 lvl.count 1;
  total_qty = total;
}

pub hang-SameSlot :
    (st : ℕ → Order) (tail i z : ℕ) (node : Order)
    → z ≢ i
    → z ≢ tail
    → SameSlot st (hang st tail i node) z
hang-SameSlot st tail i z node h k = record {
  links = (ground (arith, h, k), ground (arith, h, k));
  price = ground (arith, h, k);
  side = ground (arith, h, k);
}

pub hang-IsLive :
    (st : ℕ → Order) (sd : Side) (p tail i : ℕ) (node : Order) (xs : List ℕ)
    → NotIn i xs
    → All (IsLive st sd p) xs
    → All (IsLive (hang st tail i node) sd p) xs
hang-IsLive st sd p tail i node [] n a = tt
hang-IsLive st sd p tail i node (x ∷ xs) (h, n) ((e, f), a) =
    ((ground (arith, h, e), side x h ∙ f), hang-IsLive st sd p tail i node xs n a)
  where
    side : (x : ℕ) → i ≢ x → is_buy (hang st tail i node x).side ≡ is_buy (st x).side
    side x h = ap is_buy (ground (arith, h))
