-- ===== src/Exchange/Book/Placing.antt =====
-- `addOrder` of src/exchange/order_book.cpp on the whole side.
use nebula_x_simulator.Prelude.{
  ℕ, ◌+◌, ◌<◌, ◌≡◌, ◌≢◌, ◌⊎◌, refl, sym, ap, subst, ◌∙◌, inl, inr, Bool, true, false, Option, some,
  none, List, [], ◌∷◌, ◌++◌, arith, u32_max, u32_mod, add64, length, ◌==◌, if◌then◌else◌,
  Bool-cases, Option-cases, update,
}
use mathlib.Core.List.{append_assoc}
use nebula_x_simulator.Exchange.Order.{Side, invalid, buy, sell, Order, is_buy}
use nebula_x_simulator.Exchange.Pool.{OrderPool, allocate, head_of, retag}
use nebula_x_simulator.Exchange.Levels.{PriceLevel, Levels, find_level}
use nebula_x_simulator.Exchange.Book.{OrderBook, before_of, levels_of, place, add_order, find_order}
use nebula_x_simulator.Exchange.Book.Entry.{IsEntered, place-IsEntered}
use nebula_x_simulator.Exchange.Book.Chain.{NotIn, Distinct}
use nebula_x_simulator.Exchange.Book.Priority.{Queues}
use nebula_x_simulator.Exchange.Book.Takeoff.{NotIn-flip}
use nebula_x_simulator.Exchange.Book.Sorted.{
  IsLevel, Stands, Stands-frame, slots, SameSlot, All-map,
}
use nebula_x_simulator.Exchange.Book.Repairs.{Holds, set_levels-Stands}
use nebula_x_simulator.Exchange.Book.Arrival.{arrive, insert-Stands}
use nebula_x_simulator.Exchange.Book.Growth.{grow-Stands}

arrive-slots :
    (before : ℕ → ℕ → Bool) (p i : ℕ) (qs : Queues)
    → (front back : List ℕ) × (slots qs ≡ front ++ back)
      × (slots (arrive before p i qs) ≡ front ++ i ∷ back)
arrive-slots before p i [] = ([], [], refl, refl)
arrive-slots before p i ((q, xs) ∷ qs) = elim (Bool-cases (q == p)) [
  | inl k ↦ (xs, slots qs, refl, rw k (append_assoc xs (i ∷ []) (slots qs)))
  | inr k ↦ elim (Bool-cases (before p q)) [
    | inl h ↦ ([], xs ++ slots qs, refl, rw (k, h) refl)
    | inr h ↦
        let (front, back, e, f) = arrive-slots before p i qs in
        (
          xs ++ front,
          back,
          ap (λ k. xs ++ k) e ∙ sym (append_assoc xs front back),
          rw (k, h) (ap (λ k. xs ++ k) f ∙ sym (append_assoc xs front (i ∷ back))),
        )
  ]
]

NotIn-insert :
    (x i : ℕ) (front back : List ℕ) → x ≢ i → NotIn x (front ++ back) → NotIn x (front ++ i ∷ back)
NotIn-insert x i [] back ne n = (ne, n)
NotIn-insert x i (y ∷ front) back ne (h, n) = (h, NotIn-insert x i front back ne n)

Distinct-insert :
    (i : ℕ) (front back : List ℕ)
    → Distinct (front ++ back)
    → NotIn i (front ++ back)
    → Distinct (front ++ i ∷ back)
Distinct-insert i [] back d n = (n, d)
Distinct-insert i (y ∷ front) back (h, d) (ne, n) =
    (NotIn-insert y i front back (λ e. ne (sym e)) h, Distinct-insert i front back d n)

arrive-Distinct :
    (before : ℕ → ℕ → Bool) (p i : ℕ) (qs : Queues)
    → Distinct (slots qs)
    → NotIn i (slots qs)
    → Distinct (slots (arrive before p i qs))
arrive-Distinct before p i qs d n =
    let (front, back, e, f) = arrive-slots before p i qs in
    subst Distinct (sym f) (Distinct-insert i front back (subst Distinct e d) (subst (NotIn i) e n))

update-others : (st : ℕ → Order) (i z : ℕ) (o : Order) → z ≢ i → SameSlot st (update st i o) z
update-others st i z o h = record {
  links = (ground (arith, h), ground (arith, h));
  price = ground (arith, h);
  side = ground (arith, h);
}

-- The order in the slot `idx`, with its links.
abbrev node_of : Order → PriceLevel → Order
node_of o lvl = record o {
  prev_idx = if lvl.count == 0 then u32_max else lvl.tail_idx;
  next_idx = u32_max;
}

found_count :
    (st : ℕ → Order) (sd : Side) (m : Levels) (qs : Queues) (p : ℕ) (lvl : PriceLevel)
    → Stands st sd m qs
    → find_level p m ≡ some lvl
    → (lvl.count == 0) ≡ false
unfolding find_level
found_count st sd [] qs p lvl v found = absurd (ground (arith, found))
found_count st sd (l ∷ m) [] p lvl v found = absurd v
found_count st sd ((q, l) ∷ m) ((r, xs) ∷ qs) p lvl (e, v, a, s) found =
    elim (Bool-cases (q == p)) [
      | inl k ↦
          let same : l ≡ lvl = ground (arith, k, found) in
          subst (λ c. (c.count == 0) ≡ false) same (ground (arith, v.count, v.some_order))
      | inr k ↦ found_count st sd m qs p lvl s (ground (arith, k, found))
    ]

-- A level of one order.
alone-IsLevel :
    (st : ℕ → Order) (sd : Side) (i total : ℕ) (node : Order)
    → i < u32_max
    → node.prev_idx ≡ u32_max
    → node.next_idx ≡ u32_max
    → node.side ≡ sd
    → IsLevel
        (update st i node)
        sd
        node.price
        (record { head_idx = i; tail_idx = i; count = 1; total_qty = total })
        (i ∷ [])
alone-IsLevel st sd i total node small p n s = record {
  head = refl;
  tail = refl;
  count = refl;
  some_order = omega arith;
  small = omega arith;
  linked = (small, ground (arith, p), ground (arith, n), tt);
  live = ((ground arith, ap is_buy (ground (arith, s))), tt);
}

-- Hanging an order in a free slot at the end of its price level, or in a new level, adds the slot at
-- the end of the queue of its price, or a queue at that price's place.
pub place-Holds :
    (b : OrderBook) (o : Order) (idx : ℕ) (qs : Queues)
    → Holds b o.side qs
    → NotIn idx (slots qs)
    → idx < u32_max
    → length (slots qs) + 1 < u32_mod
    → Holds (place b o idx) o.side (arrive (before_of o.side) o.price idx qs)
unfolding place
place-Holds b o idx qs v n small room = record {
  stands = elim (Option-cases (find_level o.price (levels_of b o.side))) [
    | inl e ↦
        rw (e, place)
          (set_levels-Stands _ o.side o.side _ _ refl (
            insert-Stands _ o.side (levels_of b o.side) qs o.price idx _
              (Stands-frame b.storage _ o.side (levels_of b o.side) qs
                (All-map (slots qs) (λ z h. update-others b.storage idx z _ h)
                  (NotIn-flip idx (slots qs) n))
                v.stands)
              e
              (alone-IsLevel b.storage o.side idx _
                (record o { prev_idx = u32_max; next_idx = u32_max }) small refl refl refl)))
    | inr (lvl, e) ↦
        let old = found_count b.storage o.side (levels_of b o.side) qs o.price lvl v.stands e in
        rw (e, old, place)
          (set_levels-Stands _ o.side o.side _ _ refl (
            grow-Stands b.storage o.side (levels_of b o.side) qs o.price idx _ lvl _
              (record { small = small; prev = refl; next = refl; price = refl; side = refl })
              v.stands v.distinct n room e))
  ];
  distinct = arrive-Distinct (before_of o.side) o.price idx qs v.distinct n;
}

-- The free slot that the pool gives next is in none of the queues.
abbrev pub IsFree : OrderBook → Queues → Type 0
IsFree b qs = NotIn (head_of b.free_head) (slots qs)

-- The pool after the slot at the free list's head was taken.
abbrev pub taken : OrderBook → OrderPool
taken b = record (b.pool) {
  free_head = retag b.free_head (b.storage (head_of b.free_head)).pool_next_free;
  size = add64 b.size 1;
}

pub add_order-full :
    (b : OrderBook) (o : Order)
    → (o.side ≡ buy) ⊎ (o.side ≡ sell)
    → (head_of b.free_head == u32_max) ≡ true
    → add_order b o ≡ (b, false)
unfolding add_order allocate
add_order-full b o (inl k) full = rw (k, add_order, full) refl
add_order-full b o (inr k) full = rw (k, add_order, full) refl

by_side :
    {A : Type 0} (x y : A) (s : Side)
    → (s ≡ buy) ⊎ (s ≡ sell)
    → (elim s [ invalid ↦ x | _ ↦ y ]) ≡ y
by_side x y invalid (inl k) = cc
by_side x y invalid (inr k) = cc
by_side x y buy h = refl
by_side x y sell h = refl

-- The pool's answer when it has a slot.
allocate-taken :
    (b : OrderBook)
    → (head_of b.free_head == u32_max) ≡ false
    → allocate b.pool ≡ some (head_of b.free_head, taken b)
unfolding allocate
allocate-taken b more = rw (more, allocate) refl

pub add_order-placed :
    (b : OrderBook) (o : Order)
    → (o.side ≡ buy) ⊎ (o.side ≡ sell)
    → (head_of b.free_head == u32_max) ≡ false
    → add_order b o ≡ (place (record b { pool = taken b }) o (head_of b.free_head), true)
unfolding add_order allocate place
add_order-placed b o h more = by_side _ _ o.side h ∙ ap placed (allocate-taken b more)
  where
    placed : Option (ℕ × OrderPool) → OrderBook × Bool
    placed r = elim r [
      | none ↦ (b, false)
      | some (idx, p) ↦ (place (record b { pool = p }) o idx, true)
    ]

-- The pool's bookkeeping does not touch the index.
pub IsEntered-from :
    (b : OrderBook) (o : Order) (p : OrderPool) (idx : ℕ)
    → IsEntered b o idx (place (record b { pool = p }) o idx)
unfolding find_order
IsEntered-from b o p idx =
    let v = place-IsEntered (record b { pool = p }) o idx in
    record { found = v.found; others = v.others; kept = v.kept }
