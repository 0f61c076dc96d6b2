-- ===== src/Exchange/Book/Erasure.antt =====
-- Taking an order off its side (`removeOrder` of src/exchange/order_book.cpp) takes its slot out of
-- the side's queues and keeps everything else in its order.
use nebula_x_simulator.Prelude.{
  ℕ, ◌+◌, ◌<◌, ◌≡◌, ◌≢◌, ◌⊎◌, refl, sym, ap, subst, ◌∙◌, inl, inr, List, [], ◌∷◌, ◌++◌, arith,
  u32_max, length, All, ◌==◌, if◌then◌else◌,
}
use nebula_x_simulator.Exchange.Order.{Side, Order, is_buy}
use nebula_x_simulator.Exchange.Levels.{PriceLevel, Levels, put_level, erase_level}
use nebula_x_simulator.Exchange.Book.{before_of, unlink, level_without}
use nebula_x_simulator.Exchange.Book.Chain.{
  Linked, head_or_null, last_from, last_from-ne, NotIn, Distinct, SameLinks, unlink_next,
  unlink_prev,
}
use nebula_x_simulator.Exchange.Book.Removal.{
  Linked-at, untouched, NotIn-left, NotIn-right, NotIn-head, unlink-Linked, last_from-ne_next,
}
use nebula_x_simulator.Exchange.Book.Priority.{Queues}
use nebula_x_simulator.Exchange.Book.Sorted.{IsLive, IsLevel, Stands, slots, SameSlot, All-map}

-- A queue goes with its last order.
abbrev pub keep : ℕ → List ℕ → Queues → Queues
keep q [] qs = qs
keep q (x ∷ xs) qs = (q, x ∷ xs) ∷ qs

-- The queues `qs'` are `qs` without the slot `i`, which is in the queue at the price `p`.
abbrev pub Without : ℕ → ℕ → Queues → Queues → Type 0
Without i p [] qs' = ⊥
Without i p ((q, xs) ∷ qs) qs' =
    ((q ≡ p)
      × (before after : List ℕ) × (xs ≡ before ++ i ∷ after)
      × (qs' ≡ keep q (before ++ after) qs))
    ⊎ ((rest : Queues) × (qs' ≡ (q, xs) ∷ rest) × Without i p qs rest)

-- The write to the map at the end of `removeOrder`.
abbrev pub drop_level : Side → ℕ → PriceLevel → Levels → Levels
drop_level sd p lvl m = if lvl.count == 0 then erase_level p m else put_level (before_of sd) p lvl m

pub prev_other :
    (st : ℕ → Order) (i : ℕ) (before after : List ℕ)
    → Linked st u32_max (before ++ i ∷ after)
    → Distinct (before ++ i ∷ after)
    → (st i).prev_idx ≢ i
prev_other st i [] after l d = λ e. omega (arith, l.0, l.1, e)
prev_other st i (a ∷ before) after l d =
    let (p, _) = Linked-at st u32_max i (a ∷ before) after l in
    λ e. last_from-ne_next st i a before after d (sym p ∙ e)

-- A slot of another queue is no neighbour of `i`.
pub apart :
    (st : ℕ → Order) (i z : ℕ) (before after : List ℕ)
    → Linked st u32_max (before ++ i ∷ after)
    → z < u32_max
    → NotIn z (before ++ i ∷ after)
    → (z ≢ (st i).prev_idx) × (z ≢ (st i).next_idx)
apart st i z before after l small out =
    let (p, n) = Linked-at st u32_max i before after l in
    let here =
      last_from-ne z u32_max before (λ e. omega arith) (NotIn-left z before (i ∷ after) out) in
    let there = NotIn-head z after small (NotIn-right z before (i ∷ after) out).1 in
    (λ e. here (e ∙ p), λ e. there (e ∙ n))

pub unlink-price : (st : ℕ → Order) (i z : ℕ) → (unlink st i z).price ≡ (st z).price
unfolding unlink
unlink-price st i z = ground arith

pub unlink-side : (st : ℕ → Order) (i z : ℕ) → (unlink st i z).side ≡ (st z).side
unfolding unlink
unlink-side st i z = ground arith

-- What unlinking `i` leaves as it is.
abbrev pub Kept : (ℕ → Order) → ℕ → ℕ → Type 0
Kept st i z = SameSlot st (unlink st i) z

pub unlink-Kept :
    (st : ℕ → Order) (i z : ℕ)
    → (st i).prev_idx ≢ i
    → (z ≢ (st i).prev_idx) × (z ≢ (st i).next_idx)
    → Kept st i z
unlink-Kept st i z off (p, n) = record {
  links = untouched st i z off p n;
  price = unlink-price st i z;
  side = unlink-side st i z;
}

unlink-IsLive :
    (st : ℕ → Order) (i : ℕ) (sd : Side) (p : ℕ) (xs : List ℕ)
    → All (IsLive st sd p) xs
    → All (IsLive (unlink st i) sd p) xs
unlink-IsLive st i sd p xs a =
    All-map xs (λ x l. (unlink-price st i x ∙ l.0, ap is_buy (unlink-side st i x) ∙ l.1)) a

All-skip :
    (P : ℕ → Type 0) (before : List ℕ) (i : ℕ) (after : List ℕ)
    → All P (before ++ i ∷ after)
    → All P (before ++ after)
All-skip P [] i after (p, a) = a
All-skip P (x ∷ before) i after (p, a) = (p, All-skip P before i after a)

own_links : (st : ℕ → Order) (i : ℕ) → (st i).prev_idx ≢ i → SameLinks st (unlink st i) i
own_links st i off =
    (ground (arith, unlink_prev st i i off), ground (arith, unlink_next st i i off))

pub last_from-append :
    (p : ℕ) (xs ys : List ℕ) → last_from p (xs ++ ys) ≡ last_from (last_from p xs) ys
last_from-append p [] ys = refl
last_from-append p (x ∷ xs) ys = last_from-append x xs ys

Distinct-at : (i : ℕ) (before after : List ℕ) → Distinct (before ++ i ∷ after) → NotIn i after
Distinct-at i [] after d = d.0
Distinct-at i (x ∷ before) after d = Distinct-at i before after d.1

head_without :
    (h i next : ℕ) (before after : List ℕ)
    → Distinct (before ++ i ∷ after)
    → h ≡ head_or_null (before ++ i ∷ after)
    → next ≡ head_or_null after
    → (if h == i then next else h) ≡ head_or_null (before ++ after)
head_without h i next [] after d e n = ground (arith, e, n)
head_without h i next (a ∷ before) after d e n =
    let ne = (NotIn-right a before (i ∷ after) d.0).0 in ground (arith, e, ne)

tail_without :
    (t i prev : ℕ) (before after : List ℕ)
    → Distinct (before ++ i ∷ after)
    → t ≡ last_from u32_max (before ++ i ∷ after)
    → prev ≡ last_from u32_max before
    → (if t == i then prev else t) ≡ last_from u32_max (before ++ after)
tail_without t i prev before [] d e n =
    let last = e ∙ last_from-append u32_max before (i ∷ []) in
    let left = last_from-append u32_max before [] in ground (arith, last, left, n)
tail_without t i prev before (c ∷ after) d e n =
    let last = e ∙ last_from-append u32_max before (i ∷ c ∷ after) in
    let left = last_from-append u32_max before (c ∷ after) in
    let at = Distinct-at i before (c ∷ after) d in
    let ne = last_from-ne i c after at.0 at.1 in ground (arith, last, left, ne)

pub length-without :
    (i : ℕ) (before after : List ℕ) → length (before ++ i ∷ after) ≡ length (before ++ after) + 1
length-without i [] after = omega arith
length-without i (x ∷ before) after = omega (arith, length-without i before after)

pub Distinct-left : (xs ys : List ℕ) → Distinct (xs ++ ys) → Distinct xs
Distinct-left [] ys d = tt
Distinct-left (x ∷ xs) ys (n, d) = (NotIn-left x xs ys n, Distinct-left xs ys d)

pub Distinct-right : (xs ys : List ℕ) → Distinct (xs ++ ys) → Distinct ys
Distinct-right [] ys d = d
Distinct-right (x ∷ xs) ys (n, d) = Distinct-right xs ys d

-- The level without the slot.
pub level_without-IsLevel :
    (st : ℕ → Order) (sd : Side) (p i : ℕ) (lvl : PriceLevel) (before after : List ℕ)
    → IsLevel st sd p lvl (before ++ i ∷ after)
    → Distinct (before ++ i ∷ after)
    → 0 < length (before ++ after)
    → IsLevel (unlink st i) sd p (level_without lvl (unlink st i i) i) (before ++ after)
unfolding level_without
level_without-IsLevel st sd p i lvl before after v d more =
    let off = prev_other st i before after v.linked d in
    let own = own_links st i off in
    let (pr, nx) = Linked-at st u32_max i before after v.linked in
    record {
      head = head_without lvl.head_idx i _ before after d v.head (own.1 ∙ nx);
      tail = tail_without lvl.tail_idx i _ before after d v.tail (own.0 ∙ pr);
      count = omega (arith, v.count, v.small, length-without i before after);
      some_order = more;
      small = omega (arith, v.small, length-without i before after);
      linked = unlink-Linked st i before after v.linked d;
      live =
          unlink-IsLive st i sd p (before ++ after)
            (All-skip (IsLive st sd p) before i after v.live);
    }

-- Prices of the side.
pub Without-price :
    (P : ℕ → Type 0) (st : ℕ → Order) (sd : Side) (m : Levels) (qs qs' : Queues) (i p : ℕ)
    → Stands st sd m qs
    → Without i p qs qs'
    → All (λ x. P x.0) m
    → P p
Without-price P st sd [] [] qs' i p v w a = absurd w
Without-price P st sd [] (q ∷ qs) qs' i p v w a = absurd v
Without-price P st sd (l ∷ m) [] qs' i p v w a = absurd v
Without-price P st sd ((q, lvl) ∷ m) ((r, xs) ∷ qs) qs' i p (e, v, l, s) (inl (f, _, _, _, _))
      (x, a) =
    subst P (e ∙ f) x
Without-price P st sd ((q, lvl) ∷ m) ((r, xs) ∷ qs) qs' i p (e, v, l, s) (inr (rest, _, w)) (x, a) =
    Without-price P st sd m qs rest i p s w a

-- The neighbours of the slot are in its queue.
pub Without-apart :
    (st : ℕ → Order) (sd : Side) (m : Levels) (qs qs' : Queues) (i p z : ℕ)
    → Stands st sd m qs
    → Distinct (slots qs)
    → Without i p qs qs'
    → z < u32_max
    → NotIn z (slots qs)
    → Kept st i z
Without-apart st sd [] [] qs' i p z v d w small out = absurd w
Without-apart st sd [] (q ∷ qs) qs' i p z v d w small out = absurd v
Without-apart st sd (l ∷ m) [] qs' i p z v d w small out = absurd v
Without-apart st sd ((q, lvl) ∷ m) ((r, xs) ∷ qs) qs' i p z (e, v, l, s) d
      (inl (_, before, after, same, _)) small out =
    let lk = subst (Linked st u32_max) same v.linked in
    unlink-Kept st i z
      (prev_other st i before after lk (subst Distinct same (Distinct-left xs (slots qs) d)))
      (apart st i z before after lk small (subst (NotIn z) same (NotIn-left z xs (slots qs) out)))
Without-apart st sd ((q, lvl) ∷ m) ((r, xs) ∷ qs) qs' i p z (e, v, l, s) d (inr (rest, _, w)) small
      out =
    Without-apart st sd m qs rest i p z s (Distinct-right xs (slots qs) d) w small
      (NotIn-right z xs (slots qs) out)
