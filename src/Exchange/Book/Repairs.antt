-- ===== src/Exchange/Book/Repairs.antt =====
-- What a book's operations rely on (src/exchange/order_book.cpp): writes to one slot or to one
-- level's total that keep a side standing, and the queues without one slot.
use nebula_x_simulator.Prelude.{
  ℕ, ◌≡◌, ◌≢◌, refl, sym, ap, subst, ◌∙◌, inl, inr, false, some, List, [], ◌∷◌, ◌++◌, arith, All,
  ◌==◌, Bool-cases, update,
}
use mathlib.Core.List.{append_assoc}
use nebula_x_simulator.Exchange.Order.{Side, Order, is_buy}
use nebula_x_simulator.Exchange.Levels.{PriceLevel, Levels, find_level, put_level}
use nebula_x_simulator.Exchange.Book.{OrderBook, before_of, levels_of, set_levels}
use nebula_x_simulator.Exchange.Book.Chain.{NotIn, Distinct}
use nebula_x_simulator.Exchange.Book.Priority.{Queues}
use nebula_x_simulator.Exchange.Book.Sorted.{
  IsLive, IsLevel, Later, Stands, Stands-frame, slots, SameSlot,
}
use nebula_x_simulator.Exchange.Book.Erasure.{keep, Without}
use nebula_x_simulator.Exchange.Book.Takeoff.{All-put}

-- The side `sd` of the book stands for the queues, over slots that are all different.
pub record Holds (b : OrderBook) (sd : Side) (qs : Queues) : Type 0 where
  pub stands : Stands b.storage sd (levels_of b sd) qs
  pub distinct : Distinct (slots qs)

-- A slot of the queues has its queue's price and the side.
pub Without-IsLive :
    (st : ℕ → Order) (sd : Side) (m : Levels) (qs qs' : Queues) (i p : ℕ)
    → Stands st sd m qs
    → Without i p qs qs'
    → IsLive st sd p i
Without-IsLive st sd [] [] qs' i p v w = absurd w
Without-IsLive st sd [] (q ∷ qs) qs' i p v w = absurd v
Without-IsLive st sd (l ∷ m) [] qs' i p v w = absurd v
Without-IsLive st sd ((q, lvl) ∷ m) ((r, xs) ∷ qs) qs' i p (e, v, l, s)
      (inl (f, before, after, same, _)) =
    subst (λ k. IsLive st sd k i) (e ∙ f) (pick before (subst (All (IsLive st sd q)) same v.live))
  where
    pick : (before : List ℕ) → All (IsLive st sd q) (before ++ i ∷ after) → IsLive st sd q i
    pick [] (x, a) = x
    pick (y ∷ before) (x, a) = pick before a
Without-IsLive st sd ((q, lvl) ∷ m) ((r, xs) ∷ qs) qs' i p (e, v, l, s) (inr (rest, _, w)) =
    Without-IsLive st sd m qs rest i p s w

pub update-SameSlot :
    (st : ℕ → Order) (i z : ℕ) (o : Order)
    → o.prev_idx ≡ (st i).prev_idx
    → o.next_idx ≡ (st i).next_idx
    → o.price ≡ (st i).price
    → o.side ≡ (st i).side
    → SameSlot st (update st i o) z
update-SameSlot st i z o a b c d = record {
  links = (ground (arith, a), ground (arith, b));
  price = ground (arith, c);
  side = ground (arith, d);
}

pub everywhere : {P : ℕ → Type 0} (xs : List ℕ) → ((x : ℕ) → P x) → All P xs
everywhere [] f = tt
everywhere (x ∷ xs) f = (f x, everywhere xs f)

-- A write to one slot that keeps its links, its price and its side.
pub update-Stands :
    (st : ℕ → Order) (sd : Side) (m : Levels) (qs : Queues) (i : ℕ) (o : Order)
    → o.prev_idx ≡ (st i).prev_idx
    → o.next_idx ≡ (st i).next_idx
    → o.price ≡ (st i).price
    → o.side ≡ (st i).side
    → Stands st sd m qs
    → Stands (update st i o) sd m qs
update-Stands st sd m qs i o a b c d v =
    Stands-frame st (update st i o) sd m qs
      (everywhere (slots qs) (λ z. update-SameSlot st i z o a b c d)) v

pub find-price :
    (P : ℕ → Type 0) (p : ℕ) (lvl : PriceLevel) (m : Levels)
    → find_level p m ≡ some lvl
    → All (λ x. P x.0) m
    → P p
unfolding find_level
find-price P p lvl [] found a = absurd (ground (arith, found))
find-price P p lvl ((q, l) ∷ m) found (x, a) = elim (Bool-cases (q == p)) [
  | inl h ↦ subst P (ground (arith, h)) x
  | inr h ↦ find-price P p lvl m (ground (arith, h, found)) a
]

pub IsLevel-total :
    (st : ℕ → Order) (sd : Side) (p total : ℕ) (lvl : PriceLevel) (xs : List ℕ)
    → IsLevel st sd p lvl xs
    → IsLevel st sd p (record lvl { total_qty = total }) xs
IsLevel-total st sd p total lvl xs v = record {
  head = v.head;
  tail = v.tail;
  count = v.count;
  some_order = v.some_order;
  small = v.small;
  linked = v.linked;
  live = v.live;
}

-- A new total for a level that is there.
pub put-Stands :
    (st : ℕ → Order) (sd : Side) (m : Levels) (qs : Queues) (p total : ℕ) (lvl : PriceLevel)
    → Stands st sd m qs
    → find_level p m ≡ some lvl
    → Stands st sd (put_level (before_of sd) p (record lvl { total_qty = total }) m) qs
unfolding find_level put_level
put-Stands st sd [] qs p total lvl v found = absurd (ground (arith, found))
put-Stands st sd (l ∷ m) [] p total lvl v found = absurd v
put-Stands st sd ((q, l) ∷ m) ((r, xs) ∷ qs) p total lvl (e, v, a, s) found =
    elim (Bool-cases (q == p)) [
      | inl h ↦
          let same : q ≡ p = ground (arith, h) in
          let level : l ≡ lvl = ground (arith, h, found) in
          rw (h, put_level)
            (
              sym same ∙ e,
              IsLevel-total st sd p total lvl xs (
                  subst (λ k. IsLevel st sd k lvl xs) same
                    (subst (λ k. IsLevel st sd q k xs) level v)),
              subst (λ k. All (Later sd k) m) same a,
              s,
            )
      | inr h ↦
          let found' : find_level p m ≡ some lvl = ground (arith, h, found) in
          let later = find-price (λ n. (q ≢ n) × (before_of sd n q ≡ false)) p lvl m found' a in
          rw (h, later.1, put_level)
            (
              e,
              v,
              All-put (Later sd q) (before_of sd) p _ m later a,
              put-Stands st sd m qs p total lvl s found',
            )
    ]

-- The slots without `i`.
pub Without-slots :
    (i p : ℕ) (qs qs' : Queues)
    → Without i p qs qs'
    → (before after : List ℕ) × (slots qs ≡ before ++ i ∷ after) × (slots qs' ≡ before ++ after)
Without-slots i p [] qs' w = absurd w
Without-slots i p ((q, xs) ∷ qs) qs' (inl (f, before, after, same, rest)) = (
  before,
  after ++ slots qs,
  ap (λ k. k ++ slots qs) same ∙ append_assoc before (i ∷ after) (slots qs),
  ap slots rest ∙ slots_keep (before ++ after) ∙ append_assoc before after (slots qs),
)
  where
    slots_keep : (ys : List ℕ) → slots (keep q ys qs) ≡ ys ++ slots qs
    slots_keep [] = refl
    slots_keep (y ∷ ys) = refl
Without-slots i p ((q, xs) ∷ qs) qs' (inr (rest, same, w)) =
    let (before, after, e, f) = Without-slots i p qs rest w in
    (
      xs ++ before,
      after,
      ap (λ k. xs ++ k) e ∙ sym (append_assoc xs before (i ∷ after)),
      ap slots same ∙ ap (λ k. xs ++ k) f ∙ sym (append_assoc xs before after),
    )

pub NotIn-skip :
    (x i : ℕ) (before after : List ℕ) → NotIn x (before ++ i ∷ after) → NotIn x (before ++ after)
NotIn-skip x i [] after (h, n) = n
NotIn-skip x i (y ∷ before) after (h, n) = (h, NotIn-skip x i before after n)

pub Distinct-skip :
    (i : ℕ) (before after : List ℕ) → Distinct (before ++ i ∷ after) → Distinct (before ++ after)
Distinct-skip i [] after (n, d) = d
Distinct-skip i (y ∷ before) after (n, d) =
    (NotIn-skip y i before after n, Distinct-skip i before after d)

pub Without-Distinct :
    (i p : ℕ) (qs qs' : Queues) → Without i p qs qs' → Distinct (slots qs) → Distinct (slots qs')
Without-Distinct i p qs qs' w d =
    let (before, after, e, f) = Without-slots i p qs qs' w in
    subst Distinct (sym f) (Distinct-skip i before after (subst Distinct e d))

-- Writing a side back.
pub set_levels-Stands :
    (b : OrderBook) (s sd : Side) (m : Levels) (qs : Queues)
    → is_buy s ≡ is_buy sd
    → Stands b.storage sd m qs
    → Stands (set_levels b s m).storage sd (levels_of (set_levels b s m) sd) qs
set_levels-Stands b s sd m qs h v = elim (Bool-cases (is_buy sd)) [
  | inl k ↦ rw (h ∙ k, k) v
  | inr k ↦ rw (h ∙ k, k) v
]
