-- ===== src/Exchange/Book/Takeoff.antt =====
-- The whole of `removeOrder` (src/exchange/order_book.cpp) on one side: the slot leaves the side's
-- queues, its level goes with its last order, and the rest stands as it did.
use nebula_x_simulator.Prelude.{
  ℕ, suc, ◌<◌, ◌≡◌, ◌≢◌, refl, sym, ap, subst, ◌∙◌, inl, inr, Bool, true, false, some, List, [],
  ◌∷◌, ◌++◌, arith, u32_max, length, All, ◌==◌, if◌then◌else◌, Bool-cases,
}
use nebula_x_simulator.Exchange.Order.{Side, Order}
use nebula_x_simulator.Exchange.Levels.{PriceLevel, Levels, find_level, put_level, erase_level}
use nebula_x_simulator.Exchange.Book.{before_of, unlink, level_without}
use nebula_x_simulator.Exchange.Book.Chain.{Linked, NotIn, Distinct}
use nebula_x_simulator.Exchange.Book.Priority.{Queues}
use nebula_x_simulator.Exchange.Book.Sorted.{
  IsLevel, IsLevel-frame, Later, Stands, Stands-frame, slots, All-map,
}
use nebula_x_simulator.Exchange.Book.Erasure.{
  keep, Without, drop_level, Kept, Without-price, Without-apart, level_without-IsLevel,
  Distinct-left, Distinct-right, length-without, prev_other, apart, unlink-Kept,
}

drop_here :
    (sd : Side) (q p : ℕ) (lvl lvl' : PriceLevel) (m : Levels)
    → q ≡ p
    → drop_level sd p lvl' ((q, lvl) ∷ m) ≡ (if lvl'.count == 0 then m else (p, lvl') ∷ m)
unfolding erase_level put_level
drop_here sd q p lvl lvl' m e = ground (arith, e)

drop_there :
    (sd : Side) (q p : ℕ) (lvl lvl' : PriceLevel) (m : Levels)
    → Later sd q (p, lvl')
    → drop_level sd p lvl' ((q, lvl) ∷ m) ≡ (q, lvl) ∷ drop_level sd p lvl' m
unfolding erase_level put_level
drop_there sd q p lvl lvl' m (ne, after) = elim (Bool-cases (lvl'.count == 0)) [
  | inl h ↦ rw h (ground (arith, ne))
  | inr h ↦ rw h (ground (arith, ne, after))
]

All-erase : (P : ℕ × PriceLevel → Type 0) (p : ℕ) (m : Levels) → All P m → All P (erase_level p m)
unfolding erase_level
All-erase P p [] a = tt
All-erase P p ((q, l) ∷ m) (x, a) = elim (Bool-cases (q == p)) [
  | inl h ↦ rw (h, erase_level) a
  | inr h ↦ rw (h, erase_level) (x, All-erase P p m a)
]

pub All-put :
    (P : ℕ × PriceLevel → Type 0) (before : ℕ → ℕ → Bool) (p : ℕ) (lvl : PriceLevel) (m : Levels)
    → P (p, lvl)
    → All P m
    → All P (put_level before p lvl m)
unfolding put_level
All-put P before p lvl [] y a = (y, tt)
All-put P before p lvl ((q, l) ∷ m) y (x, a) = elim (Bool-cases (q == p)) [
  | inl h ↦ rw (h, put_level) (y, a)
  | inr h ↦ elim (Bool-cases (before p q)) [
    | inl k ↦ rw (h, k, put_level) (y, (x, a))
    | inr k ↦ rw (h, k, put_level) (x, All-put P before p lvl m y a)
  ]
]

All-drop :
    (P : ℕ × PriceLevel → Type 0) (sd : Side) (p : ℕ) (lvl : PriceLevel) (m : Levels)
    → P (p, lvl)
    → All P m
    → All P (drop_level sd p lvl m)
All-drop P sd p lvl m y a = elim (Bool-cases (lvl.count == 0)) [
  | inl h ↦ rw h (All-erase P p m a)
  | inr h ↦ rw h (All-put P (before_of sd) p lvl m y a)
]

pub Linked-apart :
    (st : ℕ → Order) (prev : ℕ) (xs ys : List ℕ)
    → Linked st prev xs
    → Distinct (xs ++ ys)
    → All (λ z. (z < u32_max) × NotIn z ys) xs
Linked-apart st prev [] ys l d = tt
Linked-apart st prev (x ∷ xs) ys (small, _, _, l) (n, d) =
    ((small, right x xs n), Linked-apart st x xs ys l d)
  where
    right : (z : ℕ) (xs : List ℕ) → NotIn z (xs ++ ys) → NotIn z ys
    right z [] h = h
    right z (y ∷ xs) (h, k) = right z xs k

pub NotIn-flip : (x : ℕ) (ys : List ℕ) → NotIn x ys → All (λ z. z ≢ x) ys
NotIn-flip x [] n = tt
NotIn-flip x (y ∷ ys) (h, n) = (λ e. h (sym e), NotIn-flip x ys n)

pub All-both : (P Q : ℕ → Type 0) (xs : List ℕ) → All P xs → All Q xs → All (λ z. P z × Q z) xs
All-both P Q [] a b = tt
All-both P Q (x ∷ xs) (p, a) (q, b) = ((p, q), All-both P Q xs a b)

pub All-join : (P : ℕ → Type 0) (xs ys : List ℕ) → All P xs → All P ys → All P (xs ++ ys)
All-join P [] ys a b = b
All-join P (x ∷ xs) ys (p, a) b = (p, All-join P xs ys a b)

pub Distinct-apart : (xs ys : List ℕ) → Distinct (xs ++ ys) → All (λ z. NotIn z xs) ys
Distinct-apart [] ys d = everything ys
  where
    everything : (ys : List ℕ) → All (λ z. NotIn z []) ys
    everything [] = tt
    everything (y ∷ ys) = (tt, everything ys)
Distinct-apart (x ∷ xs) ys (n, d) =
    All-both _ _ ys (NotIn-flip x ys (right x xs n)) (Distinct-apart xs ys d)
  where
    right : (z : ℕ) (xs : List ℕ) → NotIn z (xs ++ ys) → NotIn z ys
    right z [] h = h
    right z (y ∷ xs) (h, k) = right z xs k

Linked-small :
    (st : ℕ → Order) (prev : ℕ) (xs : List ℕ) → Linked st prev xs → All (λ z. z < u32_max) xs
Linked-small st prev [] l = tt
Linked-small st prev (x ∷ xs) (small, _, _, l) = (small, Linked-small st x xs l)

pub Stands-small :
    (st : ℕ → Order) (sd : Side) (m : Levels) (qs : Queues)
    → Stands st sd m qs
    → All (λ z. z < u32_max) (slots qs)
Stands-small st sd [] [] v = tt
Stands-small st sd [] (q ∷ qs) v = absurd v
Stands-small st sd (l ∷ m) [] v = absurd v
Stands-small st sd ((p, lvl) ∷ m) ((q, xs) ∷ qs) (e, v, l, s) =
    All-join _ xs (slots qs) (Linked-small st u32_max xs v.linked) (Stands-small st sd m qs s)

-- The slots of the other queues keep links, price and side.
others-Kept :
    (st : ℕ → Order) (i : ℕ) (before after ys : List ℕ)
    → Linked st u32_max (before ++ i ∷ after)
    → Distinct ((before ++ i ∷ after) ++ ys)
    → All (λ z. z < u32_max) ys
    → All (Kept st i) ys
others-Kept st i before after ys l d small =
    let off = prev_other st i before after l (Distinct-left (before ++ i ∷ after) ys d) in
    All-map ys (λ z h. unlink-Kept st i z off (apart st i z before after l h.0 h.1))
      (All-both _ _ ys small (Distinct-apart (before ++ i ∷ after) ys d))

level_without-count :
    (st : ℕ → Order) (sd : Side) (p i : ℕ) (lvl : PriceLevel) (o : Order) (before after : List ℕ)
    → IsLevel st sd p lvl (before ++ i ∷ after)
    → (level_without lvl o i).count ≡ length (before ++ after)
unfolding level_without
level_without-count st sd p i lvl o before after v =
    omega (arith, v.count, v.small, length-without i before after)

-- What `removeOrder` leaves of the level, for the slot `i`.
abbrev pub rest_of : (ℕ → Order) → PriceLevel → ℕ → PriceLevel
rest_of st lvl i = level_without lvl (unlink st i i) i

not_zero : (n : ℕ) → (suc n == 0) ≡ false
not_zero n = ground arith

takeoff_here :
    (st : ℕ → Order) (sd : Side) (p q r i : ℕ) (lvl : PriceLevel) (m : Levels) (qs : Queues)
    (before after ys : List ℕ)
    → IsLevel st sd p lvl (before ++ i ∷ after)
    → All (Later sd p) m
    → Stands st sd m qs
    → Distinct ((before ++ i ∷ after) ++ slots qs)
    → q ≡ p
    → p ≡ r
    → before ++ after ≡ ys
    → Stands (unlink st i) sd (drop_level sd p (rest_of st lvl i) ((q, lvl) ∷ m)) (keep r ys qs)
takeoff_here st sd p q r i lvl m qs before after [] v l s d e f same =
    let none_left : ((rest_of st lvl i).count == 0) ≡ true =
      ap (λ n. n == 0) (level_without-count st sd p i lvl _ before after v ∙ ap length same) in
    let kept = others-Kept st i before after (slots qs) v.linked d (Stands-small st sd m qs s) in
    rw (drop_here sd q p lvl (rest_of st lvl i) m e, none_left)
      (Stands-frame st (unlink st i) sd m qs kept s)
takeoff_here st sd p q r i lvl m qs before after (y ∷ ys) v l s d e f same =
    let size = level_without-count st sd p i lvl _ before after v ∙ ap length same in
    let some_left : ((rest_of st lvl i).count == 0) ≡ false =
      ap (λ n. n == 0) size ∙ not_zero (length ys) in
    let kept = others-Kept st i before after (slots qs) v.linked d (Stands-small st sd m qs s) in
    let dxs = Distinct-left (before ++ i ∷ after) (slots qs) d in
    let level =
      level_without-IsLevel st sd p i lvl before after v dxs (omega (arith, ap length same)) in
    rw (drop_here sd q p lvl (rest_of st lvl i) m e, some_left)
      (
        f,
        subst (IsLevel (unlink st i) sd p (rest_of st lvl i)) same level,
        l,
        Stands-frame st (unlink st i) sd m qs kept s,
      )

-- Taking the slot `i` off its side: the level at its price is found, and what is written back for
-- it leaves the side standing for the queues without the slot.
pub takeoff-Stands :
    (st : ℕ → Order) (sd : Side) (m : Levels) (qs qs' : Queues) (i p : ℕ)
    → Stands st sd m qs
    → Distinct (slots qs)
    → Without i p qs qs'
    → (lvl : PriceLevel) × (find_level p m ≡ some lvl)
      × Stands (unlink st i) sd (drop_level sd p (rest_of st lvl i) m) qs'
unfolding find_level
takeoff-Stands st sd [] [] qs' i p v d w = absurd w
takeoff-Stands st sd [] (q ∷ qs) qs' i p v d w = absurd v
takeoff-Stands st sd (l ∷ m) [] qs' i p v d w = absurd v
takeoff-Stands st sd ((q, lvl) ∷ m) ((r, xs) ∷ qs) qs' i p (e, v, l, s) d
      (inl (f, before, after, same, rest)) =
    let v' =
      subst (λ k. IsLevel st sd k lvl (before ++ i ∷ after)) (e ∙ f)
        (subst (IsLevel st sd q lvl) same v) in
    let d' = subst (λ k. Distinct (k ++ slots qs)) same d in
    let l' = subst (λ k. All (Later sd k) m) (e ∙ f) l in
    (
      lvl,
      ground (arith, e, f),
      subst (Stands (unlink st i) sd (drop_level sd p (rest_of st lvl i) ((q, lvl) ∷ m))) (sym rest)
          (takeoff_here st sd p q r i lvl m qs before after (before ++ after) v' l' s d' (e ∙ f)
            (sym f) refl),
    )
takeoff-Stands st sd ((q, lvl) ∷ m) ((r, xs) ∷ qs) qs' i p (e, v, l, s) d (inr (rest, same, w)) =
    let (found, k, t) = takeoff-Stands st sd m qs rest i p s (Distinct-right xs (slots qs) d) w in
    let later : Later sd q (p, rest_of st found i) =
      Without-price (λ n. (q ≢ n) × (before_of sd n q ≡ false)) st sd m qs rest i p s w l in
    let kept =
      All-map xs
        (λ z h. Without-apart st sd m qs rest i p z s (Distinct-right xs (slots qs) d) w h.0 h.1)
        (Linked-apart st u32_max xs (slots qs) v.linked d) in
    (
      found,
      ground (arith, k, later.0),
      subst (Stands (unlink st i) sd (drop_level sd p (rest_of st found i) ((q, lvl) ∷ m)))
          (sym same)
          (rw (drop_there sd q p lvl (rest_of st found i) m later) (
            e,
            IsLevel-frame st (unlink st i) sd q lvl xs kept v,
            All-drop (Later sd q) sd p (rest_of st found i) m later l,
            t,
          )),
    )
