-- ===== src/Exchange/Book/Removal.antt =====
-- Taking a slot out of a price level's list (`removeOrder` of src/exchange/order_book.cpp) takes it
-- out of the queue, and leaves the others linked in their order.
use nebula_x_simulator.Prelude.{
  ℕ, ◌<◌, ◌≡◌, ◌≢◌, sym, subst, ◌∙◌, List, [], ◌∷◌, ◌++◌, arith, u32_max, All,
}
use mathlib.Core.List.{append_assoc}
use nebula_x_simulator.Exchange.Order.{Order}
use nebula_x_simulator.Exchange.Book.{unlink}
use nebula_x_simulator.Exchange.Book.Chain.{
  Linked, head_or_null, last_from, last_from-ne, NotIn, Distinct, SameLinks, Linked-frame,
  unlink_next, unlink_prev,
}

pub NotIn-left : (x : ℕ) (xs ys : List ℕ) → NotIn x (xs ++ ys) → NotIn x xs
NotIn-left x [] ys h = tt
NotIn-left x (z ∷ xs) ys (h, k) = (h, NotIn-left x xs ys k)

pub NotIn-right : (x : ℕ) (xs ys : List ℕ) → NotIn x (xs ++ ys) → NotIn x ys
NotIn-right x [] ys h = h
NotIn-right x (z ∷ xs) ys (h, k) = NotIn-right x xs ys k

pub NotIn-head : (x : ℕ) (ys : List ℕ) → x < u32_max → NotIn x ys → x ≢ head_or_null ys
NotIn-head x [] small h = λ e. omega arith
NotIn-head x (y ∷ ys) small h = h.0

-- In a queue the slot `i` points at its neighbours there.
pub Linked-at :
    (st : ℕ → Order) (prev i : ℕ) (before after : List ℕ)
    → Linked st prev (before ++ i ∷ after)
    → ((st i).prev_idx ≡ last_from prev before) × ((st i).next_idx ≡ head_or_null after)
Linked-at st prev i [] after (_, p, n, _) = (p, n)
Linked-at st prev i (x ∷ before) after (_, _, _, l) = Linked-at st x i before after l

module _ (st : ℕ → Order) (i : ℕ) where
  -- A slot that is no neighbour of `i` keeps its links.
  pub untouched :
      (z : ℕ)
      → (st i).prev_idx ≢ i
      → z ≢ (st i).prev_idx
      → z ≢ (st i).next_idx
      → SameLinks st (unlink st i) z
  untouched z a b c = (ground (arith, unlink_prev st i z a), ground (arith, unlink_next st i z a))

  untouched-All :
      (zs : List ℕ)
      → (st i).prev_idx ≢ i
      → NotIn (st i).prev_idx zs
      → NotIn (st i).next_idx zs
      → All (SameLinks st (unlink st i)) zs
  untouched-All [] a b c = tt
  untouched-All (z ∷ zs) a (b, bs) (c, cs) =
      (untouched z a (λ e. b (sym e)) (λ e. c (sym e)), untouched-All zs a bs cs)

  -- Behind `i`: the next slot points back at the one before `i`.
  unlink_after :
      (prev : ℕ) (after : List ℕ)
      → Linked st prev (i ∷ after)
      → prev ≢ i
      → NotIn prev after
      → Distinct (i ∷ after)
      → Linked (unlink st i) prev after
  unlink_after prev [] l a n d = tt
  unlink_after prev (b ∷ after) (si, p, nx, (sb, pb, nb, l)) a (nob, n) (_, (db, d)) =
      let off : (st i).prev_idx ≢ i = λ e. a (sym p ∙ e) in
      (
        sb,
        ground (arith, unlink_prev st i b off),
        ground (arith, unlink_next st i b off),
        Linked-frame st (unlink st i) b after
            (untouched-All after off (subst (λ k. NotIn k after) (sym p) n)
              (subst (λ k. NotIn k after) (sym nx) db))
            l,
      )

  -- The slot before `i` points on to the one behind it; any other keeps its links.
  unlink_head :
      (prev a : ℕ) (before after : List ℕ)
      → Linked st prev (a ∷ (before ++ i ∷ after))
      → Distinct (a ∷ (before ++ i ∷ after))
      → (st i).prev_idx ≢ i
      → ((unlink st i a).prev_idx ≡ prev)
        × ((unlink st i a).next_idx ≡ head_or_null (before ++ after))
  unlink_head prev a [] after l d off =
      let (p, n) = Linked-at st prev i (a ∷ []) after l in
      let past = NotIn-head a after l.0 d.0.1 in
      (ground (arith, unlink_prev st i a off), ground (arith, unlink_next st i a off))
  unlink_head prev a (c ∷ before) after l d off =
      let (p, n) = Linked-at st prev i (a ∷ c ∷ before) after l in
      let past =
        NotIn-head a after l.0
          (NotIn-right a (before ++ i ∷ []) after (regroup a before after d.0.1)) in
      let apart = last_from-ne a c before d.0.0 (NotIn-left a before (i ∷ after) d.0.1) in
      (ground (arith, unlink_prev st i a off), ground (arith, unlink_next st i a off))
    where
      regroup : (x : ℕ) (xs ys : List ℕ) → NotIn x (xs ++ i ∷ ys) → NotIn x ((xs ++ i ∷ []) ++ ys)
      regroup x xs ys h = subst (NotIn x) (sym (append_assoc xs (i ∷ []) ys)) h

  pub last_from-ne_next :
      (a : ℕ) (before after : List ℕ)
      → Distinct (a ∷ (before ++ i ∷ after))
      → last_from a before ≢ i
  last_from-ne_next a [] after d = d.0.0
  last_from-ne_next a (c ∷ before) after d = last_from-ne_next c before after d.1

  -- The queue without `i`, from the slot `prev` on.
  Linked-remove :
      (prev : ℕ) (before after : List ℕ)
      → Linked st prev (before ++ i ∷ after)
      → prev ≢ i
      → NotIn prev after
      → Distinct (before ++ i ∷ after)
      → Linked (unlink st i) prev (before ++ after)
  Linked-remove prev [] after l a n d = unlink_after prev after l a n d
  Linked-remove prev (a ∷ before) after l ne n d =
      let (p, _) = Linked-at st prev i (a ∷ before) after l in
      let off : (st i).prev_idx ≢ i = λ e. last_from-ne_next a before after d (sym p ∙ e) in
      let (hp, hn) = unlink_head prev a before after l d off in
      let out = NotIn-right a before (i ∷ after) d.0 in
      (l.0, hp, hn, Linked-remove a before after l.3 out.0 out.1 d.1)

null_NotIn : (st : ℕ → Order) (prev : ℕ) (xs : List ℕ) → Linked st prev xs → NotIn u32_max xs
null_NotIn st prev [] l = tt
null_NotIn st prev (x ∷ xs) (small, _, _, l) = (λ e. omega arith, null_NotIn st x xs l)

pub Linked-below :
    (st : ℕ → Order) (prev i : ℕ) (before after : List ℕ)
    → Linked st prev (before ++ i ∷ after)
    → (i < u32_max) × NotIn u32_max after
Linked-below st prev i [] after (small, _, _, l) = (small, null_NotIn st i after l)
Linked-below st prev i (x ∷ before) after (_, _, _, l) = Linked-below st x i before after l

-- Unlinking a slot of a price level's list, which starts with no slot before it, leaves exactly the
-- queue without that slot, linked in both directions in the same order.
pub unlink-Linked :
    (st : ℕ → Order) (i : ℕ) (before after : List ℕ)
    → Linked st u32_max (before ++ i ∷ after)
    → Distinct (before ++ i ∷ after)
    → Linked (unlink st i) u32_max (before ++ after)
unlink-Linked st i before after l d =
    let (small, n) = Linked-below st u32_max i before after l in
    Linked-remove st i u32_max before after l (λ e. omega arith) n d
