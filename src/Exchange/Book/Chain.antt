-- ===== src/Exchange/Book/Chain.antt =====
-- The intrusive list of one price level (src/exchange/order.h, order_book.cpp): slots linked in both
-- directions by their numbers, against the queue of slots that they stand for.
use nebula_x_simulator.Prelude.{
  ℕ, zero, suc, ◌+◌, ◌%◌, ◌<◌, ◌≤◌, ◌≡◌, ◌≢◌, refl, ◌∙◌, false, Option, none, some, List, [], ◌∷◌,
  ◌++◌, arith, u32_max, u32_mod, add32, ◌==◌, if◌then◌else◌, length, update, All,
}
use nebula_x_simulator.Exchange.Order.{Order}
use nebula_x_simulator.Exchange.Book.{first_other, list_qty, unlink, set_next}

-- The first slot of a queue, or the null index.
abbrev pub head_or_null : List ℕ → ℕ
head_or_null [] = u32_max
head_or_null (x ∷ xs) = x

-- The last slot of a queue that follows the slot `p`.
abbrev pub last_from : ℕ → List ℕ → ℕ
last_from p [] = p
last_from p (x ∷ xs) = last_from x xs

-- Each slot of the queue, which follows `prev`, points back at the one before and on to the next.
abbrev pub Linked : (ℕ → Order) → ℕ → List ℕ → Type 0
Linked st prev [] = Unit
Linked st prev (x ∷ xs) =
    (x < u32_max) × ((st x).prev_idx ≡ prev) × ((st x).next_idx ≡ head_or_null xs) × Linked st x xs

abbrev pub NotIn : ℕ → List ℕ → Type 0
NotIn x [] = Unit
NotIn x (y ∷ ys) = (x ≢ y) × NotIn x ys

abbrev pub Distinct : List ℕ → Type 0
Distinct [] = Unit
Distinct (x ∷ xs) = NotIn x xs × Distinct xs

-- The oldest order of the queue that is not of the user.
abbrev pub find_other : (ℕ → Order) → ℕ → List ℕ → Option ℕ
find_other st user [] = none
find_other st user (x ∷ xs) =
    let rest = find_other st user xs in if (st x).user_id == user then rest else some x

-- The shares left in the queue.
abbrev pub sum_qty : (ℕ → Order) → List ℕ → ℕ
sum_qty st [] = 0
sum_qty st (x ∷ xs) = (st x).remaining_qty + sum_qty st xs

-- The walk along the links, with fuel for every slot of the queue, finds that order.
pub first_other-find_other :
    (st : ℕ → Order) (fuel prev user : ℕ) (xs : List ℕ)
    → Linked st prev xs
    → length xs ≤ fuel
    → first_other st fuel (head_or_null xs) user ≡ find_other st user xs
unfolding first_other
first_other-find_other st zero prev user [] l h = refl
first_other-find_other st (suc fuel) prev user [] l h = refl
first_other-find_other st zero prev user (x ∷ xs) l h = absurd (omega arith)
first_other-find_other st (suc fuel) prev user (x ∷ xs) (small, _, next, l) h =
    ground (arith, next, first_other-find_other st fuel x user xs l (omega arith))

not_null : (x : ℕ) → x < u32_max → (x == u32_max) ≡ false
not_null x h = ground arith

add_mod : (a b c : ℕ) → (add32 a b + c) % u32_mod ≡ (a + (b + c)) % u32_mod
add_mod a b c = omega arith

-- And it adds up the shares left, in 32 bits.
pub list_qty-sum_qty :
    (st : ℕ → Order) (fuel prev total : ℕ) (xs : List ℕ)
    → Linked st prev xs
    → length xs ≤ fuel
    → total < u32_mod
    → list_qty st fuel (head_or_null xs) total ≡ (total + sum_qty st xs) % u32_mod
unfolding list_qty
list_qty-sum_qty st zero prev total [] l h k = omega arith
list_qty-sum_qty st (suc fuel) prev total [] l h k = omega arith
list_qty-sum_qty st zero prev total (x ∷ xs) l h k = absurd (omega arith)
list_qty-sum_qty st (suc fuel) prev total (x ∷ xs) (small, _, next, l) h k =
    rw (not_null x small, next, list_qty)
      (list_qty-sum_qty st fuel x (add32 total (st x).remaining_qty) xs l (omega arith)
          (omega arith)
        ∙ add_mod total (st x).remaining_qty (sum_qty st xs))

-- Two stores with the same links at a slot.
abbrev pub SameLinks : (ℕ → Order) → (ℕ → Order) → ℕ → Type 0
SameLinks st st' x = ((st' x).prev_idx ≡ (st x).prev_idx) × ((st' x).next_idx ≡ (st x).next_idx)

pub Linked-frame :
    (st st' : ℕ → Order) (prev : ℕ) (xs : List ℕ)
    → All (SameLinks st st') xs
    → Linked st prev xs
    → Linked st' prev xs
Linked-frame st st' prev [] a l = tt
Linked-frame st st' prev (x ∷ xs) ((p, n), a) (small, e, f, l) =
    (small, p ∙ e, n ∙ f, Linked-frame st st' x xs a l)

pub last_from-ne : (x y : ℕ) (xs : List ℕ) → x ≢ y → NotIn x xs → x ≢ last_from y xs
last_from-ne x y [] h k = h
last_from-ne x y (z ∷ xs) h (k, l) = last_from-ne x z xs k l

-- The store after a new slot `y` was hung behind the slot `tail`.
abbrev pub hang : (ℕ → Order) → ℕ → ℕ → Order → ℕ → Order
hang st tail y node = set_next (update st y node) tail y

-- Hanging a new slot behind the last one appends it to the queue.
pub Linked-append :
    (st : ℕ → Order) (prev x y : ℕ) (xs : List ℕ) (node : Order)
    → Linked st prev (x ∷ xs)
    → Distinct (x ∷ xs)
    → NotIn y (x ∷ xs)
    → y < u32_max
    → node.prev_idx ≡ last_from x xs
    → node.next_idx ≡ u32_max
    → Linked (hang st (last_from x xs) y node) prev ((x ∷ xs) ++ y ∷ [])
Linked-append st prev x y [] node (a, b, c, l) d n h e f = ground arith
Linked-append st prev x y (z ∷ xs) node (a, b, c, l) (dx, d) (nx, n) h e f =
    let apart = last_from-ne x z xs dx.0 dx.1 in
    (a, ground (arith, apart), ground (arith, apart), Linked-append st x z y xs node l d n h e f)

-- What taking slot `i` out writes: its neighbours' links, past it.
pub unlink_next :
    (st : ℕ → Order) (i z : ℕ)
    → (st i).prev_idx ≢ i
    → (unlink st i z).next_idx ≡ (
        if (st i).prev_idx == u32_max
        then (st z).next_idx
        else if (st i).prev_idx == z
        then (st i).next_idx
        else (st z).next_idx)
unfolding unlink
unlink_next st i z h = ground arith

pub unlink_prev :
    (st : ℕ → Order) (i z : ℕ)
    → (st i).prev_idx ≢ i
    → (unlink st i z).prev_idx ≡ (
        if (st i).next_idx == u32_max
        then (st z).prev_idx
        else if (st i).next_idx == z
        then (st i).prev_idx
        else (st z).prev_idx)
unfolding unlink
unlink_prev st i z h = ground arith
