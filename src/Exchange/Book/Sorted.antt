-- ===== src/Exchange/Book/Sorted.antt =====
-- One side of a book as a whole (src/exchange/order_book.h): the map of price levels against the
-- queues that it stands for, in the map's order.
use nebula_x_simulator.Prelude.{
  ℕ, ◌<◌, ◌≡◌, ◌≢◌, ap, ◌∙◌, false, List, [], ◌∷◌, ◌++◌, u32_max, u32_mod, length, All,
}
use nebula_x_simulator.Exchange.Order.{Side, Order, is_buy}
use nebula_x_simulator.Exchange.Levels.{PriceLevel, Levels}
use nebula_x_simulator.Exchange.Book.{before_of}
use nebula_x_simulator.Exchange.Book.Chain.{
  Linked, head_or_null, last_from, SameLinks, Linked-frame,
}
use nebula_x_simulator.Exchange.Book.Priority.{Queues}

-- A slot whose order has the level's price and side.
abbrev pub IsLive : (ℕ → Order) → Side → ℕ → ℕ → Type 0
IsLive st sd p x = ((st x).price ≡ p) × (is_buy (st x).side ≡ is_buy sd)

-- A level and the queue that it stands for, which has an order.
pub record IsLevel (st : ℕ → Order) (sd : Side) (p : ℕ) (lvl : PriceLevel) (xs : List ℕ)
    : Type 0 where
  pub head : lvl.head_idx ≡ head_or_null xs
  pub tail : lvl.tail_idx ≡ last_from u32_max xs
  pub count : lvl.count ≡ length xs
  pub some_order : 0 < length xs
  pub small : length xs < u32_mod
  pub linked : Linked st u32_max xs
  pub live : All (IsLive st sd p) xs

-- The level comes after the price `p` in the side's order.
abbrev pub Later : Side → ℕ → ℕ × PriceLevel → Type 0
Later sd p x = (p ≢ x.0) × (before_of sd x.0 p ≡ false)

-- Level for level, the prices in the map's order.
abbrev pub Stands : (ℕ → Order) → Side → Levels → Queues → Type 0
Stands st sd [] [] = Unit
Stands st sd [] (x ∷ qs) = ⊥
Stands st sd (x ∷ m) [] = ⊥
Stands st sd ((p, lvl) ∷ m) ((q, xs) ∷ qs) =
    (p ≡ q) × IsLevel st sd p lvl xs × All (Later sd p) m × Stands st sd m qs

-- All slots of the side.
abbrev pub slots : Queues → List ℕ
slots [] = []
slots ((q, xs) ∷ qs) = xs ++ slots qs

-- Two stores with the same links, price and side at a slot.
pub record SameSlot (st st' : ℕ → Order) (x : ℕ) : Type 0 where
  pub links : SameLinks st st' x
  pub price : (st' x).price ≡ (st x).price
  pub side : (st' x).side ≡ (st x).side

pub All-split : (P : ℕ → Type 0) (xs ys : List ℕ) → All P (xs ++ ys) → All P xs × All P ys
All-split P [] ys a = (tt, a)
All-split P (x ∷ xs) ys (p, a) = let (b, c) = All-split P xs ys a in ((p, b), c)

pub All-map : {P Q : ℕ → Type 0} (xs : List ℕ) → ((x : ℕ) → P x → Q x) → All P xs → All Q xs
All-map [] f a = tt
All-map (x ∷ xs) f (p, a) = (f x p, All-map xs f a)

pub IsLive-frame :
    (st st' : ℕ → Order) (sd : Side) (p : ℕ) (xs : List ℕ)
    → All (SameSlot st st') xs
    → All (IsLive st sd p) xs
    → All (IsLive st' sd p) xs
IsLive-frame st st' sd p [] a l = tt
IsLive-frame st st' sd p (x ∷ xs) (s, a) ((e, f), l) =
    ((s.price ∙ e, ap is_buy s.side ∙ f), IsLive-frame st st' sd p xs a l)

pub IsLevel-frame :
    (st st' : ℕ → Order) (sd : Side) (p : ℕ) (lvl : PriceLevel) (xs : List ℕ)
    → All (SameSlot st st') xs
    → IsLevel st sd p lvl xs
    → IsLevel st' sd p lvl xs
IsLevel-frame st st' sd p lvl xs a v = record {
  head = v.head;
  tail = v.tail;
  count = v.count;
  some_order = v.some_order;
  small = v.small;
  linked = Linked-frame st st' u32_max xs (All-map xs (λ x s. s.links) a) v.linked;
  live = IsLive-frame st st' sd p xs a v.live;
}

-- A write that keeps links, prices and sides of the side's slots keeps its levels.
pub Stands-frame :
    (st st' : ℕ → Order) (sd : Side) (m : Levels) (qs : Queues)
    → All (SameSlot st st') (slots qs)
    → Stands st sd m qs
    → Stands st' sd m qs
Stands-frame st st' sd [] [] a v = tt
Stands-frame st st' sd [] (q ∷ qs) a v = v
Stands-frame st st' sd (l ∷ m) [] a v = v
Stands-frame st st' sd ((p, lvl) ∷ m) ((q, xs) ∷ qs) a (e, v, l, r) =
    let (b, c) = All-split (SameSlot st st') xs (slots qs) a in
    (e, IsLevel-frame st st' sd p lvl xs b v, l, Stands-frame st st' sd m qs c r)
