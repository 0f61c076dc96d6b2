-- ===== src/Exchange/Book/Entry.antt =====
-- What `addOrder` of src/exchange/order_book.cpp writes for the order itself: its slot and its entry in
-- the index.
use nebula_x_simulator.Prelude.{
  ℕ, ◌≡◌, ◌≢◌, refl, ap, ◌∙◌, true, false, Bool, some, List, ◌∷◌, arith, ◌==◌, if◌then◌else◌,
  Bool-cases, inl, inr, update, u32_max, add32,
}
use nebula_x_simulator.Core.{newest}
use nebula_x_simulator.Exchange.Order.{Side, Order, is_buy}
use nebula_x_simulator.Exchange.Levels.{PriceLevel, Levels, level_or_default, find_level, put_level}
use nebula_x_simulator.Exchange.Book.{
  OrderBook, levels_of, place, find_order, set_next, set_levels, set_storage, before_of,
}

-- The order with the links of another.
abbrev pub linked_as : Order → Order → Order
linked_as o p = record o { prev_idx = p.prev_idx; next_idx = p.next_idx }

-- The book `b'` holds the order, but for its links, in the slot `idx`, where a search for its number
-- finds it; a search for another number finds what it found in `b`.
pub record IsEntered (b : OrderBook) (o : Order) (idx : ℕ) (b' : OrderBook) : Type 0 where
  pub found : find_order b' o.order_id ≡ some idx
  pub others : (id : ℕ) → o.order_id ≢ id → find_order b' id ≡ find_order b id
  pub kept : linked_as (b'.storage idx) o ≡ o

newest-update : (f : ℕ → List ℕ) (k i : ℕ) → newest (update f k (i ∷ f k) k) ≡ some i
newest-update f k i = ground arith

newest-other : (f : ℕ → List ℕ) (k j i : ℕ) → k ≢ j → newest (update f k (i ∷ f k) j) ≡ newest (f j)
newest-other f k j i ne = ground (arith, ne)

-- A write of a link leaves the rest of every order.
set_next-linked_as :
    (st : ℕ → Order) (t i j : ℕ) (o : Order) → linked_as (set_next st t i j) o ≡ linked_as (st j) o
set_next-linked_as st t i j o = elim (Bool-cases (t == j)) [
  | inl k ↦ let same : t ≡ j = ground arith in rw k (ap (λ x. linked_as (st x) o) same)
  | inr k ↦ rw k refl
]

pub same_slot : (idx : ℕ) → (idx == idx) ≡ true
same_slot idx = ground arith

-- The writes to the new slot and to the one before it.
node-kept :
    (st : ℕ → Order) (o : Order) (fresh : Bool) (idx tail p : ℕ)
    → let st' = update st idx (record o { prev_idx = p; next_idx = u32_max }) in
      linked_as ((if fresh then st' else set_next st' tail idx) idx) o ≡ o
node-kept st o true idx tail p = rw (same_slot idx) refl
node-kept st o false idx tail p =
    set_next-linked_as (update st idx (record o { prev_idx = p; next_idx = u32_max })) tail idx idx
      o
    ∙ rw (same_slot idx) refl

pub set_levels-storage :
    (b : OrderBook) (s : Side) (m : Levels) → (set_levels b s m).storage ≡ b.storage
set_levels-storage b s m = elim (Bool-cases (is_buy s)) [ inl k ↦ rw k refl | inr k ↦ rw k refl ]

pub place-IsEntered : (b : OrderBook) (o : Order) (idx : ℕ) → IsEntered b o idx (place b o idx)
unfolding place find_order
place-IsEntered b o idx = record {
  found = newest-update b.index o.order_id idx;
  others = λ id ne. newest-other b.index o.order_id id idx ne;
  kept =
      let lvl = level_or_default (find_level o.price (levels_of b o.side)) in
      let fresh = lvl.count == 0 in
      let prev = if fresh then u32_max else lvl.tail_idx in
      let st = update b.storage idx (record o { prev_idx = prev; next_idx = u32_max }) in
      let b' = set_storage b (if fresh then st else set_next st lvl.tail_idx idx) in
      let lvl' : PriceLevel = record {
        head_idx = if fresh then idx else lvl.head_idx;
        tail_idx = idx;
        count = add32 lvl.count 1;
        total_qty = add32 lvl.total_qty o.remaining_qty;
      } in
      let m = put_level (before_of o.side) o.price lvl' (levels_of b o.side) in
      ap (λ st. linked_as (st idx) o) (set_levels-storage b' o.side m)
      ∙ node-kept b.storage o fresh idx lvl.tail_idx prev;
}
