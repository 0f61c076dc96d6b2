-- ===== src/Market/Table.antt =====
-- The price levels of a side (`PriceLevelTable` of src/market/book/order_book.h): a hash table with
-- open addressing and the best price kept aside. The prices kEmpty and kTombstone, which stand for
-- a free and for an erased place, are constructors here. The capacity is 2 ^ bits.
use nebula_x_simulator.Prelude.{
  ℕ, zero, suc, ◌+◌, ◌-◌, ◌*◌, ◌/◌, ◌%◌, ◌^◌, Bool, Option, none, some, if◌then◌else◌, ◌==◌, ◌&&◌,
  update, add64, sub64, u32_max, u64_mod,
}
use nebula_x_simulator.Prelude.Int.{ℤ, pos, negsuc, pos_part, neg_part, ltb_ℤ}
use nebula_x_simulator.Execution.{to_u64}

pub record PriceLevel : Type 0 where
  pub head_idx : ℕ
  pub tail_idx : ℕ
  pub count : ℕ
  pub total_qty : ℕ

abbrev pub default_level : PriceLevel
default_level = record { head_idx = u32_max; tail_idx = u32_max; count = 0; total_qty = 0 }

pub data Place : Type 0 where
  empty tombstone : Place
  level_at : ℤ → PriceLevel → Place

pub record Table : Type 0 where
  pub is_bid : Bool
  pub best : ℤ
  pub slots : ℕ → Place
  pub bits : ℕ
  pub count : ℕ

abbrev pub cap_of : Table → ℕ
cap_of t = 2 ^ t.bits

infix 50 ◌==ℤ◌
abbrev pub ◌==ℤ◌ : ℤ → ℤ → Bool
a ==ℤ b = (pos_part a == pos_part b) && (neg_part a == neg_part b)

-- `INT64_MIN` for a bid side, `INT64_MAX` for an ask side
abbrev pub worst : Bool → ℤ
worst is_bid = if is_bid then negsuc 9223372036854775807 else pos 9223372036854775807

-- `is_bid_ ? price > best_ : price < best_`
abbrev pub betters : Bool → ℤ → ℤ → Bool
betters is_bid price best = if is_bid then ltb_ℤ best price else ltb_ℤ price best

unfoldable pub new_table : Bool → Table
new_table is_bid = record {
  is_bid = is_bid;
  best = worst is_bid;
  slots = λ i. empty;
  bits = 10;
  count = 0;
}

-- The place where the search for a price begins, in a table of 2 ^ bits places.
unfoldable pub probe : ℕ → ℤ → ℕ
probe bits price = to_u64 price * 11400714819323198485 % u64_mod / 2 ^ (64 - bits) % 2 ^ bits

-- `(i + 1) & (cap_ - 1)`
abbrev pub after : ℕ → ℕ → ℕ
after bits i = (i + 1) % 2 ^ bits

-- What a search meets: the price, or a free place, or neither in the whole table. `tomb` is the
-- first erased place on the way.
pub data Scan : Type 0 where
  hit : ℕ → PriceLevel → Scan
  miss : ℕ → Option ℕ → Scan
  full : Scan

abbrev pub first_tomb : Option ℕ → ℕ → Option ℕ
first_tomb none i = some i
first_tomb (some j) i = some j

-- The search loop over at most `n` places from place `i`.
unfoldable pub scan : ℕ → (ℕ → Place) → ℕ → ℤ → ℕ → Option ℕ → Scan
scan zero slots bits price i tomb = full
scan (suc n) slots bits price i tomb = elim (slots i) [
  | empty ↦ miss i tomb
  | tombstone ↦ scan n slots bits price (after bits i) (first_tomb tomb i)
  | level_at p l ↦
      let rest = scan n slots bits price (after bits i) tomb in
      if p ==ℤ price then hit i l else rest
]

-- The search from where the price's search begins.
unfoldable pub search_price : Table → ℤ → Scan
unfolding scan
search_price t price = scan (cap_of t) t.slots t.bits price (probe t.bits price) none

-- The loop for a free place; `n` bounds it.
unfoldable pub free_from : ℕ → (ℕ → Place) → ℕ → ℕ → ℕ
free_from zero slots bits i = i
free_from (suc n) slots bits i = elim (slots i) [
  | empty ↦ i
  | _ ↦ free_from n slots bits (after bits i)
]

-- The levels of the places below `n`, entered in the larger table.
unfoldable pub rehash : ℕ → (ℕ → Place) → ℕ → ℕ → (ℕ → Place) → ℕ → Place
unfolding free_from probe
rehash zero slots i bits fresh = fresh
rehash (suc n) slots i bits fresh = elim (slots i) [
  | empty ↦ rehash n slots (suc i) bits fresh
  | tombstone ↦ rehash n slots (suc i) bits fresh
  | level_at p l ↦
      rehash n slots (suc i) bits
        (update fresh (free_from (2 ^ bits) fresh bits (probe bits p)) (level_at p l))
]

unfoldable pub grow : Table → Table
unfolding rehash
grow t = record t {
  slots = rehash (cap_of t) t.slots 0 (suc t.bits) (λ i. empty);
  bits = suc t.bits;
}

abbrev pub raise_best : Table → ℤ → Table
raise_best t price = if betters t.is_bid price t.best then record t { best = price } else t

-- A new level for the price at a place.
unfoldable pub enter : Table → ℤ → ℕ → Table
enter t price i =
    raise_best
      (record t {
        slots = update t.slots i (level_at price default_level);
        count = add64 t.count 1;
      })
      price

abbrev pub tomb_or : Option ℕ → ℕ → ℕ
tomb_or none i = i
tomb_or (some j) i = j

-- `operator[]`: the place of the price's level, which is made if it is missing.
unfoldable pub access : Table → ℤ → Table × ℕ
unfolding search_price grow enter
access t price = elim (search_price t price) [
  | hit i l ↦ (raise_best t price, i)
  | miss i tomb ↦ (enter t price (tomb_or tomb i), tomb_or tomb i)
  | full ↦
      let g = grow t in
      let i = free_from (cap_of g) g.slots g.bits (probe g.bits price) in (enter g price i, i)
]

-- The best price among the places below `n`, from the `best` so far.
unfoldable pub best_among : ℕ → Bool → (ℕ → Place) → ℕ → ℤ → ℤ
best_among zero is_bid slots i best = best
best_among (suc n) is_bid slots i best = elim (slots i) [
  | empty ↦ best_among n is_bid slots (suc i) best
  | tombstone ↦ best_among n is_bid slots (suc i) best
  | level_at p l ↦ best_among n is_bid slots (suc i) (if betters is_bid p best then p else best)
]

unfoldable pub rescan_best : Table → Table
unfolding best_among
rescan_best t = record t { best = best_among (cap_of t) t.is_bid t.slots 0 (worst t.is_bid) }

unfoldable pub erase : Table → ℤ → Table
unfolding search_price rescan_best
erase t price = elim (search_price t price) [
  | hit i l ↦
      let t' = record t { slots = update t.slots i tombstone; count = sub64 t.count 1 } in
      if price ==ℤ t.best then rescan_best t' else t'
  | miss i tomb ↦ t
  | full ↦ t
]

unfoldable pub find : Table → ℤ → Option PriceLevel
unfolding search_price
find t price = elim (search_price t price) [ hit i l ↦ some l | miss i tomb ↦ none | full ↦ none ]

abbrev pub is_empty : Table → Bool
is_empty t = t.count == 0

unfoldable pub best_qty : Table → ℕ
unfolding find
best_qty t = if is_empty t then 0 else elim (find t t.best) [ none ↦ 0 | some l ↦ l.total_qty ]

-- The level at a place, and the write to it.
abbrev pub level_of : Place → PriceLevel
level_of (level_at p l) = l
level_of _ = default_level

abbrev pub with_level : Place → PriceLevel → Place
with_level (level_at p l) l' = level_at p l'
with_level place l' = place

abbrev pub put_level_at : Table → ℕ → PriceLevel → Table
put_level_at t i l = record t { slots = update t.slots i (with_level (t.slots i) l) }
