-- ===== src/Exchange/Book/Priority.antt =====
-- Which order the matching meets, and how many shares it can meet (`getBestBid`, `getBestAsk`,
-- `availableQty` of src/exchange/order_book.cpp), against the queues that the levels stand for.
use nebula_x_simulator.Prelude.{
  ℕ, ◌+◌, ◌%◌, ◌<◌, ◌≤◌, ◌≡◌, ◌≢◌, refl, Bool, false, Option, none, some, List, [], ◌∷◌, arith,
  u32_max, u32_mod, ◌==◌, if◌then◌else◌, length, ltb, Bool-cases, inl, inr, ◌∙◌,
}
use nebula_x_simulator.Exchange.Order.{Side, Order, is_buy}
use nebula_x_simulator.Exchange.Levels.{Levels}
use nebula_x_simulator.Exchange.Book.{
  OrderBook, first_in_levels, get_best_bid, get_best_ask, levels_qty, available_qty,
}
use nebula_x_simulator.Exchange.Book.Chain.{
  Linked, head_or_null, find_other, first_other-find_other, sum_qty, list_qty-sum_qty,
}

-- The queues of one side, best price first.
abbrev pub Queues : Type 0
Queues = List (ℕ × List ℕ)

-- Each level's list stands for the queue at its price, and no list exceeds `cap`.
abbrev pub Queued : (ℕ → Order) → ℕ → Levels → Queues → Type 0
Queued st cap [] [] = Unit
Queued st cap [] (x ∷ qs) = ⊥
Queued st cap (x ∷ m) [] = ⊥
Queued st cap ((p, lvl) ∷ m) ((q, xs) ∷ qs) =
    (p ≡ q)
    × (lvl.head_idx ≡ head_or_null xs)
    × Linked st u32_max xs
    × (length xs ≤ cap)
    × Queued st cap m qs

abbrev pub or_else : Option ℕ → Option ℕ → Option ℕ
or_else none o = o
or_else (some i) o = some i

-- The first order that is not of the user: best price first, oldest first at a price.
abbrev pub find_first : (ℕ → Order) → ℕ → Queues → Option ℕ
find_first st user [] = none
find_first st user ((q, xs) ∷ qs) = or_else (find_other st user xs) (find_first st user qs)

-- The shares in the queues up to the first price that is beyond the limit.
abbrev pub sum_until : (ℕ → Order) → (ℕ → Bool) → Queues → ℕ
sum_until st beyond [] = 0
sum_until st beyond ((q, xs) ∷ qs) =
    let rest = sum_qty st xs + sum_until st beyond qs in if beyond q then 0 else rest

pub first_in_levels_lem :
    (st : ℕ → Order) (cap user : ℕ) (m : Levels) (qs : Queues)
    → Queued st cap m qs
    → first_in_levels st cap user m ≡ find_first st user qs
unfolding first_in_levels
first_in_levels_lem st cap user [] [] h = refl
first_in_levels_lem st cap user [] (q ∷ qs) h = absurd h
first_in_levels_lem st cap user (l ∷ m) [] h = absurd h
first_in_levels_lem st cap user ((p, lvl) ∷ m) ((q, xs) ∷ qs) (_, head, l, small, h) = ground (
  arith,
  head,
  first_other-find_other st cap u32_max user xs l small,
  first_in_levels_lem st cap user m qs h,
)

levels_qty_lem :
    (st : ℕ → Order) (cap : ℕ) (beyond : ℕ → Bool) (m : Levels) (qs : Queues) (total : ℕ)
    → Queued st cap m qs
    → total < u32_mod
    → levels_qty st cap beyond m total ≡ (total + sum_until st beyond qs) % u32_mod
unfolding levels_qty
levels_qty_lem st cap beyond [] [] total h small = omega arith
levels_qty_lem st cap beyond [] (q ∷ qs) total h small = absurd h
levels_qty_lem st cap beyond (l ∷ m) [] total h small = absurd h
levels_qty_lem st cap beyond ((p, lvl) ∷ m) ((q, xs) ∷ qs) total (same, head, l, fits, h) small =
    elim (Bool-cases (beyond q)) [
      | inl stop ↦ rw (same, stop, levels_qty) (omega arith)
      | inr more ↦
          let here = list_qty-sum_qty st cap u32_max total xs l fits small in
          rw (same, more, head, here, levels_qty)
            (levels_qty_lem st cap beyond m qs ((total + sum_qty st xs) % u32_mod) h (omega arith)
              ∙ sums total (sum_qty st xs) (sum_until st beyond qs))
    ]
  where
    sums : (a b c : ℕ) → ((a + b) % u32_mod + c) % u32_mod ≡ (a + (b + c)) % u32_mod
    sums a b c = omega arith

-- For a taker with a user number, the order that it meets is the first of another user: at the best
-- price that has one, and the oldest there. It is none only if every order is the taker's own.
pub get_best_lem :
    (b : OrderBook) (user : ℕ) (bid_queues ask_queues : Queues)
    → user ≢ 0
    → Queued b.storage b.capacity b.bids bid_queues
    → Queued b.storage b.capacity b.asks ask_queues
    → (get_best_bid b user ≡ find_first b.storage user bid_queues)
      × (get_best_ask b user ≡ find_first b.storage user ask_queues)
unfolding get_best_bid get_best_ask
get_best_lem b user bid_queues ask_queues known bids asks = rw (not_zero user known) (
  first_in_levels_lem b.storage b.capacity user b.bids bid_queues bids,
  first_in_levels_lem b.storage b.capacity user b.asks ask_queues asks,
)
  where
    not_zero : (n : ℕ) → n ≢ 0 → (n == 0) ≡ false
    not_zero n h = ground arith

-- The shares that `availableQty` finds for an order are those in the other side's queues up to the
-- first price beyond its limit, in 32 bits: the order's own user's shares are among them.
pub available_qty_lem :
    (b : OrderBook) (side : Side) (price : ℕ) (bid_queues ask_queues : Queues)
    → Queued b.storage b.capacity b.bids bid_queues
    → Queued b.storage b.capacity b.asks ask_queues
    → available_qty b side price
      ≡ (if is_buy side
          then sum_until b.storage (λ p. ltb price p) ask_queues
          else sum_until b.storage (λ p. ltb p price) bid_queues)
        % u32_mod
unfolding available_qty
available_qty_lem b side price bid_queues ask_queues bids asks = elim (Bool-cases (is_buy side)) [
  | inl k ↦
      rw (k, available_qty)
        (levels_qty_lem b.storage b.capacity _ b.asks ask_queues 0 asks (omega arith) ∙ zero_sum _)
  | inr k ↦
      rw (k, available_qty)
        (levels_qty_lem b.storage b.capacity _ b.bids bid_queues 0 bids (omega arith) ∙ zero_sum _)
]
  where
    zero_sum : (n : ℕ) → (0 + n) % u32_mod ≡ n % u32_mod
    zero_sum n = omega arith
