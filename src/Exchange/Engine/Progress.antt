-- ===== src/Exchange/Engine/Progress.antt =====
-- The matching loops of src/exchange/matching_engine.cpp end by themselves, on a book whose levels
-- stand for queues: the fuel that the model gives is enough, and the queues that are left are again
-- those of a book.
use nebula_x_simulator.Prelude.{
  ℕ, zero, suc, ◌+◌, ◌<◌, ◌≤◌, ◌≡◌, ◌≢◌, ◌⊎◌, refl, sym, ap, subst, ◌∙◌, inl, inr, true, false,
  none, some, List, [], ◌∷◌, ◌++◌, arith, min, length, length-append, sub32, Bool-cases,
  Option-cases, ◌==◌, if◌then◌else◌,
}
use nebula_x_simulator.Exchange.Order.{
  Side, buy, sell, Order, OrderStatus, filled, partially_filled, is_buy,
}
use nebula_x_simulator.Exchange.Pool.{deallocate}
use nebula_x_simulator.Exchange.Levels.{Levels, find_level}
use nebula_x_simulator.Exchange.Book.{
  OrderBook, levels_of, get_best_ask, get_best_bid, reduce_order_qty, remove_slot, detach,
}
use nebula_x_simulator.Exchange.Book.Chain.{find_other}
use nebula_x_simulator.Exchange.Book.Priority.{Queues, Queued, find_first, first_in_levels_lem}
use nebula_x_simulator.Exchange.Book.Sorted.{Stands, slots}
use nebula_x_simulator.Exchange.Book.Erasure.{Without, length-without, keep}
use nebula_x_simulator.Exchange.Book.Repairs.{Holds, update-Stands, Without-slots}
use nebula_x_simulator.Exchange.Book.Upkeep.{reduce_order_qty-Holds, remove_slot-Holds}
use nebula_x_simulator.Exchange.Protocol.{BinaryResponse}
use nebula_x_simulator.Exchange.Engine.Requests.{match_order}
use nebula_x_simulator.Exchange.Engine.{
  Engine, match_buy_order, match_sell_order, matching_of, Matching, match_round, match_loop,
  opposite, refuses, best_for, set_status,
}

Stands-Queued :
    (st : ℕ → Order) (sd : Side) (cap : ℕ) (m : Levels) (qs : Queues)
    → Stands st sd m qs
    → length (slots qs) ≤ cap
    → Queued st cap m qs
Stands-Queued st sd cap [] [] v h = tt
Stands-Queued st sd cap [] (q ∷ qs) v h = v
Stands-Queued st sd cap (l ∷ m) [] v h = v
Stands-Queued st sd cap ((p, lvl) ∷ m) ((q, xs) ∷ qs) (e, v, l, s) h = (
  e,
  v.head,
  v.linked,
  omega (arith, length-append xs (slots qs)),
  Stands-Queued st sd cap m qs s (omega (arith, length-append xs (slots qs))),
)

best_for-find_first :
    (side : Side) (b : OrderBook) (user : ℕ) (qs : Queues)
    → user ≢ 0
    → Queued b.storage b.capacity (levels_of b (opposite side)) qs
    → best_for side b user ≡ find_first b.storage user qs
unfolding get_best_ask get_best_bid
best_for-find_first buy b user qs known v =
    let h : (user == 0) ≡ false = ground (arith, known) in
    rw h (first_in_levels_lem b.storage b.capacity user b.asks qs v)
best_for-find_first sell b user qs known v =
    let h : (user == 0) ≡ false = ground (arith, known) in
    rw h (first_in_levels_lem b.storage b.capacity user b.bids qs v)
best_for-find_first _ b user qs known v =
    let h : (user == 0) ≡ false = ground (arith, known) in
    rw h (first_in_levels_lem b.storage b.capacity user b.bids qs v)

find_other-at :
    (st : ℕ → Order) (user i : ℕ) (xs : List ℕ)
    → find_other st user xs ≡ some i
    → (before after : List ℕ) × (xs ≡ before ++ i ∷ after)
find_other-at st user i [] h = absurd (ground (arith, h))
find_other-at st user i (x ∷ xs) h = elim (Bool-cases ((st x).user_id == user)) [
  | inl own ↦
      let (before, after, e) = find_other-at st user i xs (ground (arith, own, h)) in
      (x ∷ before, after, ap (λ k. x ∷ k) e)
  | inr other ↦ let e : x ≡ i = ground (arith, other, h) in ([], xs, ap (λ k. k ∷ xs) e)
]

find_first-Without :
    (st : ℕ → Order) (user i : ℕ) (qs : Queues)
    → find_first st user qs ≡ some i
    → (p : ℕ) × (qs' : Queues) × Without i p qs qs'
find_first-Without st user i [] h = absurd (ground (arith, h))
find_first-Without st user i ((q, xs) ∷ qs) h = elim (Option-cases (find_other st user xs)) [
  | inl miss ↦
      let (p, rest, w) = find_first-Without st user i qs (ground (arith, miss, h)) in
      (p, (q, xs) ∷ rest, inr (rest, refl, w))
  | inr (j, hit) ↦
      let same : j ≡ i = ground (arith, hit, h) in
      let (before, after, e) = find_other-at st user i xs (hit ∙ ap some same) in
      (q, keep q (before ++ after) qs, inl (refl, before, after, e, refl))
]

reduce_order_qty-left :
    (b : OrderBook) (i amount : ℕ)
    → ((reduce_order_qty b i amount).storage i).remaining_qty
      ≡ sub32 (b.storage i).remaining_qty amount
unfolding reduce_order_qty
reduce_order_qty-left b i amount = elim (Bool-cases (is_buy (b.storage i).side)) [
  | inl k ↦ rw (k, reduce_order_qty) (ground arith)
  | inr k ↦ rw (k, reduce_order_qty) (ground arith)
]

reduce_order_qty-capacity :
    (b : OrderBook) (i amount : ℕ) → (reduce_order_qty b i amount).capacity ≡ b.capacity
unfolding reduce_order_qty
reduce_order_qty-capacity b i amount = elim (Bool-cases (is_buy (b.storage i).side)) [
  | inl k ↦ rw (k, reduce_order_qty) refl
  | inr k ↦ rw (k, reduce_order_qty) refl
]

remove_slot-capacity : (b : OrderBook) (i : ℕ) → (remove_slot b i).capacity ≡ b.capacity
unfolding remove_slot detach deallocate
remove_slot-capacity b i =
    elim (Option-cases (find_level (b.storage i).price (levels_of b (b.storage i).side))) [
      | inl e ↦ rw (e, remove_slot) refl
      | inr (lvl, e) ↦ rw (e, remove_slot) refl
    ]

set_status-Holds :
    (b : OrderBook) (sd : Side) (qs : Queues) (i : ℕ) (s : OrderStatus)
    → Holds b sd qs
    → Holds (set_status b i s) sd qs
set_status-Holds b sd qs i s v = record {
  stands =
      update-Stands b.storage sd (levels_of b sd) qs i (record (b.storage i) { status = s }) refl
        refl refl refl v.stands;
  distinct = v.distinct;
}

-- A round either takes the order that it met off the book or leaves nothing of the taker.
record Step (side : Side) (m m' : Matching) (qs qs' : Queues) : Type 0 where
  capacity : m'.book.capacity ≡ m.book.capacity
  user : m'.order.user_id ≡ m.order.user_id
  left :
      Holds m'.book (opposite side) qs'
      ⊎ (Holds m'.book (opposite side) qs × (m'.order.remaining_qty ≡ 0))

taker_done : (a r : ℕ) → (sub32 r (min a r) == 0) ≡ false → sub32 a (min a r) ≡ 0
taker_done a r h = ground arith

match_round-Step :
    (side : Side) (locate seq : ℕ) (m : Matching) (i p : ℕ) (qs qs' : Queues)
    → Holds m.book (opposite side) qs
    → Without i p qs qs'
    → Step side m (match_round side locate seq m i) qs qs'
unfolding match_round
match_round-Step side locate seq m i p qs qs' v w =
    let qty = min m.order.remaining_qty (m.book.storage i).remaining_qty in
    let b = reduce_order_qty m.book i qty in
    let traded = reduce_order_qty-Holds m.book (opposite side) qs qs' i p qty v w in
    let left = reduce_order_qty-left m.book i qty in
    let cap = reduce_order_qty-capacity m.book i qty in
    elim (Bool-cases ((b.storage i).remaining_qty == 0)) [
      | inl done ↦ record {
        capacity = rw done (remove_slot-capacity (set_status b i filled) i ∙ cap);
        user = refl;
        left = inl (
            rw done (
              remove_slot-Holds (set_status b i filled) (opposite side) qs qs' i p
                (set_status-Holds b (opposite side) qs i filled traded) w));
      }
      | inr more ↦ record {
        capacity = rw more cap;
        user = refl;
        left = inr (
          rw more (set_status-Holds b (opposite side) qs i partially_filled traded),
          taker_done m.order.remaining_qty (m.book.storage i).remaining_qty
              (ap (λ n. n == 0) (sym left) ∙ more),
        );
      }
    ]

-- Why a matching loop ends: nothing is left of the order, nobody else is on the other side, or the
-- best price there is beyond the order's limit.
pub data HasStopped (side : Side) (m : Matching) : Type 0 where
  nothing_left : m.order.remaining_qty ≡ 0 → HasStopped side m
  nobody_there : best_for side m.book m.order.user_id ≡ none → HasStopped side m
  no_deal :
      (i : ℕ)
      → best_for side m.book m.order.user_id ≡ some i
      → refuses side m.order.price (m.book.storage i).price ≡ true
      → HasStopped side m

-- The end of the loop: it has stopped for its own reason, and the other side holds queues again.
abbrev Ended : Side → Matching → Type 0
Ended side m = HasStopped side m × ((qs : Queues) × Holds m.book (opposite side) qs)

stop_empty :
    (fuel : ℕ) (side : Side) (locate seq : ℕ) (m : Matching) (qs : Queues)
    → m.order.remaining_qty ≡ 0
    → Holds m.book (opposite side) qs
    → Ended side (match_loop fuel side locate seq m)
unfolding match_loop
stop_empty zero side locate seq m qs h v = (nothing_left h, (qs, v))
stop_empty (suc fuel) side locate seq m qs h v =
    let e : (m.order.remaining_qty == 0) ≡ true = ap (λ n. n == 0) h in
    rw (e, match_loop) (nothing_left h, (qs, v))

-- On a book whose other side holds queues of distinct slots, no more than the pool has, a loop of
-- one round more than there are slots ends for its own reason, and leaves such a book.
pub match_loop-HasStopped :
    (fuel : ℕ) (side : Side) (locate seq : ℕ) (m : Matching) (qs : Queues)
    → m.order.user_id ≢ 0
    → Holds m.book (opposite side) qs
    → length (slots qs) ≤ m.book.capacity
    → length (slots qs) < fuel
    → let m' = match_loop fuel side locate seq m in
      HasStopped side m' × ((qs' : Queues) × Holds m'.book (opposite side) qs')
unfolding match_loop
match_loop-HasStopped zero side locate seq m qs known v fits enough = absurd (omega arith)
match_loop-HasStopped (suc fuel) side locate seq m qs known v fits enough =
    elim (Bool-cases (m.order.remaining_qty == 0)) [
      | inl done ↦ rw (done, match_loop) (nothing_left (ground arith), (qs, v))
      | inr more ↦ elim (Option-cases (best_for side m.book m.order.user_id)) [
        | inl e ↦ rw (more, e, match_loop) (nobody_there e, (qs, v))
        | inr (i, e) ↦ elim (Bool-cases (refuses side m.order.price (m.book.storage i).price)) [
          | inl far ↦ rw (more, e, far, match_loop) (no_deal i e far, (qs, v))
          | inr deal ↦
              let queued =
                Stands-Queued m.book.storage (opposite side) m.book.capacity _ qs v.stands fits in
              let found =
                sym (best_for-find_first side m.book m.order.user_id qs known queued) ∙ e in
              let (p, qs', w) = find_first-Without m.book.storage m.order.user_id i qs found in
              let step = match_round-Step side locate seq m i p qs qs' v w in
              let (before, after, s, s') = Without-slots i p qs qs' w in
              let shorter =
                ap length s
                ∙ length-without i before after
                ∙ ap (λ n. n + 1) (sym (ap length s')) in
              rw (more, e, deal, match_loop)
                (elim step.left [
                  | inr (holds, gone) ↦ stop_empty fuel side locate seq _ qs gone holds
                  | inl holds ↦
                      match_loop-HasStopped fuel side locate seq _ qs'
                        (λ z. known (sym step.user ∙ z)) holds
                        (omega (arith, step.capacity, shorter)) (omega (arith, shorter))
                ])
        ]
      ]
    ]

-- `matchBuyOrder` and `matchSellOrder` with the fuel that the model gives them, for an order whose
-- user number is not zero, on a book whose other side holds queues of distinct slots, no more than the pool has:
-- they end because nothing is left of the order, nobody else is on the other side, or the best price
-- there is beyond the limit, and the other side holds queues of distinct slots again.
pub match_order-HasStopped :
    (e : Engine) (locate : ℕ) (b : OrderBook) (o : Order) (out : List BinaryResponse) (qs : Queues)
    → o.user_id ≢ 0
    → Holds b (if is_buy o.side then sell else buy) qs
    → length (slots qs) ≤ b.capacity
    → let m = match_order e locate b o out in
      HasStopped (if is_buy o.side then buy else sell) m
      × ((qs' : Queues) × Holds m.book (if is_buy o.side then sell else buy) qs')
unfolding match_buy_order match_sell_order
match_order-HasStopped e locate b o out qs known v fits = elim (Bool-cases (is_buy o.side)) [
  | inl k ↦
      rw (k, match_order)
        (match_loop-HasStopped (suc b.capacity) buy locate e.next_sequence
          (matching_of e buy b o out) qs known
          (subst (λ c. Holds b (if c then sell else buy) qs) k v) fits (omega (arith, fits)))
  | inr k ↦
      rw (k, match_order)
        (match_loop-HasStopped (suc b.capacity) sell locate e.next_sequence
          (matching_of e sell b o out) qs known
          (subst (λ c. Holds b (if c then sell else buy) qs) k v) fits (omega (arith, fits)))
]
