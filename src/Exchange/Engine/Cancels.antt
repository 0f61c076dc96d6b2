-- ===== src/Exchange/Engine/Cancels.antt =====
-- Cancels (`processCancel`, `processCancelShares` of src/exchange/matching_engine.cpp): only the owner
-- of an order takes it off its book.
use nebula_x_simulator.Prelude.{
  ℕ, ◌<◌, ◌≡◌, ◌⊎◌, refl, sym, subst, inl, inr, true, false, none, some, List, [], ◌∷◌, ◌++◌, ◌+◌,
  ◌≤◌, ◌≢◌, u32_mod, update, sub32, arith, leb, ◌==◌, lt→ltb, Bool-cases,
}
use nebula_x_simulator.Exchange.Book.{
  OrderBook, remove_slot, remove_order, reduce_qty_cancel, find_order,
}
use nebula_x_simulator.Exchange.Order.{Side, is_buy}
use nebula_x_simulator.Exchange.Book.Priority.{Queues}
use nebula_x_simulator.Exchange.Book.Erasure.{Without}
use nebula_x_simulator.Exchange.Book.Repairs.{Holds}
use nebula_x_simulator.Exchange.Book.Entry.{same_slot}
use nebula_x_simulator.Exchange.Book.Upkeep.{remove_slot-Holds, reduce_qty_cancel-Holds}
use nebula_x_simulator.Exchange.Protocol.{
  BinaryResponse, rsp_cancelled, rsp_ok, rsp_error, order_not_found,
}
use nebula_x_simulator.Exchange.Engine.{Engine, max_locate, load_book, book_for}
use nebula_x_simulator.Exchange.Engine.Requests.{
  Outcome, process_cancel, process_cancel_shares, owned_order,
}

-- The answer to a cancel, and the book that it leaves.
abbrev pub Answers :
    Engine → ℕ → List BinaryResponse → Outcome → BinaryResponse → OrderBook → Type 0
Answers e locate out r answer b = (r.1 ≡ out ++ answer ∷ []) × (load_book r.0 locate ≡ b)

-- A search that finds the order in slot `i`, of that owner.
pub owned :
    (b : OrderBook) (order_ref user_id i : ℕ)
    → find_order b order_ref ≡ some i
    → ((b.storage i).user_id == user_id) ≡ true
    → (owned_order b order_ref user_id ≡ some i)
      × (remove_order b order_ref user_id ≡ (remove_slot b i, true))
unfolding find_order remove_order
owned b order_ref user_id i found own =
    (rw (found, own, owned_order) refl, rw (found, own, remove_order) refl)

-- Or of another one.
foreign :
    (b : OrderBook) (order_ref user_id i : ℕ)
    → find_order b order_ref ≡ some i
    → ((b.storage i).user_id == user_id) ≡ false
    → (owned_order b order_ref user_id ≡ none) × (remove_order b order_ref user_id ≡ (b, false))
unfolding find_order remove_order
foreign b order_ref user_id i found other =
    (rw (found, other, owned_order) refl, rw (found, other, remove_order) refl)

-- A cancel is refused, and the book stays.
abbrev pub IsRefused : Engine → ℕ → List BinaryResponse → Outcome → Type 0
IsRefused e locate out r = Answers e locate out r (rsp_error order_not_found) (load_book e locate)

-- A cancel took the order out of the queues of its side, and says so.
abbrev pub IsWithdrawn : ℕ → Side → Queues → ℕ → List BinaryResponse → Outcome → Type 0
IsWithdrawn locate sd qs order_ref out r =
    (r.1 ≡ out ++ rsp_cancelled order_ref ∷ []) × Holds (load_book r.0 locate) sd qs

pub process_cancel-IsRefused :
    (e : Engine) (locate order_ref user_id : ℕ) (out : List BinaryResponse)
    → locate < max_locate
    → remove_order (load_book e locate) order_ref user_id ≡ (load_book e locate, false)
    → IsRefused e locate out (process_cancel e locate order_ref user_id out)
unfolding process_cancel book_for
process_cancel-IsRefused e locate order_ref user_id out h removed =
    rw (lt→ltb locate max_locate h, removed, process_cancel, same_slot locate) (refl, refl)

process_cancel-taken :
    (e : Engine) (locate order_ref user_id i : ℕ) (out : List BinaryResponse)
    → locate < max_locate
    → remove_order (load_book e locate) order_ref user_id
      ≡ (remove_slot (load_book e locate) i, true)
    → Answers e locate out
        (process_cancel e locate order_ref user_id out)
        (rsp_cancelled order_ref)
        (remove_slot (load_book e locate) i)
unfolding process_cancel book_for
process_cancel-taken e locate order_ref user_id i out h removed =
    rw (lt→ltb locate max_locate h, removed, process_cancel, same_slot locate) (refl, refl)

process_cancel_shares-IsRefused :
    (e : Engine) (locate order_ref shares user_id : ℕ) (out : List BinaryResponse)
    → locate < max_locate
    → owned_order (load_book e locate) order_ref user_id ≡ none
    → IsRefused e locate out (process_cancel_shares e locate order_ref shares user_id out)
unfolding process_cancel_shares book_for
process_cancel_shares-IsRefused e locate order_ref shares user_id out h no_order =
    rw (lt→ltb locate max_locate h, no_order, process_cancel_shares, same_slot locate) (refl, refl)

process_cancel_shares-all :
    (e : Engine) (locate order_ref shares user_id i : ℕ) (out : List BinaryResponse)
    → locate < max_locate
    → owned_order (load_book e locate) order_ref user_id ≡ some i
    → leb ((load_book e locate).storage i).remaining_qty shares ≡ true
    → Answers e locate out
        (process_cancel_shares e locate order_ref shares user_id out)
        (rsp_cancelled order_ref)
        (remove_slot (load_book e locate) i)
unfolding process_cancel_shares book_for
process_cancel_shares-all e locate order_ref shares user_id i out h own all =
    rw (lt→ltb locate max_locate h, own, all, process_cancel_shares, same_slot locate) (refl, refl)

process_cancel_shares-some :
    (e : Engine) (locate order_ref shares user_id i : ℕ) (out : List BinaryResponse)
    → locate < max_locate
    → owned_order (load_book e locate) order_ref user_id ≡ some i
    → leb ((load_book e locate).storage i).remaining_qty shares ≡ false
    → Answers e locate out
        (process_cancel_shares e locate order_ref shares user_id out)
        (rsp_ok order_ref)
        (reduce_qty_cancel (load_book e locate) i shares)
unfolding process_cancel_shares book_for
process_cancel_shares-some e locate order_ref shares user_id i out h own less =
    rw (lt→ltb locate max_locate h, own, less, process_cancel_shares, same_slot locate) (refl, refl)

withdrawn :
    (e : Engine) (locate order_ref i p : ℕ) (out : List BinaryResponse) (sd : Side)
    (qs qs' : Queues) (r : Outcome)
    → Holds (load_book e locate) sd qs
    → Without i p qs qs'
    → Answers e locate out r (rsp_cancelled order_ref) (remove_slot (load_book e locate) i)
    → IsWithdrawn locate sd qs' order_ref out r
withdrawn e locate order_ref i p out sd qs qs' r v w (said, same) = (
  said,
  subst (λ c. Holds c sd qs') (sym same) (remove_slot-Holds (load_book e locate) sd qs qs' i p v w),
)

-- A cancel of some shares took them off the order in slot `i` of the book `b`, and says so.
pub record IsCut (b b' : OrderBook) (sd : Side) (qs : Queues) (i shares : ℕ) : Type 0 where
  holds : Holds b' sd qs
  left : (b'.storage i).remaining_qty + shares ≡ (b.storage i).remaining_qty
  filled : (b'.storage i).filled_qty ≡ (b.storage i).filled_qty
  others : (z : ℕ) → i ≢ z → b'.storage z ≡ b.storage z

reduce_qty_cancel-storage :
    (b : OrderBook) (i shares : ℕ)
    → (reduce_qty_cancel b i shares).storage
      ≡ update b.storage i
          (record (b.storage i) { remaining_qty = sub32 (b.storage i).remaining_qty shares })
unfolding reduce_qty_cancel
reduce_qty_cancel-storage b i shares = elim (Bool-cases (is_buy (b.storage i).side)) [
  | inl k ↦ rw k refl
  | inr k ↦ rw k refl
]

reduce_qty_cancel-IsCut :
    (b : OrderBook) (sd : Side) (qs qs' : Queues) (i p shares : ℕ)
    → Holds b sd qs
    → Without i p qs qs'
    → shares < (b.storage i).remaining_qty
    → (b.storage i).remaining_qty < u32_mod
    → IsCut b (reduce_qty_cancel b i shares) sd qs i shares
reduce_qty_cancel-IsCut b sd qs qs' i p shares v w less small =
    let st = reduce_qty_cancel-storage b i shares in
    record {
      holds = reduce_qty_cancel-Holds b sd qs qs' i p shares v w;
      left = rw (st, same_slot i) (omega arith);
      filled = rw (st, same_slot i) refl;
      others = λ z ne. rw st (ground (arith, ne));
    }

-- At a locate with a book, on a side that holds queues, for an order of a queue that a search for its
-- number finds, with fewer than 2 ^ 32 shares left: both cancels are refused to another user than the
-- owner, and leave the book as it is. The owner's cancel takes exactly the order out of the queues and
-- says so. The owner's cancel of some shares does the same when no more are left, and else takes
-- exactly these shares off the order, counts none of them as filled, leaves every other order and all
-- queues, and says so.
pub process_cancel-Cancels :
    (e : Engine) (locate order_ref shares user_id : ℕ) (out : List BinaryResponse) (sd : Side)
    (qs qs' : Queues) (i p : ℕ)
    → locate < max_locate
    → Holds (load_book e locate) sd qs
    → Without i p qs qs'
    → find_order (load_book e locate) order_ref ≡ some i
    → ((load_book e locate).storage i).remaining_qty < u32_mod
    → let b = load_book e locate in
      let whole = process_cancel e locate order_ref user_id out in
      let part = process_cancel_shares e locate order_ref shares user_id out in
      (((b.storage i).user_id ≢ user_id)
        × IsRefused e locate out whole
        × IsRefused e locate out part)
      ⊎ (((b.storage i).user_id ≡ user_id)
          × IsWithdrawn locate sd qs' order_ref out whole
          × ((((b.storage i).remaining_qty ≤ shares) × IsWithdrawn locate sd qs' order_ref out part)
              ⊎ ((shares < (b.storage i).remaining_qty)
                  × (part.1 ≡ out ++ rsp_ok order_ref ∷ [])
                  × IsCut b (load_book part.0 locate) sd qs i shares)))
process_cancel-Cancels e locate order_ref shares user_id out sd qs qs' i p h v w found small =
    let b = load_book e locate in
    elim (Bool-cases ((b.storage i).user_id == user_id)) [
      | inr other ↦
          let (no_order, kept) = foreign b order_ref user_id i found other in
          inl (
            (λ same. ground (arith, other, same)),
            process_cancel-IsRefused e locate order_ref user_id out h kept,
            process_cancel_shares-IsRefused e locate order_ref shares user_id out h no_order,
          )
      | inl own ↦
          let (has_order, removed) = owned b order_ref user_id i found own in
          let whole = process_cancel-taken e locate order_ref user_id i out h removed in
          inr (
            ground arith,
            withdrawn e locate order_ref i p out sd qs qs'
                (process_cancel e locate order_ref user_id out) v w whole,
            elim (Bool-cases (leb (b.storage i).remaining_qty shares)) [
              | inl all ↦ inl (
                ground arith,
                withdrawn e locate order_ref i p out sd qs qs'
                    (process_cancel_shares e locate order_ref shares user_id out) v w
                    (process_cancel_shares-all e locate order_ref shares user_id i out h has_order
                      all),
              )
              | inr less ↦
                  let (said, same) =
                    process_cancel_shares-some e locate order_ref shares user_id i out h has_order
                      less in
                  let fewer : shares < (b.storage i).remaining_qty = ground arith in
                  inr (
                    fewer,
                    said,
                    subst (λ c. IsCut b c sd qs i shares) (sym same)
                        (reduce_qty_cancel-IsCut b sd qs qs' i p shares v w fewer small),
                  )
            ],
          )
    ]
