-- ===== src/Exchange/Book/Upkeep.antt =====
-- The operations of src/exchange/order_book.cpp on an order of a side, at the level of the whole book:
-- `reduceOrderQty` and `removeOrder`.
use nebula_x_simulator.Prelude.{
  List, ℕ, ◌≡◌, refl, sym, ap, subst, ◌∙◌, inl, inr, Bool, Option, some, ◌==◌, if◌then◌else◌,
  Bool-cases, update, sub32, ltb,
}
use nebula_x_simulator.Core.{older}
use nebula_x_simulator.Exchange.Order.{Side, Order, is_buy}
use nebula_x_simulator.Exchange.Levels.{
  PriceLevel, Levels, find_level, put_level, erase_level, level_or_default,
}
use nebula_x_simulator.Exchange.Pool.{OrderPool, deallocate, head_of}
use nebula_x_simulator.Exchange.Book.{
  OrderBook, before_of, levels_of, set_levels, set_storage, unlink, detach, remove_slot,
  reduce_order_qty, reduce_qty_cancel, reduce_level,
}
use nebula_x_simulator.Exchange.Book.Priority.{Queues}
use nebula_x_simulator.Exchange.Book.Sorted.{Stands}
use nebula_x_simulator.Exchange.Book.Erasure.{Without, drop_level, unlink-price, unlink-side}
use nebula_x_simulator.Exchange.Book.Takeoff.{rest_of, takeoff-Stands}
use nebula_x_simulator.Exchange.Book.Repairs.{
  Holds, Without-Distinct, Without-IsLive, put-Stands, set_levels-Stands, update-Stands,
}

pub same_levels :
    (b : OrderBook) (s sd : Side) → is_buy s ≡ is_buy sd → levels_of b s ≡ levels_of b sd
same_levels b s sd h = ap (λ c. if c then b.bids else b.asks) h

pub same_before : (s sd : Side) → is_buy s ≡ is_buy sd → before_of s ≡ before_of sd
same_before s sd h = ap (λ c p q. if c then ltb q p else ltb p q) h

pub same_level :
    (b : OrderBook) (s sd : Side) (p p' : ℕ) (lvl : PriceLevel)
    → is_buy s ≡ is_buy sd
    → p' ≡ p
    → find_level p (levels_of b sd) ≡ some lvl
    → find_level p' (levels_of b s) ≡ some lvl
same_level b s sd p p' lvl h e found = (λ j. find_level (e j) (same_levels b s sd h j)) ∙ found

-- `level.total_qty -= amount` for the level that was found, if there was one.
abbrev lower : ℕ → (ℕ → ℕ → Bool) → ℕ → Option PriceLevel → Levels → Levels
lower amount before p found m =
    let lvl = level_or_default found in
    put_level before p (record lvl { total_qty = sub32 lvl.total_qty amount }) m

-- An order that keeps its links, its price and its side, with fewer shares in its level, keeps the
-- side's queues.
changed-Holds :
    (b : OrderBook) (sd : Side) (qs qs' : Queues) (i p amount : ℕ) (o' : Order)
    → Holds b sd qs
    → Without i p qs qs'
    → o'.prev_idx ≡ (b.storage i).prev_idx
    → o'.next_idx ≡ (b.storage i).next_idx
    → o'.price ≡ (b.storage i).price
    → o'.side ≡ (b.storage i).side
    → Holds (reduce_level (set_storage b (update b.storage i o')) (b.storage i) amount) sd qs
changed-Holds b sd qs qs' i p amount o' v w prev next at_price on_side =
    let o = b.storage i in
    let (price, side) = Without-IsLive b.storage sd (levels_of b sd) qs qs' i p v.stands w in
    let (lvl, found, _) =
      takeoff-Stands b.storage sd (levels_of b sd) qs qs' i p v.stands v.distinct w in
    let kept =
      put-Stands b.storage sd (levels_of b sd) qs p (sub32 lvl.total_qty amount) lvl v.stands
        found in
    let same = same_level b o.side sd p o.price lvl side price found in
    record {
      stands = set_levels-Stands (set_storage b (update b.storage i o')) o.side sd _ qs side (
          subst (λ m. Stands (update b.storage i o') sd m qs)
            (λ j.
              lower amount (sym (same_before o.side sd side) j) (sym price j) (sym same j)
                (sym (same_levels b o.side sd side) j))
            (update-Stands b.storage sd _ qs i o' prev next at_price on_side kept));
      distinct = v.distinct;
    }

-- Trading with the order in slot `i` keeps the side's queues.
pub reduce_order_qty-Holds :
    (b : OrderBook) (sd : Side) (qs qs' : Queues) (i p amount : ℕ)
    → Holds b sd qs
    → Without i p qs qs'
    → Holds (reduce_order_qty b i amount) sd qs
unfolding reduce_order_qty
reduce_order_qty-Holds b sd qs qs' i p amount v w =
    changed-Holds b sd qs qs' i p amount _ v w refl refl refl refl

-- Taking shares off the order in slot `i` keeps the side's queues.
pub reduce_qty_cancel-Holds :
    (b : OrderBook) (sd : Side) (qs qs' : Queues) (i p amount : ℕ)
    → Holds b sd qs
    → Without i p qs qs'
    → Holds (reduce_qty_cancel b i amount) sd qs
unfolding reduce_qty_cancel
reduce_qty_cancel-Holds b sd qs qs' i p amount v w =
    changed-Holds b sd qs qs' i p amount _ v w refl refl refl refl

set_rest :
    (b : OrderBook) (s : Side) (m : Levels) (index : ℕ → List ℕ) (pool : OrderPool)
    → record (set_levels b s m) { index = index; pool = pool }
      ≡ set_levels (record b { index = index; pool = pool }) s m
set_rest b s m index pool = elim (Bool-cases (is_buy s)) [ inl k ↦ rw k refl | inr k ↦ rw k refl ]

-- The map after the removal, as `removeOrder` computes it.
abbrev write_off : (ℕ → ℕ → Bool) → ℕ → PriceLevel → Levels → Levels
write_off before p lvl m = if lvl.count == 0 then erase_level p m else put_level before p lvl m

detach-Stands :
    (b : OrderBook) (sd : Side) (qs' : Queues) (i p : ℕ) (lvl : PriceLevel)
    → is_buy (unlink b.storage i i).side ≡ is_buy sd
    → (unlink b.storage i i).price ≡ p
    → Stands
        (unlink b.storage i)
        sd
        (drop_level sd p (rest_of b.storage lvl i) (levels_of b sd))
        qs'
    → Stands (detach b i lvl).storage sd (levels_of (detach b i lvl) sd) qs'
unfolding detach deallocate
detach-Stands b sd qs' i p lvl side price v =
    let st = unlink b.storage i in
    let o = st i in
    let pool = deallocate (record (b.pool) { storage = st }) i in
    let index = update b.index o.order_id (older (b.index o.order_id)) in
    let m = write_off (before_of o.side) o.price (rest_of b.storage lvl i) (levels_of b o.side) in
    subst (λ c. Stands c.storage sd (levels_of c sd) qs') (sym (set_rest b o.side m index pool))
      (set_levels-Stands (record b { index = index; pool = pool }) o.side sd m qs' side
        (subst (λ k. Stands pool.storage sd k qs')
          (λ j.
            write_off (sym (same_before o.side sd side) j) (sym price j) (rest_of b.storage lvl i)
              (sym (same_levels b o.side sd side) j))
          (update-Stands st sd _ qs' i (record o { pool_next_free = head_of b.free_head }) refl refl
            refl refl v)))

-- `removeOrder` takes exactly the slot `i` out of the side's queues, and its level with its last
-- order.
pub remove_slot-Holds :
    (b : OrderBook) (sd : Side) (qs qs' : Queues) (i p : ℕ)
    → Holds b sd qs
    → Without i p qs qs'
    → Holds (remove_slot b i) sd qs'
unfolding remove_slot
remove_slot-Holds b sd qs qs' i p v w =
    let o = b.storage i in
    let (price, side) = Without-IsLive b.storage sd (levels_of b sd) qs qs' i p v.stands w in
    let (lvl, found, rest) =
      takeoff-Stands b.storage sd (levels_of b sd) qs qs' i p v.stands v.distinct w in
    let same = same_level b o.side sd p o.price lvl side price found in
    let done : remove_slot b i ≡ detach b i lvl = rw (same, remove_slot) in
    record {
      stands =
          subst (λ c. Stands c.storage sd (levels_of c sd) qs') (sym done)
            (detach-Stands b sd qs' i p lvl (ap is_buy (unlink-side b.storage i i) ∙ side)
              (unlink-price b.storage i i ∙ price) rest);
      distinct = Without-Distinct i p qs qs' w v.distinct;
    }
