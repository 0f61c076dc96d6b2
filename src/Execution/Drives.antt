-- ===== src/Execution/Drives.antt =====
-- How the execution engine (src/execution/execution_engine.h) drives the order manager: only by
-- the reports of the state diagram, after the order is registered.
use nebula_x_simulator.Prelude.{
  ℕ, ◌≡◌, refl, ap, ◌∙◌, subst, Bool, true, false, Option, none, some, List, [], ◌∷◌, ◌++◌,
  if◌then◌else◌, arith, Bool-cases, Option-cases, inl, inr, List-cases,
}
use nebula_x_simulator.Prelude.Int.{ℤ}
use nebula_x_simulator.Core.{Order}
use nebula_x_simulator.Oms.{OrderManager, Entry, is_active}
use nebula_x_simulator.Oms.Reports.{Report, accept, fill, ask_cancel, reject, apply, apply_all}
use nebula_x_simulator.Risk.{drawdown_flatten}
use nebula_x_simulator.Venue.{Fill, ExchangeOps, ExchangeSubmitResult, strategy_user_id}
use nebula_x_simulator.Execution.{
  Execution, record_trade, book_execution, take_fills, take_result, cancel_locked, flatten_order,
  flatten_orders, flatten_on_drawdown, send_order, set_oms, tif_of,
}

-- What holds of the result, if the call returns.
abbrev pub WhenDone {ℓ κ} : {A : Type ℓ} → (A → Type κ) → Option A → Type κ
WhenDone P none = Unit
WhenDone P (some a) = P a

-- The second state is the first after some reports.
abbrev pub Drives : OrderManager → OrderManager → Type 0
Drives m m' = (rs : List Report) × (m' ≡ apply_all m rs)

pub apply_all-append :
    (m : OrderManager) (rs qs : List Report)
    → apply_all (apply_all m rs) qs ≡ apply_all m (rs ++ qs)
unfolding apply_all
apply_all-append m [] qs = refl
apply_all-append m (r ∷ rs) qs = apply_all-append (apply m r) rs qs

pub Drives-none : (m m' : OrderManager) → m' ≡ m → Drives m m'
unfolding apply_all
Drives-none m m' e = ([], e)

pub Drives-then : (m n o : OrderManager) → Drives m n → Drives n o → Drives m o
Drives-then m n o (rs, e) (qs, f) =
    (rs ++ qs, f ∙ ap (λ x. apply_all x qs) e ∙ apply_all-append m rs qs)

pub Drives-one : (m : OrderManager) (r : Report) → Drives m (apply m r)
unfolding apply_all
Drives-one m r = (r ∷ [], refl)

module _ {X : Type 0} where
  record_trade-oms :
      (e : Execution X) (id : ℕ) (o : Order) (qty : ℕ) (price : ℤ) (p : Bool)
      → (record_trade e id o qty price p).order_manager ≡ e.order_manager
  unfolding record_trade
  record_trade-oms e id o qty price p = ground arith

  pub book_execution-Drives :
      (e : Execution X) (id : ℕ) (o : Order) (qty : ℕ) (price : ℤ) (p : Bool)
      → Drives e.order_manager (book_execution e id o qty price p).order_manager
  unfolding book_execution apply apply_all
  book_execution-Drives e id o qty price p =
      (fill id qty price ∷ [], record_trade-oms _ id o qty price p)

  pub take_fills-Drives :
      (e : Execution X) (id : ℕ) (o : Order) (fs : List Fill)
      → Drives e.order_manager (take_fills e id o fs).order_manager
  unfolding take_fills
  take_fills-Drives e id o [] = Drives-none e.order_manager e.order_manager refl
  take_fills-Drives e id o (f ∷ fs) =
      let e' = book_execution e id o f.filled_qty f.fill_price false in
      Drives-then e.order_manager e'.order_manager (take_fills e' id o fs).order_manager
        (book_execution-Drives e id o f.filled_qty f.fill_price false)
        (take_fills-Drives e' id o fs)

  pub take_result-Drives :
      (e : Execution X) (id : ℕ) (o : Order) (r : ExchangeSubmitResult)
      → Drives e.order_manager (take_result e id o r).order_manager
  unfolding take_result apply
  take_result-Drives e id o r = elim (Bool-cases r.accepted) [
    | inl h ↦
        let m = apply e.order_manager (accept id 0) in
        rw (h, take_result)
          (Drives-then e.order_manager m (take_fills (set_oms e m) id o r.fills).order_manager
            (Drives-one e.order_manager (accept id 0))
            (take_fills-Drives (set_oms e m) id o r.fills))
    | inr h ↦ rw (h, take_result) (Drives-one e.order_manager (reject id))
  ]

-- What holds of every value of a call that returns.
pub WhenDone-map {ℓ κ} :
    {A : Type ℓ} (P Q : A → Type κ) (o : Option A)
    → ((a : A) → P a → Q a)
    → WhenDone P o
    → WhenDone Q o
WhenDone-map P Q none f h = tt
WhenDone-map P Q (some a) f h = f a h

pub WhenDone-if {ℓ κ} :
    {A : Type ℓ} (P : A → Type κ) (b : Bool) (x y : Option A)
    → WhenDone P x
    → WhenDone P y
    → WhenDone P (if b then x else y)
WhenDone-if P true x y h k = h
WhenDone-if P false x y h k = k

module _ {X : Type 0} (ops : ExchangeOps X) where
  pub cancel_locked-oms :
      (e : Execution X) (id symbol_id : ℕ)
      → WhenDone (λ e'. e'.order_manager ≡ e.order_manager) (cancel_locked ops e id symbol_id)
  unfolding cancel_locked
  cancel_locked-oms e id symbol_id = elim (Option-cases e.exchange) [
    | inl h ↦ rw (h, cancel_locked) refl
    | inr (x, h) ↦ elim (List-cases (ops.cancel x id symbol_id strategy_user_id).1) [
      | inl k ↦ rw (h, k, cancel_locked) refl
      | inr (r, rs, k) ↦ rw (h, k, cancel_locked) tt
    ]
  ]

  -- The order manager has moved by reports, if the call returns.
  abbrev pub DrivesFrom : OrderManager → Option (Execution X) → Type 0
  DrivesFrom m o = WhenDone (λ e'. Drives m e'.order_manager) o

  flatten_order-Drives :
      (e : Execution X) (o : ℕ × Entry) → DrivesFrom e.order_manager (flatten_order ops e o)
  unfolding flatten_order apply
  flatten_order-Drives e (id, entry) = elim (Bool-cases (is_active entry.status)) [
    | inl h ↦
        let m = apply e.order_manager (ask_cancel id) in
        rw (h, flatten_order)
          (WhenDone-map _ _ (cancel_locked ops (set_oms e m) id entry.order.symbol_id)
            (λ e' same.
              Drives-then e.order_manager m e'.order_manager
                (Drives-one e.order_manager (ask_cancel id)) (Drives-none m e'.order_manager same))
            (cancel_locked-oms (set_oms e m) id entry.order.symbol_id))
    | inr h ↦ rw (h, flatten_order) (Drives-none e.order_manager e.order_manager refl)
  ]

  -- A call that drives on from where another has driven to.
  pub Drives-on :
      (m n : OrderManager) (o : Option (Execution X)) → Drives m n → DrivesFrom n o → DrivesFrom m o
  Drives-on m n o d h =
      WhenDone-map (λ e'. Drives n e'.order_manager) (λ e'. Drives m e'.order_manager) o
        (λ e' k. Drives-then m n e'.order_manager d k) h

  flatten_orders-Drives :
      (e : Execution X) (os : List (ℕ × Entry))
      → DrivesFrom e.order_manager (flatten_orders ops e os)
  unfolding flatten_orders
  flatten_orders-Drives e [] = Drives-none e.order_manager e.order_manager refl
  flatten_orders-Drives e (o ∷ os) = elim (Option-cases (flatten_order ops e o)) [
    | inl h ↦ rw (h, flatten_orders) tt
    | inr (e', h) ↦
        rw (h, flatten_orders)
          (Drives-on e.order_manager e'.order_manager (flatten_orders ops e' os)
            (subst (DrivesFrom e.order_manager) h (flatten_order-Drives e o))
            (flatten_orders-Drives e' os))
  ]

  pub flatten_on_drawdown-Drives :
      (e : Execution X) → DrivesFrom e.order_manager (flatten_on_drawdown ops e)
  unfolding flatten_on_drawdown
  flatten_on_drawdown-Drives e = elim (Bool-cases e.flatten_issued) [
    | inl h ↦ rw (h, flatten_on_drawdown) (Drives-none e.order_manager e.order_manager refl)
    | inr h ↦ elim (Bool-cases (drawdown_flatten e.shared.risk)) [
      | inl k ↦
          rw (h, k, flatten_on_drawdown)
            (flatten_orders-Drives (record e { flatten_issued = true }) e.order_manager.orders)
      | inr k ↦ rw (h, k, flatten_on_drawdown) (Drives-none e.order_manager e.order_manager refl)
    ]
  ]

  pub send_order-Drives :
      (e : Execution X) (id : ℕ) (o : Order) (x : X)
      → DrivesFrom e.order_manager (send_order ops e id o x)
  unfolding send_order
  send_order-Drives e id o x =
      let (x', shared, r) = ops.submit x e.shared o id (tif_of ops o.type) in
      let e1 = take_result (record e { exchange = some x'; shared = shared }) id o r in
      Drives-on e.order_manager e1.order_manager (flatten_on_drawdown ops e1)
        (take_result-Drives (record e { exchange = some x'; shared = shared }) id o r)
        (flatten_on_drawdown-Drives e1)
