-- ===== src/Execution/Flatten.antt =====
-- Cancels and the flattening after a drawdown (src/execution/execution_engine.h).
use nebula_x_simulator.Prelude.{
  ℕ, ◌≡◌, ◌⊎◌, refl, sym, ◌∙◌, subst, Bool, true, false, none, some, List, [], ◌∷◌, ◌==◌,
  if◌then◌else◌, arith, Bool-cases, Option-cases, inl, inr, add64,
}
use nebula_x_simulator.Core.{lookup}
use nebula_x_simulator.Core.Maps.{lookup-put}
use nebula_x_simulator.Oms.{
  OrderManager, OrderStatus, Entry, request_cancel, status, is_active, write,
}
use nebula_x_simulator.Risk.{drawdown_flatten}
use nebula_x_simulator.Venue.{Fill, ExchangeOps, strategy_user_id}
use nebula_x_simulator.Execution.{
  Execution, set_oms, set_exchange, cancel_locked, cancel_order, flatten_order, flatten_orders,
  flatten_on_drawdown,
}

-- The order cannot be filled or cancelled any more.
abbrev pub IsInactive : OrderManager → ℕ → Type 0
IsInactive m j = is_active (status m j) ≡ false

status-write :
    (m : OrderManager) (id j : ℕ) (e : Entry)
    → status (write m id e) j ≡ (if id == j then e.status else status m j)
unfolding status
status-write m id j e =
    rw (lookup-put j id (record e { update_time = add64 m.counter 1 }) m.orders, status)
      (pick (id == j))
  where
    pick :
        (b : Bool)
        → elim (if b
            then some (record e { update_time = add64 m.counter 1 })
            else lookup j m.orders) [ none ↦ OrderStatus.not_found | some f ↦ f.status ]
          ≡ (if b then e.status else status m j)
    pick true = refl
    pick false = refl

asked_cancel :
    (m : OrderManager) (id j : ℕ) (e : Entry)
    → (is_active (status m j) ≡ false) ⊎ (id ≡ j)
    → IsInactive (write m id (record e { status = OrderStatus.pending_cancel })) j
asked_cancel m id j e why =
    rw (status-write m id j (record e { status = OrderStatus.pending_cancel })) (ground arith)

-- A request to cancel leaves its order inactive, and every inactive order.
request_cancel-IsInactive :
    (m : OrderManager) (id j : ℕ) → IsInactive m j ⊎ (id ≡ j) → IsInactive (request_cancel m id).0 j
unfolding request_cancel status
request_cancel-IsInactive m id j why = elim (Option-cases (lookup id m.orders)) [
  | inl h ↦ rw (h, request_cancel) (known why (rw (h, status) refl))
  | inr (e, h) ↦ elim (Bool-cases (is_active e.status)) [
    | inl k ↦ rw (h, k, request_cancel) (asked_cancel m id j e why)
    | inr k ↦ rw (h, k, request_cancel) (known why (rw (h, status) k))
  ]
]
  where
    known : IsInactive m j ⊎ (id ≡ j) → IsInactive m id → IsInactive m j
    known (inl q) h = q
    known (inr e) h = subst (IsInactive m) e h

request_cancel_active :
    (m : OrderManager) (id : ℕ) (e : Entry)
    → lookup id m.orders ≡ some e
    → is_active e.status ≡ true
    → request_cancel m id ≡ (write m id (record e { status = OrderStatus.pending_cancel }), true)
unfolding request_cancel
request_cancel_active m id e known active = rw (known, active, request_cancel) refl

-- In such a state, the exchange calls nobody back while it cancels, and the state stays such.
abbrev pub IsQuiet : {X : Type 0} → ExchangeOps X → (X → Type 0) → Type 0
IsQuiet {X} ops Q =
    (x : X) (id symbol_id : ℕ)
    → Q x
    → ((ops.cancel x id symbol_id strategy_user_id).1 ≡ [])
      × Q (ops.cancel x id symbol_id strategy_user_id).0

-- The exchange, if there is one, is in such a state.
abbrev pub IsIdle : {X : Type 0} → (X → Type 0) → Execution X → Type 0
IsIdle {X} Q e = (x : X) → e.exchange ≡ some x → Q x

module _ {X : Type 0} (ops : ExchangeOps X) (Q : X → Type 0) (quiet : IsQuiet ops Q) where
  still :
      (x : X) (id symbol_id : ℕ) (y : X)
      → Q x
      → some (ops.cancel x id symbol_id strategy_user_id).0 ≡ some y
      → Q y
  still x id symbol_id y q same =
      let same_state : (ops.cancel x id symbol_id strategy_user_id).0 ≡ y = cc in
      subst Q same_state (quiet x id symbol_id q).1

  cancel_locked_returns :
      (e : Execution X) (id symbol_id : ℕ)
      → IsIdle Q e
      → (e' : Execution X) × (cancel_locked ops e id symbol_id ≡ some e')
        × IsIdle Q e'
        × (e'.order_manager ≡ e.order_manager)
        × (e'.flatten_issued ≡ e.flatten_issued)
  unfolding cancel_locked
  cancel_locked_returns e id symbol_id idle = elim (Option-cases e.exchange) [
    | inl h ↦ (e, simp (h, cancel_locked) refl, idle, refl, refl)
    | inr (x, h) ↦ (
      set_exchange e (ops.cancel x id symbol_id strategy_user_id).0,
      rw (h, (quiet x id symbol_id (idle x h)).0, cancel_locked) refl,
      (λ y same. still x id symbol_id y (idle x h) same),
      refl,
      refl,
    )
  ]

  -- One visit: no order becomes active, and the visited one is not if it was in the list as active.
  record Visited (e : Execution X) (o : ℕ × Entry) (e' : Execution X) : Type 0 where
    idle : IsIdle Q e'
    flag : e'.flatten_issued ≡ e.flatten_issued
    keeps : (j : ℕ) → IsInactive e.order_manager j → IsInactive e'.order_manager j
    gone : is_active o.1.status ≡ true → IsInactive e'.order_manager o.0

  flatten_order-Visited :
      (e : Execution X) (o : ℕ × Entry)
      → IsIdle Q e
      → (e' : Execution X) × (flatten_order ops e o ≡ some e') × Visited e o e'
  unfolding flatten_order
  flatten_order-Visited e (id, entry) idle = elim (Bool-cases (is_active entry.status)) [
    | inr h ↦ (
      e,
      rw (h, flatten_order) refl,
      record { idle = idle; flag = refl; keeps = λ j k. k; gone = λ k. ground arith },
    )
    | inl h ↦
        let m = (request_cancel e.order_manager id).0 in
        let (e', done, idle', same, flag) =
          cancel_locked_returns (set_oms e m) id entry.order.symbol_id idle in
        (
          e',
          rw (h, flatten_order) done,
          record {
            idle = idle';
            flag = flag;
            keeps = λ j k.
                subst (λ n. IsInactive n j) (sym same)
                  (request_cancel-IsInactive e.order_manager id j (inl k));
            gone = λ k.
                subst (λ n. IsInactive n id) (sym same)
                  (request_cancel-IsInactive e.order_manager id id (inr refl));
          },
        )
  ]

  -- All the visits: no order becomes active, and those of the list are not.
  pub record AllVisited (e : Execution X) (os : List (ℕ × Entry)) (e' : Execution X) : Type 0 where
    idle : IsIdle Q e'
    flag : e'.flatten_issued ≡ e.flatten_issued
    keeps : (j : ℕ) → IsInactive e.order_manager j → IsInactive e'.order_manager j
    gone :
        (j : ℕ) (entry : Entry)
        → lookup j os ≡ some entry
        → is_active entry.status ≡ true
        → IsInactive e'.order_manager j

  pub flatten_orders-AllVisited :
      (e : Execution X) (os : List (ℕ × Entry))
      → IsIdle Q e
      → (e' : Execution X) × (flatten_orders ops e os ≡ some e') × AllVisited e os e'
  unfolding flatten_orders lookup
  flatten_orders-AllVisited e [] idle = (
    e,
    refl,
    record { idle = idle; flag = refl; keeps = λ j k. k; gone = λ j entry k l. ground arith },
  )
  flatten_orders-AllVisited e ((id, entry) ∷ os) idle =
      let (e1, one, v) = flatten_order-Visited e (id, entry) idle in
      let (e', rest, w) = flatten_orders-AllVisited e1 os v.idle in
      (
        e',
        rw (one, flatten_orders) rest,
        record {
          idle = w.idle;
          flag = w.flag ∙ v.flag;
          keeps = λ j k. w.keeps j (v.keeps j k);
          gone = λ j f k l. elim (Bool-cases (id == j)) [
            | inl b ↦
                w.keeps j
                  (subst (IsInactive e1.order_manager) (ground arith) (v.gone (ground (arith, k))))
            | inr b ↦ w.gone j f (ground (arith, k)) l
          ];
        },
      )

  -- Once the drawdown passes its second limit, the flattening returns; no order can be filled or
  -- cancelled afterwards, and it is not done again.
  pub flatten_on_drawdown_done :
      (e : Execution X)
      → IsIdle Q e
      → e.flatten_issued ≡ false
      → drawdown_flatten e.shared.risk ≡ true
      → (e' : Execution X) × (flatten_on_drawdown ops e ≡ some e')
        × (flatten_on_drawdown ops e' ≡ some e')
        × ((j : ℕ) → IsInactive e'.order_manager j)
  unfolding flatten_on_drawdown status
  flatten_on_drawdown_done e idle first broken =
      let m = e.order_manager in
      let start = record e { flatten_issued = true } in
      let (e', done, v) = flatten_orders-AllVisited start m.orders idle in
      (
        e',
        rw (first, broken, flatten_on_drawdown) done,
        rw (v.flag, flatten_on_drawdown) refl,
        λ j. all_gone e' v j,
      )
    where
      all_gone :
          (e' : Execution X)
          → AllVisited (record e { flatten_issued = true }) e.order_manager.orders e'
          → (j : ℕ) → IsInactive e'.order_manager j
      all_gone e' v j = elim (Option-cases (lookup j e.order_manager.orders)) [
        | inl h ↦ v.keeps j (rw (h, status) refl)
        | inr (f, h) ↦ elim (Bool-cases (is_active f.status)) [
          | inl k ↦ v.gone j f h k
          | inr k ↦ v.keeps j (rw (h, status) k)
        ]
      ]

module _ {X : Type 0} (ops : ExchangeOps X) where
  -- A cancel of an active order at an exchange. If the exchange calls nobody back, the call returns
  -- true, and the order waits for the confirmation. If the exchange reports anything back, the call
  -- does not return: the report takes the mutex that the call holds.
  pub cancel_order_active :
      (e : Execution X) (x : X) (id : ℕ) (entry : Entry)
      → e.exchange ≡ some x
      → lookup id e.order_manager.orders ≡ some entry
      → is_active entry.status ≡ true
      → let answer = ops.cancel x id entry.order.symbol_id strategy_user_id in
        (answer.1 ≡ []
          → (e' : Execution X) × (cancel_order ops e id ≡ some (e', true))
            × (status e'.order_manager id ≡ OrderStatus.pending_cancel)
            × (e'.exchange ≡ some answer.0))
        × ((r : Fill) (rs : List Fill) → answer.1 ≡ r ∷ rs → cancel_order ops e id ≡ none)
  unfolding cancel_order cancel_locked
  cancel_order_active e x id entry at known active =
      let m = write e.order_manager id (record entry { status = OrderStatus.pending_cancel }) in
      let asked = request_cancel_active e.order_manager id entry known active in
      let x' = (ops.cancel x id entry.order.symbol_id strategy_user_id).0 in
      (
        λ quiet. (
          set_exchange (set_oms e m) x',
          rw (at, known, asked, cancel_order) (rw (at, quiet, cancel_locked) refl),
          rw
              (status-write e.order_manager id id
                (record entry { status = OrderStatus.pending_cancel }))
              (ground arith),
          refl,
        ),
        λ r rs loud. rw (at, known, asked, cancel_order) (rw (at, loud, cancel_locked) refl),
      )
