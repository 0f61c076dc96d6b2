-- ===== src/Worker/Returns.antt =====
-- The end of a segment comes to its end (src/sim/sim_worker.h, src/execution/execution_engine.h).
use nebula_x_simulator.Prelude.{
  ℕ, ◌≡◌, refl, sym, ◌∙◌, subst, Bool, true, false, Option, some, List, [], ◌∷◌, if◌then◌else◌,
  Bool-cases, Option-cases, inl, inr, ◌||◌, not,
}
use nebula_x_simulator.Prelude.Int.{ℤ, pos, ltb_ℤ, leb_ℤ}
use nebula_x_simulator.Core.{Order, OrderType}
use nebula_x_simulator.Exchange.Protocol.{ioc}
use nebula_x_simulator.Oms.{new_order, on_reject}
use nebula_x_simulator.Risk.{drawdown_flatten, check_order}
use nebula_x_simulator.Strategy.Arbitrate.{ArbDecision}
use nebula_x_simulator.Strategy.Signal.{Signal}
use nebula_x_simulator.Venue.{ExchangeOps, Shared, Fill, ExchangeSubmitResult}
use nebula_x_simulator.Execution.{
  Execution, flatten_on_drawdown, send_order, place_order, submit_signal, take_result, take_fills,
  book_execution, record_trade, tif_of, and_value, no_order, order_qty, order_of, set_oms, set_mid,
  query_book, live_mid,
}
use nebula_x_simulator.Execution.Flatten.{IsQuiet, IsIdle, flatten_orders-AllVisited}
use nebula_x_simulator.Worker.Trades.{live_mid-query_book}
use nebula_x_simulator.Worker.{
  Worker, decision, decision_signal, blocked, due, prepare, noted, note_order, submit_decision,
  arbitrate, is_empty,
}

-- The call gives a value.
abbrev pub Returns {ℓ} : {A : Type ℓ} → Option A → Type ℓ
Returns {A = A} o = (a : A) × (o ≡ some a)

Returns-if {ℓ} :
    {A : Type ℓ} (b : Bool) (x y : Option A) → Returns x → Returns y → Returns (if b then x else y)
Returns-if true x y h k = h
Returns-if false x y h k = k

-- Such states of the exchange call nobody back while it cancels, and they stay such through cancels,
-- immediate orders and quotes.
pub record StaysQuiet {X : Type 0} (ops : ExchangeOps X) (Q : X → Type 0) : Type 0 where
  pub quiet : IsQuiet ops Q
  pub sends : (x : X) (s : Shared) (o : Order) (id : ℕ) → Q x → Q (ops.submit x s o id ioc).0
  pub quotes : (x : X) (symbol_id : ℕ) → Q x → Q (ops.book_quote x symbol_id).0

book_execution-exchange :
    {X : Type 0} (e : Execution X) (id : ℕ) (o : Order) (qty : ℕ) (price : ℤ) (passive : Bool)
    → (book_execution e id o qty price passive).exchange ≡ e.exchange
unfolding book_execution record_trade
book_execution-exchange e id o qty price passive = elim (Bool-cases e.recorder) [
  | inl k ↦ rw k refl
  | inr k ↦ rw k refl
]

take_fills-exchange :
    {X : Type 0} (e : Execution X) (id : ℕ) (o : Order) (fs : List Fill)
    → (take_fills e id o fs).exchange ≡ e.exchange
unfolding take_fills book_execution record_trade
take_fills-exchange e id o [] = refl
take_fills-exchange e id o (f ∷ fs) =
    take_fills-exchange (book_execution e id o f.filled_qty f.fill_price false) id o fs
    ∙ book_execution-exchange e id o f.filled_qty f.fill_price false

take_result-exchange :
    {X : Type 0} (e : Execution X) (id : ℕ) (o : Order) (r : ExchangeSubmitResult)
    → (take_result e id o r).exchange ≡ e.exchange
unfolding take_result
take_result-exchange e id o r = elim (Bool-cases r.accepted) [
  | inl k ↦ rw (k, take_result) (take_fills-exchange _ id o r.fills)
  | inr k ↦ rw (k, take_result) refl
]

maybe_mid :
    {X : Type 0} (b : Bool) (e : Execution X) (symbol_id : ℕ) (mid : ℤ)
    → (if b then set_mid e symbol_id mid else e).exchange ≡ e.exchange
unfolding set_mid
maybe_mid false e symbol_id mid = refl
maybe_mid true e symbol_id mid = elim (Bool-cases (leb_ℤ (pos 0) mid)) [
  | inl k ↦ rw k refl
  | inr k ↦ rw k refl
]

module _ {X : Type 0} (ops : ExchangeOps X) (Q : X → Type 0) (stays : StaysQuiet ops Q) where
  flatten-Returns : (e : Execution X) → IsIdle Q e → Returns (flatten_on_drawdown ops e)
  unfolding flatten_on_drawdown
  flatten-Returns e idle =
      let start = record e { flatten_issued = true } in
      let (e', done, v) =
        flatten_orders-AllVisited ops Q stays.quiet start e.order_manager.orders idle in
      Returns-if e.flatten_issued (some e) _ (e, refl)
        (Returns-if (drawdown_flatten e.shared.risk) _ (some e) (e', done) (e, refl))

  now-IsIdle : (e : Execution X) (x : X) → e.exchange ≡ some x → Q x → IsIdle Q e
  now-IsIdle e x at q y same =
      let found : some x ≡ some y = sym at ∙ same in
      let same_state : x ≡ y = cc in subst Q same_state q

  send_order-Returns :
      (e : Execution X) (id : ℕ) (o : Order) (x : X)
      → Q x
      → tif_of ops o.type ≡ ioc
      → Returns (send_order ops e id o x)
  unfolding send_order
  send_order-Returns e id o x q at_once =
      let (x', shared, r) = ops.submit x e.shared o id ioc in
      let sent = record e { exchange = some x'; shared = shared } in
      let e' = take_result sent id o r in
      rw at_once (
        flatten-Returns e'
          (now-IsIdle e' x' (take_result-exchange sent id o r) (stays.sends x e.shared o id q)))

  and_value-Returns : (o : Option (Execution X)) (id : ℕ) → Returns o → Returns (and_value o id)
  and_value-Returns o id (e, h) = ((e, id), rw h refl)

  place_order-Returns :
      (e : Execution X) (o : Order)
      → IsIdle Q e
      → tif_of ops o.type ≡ ioc
      → Returns (place_order ops e o)
  unfolding place_order new_order
  place_order-Returns e o idle at_once =
      let m = (new_order e.order_manager o).0 in
      let o' = (new_order e.order_manager o).1 in
      let refused : Execution X × ℕ = (set_oms e (on_reject m o'.order_id), o'.order_id) in
      Returns-if (check_order e.shared.risk o') _ (some refused)
        (elim (Option-cases e.exchange) [
          | inl h ↦ rw h (refused, refl)
          | inr (x, h) ↦ rw h (
              and_value-Returns (send_order ops (set_oms e m) o'.order_id o' x) o'.order_id
                (send_order-Returns (set_oms e m) o'.order_id o' x (idle x h) at_once))
        ])
        (refused, refl)

  submit_signal-Returns :
      (e : Execution X) (sig : Signal) (strategy_id : ℕ)
      → IsIdle Q e
      → Returns (submit_signal ops e sig strategy_id OrderType.market)
  unfolding submit_signal
  submit_signal-Returns e sig strategy_id idle =
      let qty = order_qty e.base_qty sig.strength in
      Returns-if (no_order sig OrderType.market qty) (some (e, 0)) _ ((e, 0), refl)
        (place_order-Returns e (order_of sig strategy_id OrderType.market qty) idle refl)

  noted-Returns :
      (w : Worker) (d : ArbDecision) (o : Option (Execution X × ℕ))
      → Returns o
      → Returns (noted ops w d o)
  noted-Returns w d o (a, h) = ((note_order w d a.1, a.0), rw h refl)

  query_book-IsIdle :
      (e : Execution X) (symbol_id : ℕ) → IsIdle Q e → IsIdle Q (query_book ops e symbol_id).0
  unfolding query_book
  query_book-IsIdle e symbol_id idle = elim (Option-cases e.exchange) [
    | inl h ↦ rw (h, query_book) idle
    | inr (x, h) ↦
        rw (h, query_book)
          (λ y same.
            let same_state : (ops.book_quote x symbol_id).0 ≡ y = cc in
            subst Q same_state (stays.quotes x symbol_id (idle x h)))
  ]

  prepare-IsIdle :
      (e : Execution X) (segment : ℕ) (d : ArbDecision)
      → IsIdle Q e
      → IsIdle Q (prepare ops e segment d)
  unfolding prepare
  prepare-IsIdle e segment d idle =
      let e' = (live_mid ops e d.locate).0 in
      let live = (live_mid ops e d.locate).1 in
      let quoted : IsIdle Q e' =
        subst (IsIdle Q) (sym (live_mid-query_book ops e d.locate))
          (query_book-IsIdle e d.locate idle) in
      λ x at. quoted x (sym (maybe_mid (ltb_ℤ (pos 0) live) e' d.locate live) ∙ at)

  pub segment-Returns :
      (w : Worker) (e : Execution X) (segment : ℕ)
      → IsIdle Q e
      → Returns (arbitrate ops w e segment)
  unfolding arbitrate submit_decision
  segment-Returns w e segment idle =
      let w1 = record w { cur_segment = segment } in
      let d = decision w1 in
      Returns-if (is_empty w.strategies) (some (w, e)) _ ((w, e), refl)
        (Returns-if (not d.act || blocked w1 e.shared.risk d || not (due w1 d)) (some (w1, e)) _
          ((w1, e), refl)
          (noted-Returns w1 d _ (
            submit_signal-Returns (prepare ops e segment d) (decision_signal d) w.strategy_id
              (prepare-IsIdle e segment d idle))))
