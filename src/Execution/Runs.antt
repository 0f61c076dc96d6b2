-- ===== src/Execution/Runs.antt =====
-- Any sequence of calls of the execution engine (src/execution/execution_engine.h).
use nebula_x_simulator.Prelude.{
  ℕ, ◌<◌, ◌≡◌, refl, subst, sym, Bool, true, false, Option, none, some, List, [], ◌∷◌,
  if◌then◌else◌, arith, Bool-cases, Option-cases, inl, inr, u64_mod,
}
use nebula_x_simulator.Prelude.Int.{ℤ, pos, leb_ℤ}
use nebula_x_simulator.Core.{Order, OrderType, lookup}
use nebula_x_simulator.Oms.{OrderManager, new_order, request_cancel, on_reject}
use nebula_x_simulator.Oms.Reports.{accept, ask_cancel, cancel, reject, apply}
use nebula_x_simulator.Oms.Accounting.{AllValid, apply_all-AllValid, new_order-AllValid}
use nebula_x_simulator.Risk.{check_order}
use nebula_x_simulator.Strategy.Signal.{Signal}
use nebula_x_simulator.Venue.{
  Fill, FillType, BookQuote, accepted, executed, canceled, rejected, other_type, ExchangeOps,
}
use nebula_x_simulator.Execution.{
  Execution, submit_signal, place_order, submit_market_as_limit, on_order_fill, on_order_report,
  cancel_order, order_of, order_qty, no_order, set_oms, and_value, cancel_locked, book_execution,
  flatten_on_drawdown, send_order, query_book, is_none_side, is_buy_side, take_report,
  submit_at_quote,
}
use nebula_x_simulator.Execution.Drives.{
  WhenDone, WhenDone-map, Drives, Drives-one, DrivesFrom, send_order-Drives,
  flatten_on_drawdown-Drives, book_execution-Drives, cancel_locked-oms,
}

Drives-AllValid : (m m' : OrderManager) → AllValid m → Drives m m' → AllValid m'
Drives-AllValid m m' v (rs, e) = subst AllValid (sym e) (apply_all-AllValid m rs v)

order_qty_bounded : (base : ℕ) (s : ℤ) → order_qty base s < u64_mod
unfolding order_qty
order_qty_bounded base s = ground arith

-- The engine's public calls that change orders.
pub data Call : Type 0 where
  signal_call : Signal → ℕ → OrderType → Call
  quote_call : Signal → ℕ → Call
  fill_call : ℕ → ℕ → ℤ → Call
  report_call : Fill → Call
  cancel_call : ℕ → Call

abbrev pub state_of : {X A : Type 0} → Option (Execution X × A) → Option (Execution X)
state_of none = none
state_of (some (e, a)) = some e

module _ {X : Type 0} (ops : ExchangeOps X) where
  unfoldable pub call : Execution X → Call → Option (Execution X)
  call e (signal_call sig strategy_id type) = state_of (submit_signal ops e sig strategy_id type)
  call e (quote_call sig strategy_id) = state_of (submit_market_as_limit ops e sig strategy_id)
  call e (fill_call id qty price) = on_order_fill ops e id qty price
  call e (report_call f) = on_order_report ops e f
  call e (cancel_call id) = state_of (cancel_order ops e id)

  unfoldable pub calls : Execution X → List Call → Option (Execution X)
  unfolding call
  calls e [] = some e
  calls e (c ∷ cs) = elim (call e c) [ none ↦ none | some e' ↦ calls e' cs ]

  -- The entries of the order manager are valid, if the call returns.
  abbrev pub Keeps : Option (Execution X) → Type 0
  Keeps o = WhenDone (λ e'. AllValid e'.order_manager) o

  drives-Keeps :
      (m : OrderManager) (o : Option (Execution X)) → AllValid m → DrivesFrom ops m o → Keeps o
  drives-Keeps m o v d =
      WhenDone-map (λ e'. Drives m e'.order_manager) (λ e'. AllValid e'.order_manager) o
        (λ e' k. Drives-AllValid m e'.order_manager v k) d

  and_value-Keeps :
      {A : Type 0} → (o : Option (Execution X)) (a : A) → Keeps o → Keeps (state_of (and_value o a))
  and_value-Keeps none a h = tt
  and_value-Keeps (some e) a h = h

  place_order-Keeps :
      (e : Execution X) (o : Order)
      → o.quantity < u64_mod
      → AllValid e.order_manager
      → Keeps (state_of (place_order ops e o))
  unfolding place_order on_reject apply
  place_order-Keeps e o small v =
      let m = (new_order e.order_manager o).0 in
      let o' = (new_order e.order_manager o).1 in
      let v' = new_order-AllValid e.order_manager o small v in
      let refused =
        Drives-AllValid m (on_reject m o'.order_id) v' (Drives-one m (reject o'.order_id)) in
      elim (Bool-cases (check_order e.shared.risk o')) [
        | inr h ↦ rw (h, place_order) refused
        | inl h ↦ elim (Option-cases e.exchange) [
          | inl k ↦ rw (h, k, place_order) refused
          | inr (x, k) ↦
              rw (h, k, place_order)
                (and_value-Keeps (send_order ops (set_oms e m) o'.order_id o' x) o'.order_id (
                  drives-Keeps m (send_order ops (set_oms e m) o'.order_id o' x) v'
                    (send_order-Drives ops (set_oms e m) o'.order_id o' x)))
        ]
      ]

  submit_signal-Keeps :
      (e : Execution X) (sig : Signal) (strategy_id : ℕ) (type : OrderType)
      → AllValid e.order_manager
      → Keeps (state_of (submit_signal ops e sig strategy_id type))
  unfolding submit_signal
  submit_signal-Keeps e sig strategy_id type v =
      let qty = order_qty e.base_qty sig.strength in
      elim (Bool-cases (no_order sig type qty)) [
        | inl h ↦ rw (h, submit_signal) v
        | inr h ↦
            rw (h, submit_signal)
              (place_order-Keeps e (order_of sig strategy_id type qty)
                (order_qty_bounded e.base_qty sig.strength) v)
      ]

  query_book-oms :
      (e : Execution X) (symbol_id : ℕ)
      → (query_book ops e symbol_id).0.order_manager ≡ e.order_manager
  unfolding query_book
  query_book-oms e symbol_id = elim (Option-cases e.exchange) [
    | inl h ↦ rw (h, query_book) refl
    | inr (x, h) ↦ rw (h, query_book) refl
  ]

  if-Keeps :
      {A : Type 0}
      → (b : Bool) (x y : Option (Execution X × A)) → Keeps (state_of x)
      → Keeps (state_of y)
      → Keeps (state_of (if b then x else y))
  if-Keeps true x y h k = h
  if-Keeps false x y h k = k

  submit_at_quote-Keeps :
      (e : Execution X) (sig : Signal) (strategy_id : ℕ) (q : Option BookQuote)
      → AllValid e.order_manager
      → Keeps (state_of (submit_at_quote ops e sig strategy_id q))
  unfolding submit_at_quote
  submit_at_quote-Keeps e sig strategy_id none v = v
  submit_at_quote-Keeps e sig strategy_id (some q) v =
      let price = if is_buy_side sig.side then q.ask else q.bid in
      if-Keeps (leb_ℤ price (pos 0)) (some (e, 0))
        (submit_signal ops e (record sig { price = price }) strategy_id OrderType.limit) v
        (submit_signal-Keeps e (record sig { price = price }) strategy_id OrderType.limit v)

  submit_market_as_limit-Keeps :
      (e : Execution X) (sig : Signal) (strategy_id : ℕ)
      → AllValid e.order_manager
      → Keeps (state_of (submit_market_as_limit ops e sig strategy_id))
  unfolding submit_market_as_limit
  submit_market_as_limit-Keeps e sig strategy_id v = elim (Bool-cases (is_none_side sig.side)) [
    | inl h ↦ rw (h, submit_market_as_limit) v
    | inr h ↦
        rw (h, submit_market_as_limit)
          (submit_at_quote-Keeps (query_book ops e sig.locate).0 sig strategy_id
            (query_book ops e sig.locate).1 (subst AllValid (sym (query_book-oms e sig.locate)) v))
  ]

  booked-Keeps :
      (e : Execution X) (id : ℕ) (o : Order) (qty : ℕ) (price : ℤ)
      → AllValid e.order_manager
      → Keeps (flatten_on_drawdown ops (book_execution e id o qty price true))
  booked-Keeps e id o qty price v =
      let e' = book_execution e id o qty price true in
      drives-Keeps e'.order_manager (flatten_on_drawdown ops e')
        (Drives-AllValid e.order_manager e'.order_manager v
          (book_execution-Drives e id o qty price true))
        (flatten_on_drawdown-Drives ops e')

  on_order_fill-Keeps :
      (e : Execution X) (id qty : ℕ) (price : ℤ)
      → AllValid e.order_manager
      → Keeps (on_order_fill ops e id qty price)
  unfolding on_order_fill
  on_order_fill-Keeps e id qty price v = elim (Option-cases (lookup id e.order_manager.orders)) [
    | inl h ↦ rw (h, on_order_fill) v
    | inr (entry, h) ↦ rw (h, on_order_fill) (booked-Keeps e id entry.order qty price v)
  ]

  take_report-Keeps :
      (e : Execution X) (f : Fill) (o : Order) (type : FillType)
      → AllValid e.order_manager
      → Keeps (take_report ops e f o type)
  unfolding take_report apply
  take_report-Keeps e f o accepted v =
      Drives-AllValid e.order_manager _ v
        (Drives-one e.order_manager (accept f.order_id f.exchange_ref))
  take_report-Keeps e f o executed v = booked-Keeps e f.order_id o f.filled_qty f.fill_price v
  take_report-Keeps e f o canceled v =
      Drives-AllValid e.order_manager _ v (Drives-one e.order_manager (cancel f.order_id))
  take_report-Keeps e f o rejected v =
      Drives-AllValid e.order_manager _ v (Drives-one e.order_manager (reject f.order_id))
  take_report-Keeps e f o other_type v = v

  on_order_report-Keeps :
      (e : Execution X) (f : Fill) → AllValid e.order_manager → Keeps (on_order_report ops e f)
  unfolding on_order_report
  on_order_report-Keeps e f v = elim (Option-cases (lookup f.order_id e.order_manager.orders)) [
    | inl h ↦ rw (h, on_order_report) v
    | inr (entry, h) ↦ rw (h, on_order_report) (take_report-Keeps e f entry.order f.type v)
  ]

  cancel_order-Keeps :
      (e : Execution X) (id : ℕ)
      → AllValid e.order_manager
      → Keeps (state_of (cancel_order ops e id))
  unfolding cancel_order apply
  cancel_order-Keeps e id v =
      let m = (request_cancel e.order_manager id).0 in
      let v' = Drives-AllValid e.order_manager m v (Drives-one e.order_manager (ask_cancel id)) in
      elim (Option-cases e.exchange) [
        | inl h ↦ rw (h, cancel_order) v
        | inr (x, h) ↦ elim (Option-cases (lookup id e.order_manager.orders)) [
          | inl k ↦ rw (h, k, cancel_order) v
          | inr (entry, k) ↦ elim (Bool-cases (request_cancel e.order_manager id).1) [
            | inr l ↦ rw (h, k, l, cancel_order) v'
            | inl l ↦
                let o = cancel_locked ops (set_oms e m) id entry.order.symbol_id in
                rw (h, k, l, cancel_order)
                  (and_value-Keeps o true (
                    WhenDone-map (λ e'. e'.order_manager ≡ m) (λ e'. AllValid e'.order_manager) o
                      (λ e' same. subst AllValid (sym same) v')
                      (cancel_locked-oms ops (set_oms e m) id entry.order.symbol_id)))
          ]
        ]
      ]

  call-Keeps : (e : Execution X) (c : Call) → AllValid e.order_manager → Keeps (call e c)
  unfolding call
  call-Keeps e (signal_call sig strategy_id type) v = submit_signal-Keeps e sig strategy_id type v
  call-Keeps e (quote_call sig strategy_id) v = submit_market_as_limit-Keeps e sig strategy_id v
  call-Keeps e (fill_call id qty price) v = on_order_fill-Keeps e id qty price v
  call-Keeps e (report_call f) v = on_order_report-Keeps e f v
  call-Keeps e (cancel_call id) v = cancel_order-Keeps e id v

  -- Any sequence of calls that returns, over any exchange, keeps every entry of the order manager
  -- valid: filled and remaining shares add up to the order, and no order is filled past its quantity.
  pub calls-Keeps :
      (e : Execution X) (cs : List Call) → AllValid e.order_manager → Keeps (calls e cs)
  unfolding calls
  calls-Keeps e [] v = v
  calls-Keeps e (c ∷ cs) v = elim (Option-cases (call e c)) [
    | inl h ↦ rw (h, calls) tt
    | inr (e', h) ↦ rw (h, calls) (calls-Keeps e' cs (subst Keeps h (call-Keeps e c v)))
  ]
