-- ===== src/Execution.antt =====
-- The execution engine (src/execution/execution_engine.h): from a signal through the risk gate and
-- the order manager to the exchange, and the reports back.
pub mod Drives
pub mod Refusals
pub mod Runs
pub mod Flatten
pub mod Limits
pub mod Positions
use nebula_x_simulator.Prelude.{
  ℕ, ◌*◌, ◌/◌, ◌%◌, ◌-◌, Bool, true, false, Option, none, some, List, [], ◌∷◌, if◌then◌else◌, ◌==◌,
  ◌||◌, ◌&&◌, u64_mod,
}
use nebula_x_simulator.Prelude.Int.{ℤ, pos, negsuc, ◌+ℤ◌, div_ℤ, ltb_ℤ, leb_ℤ}
use nebula_x_simulator.Core.{Order, OrderSide, buy, sell, none_side, OrderType, lookup, put}
use nebula_x_simulator.Exchange.Protocol.{OrderTif, day, ioc}
use nebula_x_simulator.Oms.{
  OrderManager, Entry, new_order, on_accept, on_reject, on_cancel, request_cancel, is_active,
}
use nebula_x_simulator.Oms
use nebula_x_simulator.Risk.{RiskManager, check_order, drawdown_flatten}
use nebula_x_simulator.Risk
use nebula_x_simulator.Strategy.Signal.{Signal}
use nebula_x_simulator.Strategy.Arbitrate.Strength.{strength_scale}
use nebula_x_simulator.Venue.{
  Fill, FillType, accepted, executed, canceled, rejected, other_type, BookQuote,
  ExchangeSubmitResult, Shared, ExchangeOps, strategy_user_id,
}

pub record TradeRecord : Type 0 where
  pub order_id : ℕ
  pub symbol_id : ℕ
  pub side : OrderSide
  pub qty : ℕ
  pub price : ℤ
  pub mid : ℤ
  pub passive : Bool
  pub segment : ℕ
  pub seq : ℕ

-- `trades` are the calls of the recorder so far, the newest first; without a recorder there are
-- none.
pub record Execution (X : Type 0) : Type 0 where
  pub order_manager : OrderManager
  pub shared : Shared
  pub exchange : Option X
  pub base_qty : ℕ
  pub flatten_issued : Bool
  pub recorder : Bool
  pub trades : List TradeRecord
  pub mid_map : List (ℕ × ℤ)

-- `(uint64_t)` of a signed number
abbrev pub to_u64 : ℤ → ℕ
to_u64 (pos n) = n % u64_mod
to_u64 (negsuc n) = u64_mod - 1 - n % u64_mod

-- `base_qty_ * strength / kStrengthScale`
unfoldable pub order_qty : ℕ → ℤ → ℕ
order_qty base_qty strength = base_qty * to_u64 strength % u64_mod / strength_scale

abbrev pub is_limit : OrderType → Bool
is_limit OrderType.limit = true
is_limit _ = false

abbrev pub is_none_side : OrderSide → Bool
is_none_side none_side = true
is_none_side _ = false

abbrev pub is_buy_side : OrderSide → Bool
is_buy_side buy = true
is_buy_side _ = false

abbrev pub order_of : Signal → ℕ → OrderType → ℕ → Order
order_of sig strategy_id type qty = record {
  order_id = 0;
  strategy_id = strategy_id;
  symbol_id = sig.locate;
  side = sig.side;
  type = type;
  price = sig.price;
  quantity = qty;
  timestamp = sig.timestamp;
}

-- The guards of `submit_signal` before the order is made.
abbrev pub no_order : Signal → OrderType → ℕ → Bool
no_order sig type qty =
    is_none_side sig.side
    || ltb_ℤ sig.price (pos 0)
    || is_limit type && leb_ℤ sig.price (pos 0)
    || qty == 0

-- The value that goes with the state, if the call returns.
abbrev pub and_value : {A B : Type 0} → Option A → B → Option (A × B)
and_value none b = none
and_value (some a) b = some (a, b)

module _ {X : Type 0} where
  abbrev pub set_oms : Execution X → OrderManager → Execution X
  set_oms e m = record e { order_manager = m }

  abbrev pub set_risk : Execution X → RiskManager → Execution X
  set_risk e r = record e { shared = record (e.shared) { risk = r } }

  abbrev pub set_exchange : Execution X → X → Execution X
  set_exchange e x = record e { exchange = some x }

  unfoldable pub set_mid : Execution X → ℕ → ℤ → Execution X
  set_mid e symbol_id mid =
      if leb_ℤ (pos 0) mid then record e { mid_map = put symbol_id mid e.mid_map } else e

  abbrev pub set_segment_ctx : Execution X → ℕ → ℕ → Execution X
  set_segment_ctx e segment seq = record e {
    shared = record (e.shared) { segment = segment; seq = seq };
  }

  unfoldable pub mid_of : Execution X → ℕ → ℤ
  mid_of e symbol_id = elim (lookup symbol_id e.mid_map) [ none ↦ negsuc 0 | some mid ↦ mid ]

  unfoldable pub record_trade : Execution X → ℕ → Order → ℕ → ℤ → Bool → Execution X
  unfolding mid_of
  record_trade e id o qty price passive =
      let mid = mid_of e o.symbol_id in
      let entry : TradeRecord = record {
        order_id = id;
        symbol_id = o.symbol_id;
        side = o.side;
        qty = qty;
        price = price;
        mid = if ltb_ℤ mid (pos 0) then price else mid;
        passive = passive;
        segment = e.shared.segment;
        seq = e.shared.seq;
      } in
      if e.recorder then record e { trades = entry ∷ e.trades } else e

  -- A fill, in the order manager and in the risk manager at its own price, and on record.
  unfoldable pub book_execution : Execution X → ℕ → Order → ℕ → ℤ → Bool → Execution X
  unfolding record_trade
  book_execution e id o qty price passive =
      let m = Oms.on_fill e.order_manager id qty price in
      let r = Risk.on_fill e.shared.risk (record o { price = price }) qty in
      record_trade (set_risk (set_oms e m) r) id o qty price passive

  -- The loop over the fills of a submitted order.
  unfoldable pub take_fills : Execution X → ℕ → Order → List Fill → Execution X
  take_fills e id o [] = e
  take_fills e id o (f ∷ fs) =
      take_fills (book_execution e id o f.filled_qty f.fill_price false) id o fs

  -- What `submit_signal` does with the exchange's answer.
  unfoldable pub take_result : Execution X → ℕ → Order → ExchangeSubmitResult → Execution X
  unfolding take_fills
  take_result e id o r =
      if r.accepted
      then take_fills (set_oms e (on_accept e.order_manager id 0)) id o r.fills
      else set_oms e (on_reject e.order_manager id)

module _ {X : Type 0} (ops : ExchangeOps X) where
  -- A cancel at the exchange while the engine holds its mutex. A report of the exchange takes that
  -- mutex again, which no thread can do twice: the call does not return then.
  unfoldable pub cancel_locked : Execution X → ℕ → ℕ → Option (Execution X)
  cancel_locked e id symbol_id = elim e.exchange [
    | none ↦ some e
    | some x ↦
        let (x', reports) = ops.cancel x id symbol_id strategy_user_id in
        elim reports [ [] ↦ some (set_exchange e x') | _ ∷ _ ↦ none ]
  ]

  -- The visit of one order in `flatten_on_drawdown`.
  unfoldable pub flatten_order : Execution X → ℕ × Entry → Option (Execution X)
  unfolding cancel_locked
  flatten_order e (id, entry) =
      if is_active entry.status
      then cancel_locked (set_oms e (request_cancel e.order_manager id).0) id entry.order.symbol_id
      else some e

  unfoldable pub flatten_orders : Execution X → List (ℕ × Entry) → Option (Execution X)
  unfolding flatten_order
  flatten_orders e [] = some e
  flatten_orders e (o ∷ os) = elim (flatten_order e o) [
    | none ↦ none
    | some e' ↦ flatten_orders e' os
  ]

  unfoldable pub flatten_on_drawdown : Execution X → Option (Execution X)
  unfolding flatten_orders
  flatten_on_drawdown e =
      if e.flatten_issued
      then some e
      else if drawdown_flatten e.shared.risk
      then flatten_orders (record e { flatten_issued = true }) e.order_manager.orders
      else some e

  abbrev pub tif_of : OrderType → OrderTif
  tif_of type = if is_limit type then day else ioc

  -- A registered order that passed the gate, at the exchange.
  unfoldable pub send_order : Execution X → ℕ → Order → X → Option (Execution X)
  unfolding flatten_on_drawdown take_result
  send_order e id o x =
      let (x', shared, r) = ops.submit x e.shared o id (tif_of o.type) in
      flatten_on_drawdown (take_result (record e { exchange = some x'; shared = shared }) id o r)

  -- The order that is made, registered and sent; the engine with the order's number.
  unfoldable pub place_order : Execution X → Order → Option (Execution X × ℕ)
  unfolding send_order
  place_order e order =
      let (m, o) = new_order e.order_manager order in
      let id = o.order_id in
      let e1 = set_oms e m in
      let refused = set_oms e (on_reject m id) in
      if check_order e.shared.risk o
      then elim e.exchange [
        | none ↦ some (refused, id)
        | some x ↦ and_value (send_order e1 id o x) id
      ]
      else some (refused, id)

  unfoldable pub submit_signal : Execution X → Signal → ℕ → OrderType → Option (Execution X × ℕ)
  unfolding place_order
  submit_signal e sig strategy_id type =
      let qty = order_qty e.base_qty sig.strength in
      if no_order sig type qty
      then some (e, 0)
      else place_order e (order_of sig strategy_id type qty)

  unfoldable pub on_order_fill : Execution X → ℕ → ℕ → ℤ → Option (Execution X)
  on_order_fill e id qty price = elim (lookup id e.order_manager.orders) [
    | none ↦ some e
    | some entry ↦ flatten_on_drawdown (book_execution e id entry.order qty price true)
  ]

  -- The `switch` of `on_order_report`, for a known order.
  unfoldable pub take_report : Execution X → Fill → Order → FillType → Option (Execution X)
  take_report e f o accepted =
      some (set_oms e (on_accept e.order_manager f.order_id f.exchange_ref))
  take_report e f o executed =
      flatten_on_drawdown (book_execution e f.order_id o f.filled_qty f.fill_price true)
  take_report e f o canceled = some (set_oms e (on_cancel e.order_manager f.order_id).0)
  take_report e f o rejected = some (set_oms e (on_reject e.order_manager f.order_id))
  take_report e f o other_type = some e

  unfoldable pub on_order_report : Execution X → Fill → Option (Execution X)
  unfolding take_report
  on_order_report e f = elim (lookup f.order_id e.order_manager.orders) [
    | none ↦ some e
    | some entry ↦ take_report e f entry.order f.type
  ]

  unfoldable pub cancel_order : Execution X → ℕ → Option (Execution X × Bool)
  unfolding cancel_locked
  cancel_order e id = elim e.exchange [
    | none ↦ some (e, false)
    | some x ↦ elim (lookup id e.order_manager.orders) [
      | none ↦ some (e, false)
      | some entry ↦
          let (m, asked) = request_cancel e.order_manager id in
          if asked
          then and_value (cancel_locked (set_oms e m) id entry.order.symbol_id) true
          else some (set_oms e m, false)
    ]
  ]

  unfoldable pub query_book : Execution X → ℕ → Execution X × Option BookQuote
  query_book e symbol_id = elim e.exchange [
    | none ↦ (e, none)
    | some x ↦ let (x', q) = ops.book_quote x symbol_id in (set_exchange e x', q)
  ]

  unfoldable pub live_mid : Execution X → ℕ → Execution X × ℤ
  unfolding query_book
  live_mid e symbol_id =
      let (e', quote) = query_book e symbol_id in
      elim quote [
        | none ↦ (e', negsuc 0)
        | some q ↦
            if ltb_ℤ (pos 0) q.bid && ltb_ℤ (pos 0) q.ask
            then (e', div_ℤ (q.bid +ℤ q.ask) 2)
            else (e', negsuc 0)
      ]

  -- The order at the quote's opposite price.
  unfoldable pub submit_at_quote :
      Execution X → Signal → ℕ → Option BookQuote → Option (Execution X × ℕ)
  unfolding submit_signal
  submit_at_quote e sig strategy_id none = some (e, 0)
  submit_at_quote e sig strategy_id (some q) =
      let price = if is_buy_side sig.side then q.ask else q.bid in
      if leb_ℤ price (pos 0)
      then some (e, 0)
      else submit_signal e (record sig { price = price }) strategy_id OrderType.limit

  unfoldable pub submit_market_as_limit : Execution X → Signal → ℕ → Option (Execution X × ℕ)
  unfolding query_book submit_at_quote
  submit_market_as_limit e sig strategy_id =
      if is_none_side sig.side
      then some (e, 0)
      else submit_at_quote (query_book e sig.locate).0 sig strategy_id (query_book e sig.locate).1
