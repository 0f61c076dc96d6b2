-- ===== src/Exchange/Engine.antt =====
-- The matching engine's state and its matching loops (src/exchange/matching_engine.h,
-- matching_engine.cpp). A method returns the new state with the responses that it appends.
pub mod Requests
pub mod Recovery
pub mod Accounting
pub mod Endings
pub mod AddReport
pub mod Progress
pub mod Cancels
use nebula_x_simulator.Prelude.{
  ℕ, zero, suc, ◌+◌, ◌%◌, Bool, true, false, Option, none, some, List, [], ◌∷◌, ◌++◌, if◌then◌else◌,
  ltb, ◌==◌, update, u32_max, add32, sub32, add64, min,
}
use nebula_x_simulator.Exchange.Order.{
  Side, buy, sell, Order, OrderStatus, opened, partially_filled, filled, is_buy,
}
use nebula_x_simulator.Exchange.Pool.{OrderPool}
use nebula_x_simulator.Exchange.Levels.{Levels}
use nebula_x_simulator.Exchange.Book.{
  OrderBook, get_best_bid, get_best_ask, reduce_order_qty, remove_slot, available_qty,
}
use nebula_x_simulator.Exchange.Protocol.{BinaryResponse, rsp_trade}
use nebula_x_simulator.Exchange.Journal.{
  WalEntry, WalWriter, append, TradeEntry, TradePool, trade_capacity, IoCounters,
}

-- The part of a book that is its own; the pool and the index are the engine's.
pub record Sides : Type 0 where
  pub bids : Levels
  pub asks : Levels

-- `trade_ids` are the counters `static uint64_t trade_id` of the two matching functions.
pub record Engine : Type 0 where
  pub books : ℕ → Option Sides
  pub pool : OrderPool
  pub index : ℕ → List ℕ
  pub next_order_id : ℕ
  pub next_sequence : ℕ
  pub metrics : Option IoCounters
  pub wal : Option WalWriter
  pub trade_pool : Option TradePool
  pub buy_trade_id : ℕ
  pub sell_trade_id : ℕ

abbrev pub max_locate : ℕ
max_locate = 65536

abbrev pub sides_or_empty : Option Sides → Sides
sides_or_empty none = record { bids = []; asks = [] }
sides_or_empty (some s) = s

-- The book at a stock locate, with the shared pool and index; a missing one is empty.
abbrev pub load_book : Engine → ℕ → OrderBook
load_book e locate =
    let s = sides_or_empty (e.books locate) in
    record { bids = s.bids; asks = s.asks; pool = e.pool; index = e.index }

abbrev pub store_book : Engine → ℕ → OrderBook → Engine
store_book e locate b = record e {
  books = update e.books locate (some (record { bids = b.bids; asks = b.asks }));
  pool = b.pool;
  index = b.index;
}

-- `book_for`: no book past the last locate, and an empty one is made where there was none.
unfoldable pub book_for : Engine → ℕ → Option (Engine × OrderBook)
book_for e locate =
    if ltb locate max_locate
    then some (
      record e { books = update e.books locate (some (sides_or_empty (e.books locate))) },
      load_book e locate,
    )
    else none

abbrev pub bump {ℓ} : {A : Type ℓ} → (A → A) → Option A → Option A
bump f none = none
bump f (some m) = some (f m)

-- The variables of a matching loop.
pub record Matching : Type 0 where
  pub book : OrderBook
  pub order : Order
  pub out : List BinaryResponse
  pub metrics : Option IoCounters
  pub trade_pool : Option TradePool
  pub trade_id : ℕ

-- The write to the trade ring, as the taker's side says who bought.
abbrev pub record_trade : Side → ℕ → Order → Order → ℕ → ℕ → TradePool → TradePool
record_trade side seq taker maker qty id t =
    let bought = is_buy side in
    let entry : TradeEntry = record {
      trade_id = id;
      buy_order_id = if bought then taker.order_id else maker.order_id;
      sell_order_id = if bought then maker.order_id else taker.order_id;
      price = maker.price;
      quantity = qty;
      buyer_id = if bought then taker.user_id else maker.user_id;
      seller_id = if bought then maker.user_id else taker.user_id;
      timestamp = (t.entries (t.write_idx % trade_capacity)).timestamp;
      seq = seq;
    } in
    record {
      entries = update t.entries (t.write_idx % trade_capacity) entry;
      write_idx = add64 t.write_idx 1;
    }

abbrev pub next_trade_id : Option TradePool → ℕ → ℕ
next_trade_id none n = n
next_trade_id (some t) n = add64 n 1

abbrev pub set_status : OrderBook → ℕ → OrderStatus → OrderBook
set_status b i st = record b {
  pool = record (b.pool) { storage = update b.storage i (record (b.storage i) { status = st }) };
}

-- The side of a resting order that the taker meets.
abbrev pub opposite : Side → Side
opposite s = if is_buy s then sell else buy

-- `getBestAsk` for a buyer, `getBestBid` for a seller.
abbrev pub best_for : Side → OrderBook → ℕ → Option ℕ
best_for s b user = if is_buy s then get_best_ask b user else get_best_bid b user

-- The taker's limit is beyond the maker's price.
abbrev pub refuses : Side → ℕ → ℕ → Bool
refuses s limit price = if is_buy s then ltb limit price else ltb price limit

-- One round of a matching loop against the order in slot `i`.
unfoldable pub match_round : Side → ℕ → ℕ → Matching → ℕ → Matching
match_round side locate seq m i =
    let maker = m.book.storage i in
    let qty = min m.order.remaining_qty maker.remaining_qty in
    let left = sub32 m.order.remaining_qty qty in
    let b = reduce_order_qty m.book i qty in
    let done = (b.storage i).remaining_qty == 0 in
    let b' =
      if done then remove_slot (set_status b i filled) i else set_status b i partially_filled in
    let id = next_trade_id m.trade_pool m.trade_id in
    let taker = record (m.order) {
      remaining_qty = left;
      filled_qty = add32 m.order.filled_qty qty;
    } in
    record {
      book = b';
      order = record taker { status = if left == 0 then filled else partially_filled };
      out =
          m.out
          ++ rsp_trade (record {
            locate = locate;
            order_ref = maker.order_id;
            side = opposite side;
            price = maker.price;
            quantity = qty;
          })
            ∷ [];
      metrics = bump (λ c. record c { trades = add64 c.trades 1 }) m.metrics;
      trade_pool = bump (record_trade side seq taker maker qty id) m.trade_pool;
      trade_id = id;
    }

-- The `while` of `matchBuyOrder` and `matchSellOrder`. A round either ends the loop or frees a
-- slot of the pool, so the pool's capacity bounds the rounds.
unfoldable pub match_loop : ℕ → Side → ℕ → ℕ → Matching → Matching
unfolding match_round
match_loop zero side locate seq m = m
match_loop (suc f) side locate seq m =
    if m.order.remaining_qty == 0 then m else elim (best_for side m.book m.order.user_id) [
      | none ↦ m
      | some i ↦ elim (refuses side m.order.price (m.book.storage i).price) [
        | true ↦ m
        | false ↦ match_loop f side locate seq (match_round side locate seq m i)
      ]
    ]

abbrev pub matching_of : Engine → Side → OrderBook → Order → List BinaryResponse → Matching
matching_of e side b o out = record {
  book = b;
  order = o;
  out = out;
  metrics = e.metrics;
  trade_pool = e.trade_pool;
  trade_id = if is_buy side then e.buy_trade_id else e.sell_trade_id;
}

-- What the loop has changed, back in the engine.
abbrev pub after_matching : Engine → Side → ℕ → Matching → Engine
after_matching e side locate m = record (store_book e locate m.book) {
  metrics = m.metrics;
  trade_pool = m.trade_pool;
  buy_trade_id = if is_buy side then m.trade_id else e.buy_trade_id;
  sell_trade_id = if is_buy side then e.sell_trade_id else m.trade_id;
}

unfoldable pub match_buy_order : Engine → ℕ → OrderBook → Order → List BinaryResponse → Matching
match_buy_order e locate b o out =
    match_loop (suc b.capacity) buy locate e.next_sequence (matching_of e buy b o out)

unfoldable pub match_sell_order : Engine → ℕ → OrderBook → Order → List BinaryResponse → Matching
match_sell_order e locate b o out =
    match_loop (suc b.capacity) sell locate e.next_sequence (matching_of e sell b o out)

unfoldable pub can_full_fill : OrderBook → Side → ℕ → ℕ → Bool
can_full_fill b side price quantity =
    if ltb (available_qty b side price) quantity then false else true
