-- ===== src/Market/Consumer.antt =====
-- The market's books of all stocks, from the events (src/market/book/order_book_consumer.h,
-- order_book_consumer.cpp), and the last trade.
use nebula_x_simulator.Prelude.{
  List, ℕ, Bool, true, false, Option, none, some, if◌then◌else◌, update, add64,
}
use nebula_x_simulator.Prelude.Int.{ℤ, pos, leb_ℤ}
use nebula_x_simulator.Core.Event.{MarketEvent, EventBody, OrderInfo, TradeInfo}
use nebula_x_simulator.Market.Pool.{SlotPool}
use nebula_x_simulator.Market.Table.{Table, new_table}
use nebula_x_simulator.Market.Book.{
  MarketBook, add, remove, cancel, execute, replace, get, side_of, best_bid, best_ask,
  best_bid_volume, best_ask_volume,
}
use nebula_x_simulator.Worker.{BookView}

-- The fields of `Tick` that are written.
pub record Tick : Type 0 where
  pub timestamp : ℕ
  pub seq_id : ℕ
  pub symbol_id : ℕ
  pub last_price : ℤ
  pub volume : ℕ

-- The part of a book that is its own.
pub record BookSides : Type 0 where
  pub bids : Table
  pub asks : Table

pub record Consumer : Type 0 where
  pub pool : SlotPool
  pub index : ℕ → List ℕ
  pub books : ℕ → Option BookSides
  pub last_tick : Tick
  pub has_tick : Bool
  pub tick_seq : ℕ
  pub order_seq : ℕ

abbrev pub new_sides : Option BookSides → BookSides
new_sides none = record { bids = new_table true; asks = new_table false }
new_sides (some s) = s

-- `book_for`, with the shared pool and index.
abbrev pub book_at : Consumer → ℕ → MarketBook
book_at c locate =
    let s = new_sides (c.books locate) in
    record { bids = s.bids; asks = s.asks; pool = c.pool; index = c.index }

abbrev pub store : Consumer → ℕ → MarketBook → Consumer
store c locate b = record c {
  books = update c.books locate (some (record { bids = b.bids; asks = b.asks }));
  pool = b.pool;
  index = b.index;
}

-- `book`: what there is, for the worker.
unfoldable pub view_of : Consumer → ℕ → Option BookView
view_of c locate = elim (c.books locate) [
  | none ↦ none
  | some s ↦
      let b = book_at c locate in
      some (record {
        best_bid = best_bid b;
        best_bid_volume = best_bid_volume b;
        best_ask = best_ask b;
        best_ask_volume = best_ask_volume b;
        side_of = side_of b;
      })
]

abbrev pub next_order : Consumer → Consumer
next_order c = record c { order_seq = add64 c.order_seq 1 }

unfoldable pub handle_add : Consumer → ℕ → OrderInfo → Consumer
handle_add c locate o =
    let c' = next_order c in
    store c' locate (add (book_at c' locate) o.order_ref o.side o.price o.shares c'.order_seq).0

unfoldable pub handle_delete : Consumer → ℕ → OrderInfo → Consumer
handle_delete c locate o = store c locate (remove (book_at c locate) o.order_ref).0

unfoldable pub handle_cancel : Consumer → ℕ → OrderInfo → Consumer
handle_cancel c locate o = store c locate (cancel (book_at c locate) o.order_ref o.shares).0

-- The new order takes the side of the old one; without an old one there is nothing to do.
unfoldable pub handle_replace : Consumer → ℕ → OrderInfo → Consumer
handle_replace c locate o =
    let b = book_at c locate in
    elim (get b o.order_ref) [
      | none ↦ store c locate b
      | some old ↦
          let c' = next_order c in
          store c' locate
            (replace b o.order_ref o.new_order_ref old.side o.price o.shares c'.order_seq).0
    ]

-- The tick of a trade; an unknown price keeps the last one.
abbrev pub note_tick : Consumer → MarketEvent → ℕ → Option ℤ → Consumer
note_tick c ev volume price = record c {
  tick_seq = add64 c.tick_seq 1;
  has_tick = true;
  last_tick = record {
    timestamp = ev.timestamp;
    seq_id = add64 c.tick_seq 1;
    symbol_id = ev.locate;
    last_price = elim price [ none ↦ c.last_tick.last_price | some p ↦ p ];
    volume = volume;
  };
}

unfoldable pub handle_trade : Consumer → MarketEvent → TradeInfo → Consumer
handle_trade c ev t =
    note_tick (store c ev.locate (execute (book_at c ev.locate) t.order_ref t.volume).0) ev t.volume
      (some t.price)

-- The price of the order that is executed, if it is known and not negative.
unfoldable pub known_price : MarketBook → ℕ → Option ℤ
known_price b order_ref = elim (get b order_ref) [
  | none ↦ none
  | some s ↦ if leb_ℤ (pos 0) s.price then some s.price else none
]

unfoldable pub handle_execute : Consumer → MarketEvent → TradeInfo → Consumer
unfolding known_price
handle_execute c ev t =
    let b = book_at c ev.locate in
    note_tick (store c ev.locate (execute b t.order_ref t.volume).0) ev t.volume
      (known_price b t.order_ref)

abbrev pub handle : Consumer → MarketEvent → EventBody → Consumer
handle c ev (EventBody.add o) = handle_add c ev.locate o
handle c ev (EventBody.delete o) = handle_delete c ev.locate o
handle c ev (EventBody.cancel o) = handle_cancel c ev.locate o
handle c ev (EventBody.replace o) = handle_replace c ev.locate o
handle c ev (EventBody.trade t) = handle_trade c ev t
handle c ev (EventBody.execute t) = handle_execute c ev t

unfoldable pub on_event : Consumer → MarketEvent → Consumer
on_event c ev = handle c ev ev.body

unfoldable pub last_tick_of : Consumer → Option Tick
last_tick_of c = if c.has_tick then some c.last_tick else none
