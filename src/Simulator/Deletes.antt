-- ===== src/Simulator/Deletes.antt =====
-- What the order flow strategy hears of a deleted order (src/exchange/exchange_simulator.cpp
-- `broadcast`, src/sim/sim_worker.h, src/market/book/order_book_consumer.cpp).
use nebula_x_simulator.Prelude.{
  ℕ, ◌≡◌, refl, ◌∙◌, Bool, true, false, Option, none, some, if◌then◌else◌, arith, Bool-cases,
  Option-cases, inl, inr, update, ◌&&◌, List, [],
}
use nebula_x_simulator.Prelude.Int.{ℤ, pos, leb_ℤ}
use nebula_x_simulator.Core.{none_side, newest, older}
use nebula_x_simulator.Core.Event.{MarketEvent, EventBody, OrderInfo}
use nebula_x_simulator.Market.Book.{MarketBook, remove, side_of}
use nebula_x_simulator.Market.Consumer.{
  Consumer, view_of, book_at, on_event, handle, handle_delete, BookSides,
}
use nebula_x_simulator.Strategy.OrderFlow.{OrderFlow, set_last_price, heard}
use nebula_x_simulator.Strategy.OrderFlow
use nebula_x_simulator.Strategy.Signal.{BookContext}
use nebula_x_simulator.Worker.{BookView, event_side, context, two_sided}

forgotten : (f : ℕ → List ℕ) (ref : ℕ) (is : List ℕ) → is ≡ [] → newest (update f ref is ref) ≡ none
forgotten f ref is e = ground (arith, e)

-- The index has the number once at most.
abbrev pub IsOnce : (ℕ → List ℕ) → ℕ → Type 0
IsOnce index ref = older (index ref) ≡ []

-- A removed order has no side.
pub remove-side_of :
    (b : MarketBook) (ref : ℕ) → IsOnce b.index ref → side_of (remove b ref).0 ref ≡ none_side
unfolding remove side_of
remove-side_of b ref once = elim (Option-cases (newest (b.index ref))) [
  | inl h ↦ rw (h, remove, side_of) (rw (h, side_of) refl)
  | inr (i, h) ↦
      rw (h, remove, side_of) (rw (forgotten b.index ref (older (b.index ref)) once, side_of) refl)
]

context-side : (ev : MarketEvent) (b : Option BookView) → (context ev b).side ≡ event_side ev.body b
unfolding context
context-side ev none = refl
context-side ev (some b) = elim (Bool-cases (two_sided b)) [
  | inl h ↦ rw (h, context) refl
  | inr h ↦ rw (h, context) refl
]

deleted-view :
    (c : Consumer) (locate : ℕ) (o : OrderInfo)
    → IsOnce c.index o.order_ref
    → event_side (EventBody.delete o) (view_of (handle_delete c locate o) locate) ≡ none_side
unfolding event_side view_of handle_delete side_of
deleted-view c locate o once =
    let b = (remove (book_at c locate) o.order_ref).0 in
    rw (stored c.books (record { bids = b.bids; asks = b.asks }) locate, view_of, event_side)
      (remove-side_of (book_at c locate) o.order_ref once)
  where
    stored : (f : ℕ → Option BookSides) (v : BookSides) (l : ℕ) → update f l (some v) l ≡ some v
    stored f v l = ground arith

-- The window and its sum are the same.
abbrev pub SameWindow : OrderFlow → OrderFlow → Type 0
SameWindow s s' = (s'.ofi ≡ s.ofi) × (s'.widx ≡ s.widx) × (s'.win ≡ s.win)

priced-SameWindow :
    (s : OrderFlow) (b : Bool) (p : ℤ) → SameWindow s (if b then set_last_price s p else s)
priced-SameWindow s true p = (refl, refl, refl)
priced-SameWindow s false p = (refl, refl, refl)

sideless-SameWindow :
    (s : OrderFlow) (ev : MarketEvent) (ctx : BookContext)
    → ctx.side ≡ none_side
    → SameWindow s (OrderFlow.on_market s ev ctx)
unfolding OrderFlow.on_market
sideless-SameWindow s ev ctx h =
    rw (h, OrderFlow.on_market)
      (priced-SameWindow s (leb_ℤ (pos 0) ctx.bid && leb_ℤ (pos 0) ctx.ask) ctx.mid)

-- What an event does to the strategy's window, as the market's books show it after the event.
abbrev pub heard_after : OrderFlow → Consumer → MarketEvent → OrderFlow
heard_after s c ev = OrderFlow.on_market s ev (context ev (view_of (on_event c ev) ev.locate))

-- A deleted order whose number the market's index has once at most does not count for the order flow:
-- the window and its sum stay, since the side is asked for after the book has dropped the order.
pub delete_unheard :
    (s : OrderFlow) (c : Consumer) (ev : MarketEvent) (o : OrderInfo)
    → ev.body ≡ EventBody.delete o
    → IsOnce c.index o.order_ref
    → SameWindow s (heard_after s c ev)
unfolding on_event
delete_unheard s c ev o e once =
    sideless-SameWindow s ev (context ev (view_of (on_event c ev) ev.locate)) (
      context-side ev (view_of (on_event c ev) ev.locate)
      ∙ rw (e, handle) (deleted-view c ev.locate o once))
