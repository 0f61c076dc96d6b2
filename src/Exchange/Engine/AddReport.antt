-- ===== src/Exchange/Engine/AddReport.antt =====
-- What `processAdd` of src/exchange/matching_engine.cpp reports.
use nebula_x_simulator.Prelude.{
  ℕ, ◌+◌, ◌<◌, ◌≡◌, ◌≢◌, refl, sym, ap, ◌∙◌, ◌⊎◌, inl, inr, none, List, [], ◌++◌, arith, u32_mod,
  Bool-cases, All, ◌==◌, lt→ltb, subst, if◌then◌else◌,
}
use mathlib.Core.List.{append-nil}
use nebula_x_simulator.Exchange.Order.{
  Side, invalid, buy, sell, Order, OrderStatus, opened, filled, partially_filled, cancelled, is_buy,
}
use nebula_x_simulator.Exchange.Book.{OrderBook}
use nebula_x_simulator.Exchange.Protocol.{BinaryResponse, OrderTif, day, ioc, fok}
use nebula_x_simulator.Exchange.Engine.{
  Engine, Matching, matching_of, match_loop, match_buy_order, match_sell_order, book_for,
  max_locate, load_book,
}
use nebula_x_simulator.Exchange.Engine.Requests.{
  rejection, limit_price, match_order, finish_add, execute_add, process_add, Outcome,
}
use nebula_x_simulator.Exchange.Engine.Accounting.{
  traded, IsFair, match_loop-Matched, IsSettled, match_loop-IsSettled,
}
use nebula_x_simulator.Exchange.Engine.Endings.{
  asked, Ending, all_filled, no_trade, part_dropped, not_all, Ends, rest-Ends,
}

-- The side that `matchBuyOrder` or `matchSellOrder` takes the order to have.
abbrev pub taker_side : Order → Side
taker_side o = if is_buy o.side then buy else sell

-- What the matching of an order reports, and leaves of it.
record Reports (locate : ℕ) (o : Order) (out : List BinaryResponse) (m : Matching) : Type 0 where
  reports : List BinaryResponse
  appended : m.out ≡ out ++ reports
  fills : m.order.filled_qty ≡ o.filled_qty + traded reports
  leaves : m.order.remaining_qty + traded reports ≡ o.remaining_qty
  fair : All (IsFair (taker_side o) locate o.price) reports
  order_id : m.order.order_id ≡ o.order_id
  order_side : m.order.side ≡ o.side
  price : m.order.price ≡ o.price
  settled : IsSettled m.order

to_reports :
    (fuel : ℕ) (side : Side) (locate seq : ℕ) (m : Matching)
    → m.order.filled_qty + m.order.remaining_qty < u32_mod
    → IsSettled m.order
    → side ≡ taker_side m.order
    → Reports locate m.order m.out (match_loop fuel side locate seq m)
to_reports fuel side locate seq m small h same =
    let r = match_loop-Matched fuel side locate seq m small in
    record {
      reports = r.reports;
      appended = r.appended;
      fills = r.fills;
      leaves = r.leaves;
      fair = subst (λ s. All (IsFair s locate m.order.price) r.reports) same r.fair;
      order_id = r.order_id;
      order_side = r.order_side;
      price = r.price;
      settled = match_loop-IsSettled fuel side locate seq m h;
    }

match_order-Reports :
    (e : Engine) (locate : ℕ) (b : OrderBook) (o : Order) (out : List BinaryResponse)
    → o.filled_qty + o.remaining_qty < u32_mod
    → IsSettled o
    → Reports locate o out (match_order e locate b o out)
unfolding match_buy_order match_sell_order
match_order-Reports e locate b o out small h = elim (Bool-cases (is_buy o.side)) [
  | inl k ↦
      rw (k, match_order)
        (to_reports _ buy locate e.next_sequence (matching_of e buy b o out) small h (rw k))
  | inr k ↦
      rw (k, match_order)
        (to_reports _ sell locate e.next_sequence (matching_of e sell b o out) small h (rw k))
]

finish_open :
    (e : Engine) (locate : ℕ) (m : Matching) (quantity : ℕ) (tif : OrderTif) (s : OrderStatus)
    → m.order.status ≡ s
    → s ≢ filled
    → s ≢ cancelled
    → (m.order.side ≡ buy) ⊎ (m.order.side ≡ sell)
    → 0 < m.order.remaining_qty
    → m.order.remaining_qty + m.order.filled_qty ≡ quantity
    → Ends locate m quantity tif (finish_add e locate m quantity tif)
unfolding finish_add
finish_open e locate m quantity day opened k nf nc sd pos h =
    rw (k, finish_add) (rest-Ends e locate m quantity sd pos h)
finish_open e locate m quantity day partially_filled k nf nc sd pos h =
    rw (k, finish_add) (rest-Ends e locate m quantity sd pos h)
finish_open e locate m quantity tif filled k nf nc sd pos h = absurd (nf refl)
finish_open e locate m quantity tif cancelled k nf nc sd pos h = absurd (nc refl)
finish_open e locate m quantity ioc _ k nf nc sd pos h =
    elim (Bool-cases (m.order.filled_qty == 0)) [
      | inl z ↦ rw (k, z, finish_add) (_, refl, no_trade (ground arith) (omega (arith, h, pos)))
      | inr z ↦
          rw (k, z, finish_add)
            ([], sym (append-nil m.out), part_dropped (ground arith) (omega (arith, h, pos)))
    ]
finish_open e locate m quantity fok _ k nf nc sd pos h =
    let below : m.order.filled_qty < quantity = omega (arith, h, pos) in
    let less = lt→ltb m.order.filled_qty quantity below in
    rw (k, less, finish_add) (_, refl, not_all below)

finish_filled :
    (e : Engine) (locate : ℕ) (m : Matching) (quantity : ℕ) (tif : OrderTif)
    → m.order.status ≡ filled
    → m.order.filled_qty ≡ quantity
    → Ends locate m quantity tif (finish_add e locate m quantity tif)
unfolding finish_add
finish_filled e locate m quantity tif k h = rw (k, finish_add) (_, refl, all_filled tif h)

finish_add-Ends :
    (e : Engine) (locate : ℕ) (m : Matching) (quantity : ℕ) (tif : OrderTif)
    → IsSettled m.order
    → (m.order.side ≡ buy) ⊎ (m.order.side ≡ sell)
    → m.order.remaining_qty + m.order.filled_qty ≡ quantity
    → Ends locate m quantity tif (finish_add e locate m quantity tif)
finish_add-Ends e locate m quantity tif (done, all, kept) sided l =
    elim (Bool-cases (m.order.remaining_qty == 0)) [
      | inl z ↦ finish_filled e locate m quantity tif (all (ground arith)) (ground arith)
      | inr z ↦
          finish_open e locate m quantity tif m.order.status refl (λ k. ground (arith, done k)) kept
            sided (ground arith) l
    ]

-- The report of an order of which nothing was filled before.
abbrev AddReported : ℕ → Order → ℕ → OrderTif → List BinaryResponse → Outcome → Type 0
AddReported locate o quantity tif out r =
    (trades rs : List BinaryResponse) × (r.1 ≡ (out ++ trades) ++ rs)
    × All (IsFair (taker_side o) locate o.price) trades
    × Ending (asked o quantity) (traded trades) (load_book r.0 locate) tif rs

add_reported :
    (e : Engine) (locate : ℕ) (o : Order) (quantity : ℕ) (tif : OrderTif)
    (out : List BinaryResponse) (m : Matching)
    → o.filled_qty ≡ 0
    → o.remaining_qty ≡ quantity
    → (o.side ≡ buy) ⊎ (o.side ≡ sell)
    → Reports locate o out m
    → AddReported locate o quantity tif out (finish_add e locate m quantity tif)
add_reported e locate o quantity tif out m f l sided r =
    let sided' = subst (λ s. (s ≡ buy) ⊎ (s ≡ sell)) (sym r.order_side) sided in
    let (rs, same, end) =
      finish_add-Ends e locate m quantity tif r.settled sided' (omega (arith, r.fills, r.leaves)) in
    let same_asked : asked m.order quantity ≡ asked o quantity = λ j. record {
      order_ref = r.order_id j;
      side = r.order_side j;
      price = r.price j;
      quantity = quantity;
    } in
    let b = load_book (finish_add e locate m quantity tif).0 locate in
    (
      r.reports,
      rs,
      same ∙ ap (λ x. x ++ rs) r.appended,
      r.fair,
      subst (λ n. Ending (asked o quantity) n b tif rs) (omega (arith, r.fills))
          (subst (λ a. Ending a m.order.filled_qty b tif rs) same_asked end),
    )

execute_add-reported :
    (e : Engine) (locate : ℕ) (b : OrderBook) (o : Order) (quantity : ℕ) (tif : OrderTif)
    (out : List BinaryResponse)
    → o.filled_qty ≡ 0
    → o.remaining_qty ≡ quantity
    → quantity < u32_mod
    → (o.side ≡ buy) ⊎ (o.side ≡ sell)
    → IsSettled o
    → AddReported locate o quantity tif out (execute_add e locate b o quantity tif out)
unfolding execute_add
execute_add-reported e locate b o quantity tif out f l small sided h =
    add_reported _ locate o quantity tif out _ f l sided
      (match_order-Reports _ locate b o out (omega arith) h)

rejection-pos :
    (b : OrderBook) (order_ref : ℕ) (side : Side) (price quantity user_id : ℕ) (tif : OrderTif)
    → rejection b order_ref side price quantity user_id tif ≡ none
    → 0 < quantity
unfolding rejection
rejection-pos b order_ref side price quantity user_id tif h = ground arith

rejection-sided :
    (b : OrderBook) (order_ref : ℕ) (side : Side) (price quantity user_id : ℕ) (tif : OrderTif)
    → rejection b order_ref side price quantity user_id tif ≡ none
    → (side ≡ buy) ⊎ (side ≡ sell)
unfolding rejection
rejection-sided b order_ref invalid price quantity user_id tif h = ground arith
rejection-sided b order_ref buy price quantity user_id tif h = inl refl
rejection-sided b order_ref sell price quantity user_id tif h = inr refl

pub process_add-Ending :
    (e : Engine) (locate order_ref : ℕ) (side : Side) (price quantity user_id : ℕ)
    (out : List BinaryResponse) (tif : OrderTif)
    → locate < max_locate
    → quantity < u32_mod
    → rejection (load_book e locate) order_ref side price quantity user_id tif ≡ none
    → let r = process_add e locate order_ref side price quantity user_id out tif in
      let limit = limit_price tif side price in
      (trades rs : List BinaryResponse) × (r.1 ≡ (out ++ trades) ++ rs)
      × All (IsFair (if is_buy side then buy else sell) locate limit) trades
      × Ending
          (record { order_ref = order_ref; side = side; price = limit; quantity = quantity })
          (traded trades)
          (load_book r.0 locate)
          tif
          rs
unfolding process_add book_for
process_add-Ending e locate order_ref side price quantity user_id out tif h small ok =
    let pos = rejection-pos (load_book e locate) order_ref side price quantity user_id tif ok in
    let sided = rejection-sided (load_book e locate) order_ref side price quantity user_id tif ok in
    rw (lt→ltb locate max_locate h, process_add, ok)
      (execute_add-reported _ locate (load_book e locate) _ quantity tif out refl refl small sided
        (λ k. cc, λ k. absurd (omega arith), λ k. cc))
