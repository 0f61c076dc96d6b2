-- ===== src/Exchange/Engine/Requests.antt =====
-- The engine's requests (src/exchange/matching_engine.cpp): add, cancel, partial cancel, replace,
-- top of book.
use nebula_x_simulator.Prelude.{
  ℕ, ◌%◌, Bool, true, false, Option, none, some, List, [], ◌∷◌, ◌++◌, ◌&&◌, ◌||◌, not,
  if◌then◌else◌, ltb, leb, ◌==◌, u32_max, add64,
}
use nebula_x_simulator.Exchange.Order.{
  Side, invalid, Order, opened, filled, cancelled, is_buy, default_order,
}
use nebula_x_simulator.Exchange.Book.{
  OrderBook, TopOfBook, add_order, remove_order, remove_slot, reduce_qty_cancel, find_order,
  get_top_of_book,
}
use nebula_x_simulator.Exchange.Protocol.{
  ErrorCode, invalid_side, invalid_price_qty_user, order_not_found, invalid_command_type, pool_full,
  mkt_no_liquidity, fok_no_full_fill, OrderTif, day, ioc, fok, BinaryResponse, rsp_ok, rsp_filled,
  rsp_cancelled, rsp_error,
}
use nebula_x_simulator.Exchange.Journal.{WalEntry, append}
use nebula_x_simulator.Exchange.Engine.{
  Engine, store_book, book_for, bump, Matching, match_buy_order, match_sell_order, after_matching,
  can_full_fill, max_locate, load_book,
}

-- A request's result: the engine, and the responses so far.
abbrev pub Outcome : Type 0
Outcome = Engine × List BinaryResponse

abbrev pub count_error : Engine → Engine
count_error e = record e { metrics = bump (λ c. record c { errors = add64 c.errors 1 }) e.metrics }

abbrev pub count_cancel : Engine → Engine
count_cancel e = record e {
  metrics = bump (λ c. record c { cancels = add64 c.cancels 1 }) e.metrics;
}

abbrev pub count_new : Engine → Engine
count_new e = record e {
  metrics = bump (λ c. record c { new_orders = add64 c.new_orders 1 }) e.metrics;
}

-- `order_pool_used = book->poolUsage()`
abbrev pub note_pool : Engine → Engine
note_pool e = record e {
  metrics = bump (λ c. record c { order_pool_used = e.pool.size }) e.metrics;
}

-- An error response, counted.
abbrev pub fail : Engine → List BinaryResponse → ErrorCode → Outcome
fail e out code = (count_error e, out ++ rsp_error code ∷ [])

abbrev pub log : WalEntry → Engine → Engine
log entry e = record e { wal = bump (λ w. append w entry) e.wal }

abbrev pub is_day : OrderTif → Bool
is_day day = true
is_day _ = false

abbrev pub is_fok : OrderTif → Bool
is_fok fok = true
is_fok _ = false

abbrev pub is_invalid : Side → Bool
is_invalid invalid = true
is_invalid _ = false

-- An order at the market: immediate, with no price.
abbrev pub is_market : OrderTif → ℕ → Bool
is_market tif price = not (is_day tif) && price == 0

-- The price that the book sees: an order at the market takes the extreme one.
abbrev pub limit_price : OrderTif → Side → ℕ → ℕ
limit_price tif side price =
    if is_market tif price then (if is_buy side then u32_max else 0) else price

-- The checks of `processAdd` before the order is made, in their order.
unfoldable pub rejection : OrderBook → ℕ → Side → ℕ → ℕ → ℕ → OrderTif → Option ErrorCode
rejection b order_ref side price quantity user_id tif =
    if is_invalid side
    then some invalid_side
    else if not (is_market tif price) && price == 0
        || quantity == 0
        || user_id == 0
        || order_ref == 0
    then some invalid_price_qty_user
    else if is_fok tif && not (can_full_fill b side (limit_price tif side price) quantity)
    then some fok_no_full_fill
    else none

abbrev pub new_order : Engine → ℕ → Side → ℕ → ℕ → ℕ → Order
new_order e order_ref side price quantity user_id = record default_order {
  user_id = user_id;
  order_id = order_ref;
  side = side;
  price = price;
  original_qty = quantity;
  remaining_qty = quantity;
  filled_qty = 0;
  sequence = e.next_sequence;
  status = opened;
}

abbrev pub take_sequence : Engine → Engine
take_sequence e = record e { next_sequence = add64 e.next_sequence 1 }

-- The book takes the rest of the order.
unfoldable pub rest_order : Engine → ℕ → OrderBook → Order → List BinaryResponse → Outcome
rest_order e locate b o out =
    let (b', rests) = add_order b o in
    if rests
    then (note_pool (store_book e locate b'), out ++ rsp_ok o.order_id ∷ [])
    else (note_pool (count_error (store_book e locate b')), out ++ rsp_error pool_full ∷ [])

-- What follows the matching, by the order's status and its time in force.
unfoldable pub finish_add : Engine → ℕ → Matching → ℕ → OrderTif → Outcome
unfolding rest_order
finish_add e locate m quantity tif = elim m.order.status [
  | filled ↦ (note_pool e, m.out ++ rsp_filled m.order.order_id ∷ [])
  | cancelled ↦ elim tif [
    | ioc ↦ if m.order.filled_qty == 0 then fail e m.out mkt_no_liquidity else (e, m.out)
    | fok ↦ if ltb m.order.filled_qty quantity then fail e m.out fok_no_full_fill else (e, m.out)
    | day ↦ (e, m.out)
  ]
  | _ ↦ elim tif [
    | ioc ↦ if m.order.filled_qty == 0 then fail e m.out mkt_no_liquidity else (e, m.out)
    | fok ↦ if ltb m.order.filled_qty quantity then fail e m.out fok_no_full_fill else (e, m.out)
    | day ↦ rest_order e locate m.book m.order m.out
  ]
]

-- `matchBuyOrder` or `matchSellOrder`
abbrev pub match_order : Engine → ℕ → OrderBook → Order → List BinaryResponse → Matching
match_order e locate b o out =
    if is_buy o.side then match_buy_order e locate b o out else match_sell_order e locate b o out

-- An order that passed the checks: it is logged, matched and finished.
unfoldable pub execute_add :
    Engine → ℕ → OrderBook → Order → ℕ → OrderTif → List BinaryResponse → Outcome
unfolding finish_add
execute_add e locate b o quantity tif out =
    let e1 = take_sequence e in
    let entry : WalEntry = record {
      type = 1;
      side = if is_buy o.side then 1 else 2;
      locate = locate % 65536;
      price = o.price;
      quantity = quantity;
      user_id = o.user_id;
      order_id = o.order_id;
      wal_seq = e1.next_sequence;
    } in
    let e2 = log entry e1 in
    let m = match_order e2 locate b o out in
    finish_add (after_matching e2 o.side locate m) locate m quantity tif

unfoldable pub process_add :
    Engine → ℕ → ℕ → Side → ℕ → ℕ → ℕ → List BinaryResponse → OrderTif → Outcome
unfolding rejection execute_add
process_add e locate order_ref side price quantity user_id out tif =
    elim (book_for (count_new e) locate) [
      | none ↦ fail (count_new e) out invalid_command_type
      | some (e1, b) ↦ elim (rejection b order_ref side price quantity user_id tif) [
        | some code ↦ fail e1 out code
        | none ↦
            execute_add e1 locate b
              (new_order e1 order_ref side (limit_price tif side price) quantity user_id) quantity
              tif out
      ]
    ]

abbrev pub wal_entry : Engine → ℕ → ℕ → ℕ → ℕ → ℕ → ℕ → WalEntry
wal_entry e type locate price quantity user_id order_id = record {
  type = type;
  side = 0;
  locate = locate % 65536;
  price = price;
  quantity = quantity;
  user_id = user_id;
  order_id = order_id;
  wal_seq = e.next_sequence;
}

unfoldable pub process_cancel : Engine → ℕ → ℕ → ℕ → List BinaryResponse → Outcome
process_cancel e locate order_ref user_id out = elim (book_for (count_cancel e) locate) [
  | none ↦ fail (count_cancel e) out order_not_found
  | some (e1, b) ↦
      let e2 = log (wal_entry e1 2 locate 0 0 user_id order_ref) e1 in
      let (b', removed) = remove_order b order_ref user_id in
      if removed
      then (store_book e2 locate b', out ++ rsp_cancelled order_ref ∷ [])
      else fail (store_book e2 locate b') out order_not_found
]

-- The order of the user in the book, if it is there.
abbrev pub owned_order : OrderBook → ℕ → ℕ → Option ℕ
owned_order b order_ref user_id = elim (find_order b order_ref) [
  | none ↦ none
  | some i ↦ if (b.storage i).user_id == user_id then some i else none
]

unfoldable pub process_cancel_shares : Engine → ℕ → ℕ → ℕ → ℕ → List BinaryResponse → Outcome
unfolding find_order
process_cancel_shares e locate order_ref shares user_id out =
    elim (book_for (count_cancel e) locate) [
      | none ↦ fail (count_cancel e) out order_not_found
      | some (e1, b) ↦
          let e2 = log (wal_entry e1 3 locate 0 shares user_id order_ref) e1 in
          elim (owned_order b order_ref user_id) [
            | none ↦ fail e2 out order_not_found
            | some i ↦
                if leb (b.storage i).remaining_qty shares
                then (store_book e2 locate (remove_slot b i), out ++ rsp_cancelled order_ref ∷ [])
                else (
                  store_book e2 locate (reduce_qty_cancel b i shares),
                  out ++ rsp_ok order_ref ∷ [],
                )
          ]
    ]

-- What follows the matching of a replacement.
unfoldable pub finish_replace : Engine → ℕ → Matching → Outcome
unfolding rest_order
finish_replace e locate m = elim m.order.status [
  | filled ↦ (e, m.out ++ rsp_filled m.order.order_id ∷ [])
  | cancelled ↦ (e, m.out)
  | _ ↦ rest_order e locate m.book m.order m.out
]

unfoldable pub process_replace :
    Engine → ℕ → ℕ → ℕ → Side → ℕ → ℕ → ℕ → List BinaryResponse → Outcome
unfolding find_order finish_replace
process_replace e locate old_ref new_ref side price quantity user_id out =
    elim (book_for (count_cancel e) locate) [
      | none ↦ fail (count_cancel e) out order_not_found
      | some (e1, b) ↦
          let e2 = log (wal_entry e1 4 locate price quantity user_id new_ref) e1 in
          elim (owned_order b old_ref user_id) [
            | none ↦ fail e2 out order_not_found
            | some i ↦
                let o = new_order e2 new_ref side price quantity new_ref in
                let e3 = take_sequence e2 in
                let m = match_order e3 locate (remove_slot b i) o out in
                finish_replace (after_matching e3 side locate m) locate m
          ]
    ]

-- The requests for the book at locate 0.
unfoldable pub process_new_order : Engine → Side → ℕ → ℕ → ℕ → List BinaryResponse → Outcome
unfolding process_add
process_new_order e side price quantity user_id out =
    process_add (record e { next_order_id = add64 e.next_order_id 1 }) 0 e.next_order_id side price
      quantity user_id out day

unfoldable pub process_cancel_single : Engine → ℕ → ℕ → List BinaryResponse → Outcome
unfolding process_cancel
process_cancel_single e order_id user_id out = process_cancel e 0 order_id user_id out

abbrev pub no_quote : TopOfBook
no_quote = record { bid_price = 0; bid_volume = 0; ask_price = 0; ask_volume = 0 }

-- The quote at a locate; no book is made for it.
unfoldable pub get_book : Engine → ℕ → Engine × TopOfBook
unfolding get_top_of_book
get_book e locate =
    let e1 = record e {
      metrics = bump (λ c. record c { book_queries = add64 c.book_queries 1 }) e.metrics;
    } in
    (
      e1,
      if ltb locate max_locate
          then elim (e.books locate) [
            | none ↦ no_quote
            | some s ↦ get_top_of_book (load_book e locate)
          ]
          else no_quote,
    )
