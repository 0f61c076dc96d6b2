-- ===== src/Samples/BookTests.antt =====
-- The book on small inputs.
use nebula_x_simulator.Prelude.{◌≡◌, refl, [], ◌∷◌, u32_max, u32_mod, ◌%◌, ltb, arith, inl}
use nebula_x_simulator.Exchange.Order.{buy, sell, Order, default_order}
use nebula_x_simulator.Exchange.Book.{
  unlink, get_best_bid, remove_slot, get_best_ask, available_qty,
}
use nebula_x_simulator.Exchange.Book.Chain.{Linked}
use nebula_x_simulator.Exchange.Book.Removal.{unlink-Linked}
use nebula_x_simulator.Exchange.Book.Priority.{
  Queues, find_first, sum_until, get_best_lem, available_qty_lem,
}
use nebula_x_simulator.Exchange.Book.Repairs.{Holds}
use nebula_x_simulator.Exchange.Book.Upkeep.{remove_slot-Holds}
use nebula_x_simulator.Exchange.Engine.Requests.{match_order}
use nebula_x_simulator.Exchange.Engine.Progress.{HasStopped, match_order-HasStopped}
use nebula_x_simulator.Samples.{empty_engine, ask_of, three_asks, book_of_asks}

three_Linked : Linked three_asks u32_max (0 ∷ 1 ∷ 2 ∷ [])
three_Linked = (omega arith, refl, refl, (omega arith, refl, refl, (omega arith, refl, refl, tt)))

-- The middle order leaves.
unlink-Linked_example : Linked (unlink three_asks 1) u32_max (0 ∷ 2 ∷ [])
unlink-Linked_example =
    unlink-Linked three_asks 1 (0 ∷ []) (2 ∷ []) three_Linked
      ((λ e. omega arith, (λ e. omega arith, tt)), ((λ e. omega arith, tt), (tt, tt)))

abbrev pub ask_queues : Queues
ask_queues = (1000, 0 ∷ 1 ∷ 2 ∷ []) ∷ []

-- The oldest order is the taker's own.
get_best_lem_example :
    (get_best_bid book_of_asks 7 ≡ find_first three_asks 7 [])
    × (get_best_ask book_of_asks 7 ≡ find_first three_asks 7 ask_queues)
get_best_lem_example =
    get_best_lem book_of_asks 7 [] ask_queues (λ e. omega arith) tt
      (refl, refl, three_Linked, omega arith, tt)

available_qty_lem_example :
    available_qty book_of_asks buy 1000
    ≡ sum_until three_asks (λ p. ltb 1000 p) ask_queues % u32_mod
available_qty_lem_example =
    available_qty_lem book_of_asks buy 1000 [] ask_queues tt
      (refl, refl, three_Linked, omega arith, tt)

-- The book of three orders holds their queue.
pub asks_Holds : Holds book_of_asks sell ask_queues
asks_Holds = record {
  stands = (
    refl,
    record {
      head = refl;
      tail = refl;
      count = refl;
      some_order = omega arith;
      small = omega arith;
      linked = three_Linked;
      live = ((refl, refl), ((refl, refl), ((refl, refl), tt)));
    },
    tt,
    tt,
  );
  distinct = ((λ e. omega arith, (λ e. omega arith, tt)), ((λ e. omega arith, tt), (tt, tt)));
}

-- The middle order is removed.
remove_slot-Holds_example : Holds (remove_slot book_of_asks 1) sell ((1000, 0 ∷ 2 ∷ []) ∷ [])
remove_slot-Holds_example =
    remove_slot-Holds book_of_asks sell ask_queues ((1000, 0 ∷ 2 ∷ []) ∷ []) 1 1000 asks_Holds
      (inl (refl, 0 ∷ [], 2 ∷ [], refl, refl))

-- A buyer of nine shares at 1000 meets the three orders.
abbrev buyer : Order
buyer = record default_order {
  order_id = 103;
  user_id = 57;
  side = buy;
  price = 1000;
  original_qty = 9;
  remaining_qty = 9;
}

match_order-HasStopped_example :
    HasStopped buy (match_order empty_engine 5 book_of_asks buyer [])
    × ((qs' : Queues) × Holds (match_order empty_engine 5 book_of_asks buyer []).book sell qs')
match_order-HasStopped_example =
    match_order-HasStopped empty_engine 5 book_of_asks buyer [] ask_queues (λ e. omega arith)
      asks_Holds (omega arith)

-- A fourth sell order at the same price.
abbrev late_ask : Order
late_ask = ask_of 14 10 2 u32_max u32_max
