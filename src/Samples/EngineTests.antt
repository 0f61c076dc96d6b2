-- ===== src/Samples/EngineTests.antt =====
-- Runs of the engine on small inputs.
use nebula_x_simulator.Prelude.{◌⊎◌, inl, ◌<◌, ◌≤◌, ◌≡◌, ◌≢◌, refl, [], ◌∷◌, ◌++◌, arith}
use nebula_x_simulator.Exchange.Order.{buy, sell}
use nebula_x_simulator.Exchange.Protocol.{rsp_ok, day}
use nebula_x_simulator.Exchange.Book.{find_order}
use nebula_x_simulator.Exchange.Engine.{
  Engine, Matching, match_loop, matching_of, load_book, store_book,
}
use nebula_x_simulator.Exchange.Engine.Requests.{
  process_add, process_cancel, process_cancel_shares, Outcome, new_order,
}
use nebula_x_simulator.Exchange.Engine.Accounting.{Matched, match_loop-Matched}
use nebula_x_simulator.Exchange.Engine.Cancels.{
  IsRefused, IsWithdrawn, IsCut, process_cancel-Cancels,
}
use nebula_x_simulator.Samples.{empty_engine, book_of_asks}
use nebula_x_simulator.Samples.BookTests.{ask_queues, asks_Holds}

-- One user's sell order of seven shares at 1000 rests.
abbrev one_ask : Outcome
one_ask = process_add empty_engine 5 101 sell 1000 7 55 [] day

abbrev taker : Matching
taker = matching_of empty_engine buy book_of_asks (new_order empty_engine 103 buy 1000 9 57) []

match_loop-Matched_example : Matched buy 5 taker (match_loop 9 buy 5 1 taker)
match_loop-Matched_example = match_loop-Matched 9 buy 5 1 taker (omega arith)

-- The engine with the three sell orders at the locate 5.
abbrev ask_engine : Engine
ask_engine = store_book empty_engine 5 book_of_asks

-- The owner of the second order cancels four of its six shares, or all of it.
process_cancel-Cancels_example :
    let b = load_book ask_engine 5 in
    let whole = process_cancel ask_engine 5 12 8 [] in
    let part = process_cancel_shares ask_engine 5 12 4 8 [] in
    (((b.storage 1).user_id ≢ 8) × IsRefused ask_engine 5 [] whole × IsRefused ask_engine 5 [] part)
    ⊎ (((b.storage 1).user_id ≡ 8)
        × IsWithdrawn 5 sell ((1000, 0 ∷ 2 ∷ []) ∷ []) 12 [] whole
        × ((((b.storage 1).remaining_qty ≤ 4)
              × IsWithdrawn 5 sell ((1000, 0 ∷ 2 ∷ []) ∷ []) 12 [] part)
            ⊎ ((4 < (b.storage 1).remaining_qty)
                × (part.1 ≡ [] ++ rsp_ok 12 ∷ [])
                × IsCut b (load_book part.0 5) sell ask_queues 1 4)))
unfolding find_order
process_cancel-Cancels_example =
    process_cancel-Cancels ask_engine 5 12 4 8 [] sell ask_queues ((1000, 0 ∷ 2 ∷ []) ∷ []) 1 1000
      (omega arith) asks_Holds (inl (refl, 0 ∷ [], 2 ∷ [], refl, refl)) refl (omega arith)
