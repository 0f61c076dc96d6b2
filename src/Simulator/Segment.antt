-- ===== src/Simulator/Segment.antt =====
-- The end of a segment at the simulator (src/sim/sim_worker.h, src/exchange/exchange_simulator.cpp).
use nebula_x_simulator.Prelude.{
  ℕ, ◌≡◌, ◌≢◌, refl, sym, subst, ◌∙◌, none, some, List, [], ◌∷◌, ◌%◌, ltb, ◌==◌, Bool-cases, inl,
  inr, arith, All, u32_mod, if◌then◌else◌,
}
use nebula_x_simulator.Core.{Order, newest}
use nebula_x_simulator.Exchange.Order.{Order as Slot}
use nebula_x_simulator.Exchange.Book.{find_order}
use nebula_x_simulator.Exchange.Engine.{Engine, book_for, max_locate}
use nebula_x_simulator.Exchange.Engine.Requests.{process_add}
use nebula_x_simulator.Exchange.Protocol.{
  BinaryResponse, ioc, rsp_trade, rsp_ok, rsp_filled, rsp_cancelled, rsp_error,
}
use nebula_x_simulator.Execution.{Execution, to_u64}
use nebula_x_simulator.Simulator.{
  Simulator, simulator_ops, submit, cancel, book_quote, take_answers, tell_trade, broadcast,
  engine_side, no_result, tick_clock,
}
use nebula_x_simulator.Simulator.Flattening.{NothingRests, cancel-kept}
use nebula_x_simulator.Simulator.Foreign.{Foreign, EngineForeign, process_add-Foreign}
use nebula_x_simulator.Venue.{Shared, ExchangeSubmitResult, strategy_user_id}
use nebula_x_simulator.Worker.{Worker, arbitrate}
use nebula_x_simulator.Worker.Returns.{Returns, StaysQuiet, segment-Returns}

-- No entry of the index is an order of the strategies.
abbrev pub NoneResting : Simulator → Type 0
NoneResting s = EngineForeign strategy_user_id s.engine

take_answers-engine :
    (rs : List BinaryResponse) (m : Simulator) (s : Shared) (locate id : ℕ)
    (r : ExchangeSubmitResult)
    → (take_answers m s locate id rs r).0.engine ≡ m.engine
unfolding take_answers tell_trade broadcast
take_answers-engine [] m s locate id r = refl
take_answers-engine (rsp_trade t ∷ rs) m s locate id r =
    let (m', s') = tell_trade m s locate t in take_answers-engine rs m' s' locate id r
take_answers-engine (rsp_ok n ∷ rs) m s locate id r = take_answers-engine rs _ s locate id _
take_answers-engine (rsp_filled n ∷ rs) m s locate id r = take_answers-engine rs m s locate id _
take_answers-engine (rsp_cancelled n ∷ rs) m s locate id r = take_answers-engine rs m s locate id r
take_answers-engine (rsp_error c ∷ rs) m s locate id r = take_answers-engine rs m s locate id r

submit-NoneResting :
    (m : Simulator) (s : Shared) (o : Order) (id : ℕ)
    → NoneResting m
    → NoneResting (submit m s o id ioc).0
unfolding submit
submit-NoneResting m s o id h =
    let (e, rs) =
      process_add m.engine o.symbol_id id (engine_side o.side) (to_u64 o.price % u32_mod)
        (o.quantity % u32_mod) strategy_user_id [] ioc in
    subst (EngineForeign strategy_user_id)
      (sym
        (take_answers-engine rs (record (tick_clock m) { engine = e }) s o.symbol_id id no_result))
      (process_add-Foreign strategy_user_id m.engine o.symbol_id id (engine_side o.side)
        (to_u64 o.price % u32_mod) (o.quantity % u32_mod) strategy_user_id [] h)

book_quote-NoneResting :
    (m : Simulator) (symbol_id : ℕ) → NoneResting m → NoneResting (book_quote m symbol_id).0
unfolding book_quote book_for
book_quote-NoneResting m symbol_id h = elim (Bool-cases (ltb symbol_id max_locate)) [
  | inl k ↦ rw (k, book_quote) h
  | inr k ↦ rw (k, book_quote) h
]

foreign_newest :
    (st : ℕ → Slot) (user : ℕ) (is : List ℕ)
    → All (λ i. (st i).user_id ≢ user) is
    → elim (newest is) [ none ↦ none | some i ↦ if (st i).user_id == user then some i else none ]
      ≡ none
foreign_newest st user [] a = refl
foreign_newest st user (i ∷ is) (ne, a) = ground (arith, ne)

not_found : (e : Engine) → EngineForeign strategy_user_id e → NothingRests e
unfolding find_order
not_found e h id = foreign_newest e.pool.storage strategy_user_id (e.index id) (h id)

cancel-NoneResting :
    (m : Simulator) (id symbol_id : ℕ)
    → NoneResting m
    → ((cancel m id symbol_id strategy_user_id).1 ≡ [])
      × NoneResting (cancel m id symbol_id strategy_user_id).0
cancel-NoneResting m id symbol_id h =
    let (said, (at, same)) = cancel-kept m id symbol_id (not_found m.engine h) in
    (said, subst (Foreign strategy_user_id) (sym same) h)

simulator-StaysQuiet : StaysQuiet simulator_ops NoneResting
unfolding simulator_ops
simulator-StaysQuiet = record {
  quiet = cancel-NoneResting;
  sends = submit-NoneResting;
  quotes = book_quote-NoneResting;
}

-- At the simulator, when no entry of its index is an order of the strategies: the end of a segment
-- returns, for any worker and any decision, also when the drawdown has the orders flattened.
pub arbitrate-Returns :
    (w : Worker) (e : Execution Simulator) (s : Simulator) (segment : ℕ)
    → e.exchange ≡ some s
    → NoneResting s
    → Returns (arbitrate simulator_ops w e segment)
arbitrate-Returns w e s segment at h =
    segment-Returns simulator_ops NoneResting simulator-StaysQuiet w e segment
      (λ t same. idle t (sym at ∙ same))
  where
    idle : (t : Simulator) → some s ≡ some t → NoneResting t
    idle t same = let found : s ≡ t = cc in subst NoneResting found h
