-- ===== src/Simulator/Flattening.antt =====
-- The flattening after a drawdown at the simulator (src/execution/execution_engine.h,
-- src/exchange/exchange_simulator.cpp), when no order of the strategies rests there.
use nebula_x_simulator.Prelude.{
  ℕ, ◌≡◌, refl, sym, ◌∙◌, false, none, [], ◌∷◌, ltb, ◌==◌, Bool-cases, Option-cases, inl, inr,
  ltb→lt, arith,
}
use nebula_x_simulator.Core.{newest}
use nebula_x_simulator.Exchange.Book.{OrderBook, find_order, remove_order}
use nebula_x_simulator.Exchange.Protocol.{rsp_error, order_not_found}
use nebula_x_simulator.Exchange.Engine.{Engine, load_book, book_for, max_locate}
use nebula_x_simulator.Exchange.Engine.Requests.{owned_order, process_cancel}
use nebula_x_simulator.Exchange.Engine.Cancels.{owned, process_cancel-IsRefused}
use nebula_x_simulator.Execution.{Execution}
use nebula_x_simulator.Simulator.{Simulator, cancel}
use nebula_x_simulator.Venue.{strategy_user_id}

-- No search finds an order of the strategies.
abbrev pub NothingRests : Engine → Type 0
NothingRests e = (id : ℕ) → owned_order (load_book e 0) id strategy_user_id ≡ none

not_owned-kept :
    (b : OrderBook) (id user_id : ℕ)
    → owned_order b id user_id ≡ none
    → remove_order b id user_id ≡ (b, false)
unfolding find_order remove_order
not_owned-kept b id user_id h = elim (Option-cases (newest (b.index id))) [
  | inl e ↦ rw (e, remove_order) refl
  | inr (i, e) ↦ elim (Bool-cases ((b.storage i).user_id == user_id)) [
    | inl own ↦ let found = sym h ∙ (owned b id user_id i e own).0 in absurd (ground (arith, found))
    | inr other ↦ rw (e, other, remove_order) refl
  ]
]

outside :
    (e : Engine) (locate id user_id : ℕ)
    → ltb locate max_locate ≡ false
    → ((process_cancel e locate id user_id []).1 ≡ rsp_error order_not_found ∷ [])
      × (load_book (process_cancel e locate id user_id []).0 0 ≡ load_book e 0)
unfolding process_cancel book_for
outside e locate id user_id h = rw (h, process_cancel) (refl, refl)

-- A cancel that finds no order reports nothing and leaves the books.
pub cancel-kept :
    (s : Simulator) (id locate : ℕ)
    → NothingRests s.engine
    → let (s', reports) = cancel s id locate strategy_user_id in
      (reports ≡ []) × ((at : ℕ) × (load_book s'.engine at ≡ load_book s.engine at))
unfolding cancel find_order
cancel-kept s id locate rests = elim (Bool-cases (ltb locate max_locate)) [
  | inl within ↦
      let (said, same) =
        process_cancel-IsRefused s.engine locate id strategy_user_id []
          (ltb→lt locate max_locate within)
          (not_owned-kept (load_book s.engine locate) id strategy_user_id (rests id)) in
      rw said (refl, (locate, same))
  | inr beyond ↦
      let (said, same) = outside s.engine locate id strategy_user_id beyond in
      rw said (refl, (0, same))
]
