-- ===== src/Worker/Trades.antt =====
-- What the end of a segment can do (src/sim/sim_worker.h with src/execution/execution_engine.h).
use nebula_x_simulator.Prelude.{
  ℕ, ◌+◌, ◌*◌, ◌≤◌, ◌<◌, ◌≡◌, refl, sym, subst, true, false, Bool, Option, none, some,
  if◌then◌else◌, arith, u64_mod, All, Option-cases, inl, inr, ◌||◌, not,
}
use nebula_x_simulator.Prelude.Int.{ℤ, pos, ltb_ℤ, leb_ℤ}
use nebula_x_simulator.Core.{Order, OrderType, put}
use nebula_x_simulator.Oms.{new_order}
use nebula_x_simulator.Risk.{RiskManager, position}
use nebula_x_simulator.Strategy.Arbitrate.{ArbDecision}
use nebula_x_simulator.Strategy.Arbitrate.Strength.{strength_scale}
use nebula_x_simulator.Venue.{ExchangeOps, ExchangeLaws}
use nebula_x_simulator.Execution.{
  Execution, live_mid, query_book, set_mid, submit_signal, order_qty, order_of,
}
use nebula_x_simulator.Execution.Drives.{WhenDone, WhenDone-map, WhenDone-if}
use nebula_x_simulator.Execution.Limits.{Moved, unmoved}
use nebula_x_simulator.Execution.Positions.{signal_order, submit_signal-Moved}
use nebula_x_simulator.Worker.{
  Worker, decision, decision_signal, blocked, due, prepare, noted, submit_decision, arbitrate,
  is_empty,
}
use nebula_x_simulator.Worker.Scaled.{WeightedIsTuned, decision-IsScaled, order_qty_scaled}

module _ {X : Type 0} (ops : ExchangeOps X) where
  -- The parts of the engine that count for the order.
  record Prepared (e e' : Execution X) : Type 0 where
    risk : e'.shared.risk ≡ e.shared.risk
    base : e'.base_qty ≡ e.base_qty

  same_engine : (e : Execution X) → Prepared e e
  same_engine e = record { risk = refl; base = refl }

  query_book-Prepared : (e : Execution X) (symbol : ℕ) → Prepared e (query_book ops e symbol).0
  unfolding query_book
  query_book-Prepared e symbol = elim (Option-cases e.exchange) [
    | inl h ↦ record { risk = rw (h, query_book) refl; base = rw (h, query_book) refl }
    | inr (x, h) ↦ record { risk = rw (h, query_book) refl; base = rw (h, query_book) refl }
  ]

  pub live_mid-query_book :
      (e : Execution X) (symbol : ℕ) → (live_mid ops e symbol).0 ≡ (query_book ops e symbol).0
  unfolding live_mid
  live_mid-query_book e symbol = elim (Option-cases (query_book ops e symbol).1) [
    | inl h ↦ rw (h, live_mid) refl
    | inr (q, h) ↦ rw (h, live_mid) (either _ _ _ _)
  ]
    where
      either :
          (b : Bool) (e : Execution X) (x y : ℤ)
          → (if◌then◌else◌ {A = Execution X × ℤ} b (e, x) (e, y)).0 ≡ e
      either true e x y = refl
      either false e x y = refl

  if-Prepared :
      (e : Execution X) (b : Bool) (x y : Execution X)
      → Prepared e x
      → Prepared e y
      → Prepared e (if b then x else y)
  if-Prepared e true x y h k = h
  if-Prepared e false x y h k = k

  set_mid-Prepared :
      (e e' : Execution X) (symbol : ℕ) (mid : ℤ)
      → Prepared e e'
      → Prepared e (set_mid e' symbol mid)
  unfolding set_mid
  set_mid-Prepared e e' symbol mid h =
      if-Prepared e (leb_ℤ (pos 0) mid) (record e' { mid_map = put symbol mid e'.mid_map }) e'
        (record { risk = h.risk; base = h.base }) h

  prepare-Prepared :
      (e : Execution X) (segment : ℕ) (d : ArbDecision) → Prepared e (prepare ops e segment d)
  unfolding prepare
  prepare-Prepared e segment d =
      let (e', live) = live_mid ops e d.locate in
      let quoted =
        subst (Prepared e) (sym (live_mid-query_book e d.locate))
          (query_book-Prepared e d.locate) in
      let ready =
        if-Prepared e (ltb_ℤ (pos 0) live) (set_mid e' d.locate live) e'
          (set_mid-Prepared e e' d.locate live quoted) quoted in
      record { risk = ready.risk; base = ready.base }

-- The order of a decision, and what it may do: some of its shares, at most the base quantity.
abbrev pub decision_order : Worker → ℕ → ArbDecision → Order
decision_order w base d =
    order_of (decision_signal d) w.strategy_id OrderType.market (order_qty base d.strength)

abbrev pub Traded : Worker → ℕ → ArbDecision → RiskManager → RiskManager → Type 0
Traded w base d r r' =
    Moved r (decision_order w base d) r' × ((decision_order w base d).quantity ≤ base)

module _ {X : Type 0} (ops : ExchangeOps X) where
  relabel :
      (w : Worker) (e : Execution X) (d : ArbDecision) (r' : RiskManager)
      → Moved e.shared.risk
          (signal_order ops e (decision_signal d) w.strategy_id OrderType.market)
          r'
      → Moved e.shared.risk (decision_order w e.base_qty d) r'
  unfolding new_order
  relabel w e d r' m = record {
    shares = m.shares;
    fits = m.fits;
    moves = m.moves;
    bought = m.bought;
    sold = m.sold;
  }

  noted-WhenDone :
      (w : Worker) (d : ArbDecision) (o : Option (Execution X × ℕ)) (P : Execution X → Type 0)
      → WhenDone (λ a. P a.0) o
      → WhenDone (λ a. P a.1) (noted ops w d o)
  noted-WhenDone w d none P h = tt
  noted-WhenDone w d (some a) P h = h

  submit_decision-Moved :
      (w : Worker) (e : Execution X) (segment : ℕ) (d : ArbDecision)
      → ExchangeLaws ops
      → position e.shared.risk d.locate + order_qty e.base_qty d.strength < u64_mod
      → WhenDone
          (λ a. Moved e.shared.risk (decision_order w e.base_qty d) a.1.shared.risk)
          (submit_decision ops w e segment d)
  unfolding submit_decision
  submit_decision-Moved w e segment d laws small =
      let e1 = prepare ops e segment d in
      let p = prepare-Prepared ops e segment d in
      let sent = submit_signal ops e1 (decision_signal d) w.strategy_id OrderType.market in
      noted-WhenDone w d sent
        (λ e'. Moved e.shared.risk (decision_order w e.base_qty d) e'.shared.risk)
        (WhenDone-map _ _ sent
          (λ a m.
            subst (λ r. Moved r (decision_order w e.base_qty d) a.0.shared.risk) p.risk
              (subst (λ b. Moved e1.shared.risk (decision_order w b d) a.0.shared.risk) p.base
                (relabel w e1 d a.0.shared.risk m)))
          (submit_signal-Moved ops e1 (decision_signal d) w.strategy_id OrderType.market laws
            (rw (p.risk, p.base) small)))

  -- A worker whose strategies have thresholds and weights that are not negative and strengths between
  -- none and full, at an exchange that keeps its laws, where the base quantity times the scale and
  -- every position plus the base quantity stay below 2 ^ 64: what the end of a segment does, if it
  -- returns, is to move the position of the decision's
  -- symbol by at most the base quantity on the decision's side, perhaps not at all, and no other
  -- position. A buy stays within the position limit, and a sell takes no more than is held.
  pub arbitrate-Traded :
      (w : Worker) (e : Execution X) (segment : ℕ)
      → ExchangeLaws ops
      → All WeightedIsTuned w.strategies
      → e.base_qty * strength_scale < u64_mod
      → ((symbol : ℕ) → position e.shared.risk symbol + e.base_qty < u64_mod)
      → WhenDone
          (λ a. Traded w e.base_qty (decision w) e.shared.risk a.1.shared.risk)
          (arbitrate ops w e segment)
  unfolding arbitrate decision
  arbitrate-Traded w e segment laws tuned small room =
      let d = decision w in
      let w1 = record w { cur_segment = segment } in
      let most = order_qty_scaled e.base_qty d.strength (decision-IsScaled w tuned) small in
      let still : Traded w e.base_qty d e.shared.risk e.shared.risk =
        (unmoved e.shared.risk e.shared.risk (decision_order w e.base_qty d) (λ s. refl), most) in
      let P = λ (a : Worker × Execution X). Traded w e.base_qty d e.shared.risk a.1.shared.risk in
      let sent = submit_decision ops w1 e segment d in
      WhenDone-if P (is_empty w.strategies) (some (w, e)) _ still (
        WhenDone-if P (not d.act || blocked w1 e.shared.risk d || not (due w1 d)) (some (w1, e))
          sent still
          (WhenDone-map _ P sent (λ a m. (m, most))
            (submit_decision-Moved w1 e segment d laws (within _ _ _ (room d.locate) most))))
    where
      within : (p q b : ℕ) → p + b < u64_mod → q ≤ b → p + q < u64_mod
      within p q b h k = omega arith
