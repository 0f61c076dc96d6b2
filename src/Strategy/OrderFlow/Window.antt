-- ===== src/Strategy/OrderFlow/Window.antt =====
-- The window of the order flow strategy (src/strategy/tick/order_flow_imbalance_strategy.h): the
-- ring against the list of all that went in.
use nebula_x_simulator.Prelude.{
  ℕ, zero, suc, ◌+◌, ◌-◌, ◌%◌, ◌≤◌, ◌<◌, ◌≡◌, ◌≢◌, refl, sym, ap, ◌∙◌, true, false, List, [], ◌∷◌,
  if◌then◌else◌, ltb, ltb→lt, ltb→ge, Bool, arith, length, take, get_or, Bool-cases, inl, inr,
  u64_mod, update,
}
use nebula_x_simulator.Prelude.Int.{ℤ, pos, ◌+ℤ◌, ◌-ℤ◌, int_laws}
use nebula_x_simulator.Core.{OrderSide, buy, sell, none_side}
use nebula_x_simulator.Core.Event.{MarketEvent, EventBody}
use nebula_x_simulator.Strategy.Signal.{BookContext}
use nebula_x_simulator.Strategy.OrderFlow.{
  on_market, on_event, flow, signal_up, heard, set_last_price, OrderFlow, window_size, slide,
  order_flow,
}

abbrev pub sum_ℤ : List ℤ → ℤ
sum_ℤ [] = pos 0
sum_ℤ (x ∷ xs) = x +ℤ sum_ℤ xs

-- What went in, the newest first, and the window that holds it.
abbrev pub Holds : List ℤ → OrderFlow → Type 0
Holds ds s =
    (s.widx ≡ length ds)
    × (s.ofi ≡ sum_ℤ (take window_size ds))
    × ((i j : ℕ)
        → j + suc i ≡ length ds
        → i < window_size
        → s.win (j % window_size) ≡ get_or ds i (pos 0))

assoc : (x a b : ℤ) → x +ℤ (a +ℤ b) ≡ x +ℤ a +ℤ b
assoc x a b = omega int_laws

swap : (a d : ℤ) → a +ℤ d ≡ d +ℤ a
swap a d = omega int_laws

cancel_old : (a b d : ℤ) → a +ℤ b -ℤ b +ℤ d ≡ d +ℤ a
cancel_old a b d = omega int_laws

-- One more is taken: the sum grows by it.
sum-take :
    (n : ℕ) (ds : List ℤ)
    → n < length ds
    → sum_ℤ (take (suc n) ds) ≡ sum_ℤ (take n ds) +ℤ get_or ds n (pos 0)
sum-take n [] h = ground arith
sum-take zero (x ∷ ds) h = swap x (pos 0)
sum-take (suc n) (x ∷ ds) h =
    ap (λ y. x +ℤ y) (sum-take n ds (omega arith))
    ∙ assoc x (sum_ℤ (take n ds)) (get_or ds n (pos 0))

-- A list that is not longer is taken whole.
take_all : (n : ℕ) (ds : List ℤ) → length ds ≤ n → take n ds ≡ ds
take_all zero [] h = refl
take_all (suc n) [] h = refl
take_all zero (x ∷ ds) h = ground arith
take_all (suc n) (x ∷ ds) h = ap (λ y. x ∷ y) (take_all n ds (omega arith))

-- The new sum, while the window fills and once it is full.
slide-ofi :
    (ds : List ℤ) (s : OrderFlow) (d : ℤ)
    → Holds ds s
    → (slide s d).ofi ≡ sum_ℤ (take window_size (d ∷ ds))
unfolding slide
slide-ofi ds s d (ew, es, er) = elim (Bool-cases (ltb s.widx window_size)) [
  | inl h ↦
      rw
        (
          h,
          es,
          take_all 1024 ds (omega (arith, ltb→lt s.widx window_size h)),
          take_all 1023 ds (omega (arith, ltb→lt s.widx window_size h)),
        )
        (swap (sum_ℤ ds) d)
  | inr h ↦
      rw
        (
          h,
          es,
          old_slot (ltb→ge s.widx window_size h),
          sum-take 1023 ds (omega (arith, ltb→ge s.widx window_size h)),
        )
        (cancel_old (sum_ℤ (take 1023 ds)) (get_or ds 1023 (pos 0)) d)
]
  where
    wrap : (n : ℕ) → window_size ≤ n → (n - window_size) % window_size ≡ n % window_size
    wrap n h = omega arith

    old_slot : window_size ≤ s.widx → s.win (s.widx % window_size) ≡ get_or ds 1023 (pos 0)
    old_slot h =
        ap s.win (sym (wrap s.widx h)) ∙ er 1023 (s.widx - window_size) (omega arith) (omega arith)

-- The place that is written is the position's place in the ring.
slot-widx : (n : ℕ) → (if ltb n window_size then n else n % window_size) ≡ n % window_size
slot-widx n = ground arith

write_read :
    (f : ℕ → ℤ) (i j : ℕ) (d v : ℤ) → (i ≡ j → d ≡ v) → (i ≢ j → f j ≡ v) → update f i d j ≡ v
write_read f i j d v h k = ground arith

slide-Holds :
    (ds : List ℤ) (s : OrderFlow) (d : ℤ)
    → length ds + 1 < u64_mod
    → Holds ds s
    → Holds (d ∷ ds) (slide s d)
unfolding slide
slide-Holds ds s d small (ew, es, er) = (ground arith, slide-ofi ds s d (ew, es, er), places)
  where
    places :
        (i j : ℕ)
        → j + suc i ≡ suc (length ds)
        → i < window_size
        → (slide s d).win (j % window_size) ≡ get_or (d ∷ ds) i (pos 0)
    places zero j h k =
        rw (slot-widx s.widx) (write_read s.win _ _ d d (λ e. refl) (λ e. ground arith))
    places (suc i) j h k =
        rw (slot-widx s.widx)
          (write_read s.win _ _ d _ (λ e. ground arith) (λ e. er i j (omega arith) (omega arith)))

-- The flows of the events that come with a side, the newest first.
abbrev pub side_flow : EventBody → OrderSide → List ℤ → List ℤ
side_flow body none_side ds = ds
side_flow body side ds = flow body side ∷ ds

abbrev pub flows : List (MarketEvent × BookContext) → List ℤ
flows [] = []
flows ((ev, ctx) ∷ evs) = side_flow ev.body ctx.side (flows evs)

-- The strategy after the events, the newest first.
abbrev pub heard_all : List (MarketEvent × BookContext) → OrderFlow → OrderFlow
heard_all [] s = s
heard_all ((ev, ctx) ∷ evs) s = on_market (heard_all evs s) ev ctx

on_event-Holds :
    (ds : List ℤ) (s : OrderFlow) (ev : MarketEvent) (side : OrderSide)
    → length ds + 1 < u64_mod
    → Holds ds s
    → Holds (flow ev.body side ∷ ds) (on_event s ev side)
unfolding on_event signal_up slide
on_event-Holds ds s ev side small h = slide-Holds ds s (flow ev.body side) small h

heard-Holds :
    (ds : List ℤ) (s : OrderFlow) (ev : MarketEvent) (side : OrderSide)
    → length ds + 1 < u64_mod
    → Holds ds s
    → Holds (side_flow ev.body side ds) (heard s ev side)
heard-Holds ds s ev buy small h = on_event-Holds ds s ev buy small h
heard-Holds ds s ev sell small h = on_event-Holds ds s ev sell small h
heard-Holds ds s ev none_side small h = h

priced-Holds :
    (ds : List ℤ) (s : OrderFlow) (b : Bool) (p : ℤ)
    → Holds ds s
    → Holds ds (if b then set_last_price s p else s)
priced-Holds ds s true p h = h
priced-Holds ds s false p h = h

on_market-Holds :
    (ds : List ℤ) (s : OrderFlow) (ev : MarketEvent) (ctx : BookContext)
    → length ds + 1 < u64_mod
    → Holds ds s
    → Holds (side_flow ev.body ctx.side ds) (on_market s ev ctx)
unfolding on_market
on_market-Holds ds s ev ctx small h =
    priced-Holds (side_flow ev.body ctx.side ds) (heard s ev ctx.side) _ ctx.mid
      (heard-Holds ds s ev ctx.side small h)

length-flows : (evs : List (MarketEvent × BookContext)) → length (flows evs) ≤ length evs
length-flows [] = omega arith
length-flows ((ev, ctx) ∷ evs) =
    omega (arith, length-flows evs, length-side_flow ev.body ctx.side (flows evs))
  where
    length-side_flow :
        (b : EventBody) (side : OrderSide) (ds : List ℤ)
        → length (side_flow b side ds) ≤ suc (length ds)
    length-side_flow b buy ds = omega arith
    length-side_flow b sell ds = omega arith
    length-side_flow b none_side ds = omega arith

heard_all-Holds :
    (t : ℤ) (evs : List (MarketEvent × BookContext))
    → length evs < u64_mod
    → Holds (flows evs) (heard_all evs (order_flow t))
unfolding order_flow
heard_all-Holds t [] small = (refl, refl, λ i j h k. ground arith)
heard_all-Holds t ((ev, ctx) ∷ evs) small =
    on_market-Holds (flows evs) _ ev ctx (omega (arith, length-flows evs))
      (heard_all-Holds t evs (omega arith))

-- After any fewer than 2 ^ 64 events the sum that the strategy keeps is the net flow of the last
-- 1024 events that came with a side.
pub heard_all-ofi :
    (t : ℤ) (evs : List (MarketEvent × BookContext))
    → length evs < u64_mod
    → (heard_all evs (order_flow t)).ofi ≡ sum_ℤ (take window_size (flows evs))
heard_all-ofi t evs small = (heard_all-Holds t evs small).1
