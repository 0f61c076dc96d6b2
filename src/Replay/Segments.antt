-- ===== src/Replay/Segments.antt =====
-- The replay loop ends, and cuts the messages into segments (src/replay/replay_engine.cpp).
use nebula_x_simulator.Prelude.{
  ℕ, zero, suc, ◌+◌, ◌*◌, ◌-◌, ◌<◌, ◌≤◌, ◌≡◌, ◌≢◌, refl, ap, ◌∙◌, ◌⊎◌, inl, inr, Bool, Option, none,
  some, arith, length, Option-cases, Bool-cases, ◌==◌, leb, not, ◌&&◌,
}
use nebula_x_simulator.Exchange.ItchParser.{ItchEvent, feed}
use nebula_x_simulator.Replay.{
  ItchReplaySource, Frame, next, Config, Replay, end_segment, feed_exchange, count_message,
  take_message, run_loop, finish, run,
}

next-moves :
    (s s' : ItchReplaySource) (f : Frame)
    → next s ≡ some (f, s')
    → (s.pos + 2 ≤ s'.pos) × (s'.pos ≤ length s'.bytes) × (s'.bytes ≡ s.bytes)
unfolding next
next-moves s s' f h = ground arith

module _ {S : Type 0} (on_market_order : ItchEvent → S → S) (on_segment_boundary : ℕ → S → S) where
  abbrev end_it : Replay S → Replay S
  end_it = end_segment on_market_order on_segment_boundary

  abbrev count_it : Config → Replay S → Replay S
  count_it = count_message on_market_order on_segment_boundary

  abbrev take_it : Config → Frame → ItchReplaySource → Replay S → Replay S
  take_it = take_message on_market_order on_segment_boundary

  abbrev loop_it : ℕ → Config → Replay S → Replay S
  loop_it = run_loop on_market_order on_segment_boundary

  abbrev run_it : Config → Replay S → Replay S
  run_it = run on_market_order on_segment_boundary

  -- Every message counts once, and stands in a segment that is not yet full.
  pub record IsCut (c : Config) (r : Replay S) : Type 0 where
    pub counted : r.total ≡ r.segments * c.segment_size + r.seg_msg
    pub not_full : r.seg_msg < c.segment_size

  count_message-IsCut : (c : Config) (r : Replay S) → IsCut c r → IsCut c (count_it c r)
  unfolding count_message
  count_message-IsCut c r v = elim (Bool-cases (leb c.segment_size (r.seg_msg + 1))) [
    | inl full ↦
        rw (full, count_message)
          (record {
            counted = grind (arith, v.counted, v.not_full);
            not_full = grind (arith, v.not_full);
          })
    | inr room ↦
        rw (room, count_message) (record { counted = omega arith; not_full = ground arith })
  ]

  count_message-total :
      (c : Config) (r : Replay S)
      → ((count_it c r).total ≡ r.total + 1) × ((count_it c r).source ≡ r.source)
  unfolding count_message
  count_message-total c r = ground arith

  feed_exchange-IsCut :
      (c : Config) (ev : Option ItchEvent) (r : Replay S)
      → IsCut c r
      → IsCut c (feed_exchange on_market_order on_segment_boundary ev r)
  feed_exchange-IsCut c none r v = v
  feed_exchange-IsCut c (some ev) r v = record { counted = v.counted; not_full = v.not_full }

  feed_exchange-total :
      (ev : Option ItchEvent) (r : Replay S)
      → let r' = feed_exchange on_market_order on_segment_boundary ev r in
        (r'.total ≡ r.total) × (r'.source ≡ r.source)
  feed_exchange-total none r = (refl, refl)
  feed_exchange-total (some ev) r = (refl, refl)

  take_message-IsCut :
      (c : Config) (f : Frame) (src : ItchReplaySource) (r : Replay S)
      → IsCut c r
      → IsCut c (take_it c f src r)
  unfolding take_message
  take_message-IsCut c f src r v =
      let (parser, ev) = feed r.parser f.body in
      count_message-IsCut c _ (
        feed_exchange-IsCut c ev (record r { source = src; parser = parser })
          (record { counted = v.counted; not_full = v.not_full }))

  pub take_message-total :
      (c : Config) (f : Frame) (src : ItchReplaySource) (r : Replay S)
      → ((take_it c f src r).total ≡ r.total + 1) × ((take_it c f src r).source ≡ src)
  unfolding take_message
  take_message-total c f src r =
      let (parser, ev) = feed r.parser f.body in
      let read = record r { source = src; parser = parser } in
      let (t, s) = feed_exchange-total ev read in
      let (t', s') =
        count_message-total c (feed_exchange on_market_order on_segment_boundary ev read) in
      (t' ∙ ap (λ n. n + 1) t, s' ∙ s)

  -- The loop has ended: the file has no further frame, or the limit is reached.
  abbrev pub HasEnded : Config → Replay S → Type 0
  HasEnded c r = (next r.source ≡ none) ⊎ ((c.max_messages ≢ 0) × (c.max_messages ≤ r.total))

  keeps_end :
      (c : Config) (r r' : Replay S)
      → r'.source ≡ r.source
      → r'.total ≡ r.total
      → HasEnded c r
      → HasEnded c r'
  keeps_end c r r' s t (inl e) = inl (ap next s ∙ e)
  keeps_end c r r' s t (inr (h, k)) = inr (h, omega arith)

  abbrev pub at_limit : Config → Replay S → Bool
  at_limit c r = not (c.max_messages == 0) && leb c.max_messages r.total

  -- The bytes that the source has not read.
  abbrev unread : Replay S → ℕ
  unread r = length r.source.bytes - r.source.pos

  run_loop-ends :
      (fuel : ℕ) (c : Config) (r : Replay S) → unread r < fuel → HasEnded c (loop_it fuel c r)
  unfolding run_loop
  run_loop-ends zero c r h = absurd (omega arith)
  run_loop-ends (suc fuel) c r h = elim (Option-cases (next r.source)) [
    | inl e ↦ rw (e, run_loop) (inl e)
    | inr ((f, src), e) ↦ elim (Bool-cases (at_limit c r)) [
      | inl stop ↦ rw (e, stop, run_loop) (inr (ground arith, ground arith))
      | inr more ↦
          rw (e, more, run_loop)
            (run_loop-ends fuel c (take_it c f src r)
              (ground (arith, next-moves r.source src f e, take_message-total c f src r)))
    ]
  ]

  run_loop-IsCut : (fuel : ℕ) (c : Config) (r : Replay S) → IsCut c r → IsCut c (loop_it fuel c r)
  unfolding run_loop
  run_loop-IsCut zero c r v = v
  run_loop-IsCut (suc fuel) c r v = elim (Option-cases (next r.source)) [
    | inl e ↦ rw (e, run_loop) v
    | inr ((f, src), e) ↦ elim (Bool-cases (at_limit c r)) [
      | inl stop ↦ rw (e, stop, run_loop) (record { counted = v.counted; not_full = v.not_full })
      | inr more ↦
          rw (e, more, run_loop)
            (run_loop-IsCut fuel c (take_it c f src r) (take_message-IsCut c f src r v))
    ]
  ]

  finish_cut :
      (c : Config) (r : Replay S)
      → IsCut c r
      → let r' = finish on_market_order on_segment_boundary r in
        (r'.total ≤ r'.segments * c.segment_size)
        × (r'.segments * c.segment_size < r'.total + c.segment_size)
        × (r'.source ≡ r.source)
        × (r'.total ≡ r.total)
  unfolding end_segment
  finish_cut c r v = elim (Bool-cases (r.seg_msg == 0)) [
    | inl h ↦
        rw (h, finish)
          (ground (arith, v.counted, v.not_full), ground (arith, v.counted, v.not_full), refl, refl)
    | inr h ↦
        rw (h, finish)
          (grind (arith, v.counted, v.not_full), grind (arith, v.counted, v.not_full), refl, refl)
  ]

  -- A run from a fresh replay, with segments of at least one message, ends with the file or at the
  -- message limit, and has cut the messages into segments of that size, the last one perhaps
  -- shorter: the number of segments is the number of messages over the size, rounded up.
  pub run_counted :
      (c : Config) (r : Replay S)
      → 0 < c.segment_size
      → r.total ≡ 0
      → r.segments ≡ 0
      → r.seg_msg ≡ 0
      → let r' = run_it c r in
        HasEnded c r'
        × (r'.total ≤ r'.segments * c.segment_size)
        × (r'.segments * c.segment_size < r'.total + c.segment_size)
  unfolding run
  run_counted c r h t s m =
      let fuel = suc (length r.source.bytes) in
      let cut =
        run_loop-IsCut fuel c r (record { counted = grind arith; not_full = omega arith }) in
      let ended = run_loop-ends fuel c r (omega arith) in
      let (below, above, src, tot) = finish_cut c (loop_it fuel c r) cut in
      (keeps_end c (loop_it fuel c r) (run_it c r) src tot ended, below, above)
