-- ===== src/Replay/Schedule.antt =====
-- The order in which the replay loop (src/replay/replay_engine.cpp) calls the exchange: the events of
-- the messages, and the end of every segment with its number.
use nebula_x_simulator.Prelude.{
  ℕ, zero, suc, ◌+◌, ◌<◌, ◌≤◌, ◌≡◌, refl, sym, ap, subst, ◌∙◌, Option, none, some, List, [], ◌∷◌,
  ◌++◌, arith, length, Option-cases, Bool-cases, inl, inr, ◌==◌, leb,
}
use nebula_x_simulator.Exchange.ItchParser.{ItchEvent, ItchParser, feed}
use mathlib.Core.List.{append_assoc, append-nil}
use nebula_x_simulator.Replay.{
  ItchReplaySource, Frame, next, Config, Replay, end_segment, feed_exchange, count_message,
  take_message, run_loop, finish, run,
}
use nebula_x_simulator.Replay.Segments.{at_limit, HasEnded, run_counted, take_message-total}
use nebula_x_simulator.Replay.Cutting.{
  Segment, sizes, joined, Hears, nothing_yet, and_then, AreCut, AreFull, length-snoc, count-snoc,
  sizes-snoc, AreFull-snoc, AreFull-AreCut, AreCut-snoc, joined-snoc, empty,
}

module _ {S : Type 0} (on_market_order : ItchEvent → S → S) (on_segment_boundary : ℕ → S → S) where
  abbrev pub tell : Option ItchEvent → S → S
  tell none x = x
  tell (some ev) x = on_market_order ev x

  abbrev pub tell_all : Segment → S → S
  tell_all [] x = x
  tell_all (ev ∷ s) x = tell_all s (tell ev x)

  -- The exchange after whole segments, the first of which has the number `n`.
  abbrev pub play : ℕ → List Segment → S → S
  play n [] x = x
  play n (s ∷ ss) x = play (suc n) ss (on_segment_boundary n (tell_all s x))

  tell_all-snoc :
      (s : Segment) (ev : Option ItchEvent) (x : S)
      → tell_all (s ++ ev ∷ []) x ≡ tell ev (tell_all s x)
  tell_all-snoc [] ev x = refl
  tell_all-snoc (e ∷ s) ev x = tell_all-snoc s ev (tell e x)

  play-snoc :
      (n : ℕ) (ss : List Segment) (s : Segment) (x : S)
      → play n (ss ++ s ∷ []) x ≡ on_segment_boundary (n + length ss) (tell_all s (play n ss x))
  play-snoc n [] s x = ap (λ k. on_segment_boundary k (tell_all s x)) (omega arith)
  play-snoc n (t ∷ ss) s x =
      play-snoc (suc n) ss s (on_segment_boundary n (tell_all t x))
      ∙ ap
          (λ k.
            on_segment_boundary k
              (tell_all s (play (suc n) ss (on_segment_boundary n (tell_all t x)))))
          (omega arith)

  ended :
      (n : ℕ) (ss : List Segment) (s : Segment) (x y : S)
      → length ss ≡ n
      → y ≡ tell_all s (play 0 ss x)
      → on_segment_boundary n y ≡ play 0 (ss ++ s ∷ []) x
  ended n ss s x y count e =
      let number : n ≡ 0 + length ss = omega arith in
      (λ j. on_segment_boundary (number j) (e j)) ∙ sym (play-snoc 0 ss s x)

  take_message-source :
      (c : Config) (f : Frame) (src : ItchReplaySource) (r : Replay S)
      → (take_message on_market_order on_segment_boundary c f src r).source ≡ src
  take_message-source c f src r =
      (take_message-total on_market_order on_segment_boundary c f src r).1

  -- In the middle of the loop that began at `r0`, with the messages before `src` read: full segments
  -- have been played, and a part of the next one.
  record IsPlaying (c : Config) (r0 : Replay S) (src : ItchReplaySource) (r : Replay S)
      : Type 0 where
    closed : List Segment
    part : Segment
    heard : Hears r0.parser r0.source (joined closed ++ part) r.parser src
    full : AreFull c.segment_size closed
    room : length part < c.segment_size
    count : length closed ≡ r.segments
    part_count : length part ≡ r.seg_msg
    total : sizes closed + length part ≡ r.total
    played : r.exchange ≡ tell_all part (play 0 closed r0.exchange)

  feed_exchange-tell :
      (ev : Option ItchEvent) (r : Replay S)
      → feed_exchange on_market_order on_segment_boundary ev r ≡ record r {
        exchange = tell ev r.exchange;
        order_events = (feed_exchange on_market_order on_segment_boundary ev r).order_events;
      }
  feed_exchange-tell none r = refl
  feed_exchange-tell (some ev) r = refl

  -- The next message, before its segment is looked at.
  record IsTold (c : Config) (r0 : Replay S) (src : ItchReplaySource) (r : Replay S) : Type 0 where
    closed : List Segment
    part : Segment
    heard : Hears r0.parser r0.source (joined closed ++ part) r.parser src
    full : AreFull c.segment_size closed
    room : length part ≤ c.segment_size
    count : length closed ≡ r.segments
    part_count : length part ≡ r.seg_msg + 1
    total : sizes closed + length part ≡ r.total + 1
    played : r.exchange ≡ tell_all part (play 0 closed r0.exchange)

  count_message-IsPlaying :
      (c : Config) (r0 : Replay S) (src : ItchReplaySource) (r : Replay S)
      → IsTold c r0 src r
      → 0 < c.segment_size
      → IsPlaying c r0 src (count_message on_market_order on_segment_boundary c r)
  unfolding count_message end_segment
  count_message-IsPlaying c r0 src r v pos =
      elim (Bool-cases (leb c.segment_size (r.seg_msg + 1))) [
        | inr more ↦
            rw (more, count_message)
              (record {
                closed = v.closed;
                part = v.part;
                heard = v.heard;
                full = v.full;
                room = ground (arith, v.part_count, more);
                count = v.count;
                part_count = v.part_count;
                total = v.total;
                played = v.played;
              })
        | inl done ↦
            let size : length v.part ≡ c.segment_size =
              ground (arith, v.part_count, v.room, done) in
            rw (done, count_message)
              (record {
                closed = v.closed ++ v.part ∷ [];
                part = [];
                heard =
                    subst (λ evs. Hears r0.parser r0.source evs r.parser src)
                      (joined-snoc v.closed v.part) v.heard;
                full = AreFull-snoc c.segment_size v.closed v.part v.full size;
                room = pos;
                count = omega (arith, v.count, count-snoc v.closed v.part);
                part_count = refl;
                total = omega (arith, v.total, sizes-snoc v.closed v.part);
                played = ended r.segments v.closed v.part r0.exchange r.exchange v.count v.played;
              })
      ]

  take_message-IsPlaying :
      (c : Config) (f : Frame) (src : ItchReplaySource) (r0 r : Replay S)
      → IsPlaying c r0 r.source r
      → 0 < c.segment_size
      → next r.source ≡ some (f, src)
      → IsPlaying c r0 src (take_message on_market_order on_segment_boundary c f src r)
  unfolding take_message
  take_message-IsPlaying c f src r0 r v pos e =
      let (parser, ev) = feed r.parser f.body in
      let read = record r { source = src; parser = parser } in
      let told : IsTold c r0 src (record read {
        exchange = tell ev r.exchange;
        order_events = (feed_exchange on_market_order on_segment_boundary ev read).order_events;
      }) =
        record {
          closed = v.closed;
          part = v.part ++ ev ∷ [];
          heard =
              subst (λ evs. Hears r0.parser r0.source evs parser src)
                (append_assoc (joined v.closed) v.part (ev ∷ []))
                (and_then (joined v.closed ++ v.part) r.parser r.source src f v.heard e);
          full = v.full;
          room = omega (arith, v.room, length-snoc v.part ev);
          count = v.count;
          part_count = omega (arith, v.part_count, length-snoc v.part ev);
          total = omega (arith, v.total, length-snoc v.part ev);
          played =
              ap (tell ev) v.played ∙ sym (tell_all-snoc v.part ev (play 0 v.closed r0.exchange));
        } in
      count_message-IsPlaying c r0 src (feed_exchange on_market_order on_segment_boundary ev read)
        (subst (IsTold c r0 src) (sym (feed_exchange-tell ev read)) told) pos

  run_loop-IsPlaying :
      (fuel : ℕ) (c : Config) (r0 r : Replay S)
      → IsPlaying c r0 r.source r
      → 0 < c.segment_size
      → (src : ItchReplaySource) × IsPlaying c r0 src
          (run_loop on_market_order on_segment_boundary fuel c r)
  unfolding run_loop
  run_loop-IsPlaying zero c r0 r v pos = (r.source, v)
  run_loop-IsPlaying (suc fuel) c r0 r v pos = elim (Option-cases (next r.source)) [
    | inl e ↦ rw (e, run_loop) (r.source, v)
    | inr ((f, src), e) ↦ elim (Bool-cases (at_limit on_market_order on_segment_boundary c r)) [
      | inl stop ↦
          rw (e, stop, run_loop)
            (
              r.source,
              record {
                closed = v.closed;
                part = v.part;
                heard = v.heard;
                full = v.full;
                room = v.room;
                count = v.count;
                part_count = v.part_count;
                total = v.total;
                played = v.played;
              },
            )
      | inr more ↦
          let r' = take_message on_market_order on_segment_boundary c f src r in
          let same = take_message-source c f src r in
          rw (e, more, run_loop)
            (run_loop-IsPlaying fuel c r0 r'
              (subst (λ s. IsPlaying c r0 s r') (sym same)
                (take_message-IsPlaying c f src r0 r v pos e))
              pos)
    ]
  ]

  -- What a whole run amounts to.
  pub record IsPlayed (c : Config) (r0 r : Replay S) : Type 0 where
    segments : List Segment
    parser : ItchParser
    source : ItchReplaySource
    heard : Hears r0.parser r0.source (joined segments) parser source
    cut : AreCut c.segment_size segments
    count : length segments ≡ r.segments
    total : sizes segments ≡ r.total
    played : r.exchange ≡ play 0 segments r0.exchange

  finish-IsPlayed :
      (c : Config) (r0 : Replay S) (src : ItchReplaySource) (r : Replay S)
      → IsPlaying c r0 src r
      → 0 < c.segment_size
      → IsPlayed c r0 (finish on_market_order on_segment_boundary r)
  unfolding end_segment
  finish-IsPlayed c r0 src r v pos = elim (Bool-cases (r.seg_msg == 0)) [
    | inl none_left ↦
        let no_part = empty v.part (ground (arith, v.part_count, none_left)) in
        rw (none_left, finish)
          (record {
            segments = v.closed;
            parser = r.parser;
            source = src;
            heard =
                subst (λ evs. Hears r0.parser r0.source evs r.parser src)
                  (ap (λ s. joined v.closed ++ s) no_part ∙ append-nil (joined v.closed)) v.heard;
            cut = AreFull-AreCut c.segment_size v.closed pos v.full;
            count = v.count;
            total = omega (arith, v.total, ap length no_part);
            played = v.played ∙ ap (λ s. tell_all s (play 0 v.closed r0.exchange)) no_part;
          })
    | inr some_left ↦
        rw (some_left, finish)
          (record {
            segments = v.closed ++ v.part ∷ [];
            parser = r.parser;
            source = src;
            heard =
                subst (λ evs. Hears r0.parser r0.source evs r.parser src)
                  (joined-snoc v.closed v.part ∙ append-nil (joined (v.closed ++ v.part ∷ [])))
                  v.heard;
            cut =
                AreCut-snoc c.segment_size v.closed v.part v.full
                  (ground (arith, v.part_count, some_left)) (omega (arith, v.room));
            count = omega (arith, v.count, count-snoc v.closed v.part);
            total = omega (arith, v.total, sizes-snoc v.closed v.part);
            played = ended r.segments v.closed v.part r0.exchange r.exchange v.count v.played;
          })
  ]

  -- A run from a fresh replay, with segments of at least one message, ends with the file or at the
  -- message limit. By then it has read frames of the file one by one from where it started, cut what
  -- the parser says of them into segments of that many messages, the last one perhaps shorter, and
  -- called the exchange with exactly these events, in order, and with the end of each segment right
  -- after its last message, numbered from zero.
  pub run_segments :
      (c : Config) (r : Replay S)
      → 0 < c.segment_size
      → r.total ≡ 0
      → r.segments ≡ 0
      → r.seg_msg ≡ 0
      → let r' = run on_market_order on_segment_boundary c r in
        HasEnded on_market_order on_segment_boundary c r' × IsPlayed c r r'
  unfolding run
  run_segments c r pos t s m =
      let start : IsPlaying c r r.source r = record {
        closed = [];
        part = [];
        heard = nothing_yet;
        full = tt;
        room = pos;
        count = sym s;
        part_count = sym m;
        total = sym t;
        played = refl;
      } in
      let (src, v) = run_loop-IsPlaying (suc (length r.source.bytes)) c r r start pos in
      (
        (run_counted on_market_order on_segment_boundary c r pos t s m).0,
        finish-IsPlayed c r src _ v pos,
      )
