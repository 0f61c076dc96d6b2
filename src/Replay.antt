-- ===== src/Replay.antt =====
-- The replay of a recorded ITCH file (src/replay/itch_replay_source.h, itch_replay_source.cpp,
-- replay_engine.h, replay_engine.cpp). The file's bytes are given; the exchange is a state with two
-- functions, for an order event and for the end of a segment.
pub mod Frames
pub mod Segments
pub mod Cutting
pub mod Schedule
use nebula_x_simulator.Prelude.{
  ℕ, zero, suc, ◌+◌, ◌*◌, Bool, Option, none, some, List, [], ◌∷◌, if◌then◌else◌, ltb, leb, ◌==◌,
  ◌&&◌, not, length, get_or, take, drop,
}
use nebula_x_simulator.Exchange.ItchParser.{ItchEvent, ItchParser, feed}

pub record ItchReplaySource : Type 0 where
  pub bytes : List ℕ
  pub pos : ℕ
  pub frame_count : ℕ

pub record Frame : Type 0 where
  pub body : List ℕ
  pub seq : ℕ

-- The two length bytes at the position.
abbrev pub frame_length : ItchReplaySource → ℕ
frame_length s = get_or (drop s.pos s.bytes) 0 0 * 256 + get_or (drop s.pos s.bytes) 1 0

unfoldable pub next : ItchReplaySource → Option (Frame × ItchReplaySource)
next s =
    let l = frame_length s in
    if ltb (length s.bytes) (s.pos + 2)
    then none
    else if ltb (length s.bytes) (s.pos + 2 + l)
    then none
    else some (
      record { body = take l (drop (s.pos + 2) s.bytes); seq = s.frame_count + 1 },
      record s { pos = s.pos + 2 + l; frame_count = s.frame_count + 1 },
    )

pub record Config : Type 0 where
  pub segment_size : ℕ
  pub max_messages : ℕ

-- What the loop of `run` changes: `seg_msg` counts the messages of the segment at hand.
pub record Replay (S : Type 0) : Type 0 where
  pub source : ItchReplaySource
  pub parser : ItchParser
  pub exchange : S
  pub total : ℕ
  pub order_events : ℕ
  pub segments : ℕ
  pub seg_msg : ℕ

module _ {S : Type 0} (on_market_order : ItchEvent → S → S) (on_segment_boundary : ℕ → S → S) where
  -- The segment ends: its callback runs, and the next one starts.
  unfoldable pub end_segment : Replay S → Replay S
  end_segment r = record r {
    exchange = on_segment_boundary r.segments r.exchange;
    segments = r.segments + 1;
    seg_msg = 0;
  }

  abbrev pub feed_exchange : Option ItchEvent → Replay S → Replay S
  feed_exchange none r = r
  feed_exchange (some ev) r = record r {
    exchange = on_market_order ev r.exchange;
    order_events = r.order_events + 1;
  }

  -- `++total_; ++seg_msg;`, and the end of a segment that is full.
  unfoldable pub count_message : Config → Replay S → Replay S
  unfolding end_segment
  count_message c r =
      let r' = record r { total = r.total + 1; seg_msg = r.seg_msg + 1 } in
      if leb c.segment_size r'.seg_msg then end_segment r' else r'

  -- One turn of the loop, with the frame that was read.
  unfoldable pub take_message : Config → Frame → ItchReplaySource → Replay S → Replay S
  unfolding count_message
  take_message c f src r =
      let (parser, ev) = feed r.parser f.body in
      count_message c (feed_exchange ev (record r { source = src; parser = parser }))

  -- The loop. Each frame takes two bytes at least, so the file's length bounds the turns.
  unfoldable pub run_loop : ℕ → Config → Replay S → Replay S
  unfolding take_message
  run_loop zero c r = r
  run_loop (suc f) c r = elim (next r.source) [
    | none ↦ r
    | some (frame, src) ↦
        let rest = run_loop f c (take_message c frame src r) in
        if not (c.max_messages == 0) && leb c.max_messages r.total
        then record r { source = src }
        else rest
  ]

  -- The last segment, if it has a message, ends too.
  abbrev pub finish : Replay S → Replay S
  finish r = if r.seg_msg == 0 then r else end_segment r

  unfoldable pub run : Config → Replay S → Replay S
  unfolding run_loop
  run c r = finish (run_loop (suc (length r.source.bytes)) c r)
