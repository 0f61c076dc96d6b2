-- ===== src/Samples/ReplayTests.antt =====
-- The parser and the replay on small inputs.
use nebula_x_simulator.Prelude.{ℕ, ◌≡◌, ◌+◌, refl, List, [], ◌∷◌, some, arith}
use nebula_x_simulator.Exchange.Order.{buy}
use nebula_x_simulator.Exchange.ItchParser.{ItchEvent, ItchParser, add, feed}
use nebula_x_simulator.Exchange.ItchParser.RoundTrip.{encode, feed-encode}
use nebula_x_simulator.Replay.{Replay, Config, run}
use nebula_x_simulator.Replay.Frames.{frames, read_all, read_all-frames}
use nebula_x_simulator.Replay.Segments.{HasEnded}
use nebula_x_simulator.Replay.Schedule.{IsPlayed, run_segments}

abbrev parser : ItchParser
parser = record { symbol_map = [] }

feed-encode_example :
    feed parser (encode (add 5 101 buy 300 1000)) ≡ (parser, some (add 5 101 buy 300 1000))
feed-encode_example =
    feed-encode parser (add 5 101 buy 300 1000)
      (omega arith, omega arith, omega arith, omega arith, λ e. cc)

abbrev bodies : List (List ℕ)
bodies = encode (add 5 101 buy 300 1000) ∷ (1 ∷ 2 ∷ 3 ∷ []) ∷ encode (add 5 102 buy 100 990) ∷ []

read_all-frames_example :
    read_all 4 (record { bytes = frames bodies; pos = 0; frame_count = 0 }) ≡ bodies
read_all-frames_example =
    read_all-frames bodies 4 (omega arith, (omega arith, (omega arith, tt))) (omega arith)

-- An exchange that counts its events and its segments.
abbrev on_order : ItchEvent → ℕ × ℕ → ℕ × ℕ
on_order ev (events, ends) = (events + 1, ends)

abbrev on_end : ℕ → ℕ × ℕ → ℕ × ℕ
on_end seg (events, ends) = (events, ends + 1)

abbrev config : Config
config = record { segment_size = 2; max_messages = 0 }

abbrev fresh : Replay (ℕ × ℕ)
fresh = record {
  source = record { bytes = frames bodies; pos = 0; frame_count = 0 };
  parser = parser;
  exchange = (0, 0);
  total = 0;
  order_events = 0;
  segments = 0;
  seg_msg = 0;
}

run_segments_example :
    let r' = run on_order on_end config fresh in
    HasEnded on_order on_end config r' × IsPlayed on_order on_end config fresh r'
run_segments_example = run_segments on_order on_end config fresh (omega arith) refl refl refl
