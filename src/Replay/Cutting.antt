-- ===== src/Replay/Cutting.antt =====
-- Messages read from a source (src/replay/itch_replay_source.cpp), cut into segments.
use nebula_x_simulator.Prelude.{
  ℕ, ◌+◌, ◌<◌, ◌≤◌, ◌≡◌, refl, sym, ap, ◌∙◌, Option, some, List, [], ◌∷◌, ◌++◌, arith, length,
}
use nebula_x_simulator.Exchange.ItchParser.{ItchEvent, ItchParser, feed}
use mathlib.Core.List.{append_assoc, append-nil}
use nebula_x_simulator.Replay.{ItchReplaySource, Frame, next}

-- What the messages of one segment say: an event or nothing each.
abbrev pub Segment : Type 0
Segment = List (Option ItchEvent)

abbrev pub sizes : List Segment → ℕ
sizes [] = 0
sizes (s ∷ ss) = length s + sizes ss

abbrev pub joined : List Segment → Segment
joined [] = []
joined (s ∷ ss) = s ++ joined ss

-- From a parser at a source: the frames that follow, read one by one, say the messages and lead to
-- another parser and another source.
pub data Hears (p : ItchParser) (src : ItchReplaySource)
    : Segment → ItchParser → ItchReplaySource → Type 0 where
  nothing_yet : Hears p src [] p src
  and_then :
      (evs : Segment) (p' : ItchParser) (src' src'' : ItchReplaySource) (f : Frame)
      → Hears p src evs p' src'
      → next src' ≡ some (f, src'')
      → Hears p src (evs ++ (feed p' f.body).1 ∷ []) (feed p' f.body).0 src''

-- All segments have that many messages, the last one perhaps fewer, but one at least.
abbrev pub AreCut : ℕ → List Segment → Type 0
AreCut size [] = Unit
AreCut size (s ∷ []) = (0 < length s) × (length s ≤ size)
AreCut size (s ∷ t ∷ ss) = (length s ≡ size) × AreCut size (t ∷ ss)

-- All of them are full.
abbrev pub AreFull : ℕ → List Segment → Type 0
AreFull size [] = Unit
AreFull size (s ∷ ss) = (length s ≡ size) × AreFull size ss

pub length-snoc : (s : Segment) (ev : Option ItchEvent) → length (s ++ ev ∷ []) ≡ length s + 1
length-snoc [] ev = refl
length-snoc (x ∷ s) ev = omega (arith, length-snoc s ev)

pub count-snoc : (ss : List Segment) (s : Segment) → length (ss ++ s ∷ []) ≡ length ss + 1
count-snoc [] s = refl
count-snoc (x ∷ ss) s = omega (arith, count-snoc ss s)

pub sizes-snoc : (ss : List Segment) (s : Segment) → sizes (ss ++ s ∷ []) ≡ sizes ss + length s
sizes-snoc [] s = omega arith
sizes-snoc (x ∷ ss) s = omega (arith, sizes-snoc ss s)

pub AreFull-snoc :
    (size : ℕ) (ss : List Segment) (s : Segment)
    → AreFull size ss
    → length s ≡ size
    → AreFull size (ss ++ s ∷ [])
AreFull-snoc size [] s f h = (h, tt)
AreFull-snoc size (x ∷ ss) s (g, f) h = (g, AreFull-snoc size ss s f h)

pub AreFull-AreCut : (size : ℕ) (ss : List Segment) → 0 < size → AreFull size ss → AreCut size ss
AreFull-AreCut size [] pos f = tt
AreFull-AreCut size (s ∷ []) pos (h, f) = (omega (arith, h, pos), omega (arith, h))
AreFull-AreCut size (s ∷ t ∷ ss) pos (h, f) = (h, AreFull-AreCut size (t ∷ ss) pos f)

pub AreCut-snoc :
    (size : ℕ) (ss : List Segment) (s : Segment)
    → AreFull size ss
    → 0 < length s
    → length s ≤ size
    → AreCut size (ss ++ s ∷ [])
AreCut-snoc size [] s f some_left room = (some_left, room)
AreCut-snoc size (x ∷ []) s (h, f) some_left room = (h, (some_left, room))
AreCut-snoc size (x ∷ y ∷ ss) s (h, f) some_left room =
    (h, AreCut-snoc size (y ∷ ss) s f some_left room)

pub joined-snoc : (ss : List Segment) (s : Segment) → joined ss ++ s ≡ joined (ss ++ s ∷ []) ++ []
joined-snoc [] s = sym (append-nil (s ++ []) ∙ append-nil s)
joined-snoc (x ∷ ss) s =
    append_assoc x (joined ss) s
    ∙ ap (λ k. x ++ k) (joined-snoc ss s)
    ∙ sym (append_assoc x (joined (ss ++ s ∷ [])) [])

pub empty : (s : Segment) → length s ≡ 0 → s ≡ []
empty [] e = refl
empty (x ∷ s) e = absurd (omega arith)
