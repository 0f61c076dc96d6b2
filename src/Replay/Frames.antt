-- ===== src/Replay/Frames.antt =====
-- The frames of a file come back one by one (src/replay/itch_replay_source.cpp).
use nebula_x_simulator.Prelude.{
  ℕ, zero, suc, ◌+◌, ◌*◌, ◌/◌, ◌%◌, ◌<◌, ◌≡◌, refl, ap, ◌∙◌, List, [], ◌∷◌, ◌++◌, arith, some, none,
  length, length-append, drop, drop-append, take-append, All,
}
use mathlib.Core.List.{append_assoc, append-nil}
use nebula_x_simulator.Replay.{ItchReplaySource, next}

-- A frame: the length in two bytes, then the body.
abbrev pub frame : List ℕ → List ℕ → List ℕ
frame body rest = length body / 256 % 256 ∷ length body % 256 ∷ body ++ rest

abbrev pub frames : List (List ℕ) → List ℕ
frames [] = []
frames (b ∷ bs) = frame b (frames bs)

abbrev pub source_at : List ℕ → List ℕ → ℕ → ItchReplaySource
source_at before rest n = record { bytes = before ++ rest; pos = length before; frame_count = n }

drop_two :
    (before : List ℕ) (a b : ℕ) (rest : List ℕ)
    → drop (length before + 2) (before ++ a ∷ b ∷ rest) ≡ rest
drop_two [] a b rest = refl
drop_two (x ∷ xs) a b rest =
    let e : suc (length xs) + 2 ≡ suc (length xs + 2) = omega arith in rw e (drop_two xs a b rest)

two_bytes : (n : ℕ) → n < 65536 → n / 256 % 256 * 256 + n % 256 ≡ n
two_bytes n h = omega arith

length-frame :
    (before body rest : List ℕ)
    → length (before ++ frame body rest) ≡ length before + 2 + length body + length rest
length-frame before body rest =
    omega (arith, length-append before (frame body rest), length-append body rest)

-- At a frame whose body's length fits two bytes, the source returns that body with the frame's
-- number, and moves to the byte after it.
pub next-frame :
    (before body rest : List ℕ) (n : ℕ)
    → length body < 65536
    → next (source_at before (frame body rest) n)
      ≡ some (
        record { body = body; seq = n + 1 },
        record {
          bytes = before ++ frame body rest;
          pos = length before + 2 + length body;
          frame_count = n + 1;
        },
      )
unfolding next
next-frame before body rest n h =
    rw
      (
        drop-append before (frame body rest),
        two_bytes (length body) h,
        drop_two before (length body / 256 % 256) (length body % 256) (body ++ rest),
        take-append body rest,
      )
      (ground (arith, length-frame before body rest))

-- All frames of the file, read one after the other.
unfoldable pub read_all : ℕ → ItchReplaySource → List (List ℕ)
read_all zero s = []
read_all (suc f) s = elim (next s) [ none ↦ [] | some (frame, s') ↦ frame.body ∷ read_all f s' ]

next-end : (before : List ℕ) (n : ℕ) → next (source_at before [] n) ≡ none
unfolding next
next-end before n = ground (arith, length-append before [])

-- The source one frame further, with that frame among the bytes that are behind it.
source_on :
    (before body rest : List ℕ) (n : ℕ)
    → record {
      bytes = before ++ frame body rest;
      pos = length before + 2 + length body;
      frame_count = n;
    }
      ≡ source_at (before ++ frame body []) rest n
source_on before body rest n =
    λ i. record { bytes = same_bytes i; pos = same_pos i; frame_count = n }
  where
    same_bytes : before ++ frame body rest ≡ (before ++ frame body []) ++ rest
    same_bytes = simp (append_assoc, append-nil)

    same_pos : length before + 2 + length body ≡ length (before ++ frame body [])
    same_pos = omega (arith, length-append before (frame body []), length-append body [])

read_all_from :
    (bs : List (List ℕ)) (before : List ℕ) (n fuel : ℕ)
    → All (λ b. length b < 65536) bs
    → length bs < fuel
    → read_all fuel (source_at before (frames bs) n) ≡ bs
unfolding read_all
read_all_from bs before n zero all h = absurd (omega arith)
read_all_from [] before n (suc fuel) all h = rw (next-end before n, read_all)
read_all_from (b ∷ bs) before n (suc fuel) (hb, all) h =
    rw (next-frame before b (frames bs) n hb, read_all)
      (ap (λ l. b ∷ l)
        (ap (read_all fuel) (source_on before b (frames bs) (n + 1))
          ∙ read_all_from bs (before ++ frame b []) (n + 1) fuel all (omega arith)))

-- A file of frames whose bodies' lengths fit two bytes is read back as those bodies, in order.
pub read_all-frames :
    (bs : List (List ℕ)) (fuel : ℕ)
    → All (λ b. length b < 65536) bs
    → length bs < fuel
    → read_all fuel (record { bytes = frames bs; pos = 0; frame_count = 0 }) ≡ bs
read_all-frames bs fuel all h = read_all_from bs [] 0 fuel all h
