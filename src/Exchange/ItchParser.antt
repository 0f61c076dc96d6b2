-- ===== src/Exchange/ItchParser.antt =====
-- The ITCH parser (src/exchange/itch_parser.h, itch_parser.cpp). A message body is a list of bytes;
-- an event holds the fields that the source sets for its type.
pub mod RoundTrip
use nebula_x_simulator.Prelude.{
  ℕ, zero, suc, ◌+◌, ◌*◌, ◌-◌, Bool, true, false, Option, none, some, List, [], ◌∷◌, ◌||◌, ◌&&◌,
  if◌then◌else◌, ltb, ◌==◌, length, get_or, take, drop,
}
use nebula_x_simulator.Exchange.Order.{Side, buy, sell}

pub data ItchEvent : Type 0 where
  add : (locate order_ref : ℕ) (side : Side) (shares price : ℕ) → ItchEvent
  delete : (locate order_ref : ℕ) → ItchEvent
  cancel : (locate order_ref shares : ℕ) → ItchEvent
  replace : (locate order_ref new_order_ref shares price : ℕ) → ItchEvent
  book : (locate : ℕ) → ItchEvent

-- The symbols that directory messages named, with their locates.
pub record ItchParser : Type 0 where
  pub symbol_map : List (List ℕ × ℕ)

abbrev pub byte : List ℕ → ℕ → ℕ
byte m i = get_or m i 0

unfoldable pub rd_u16 : List ℕ → ℕ → ℕ
rd_u16 m i = byte m i * 256 + byte m (i + 1)

unfoldable pub rd_u32 : List ℕ → ℕ → ℕ
rd_u32 m i = byte m i * 16777216 + byte m (i + 1) * 65536 + byte m (i + 2) * 256 + byte m (i + 3)

-- The loop of `rd_u64`, over the bytes left.
unfoldable pub rd_bytes : List ℕ → ℕ → ℕ → ℕ → ℕ
rd_bytes m i zero v = v
rd_bytes m i (suc n) v = rd_bytes m (i + 1) n (v * 256 + byte m i)

unfoldable pub rd_u64 : List ℕ → ℕ → ℕ
unfolding rd_bytes
rd_u64 m i = rd_bytes m i 8 0

-- `std::string s(sym)` ends at the first zero byte.
unfoldable pub c_string : List ℕ → List ℕ
c_string [] = []
c_string (c ∷ cs) = let rest = c ∷ c_string cs in if c == 0 then [] else rest

abbrev pub cons_unless_blank : ℕ → List ℕ → List ℕ
cons_unless_blank c [] = if c == 32 || c == 0 then [] else c ∷ []
cons_unless_blank c (d ∷ s) = c ∷ d ∷ s

-- The loop that drops blanks and zero bytes at the end.
unfoldable pub strip : List ℕ → List ℕ
strip [] = []
strip (c ∷ cs) = cons_unless_blank c (strip cs)

abbrev pub same_bytes : List ℕ → List ℕ → Bool
same_bytes [] [] = true
same_bytes [] (b ∷ t) = false
same_bytes (a ∷ s) [] = false
same_bytes (a ∷ s) (b ∷ t) = a == b && same_bytes s t

unfoldable pub put_symbol : List ℕ → ℕ → List (List ℕ × ℕ) → List (List ℕ × ℕ)
put_symbol s loc [] = (s, loc) ∷ []
put_symbol s loc ((t, k) ∷ m) = if same_bytes t s then (s, loc) ∷ m else (t, k) ∷ put_symbol s loc m

-- `locate_for_symbol`, UINT16_MAX for an unknown one.
unfoldable pub find_symbol : List ℕ → List (List ℕ × ℕ) → ℕ
find_symbol s [] = 65535
find_symbol s ((t, k) ∷ m) = if same_bytes t s then k else find_symbol s m

unfoldable pub locate_for_symbol : ItchParser → List ℕ → ℕ
unfolding find_symbol
locate_for_symbol p s = find_symbol s p.symbol_map

unfoldable pub symbol_of : List ℕ → List ℕ
unfolding c_string strip
symbol_of m = strip (c_string (take 8 (drop 11 m)))

abbrev pub note_symbol : ItchParser → List ℕ → ℕ → ItchParser
note_symbol p [] loc = p
note_symbol p (c ∷ s) loc = record { symbol_map = put_symbol (c ∷ s) loc p.symbol_map }

-- A message type's handler asks for at least `n` bytes.
abbrev pub at_least : ℕ → List ℕ → ItchEvent → Option ItchEvent
at_least n m ev = if ltb (length m) n then none else some ev

-- The `switch` over the message type.
unfoldable pub parse_event : ℕ → List ℕ → Option ItchEvent
unfolding rd_u16 rd_u32 rd_u64
parse_event mt m =
    if mt == b'A' || mt == b'F'
    then at_least 36 m (
        add (rd_u16 m 1) (rd_u64 m 11) (if byte m 19 == b'S' then sell else buy) (rd_u32 m 20)
          (rd_u32 m 32))
    else if mt == b'D'
    then at_least 19 m (delete (rd_u16 m 1) (rd_u64 m 11))
    else if mt == b'X'
    then at_least 23 m (cancel (rd_u16 m 1) (rd_u64 m 11) (rd_u32 m 19))
    else if mt == b'U'
    then at_least 35 m
        (replace (rd_u16 m 1) (rd_u64 m 11) (rd_u64 m 19) (rd_u32 m 27) (rd_u32 m 31))
    else if mt == b'Q'
    then at_least 3 m (book (rd_u16 m 1))
    else none

unfoldable pub feed : ItchParser → List ℕ → ItchParser × Option ItchEvent
unfolding parse_event symbol_of
feed p m =
    if ltb (length m) 3
    then (p, none)
    else if byte m 0 == b'R'
    then (if ltb (length m) 19 then p else note_symbol p (symbol_of m) (rd_u16 m 1), none)
    else (p, parse_event (byte m 0) m)
