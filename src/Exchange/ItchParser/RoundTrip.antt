-- ===== src/Exchange/ItchParser/RoundTrip.antt =====
-- The parser reads back what the ITCH layout writes (src/exchange/itch_parser.cpp; the layout is
-- that of scripts/gen_test_data.py).
use nebula_x_simulator.Prelude.{
  ℕ, ◌+◌, ◌*◌, ◌/◌, ◌%◌, ◌<◌, ◌≡◌, ◌≢◌, refl, List, [], ◌∷◌, arith, some, u32_mod, u64_mod,
}
use nebula_x_simulator.Exchange.Order.{Side, buy, sell, invalid}
use nebula_x_simulator.Exchange.ItchParser.{
  ItchEvent, add, delete, cancel, replace, book, ItchParser, feed,
}

-- Big-endian fields in front of the rest.
abbrev pub be16 : ℕ → List ℕ → List ℕ
be16 n r = n / 256 % 256 ∷ n % 256 ∷ r

abbrev pub be32 : ℕ → List ℕ → List ℕ
be32 n r = n / 16777216 % 256 ∷ n / 65536 % 256 ∷ n / 256 % 256 ∷ n % 256 ∷ r

abbrev pub be64 : ℕ → List ℕ → List ℕ
be64 n r =
    n / 72057594037927936 % 256
    ∷ n / 281474976710656 % 256
    ∷ n / 1099511627776 % 256
    ∷ n / 4294967296 % 256
    ∷ n / 16777216 % 256
    ∷ n / 65536 % 256
    ∷ n / 256 % 256
    ∷ n % 256
    ∷ r

-- Tracking number and timestamp, which the parser skips.
abbrev pub skipped : List ℕ → List ℕ
skipped r = 0 ∷ 0 ∷ 0 ∷ 0 ∷ 0 ∷ 0 ∷ 0 ∷ 0 ∷ r

abbrev pub side_byte : Side → ℕ
side_byte sell = b'S'
side_byte _ = b'B'

-- The message body of an event; an added order's symbol is blank.
abbrev pub encode : ItchEvent → List ℕ
encode (add locate ref side shares price) =
    b'A' ∷ be16 locate (skipped (be64 ref (side_byte side ∷ be32 shares (skipped (be32 price [])))))
encode (delete locate ref) = b'D' ∷ be16 locate (skipped (be64 ref []))
encode (cancel locate ref shares) = b'X' ∷ be16 locate (skipped (be64 ref (be32 shares [])))
encode (replace locate ref new_ref shares price) =
    b'U' ∷ be16 locate (skipped (be64 ref (be64 new_ref (be32 shares (be32 price [])))))
encode (book locate) = b'Q' ∷ be16 locate []

-- The fields fit their widths, and an added order has a side.
abbrev pub Fits : ItchEvent → Type 0
Fits (add locate ref side shares price) =
    (locate < 65536) × (ref < u64_mod) × (shares < u32_mod) × (price < u32_mod) × (side ≢ invalid)
Fits (delete locate ref) = (locate < 65536) × (ref < u64_mod)
Fits (cancel locate ref shares) = (locate < 65536) × (ref < u64_mod) × (shares < u32_mod)
Fits (replace locate ref new_ref shares price) =
    (locate < 65536)
    × (ref < u64_mod)
    × (new_ref < u64_mod)
    × (shares < u32_mod)
    × (price < u32_mod)
Fits (book locate) = locate < 65536

rd_be16 : (n : ℕ) → n < 65536 → n / 256 % 256 * 256 + n % 256 ≡ n
rd_be16 n h = omega arith

rd_be32 :
    (n : ℕ)
    → n < u32_mod
    → n / 16777216 % 256 * 16777216 + n / 65536 % 256 * 65536 + n / 256 % 256 * 256 + n % 256 ≡ n
rd_be32 n h = omega arith

rd_be64 :
    (n : ℕ)
    → n < u64_mod
    → (((((((0 * 256 + n / 72057594037927936 % 256) * 256 + n / 281474976710656 % 256) * 256
                            + n / 1099511627776 % 256)
                          * 256
                        + n / 4294967296 % 256)
                      * 256
                    + n / 16777216 % 256)
                  * 256
                + n / 65536 % 256)
              * 256
            + n / 256 % 256)
          * 256
        + n % 256
      ≡ n
rd_be64 n h = omega arith

-- A message body that the layout writes for an event whose fields fit is read as that event, and
-- the symbol table stays.
pub feed-encode : (p : ItchParser) (ev : ItchEvent) → Fits ev → feed p (encode ev) ≡ (p, some ev)
unfolding feed
feed-encode p (delete locate ref) (h, k) = rw (rd_be16 locate h, rd_be64 ref k)
feed-encode p (cancel locate ref shares) (h, k, l) =
    rw (rd_be16 locate h, rd_be64 ref k, rd_be32 shares l)
feed-encode p (replace locate ref new_ref shares price) (h, k, l, m, n) =
    rw (rd_be16 locate h, rd_be64 ref k, rd_be64 new_ref l, rd_be32 shares m, rd_be32 price n)
feed-encode p (book locate) h = rw (rd_be16 locate h)
feed-encode p (add locate ref sell shares price) (h, k, l, m, _) =
    rw (rd_be16 locate h, rd_be64 ref k, rd_be32 shares l, rd_be32 price m)
feed-encode p (add locate ref buy shares price) (h, k, l, m, _) =
    rw (rd_be16 locate h, rd_be64 ref k, rd_be32 shares l, rd_be32 price m)
feed-encode p (add locate ref invalid shares price) (h, k, l, m, n) = absurd (n refl)
