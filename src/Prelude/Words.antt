-- ===== src/Prelude/Words.antt =====
-- Unsigned machine words: a value is a number below the modulus, and every operation wraps.
use Prim.Native.Nat.{ℕ, ◌+◌, ◌-◌, ◌%◌}

-- 2 ^ 32 and 2 ^ 64.
abbrev pub u32_mod : ℕ
u32_mod = 4294967296

abbrev pub u64_mod : ℕ
u64_mod = 18446744073709551616

-- UINT32_MAX, which the code uses as the null index.
abbrev pub u32_max : ℕ
u32_max = 4294967295

abbrev pub add32 : ℕ → ℕ → ℕ
add32 a b = (a + b) % u32_mod

abbrev pub sub32 : ℕ → ℕ → ℕ
sub32 a b = (a + u32_mod - b) % u32_mod

abbrev pub add64 : ℕ → ℕ → ℕ
add64 a b = (a + b) % u64_mod

abbrev pub sub64 : ℕ → ℕ → ℕ
sub64 a b = (a + u64_mod - b) % u64_mod
