-- ===== src/Prelude/Words.antt =====
-- Go's unsigned words as native numbers below the modulus, with the wrap-around written out.
use Prim.Native.Nat.{ℕ, ◌+◌, ◌-◌, ◌%◌}

abbrev pub u16_mod : ℕ
u16_mod = 65536

abbrev pub u32_mod : ℕ
u32_mod = 4294967296

abbrev pub u64_mod : ℕ
u64_mod = 18446744073709551616

abbrev pub add16 : ℕ → ℕ → ℕ
add16 a b = (a + b) % u16_mod

-- `-` stops at 0, so the modulus is added first.
abbrev pub sub16 : ℕ → ℕ → ℕ
sub16 a b = (a + u16_mod - b) % u16_mod

abbrev pub sub32 : ℕ → ℕ → ℕ
sub32 a b = (a + u32_mod - b) % u32_mod
