-- ===== src/Prelude/Words.antt =====
-- Fixed-width unsigned arithmetic: a value is a native number, and a store wraps.
use Prim.Native.Nat.{ℕ, ◌%◌}

abbrev pub u8 : ℕ → ℕ
u8 n = n % 256

abbrev pub u16 : ℕ → ℕ
u16 n = n % 65536

abbrev pub u32_mod : ℕ
u32_mod = 4294967296

abbrev pub u32 : ℕ → ℕ
u32 n = n % u32_mod

-- UINT_MAX, as an argument of type uint32_t.
abbrev pub uint_max : ℕ
uint_max = 4294967295
