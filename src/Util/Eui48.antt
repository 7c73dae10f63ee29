-- ===== src/Util/Eui48.antt =====
-- The two conversions are inverse to each other.
use avdecc_lib.Prelude.{ℕ, ◌<◌, ◌≡◌, ◌%◌, arith}
use avdecc_lib.Util.{convert_uint64_to_eui48, convert_eui48_to_uint64}

-- An address of 48 bits that is split into octets and put together again is itself; of a longer number the lower 48 bits are left.
pub uint64-eui48 :
    (v : ℕ) → convert_eui48_to_uint64 (convert_uint64_to_eui48 v) ≡ v % 281474976710656
unfolding convert_uint64_to_eui48 convert_eui48_to_uint64
uint64-eui48 v = omega arith

-- Six octets that are put together and split again are themselves.
pub eui48-uint64 :
    (a b c d e f : ℕ)
    → a < 256
    → b < 256
    → c < 256
    → d < 256
    → e < 256
    → f < 256
    → convert_uint64_to_eui48 (convert_eui48_to_uint64 (a, b, c, d, e, f)) ≡ (a, b, c, d, e, f)
unfolding convert_uint64_to_eui48 convert_eui48_to_uint64
eui48-uint64 a b c d e f ha hb hc hd he hf = ground arith
