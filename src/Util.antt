-- ===== src/Util.antt =====
-- controller/lib/src/util_imp.cpp: the conversions of MAC addresses and the names. A uint8_t[6] is a tuple of
-- octets, the shift by 8 * k bits of an unsigned number a division or a product by 2 ^ (8 * k),
-- and the `or` of the shifted octets, which have no bit in common, their sum.
pub mod Eui48
pub mod Names
pub mod Lookup
pub mod Formats
mod Tests
use avdecc_lib.Prelude.{ℕ, ◌+◌, ◌*◌, ◌/◌, ◌^◌, u8}

abbrev pub Octets : Type 0
Octets = ℕ × ℕ × ℕ × ℕ × ℕ × ℕ

unfoldable pub convert_uint64_to_eui48 : ℕ → Octets
convert_uint64_to_eui48 v = (
  u8 (v / 1099511627776),
  u8 (v / 4294967296),
  u8 (v / 16777216),
  u8 (v / 65536),
  u8 (v / 256),
  u8 v,
)

unfoldable pub convert_eui48_to_uint64 : Octets → ℕ
convert_eui48_to_uint64 (a, b, c, d, e, f) =
    a * 1099511627776 + b * 4294967296 + c * 16777216 + d * 65536 + e * 256 + f
