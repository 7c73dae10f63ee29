-- ===== src/Util/Formats.antt =====
-- The table of IEEE 1722 stream formats, read in both directions.
use Prim.Native.String.{String}
use text.Mathlib.Text.{◌==◌}
use text.Mathlib.TextPositions.{eq_refl}
use avdecc_lib.Prelude.{
  ℕ, ◌≡◌, ◌≢◌, refl, sym, Bool, true, false, not, ◌&&◌, List, [], ◌∷◌, if◌then◌else◌, arith,
  Bool-cases, inl, inr,
}
use avdecc_lib.Prelude as Prelude
use avdecc_lib.Util.Names.{
  format_name, format_value, ieee1722_format_table, ieee1722_format_name_to_value,
  ieee1722_format_value_to_name,
}

-- No entry has the name, and no two entries have one name.
abbrev unnamed : String → List (ℕ × String) → Bool
unnamed s [] = not (s == "UNKNOWN")
unnamed s ((fmt, name) ∷ table) = not (s == name) && unnamed s table

abbrev well_named : List (ℕ × String) → Bool
well_named [] = true
well_named ((fmt, name) ∷ table) = unnamed name table && well_named table

-- A name that is read from the rest of the table is not the name in front.
format_name-unnamed :
    (s : String) (table : List (ℕ × String)) (v : ℕ)
    → unnamed s table ≡ true
    → (s == format_name table v) ≡ false
unfolding format_name
format_name-unnamed s [] v h = ground (arith, h)
format_name-unnamed s ((fmt, name) ∷ table) v h = elim (Bool-cases (Prelude.◌==◌ fmt v)) [
  | inl e ↦ rw (format_name, e) (ground (arith, h))
  | inr e ↦ rw (format_name, e) (format_name-unnamed s table v (ground (arith, h)))
]

format_value-format_name :
    (table : List (ℕ × String)) (v : ℕ)
    → well_named table ≡ true
    → format_name table v ≢ "UNKNOWN"
    → format_value table (format_name table v) ≡ v
unfolding format_name format_value
format_value-format_name [] v h k = ground (arith, k refl)
format_value-format_name ((fmt, name) ∷ table) v h k = elim (Bool-cases (Prelude.◌==◌ fmt v)) [
  | inl e ↦ rw (format_name, e, eq_refl name) (ground (arith, e))
  | inr e ↦
      rw (format_name, e, format_name-unnamed name table v (ground (arith, h)))
        (format_value-format_name table v (ground (arith, h)) (rw e at k))
]

-- A stream format whose name is not UNKNOWN is what its name is converted back to.
pub format_name_to_value_to_name :
    (v : ℕ)
    → ieee1722_format_value_to_name v ≢ "UNKNOWN"
    → ieee1722_format_name_to_value (ieee1722_format_value_to_name v) ≡ v
format_name_to_value_to_name v h = format_value-format_name ieee1722_format_table v refl h
