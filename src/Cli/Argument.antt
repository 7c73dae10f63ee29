-- ===== src/Cli/Argument.antt =====
-- cli_argument.cpp: an argument of a command, and whether it takes a word. The C functions atoi,
-- strtoull and strtoul are parameters.
use Prim.Native.String.{String}
use text.Mathlib.Text.{◌==◌}
use avdecc_lib.Prelude.{
  ℕ, suc, ◌%◌, Bool, true, false, not, ◌||◌, ◌&&◌, Option, none, some, List, [], ◌∷◌, ◌++◌,
  if◌then◌else◌, ltb, u32, length,
}
use avdecc_lib.Prelude as Prelude

-- The text functions, as the program uses them: an int as its value modulo 2^32, and none where no
-- digit is read.
pub record CText : Type 0 where
  pub atoi : String → ℕ
  pub strtoull_16 : String → Option ℕ
  pub strtoul_10 : String → Option ℕ

-- The three classes.
pub data Kind : Type 0 where
  cli_argument_int cli_argument_end_station cli_argument_string : Kind

pub data Value : Type 0 where
  int_value : ℕ → Value
  index_value : ℕ → Value
  str_value : String → Value

-- m_is_valid is left out: it is true exactly when there are values. match_min and match_max are those of
-- the program, small numbers or UINT_MAX, so that their conversion to int changes no comparison.
pub record Argument : Type 0 where
  pub kind : Kind
  pub name : String
  pub match_min : ℕ
  pub match_max : ℕ
  pub values : List Value

-- An argument that matches one word, the default of the constructors.
abbrev pub once : Kind → String → Argument
once k n = record { kind = k; name = n; match_min = 1; match_max = 1; values = [] }

abbrev pub clear : Argument → Argument
clear a = record a { values = [] }

abbrev pub get_all_value_count : Argument → ℕ
get_all_value_count a = length a.values

-- controller_imp::is_end_station_found_by_entity_id, over the entity ids of the end stations.
unfoldable pub is_end_station_found_by_entity_id : ℕ → List ℕ → Option ℕ
is_end_station_found_by_entity_id id [] = none
is_end_station_found_by_entity_id id (e ∷ es) =
    let rest = is_end_station_found_by_entity_id id es in
    if Prelude.◌==◌ e id then some 0 else elim rest [ none ↦ none | some i ↦ some (suc i) ]

module _ (t : CText) (entity_ids : List ℕ) where
  unfoldable pub get_end_station_index : String → Option ℕ
  get_end_station_index arg =
      let found : Option ℕ = elim (t.strtoull_16 arg) [
        | none ↦ none
        | some id ↦ is_end_station_found_by_entity_id id entity_ids
      ] in
      elim found [
        | some i ↦ some i
        | none ↦ elim (t.strtoul_10 arg) [ none ↦ none | some n ↦ some (u32 n) ]
      ]

  is_empty : String → Bool
  is_empty s = s == ""

  -- The value of a word, for the class of the argument.
  unfoldable pub value_of : Kind → String → Option Value
  unfolding is_empty
  value_of cli_argument_int s =
      if (s == "0") || not (Prelude.◌==◌ (t.atoi s) 0) then some (int_value (t.atoi s)) else none
  value_of cli_argument_end_station s = elim (get_end_station_index s) [
    | none ↦ none
    | some i ↦ some (index_value i)
  ]
  value_of cli_argument_string s = if is_empty s then none else some (str_value s)

  -- The argument, and whether the word is taken.
  unfoldable pub set_value : String → Argument → Argument × Bool
  set_value s a =
      if ltb (length a.values) a.match_max
      then elim (value_of a.kind s) [
        | none ↦ (a, false)
        | some v ↦ (record a { values = a.values ++ v ∷ [] }, true)
      ]
      else (a, false)
