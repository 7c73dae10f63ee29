-- ===== src/Config.antt =====
-- controller/lib/src/configuration_descriptor_imp.cpp: the vectors of a configuration's descriptor
-- objects. Two objects compare by their descriptor index, as the operators of
-- descriptor_base_imp.cpp do. std::sort, of the C++ library, is a parameter.
pub mod Sorted
pub mod Objects
pub mod Vectors
pub mod Lookups
pub mod Positions
mod Tests
use avdecc_lib.Prelude.{
  ℕ, zero, suc, ◌+◌, Bool, true, false, Option, none, some, List, [], ◌∷◌, ◌++◌, if◌then◌else◌,
  ◌==◌, ltb, any, get_elem?, length,
}

module _ {D : Type 0} (descriptor_index : D → ℕ) where
  -- operator== and operator<.
  abbrev pub eq_index : D → D → Bool
  eq_index a b = descriptor_index a == descriptor_index b

  abbrev pub lt_index : D → D → Bool
  lt_index a b = ltb (descriptor_index a) (descriptor_index b)

  -- The new object in the place of the first one that is found.
  unfoldable pub replace_first : D → List D → List D
  replace_first d [] = []
  replace_first d (x ∷ xs) = if eq_index d x then d ∷ xs else x ∷ replace_first d xs

  unfoldable pub add_or_replace_descriptor_and_sort : (List D → List D) → D → List D → List D
  add_or_replace_descriptor_and_sort sort d desc_vec =
      if any (eq_index d) desc_vec then replace_first d desc_vec else sort (desc_vec ++ d ∷ [])

-- get_<type>_desc_by_index: a position in the vector; none is NULL, logged.
abbrev pub get_desc_by_index : {D : Type 0} → ℕ → List D → Option D
get_desc_by_index i desc_vec = get_elem? desc_vec i

-- desc_type_vec_init and desc_count_vec_init: 16-bit reads every four octets from `pos` on, of the
-- frame accessor jdksavdecc_uint16_get; the loops run `n` times.
unfoldable pub vec_init : (ℕ → ℕ) → ℕ → ℕ → ℕ → List ℕ
vec_init uint16_get pos offset zero = []
vec_init uint16_get pos offset (suc n) =
    uint16_get (pos + offset) ∷ vec_init uint16_get pos (offset + 4) n

abbrev pub desc_type_vec_init : (ℕ → ℕ) → ℕ → ℕ → List ℕ
desc_type_vec_init uint16_get pos n = vec_init uint16_get pos 0 n

abbrev pub desc_count_vec_init : (ℕ → ℕ) → ℕ → ℕ → List ℕ
desc_count_vec_init uint16_get pos n = vec_init uint16_get pos 2 n

-- The loop over the two vectors, which have one length; a shorter count vector would throw.
unfoldable pub are_desc_type_and_index_in_config : ℕ → ℕ → List ℕ → List ℕ → Bool
are_desc_type_and_index_in_config desc_type i (t ∷ ts) (c ∷ cs) =
    let rest = are_desc_type_and_index_in_config desc_type i ts cs in
    if t == desc_type then (if ltb i c then true else rest) else rest
are_desc_type_and_index_in_config desc_type i _ _ = false
