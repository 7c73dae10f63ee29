-- ===== src/Util/Lookup.antt =====
-- The tables of names, read in both directions.
use Prim.Native.String.{String}
use text.Mathlib.Text.{◌==◌}
use text.Mathlib.TextPositions.{eq_refl}
use text.Mathlib.TextEquality.{eq_iff}
use avdecc_lib.Prelude.{
  ℕ, zero, suc, ◌+◌, ◌<◌, ◌≡◌, ◌≢◌, refl, ap, sym, Bool, true, false, not, ◌&&◌, Option, some, List,
  [], ◌∷◌, ltb, get_elem?, All, arith, Bool-cases, inl, inr, length,
}
use mathlib.Core.Path.{◌∙◌, subst}
use avdecc_lib.Util.Names.{
  value_of, name_of, aem_cmds_names, aem_descs_names, acmp_cmds_names, total_num_of_aem_cmds,
  total_num_of_aem_descs, total_num_of_acmp_cmds, aem_cmd_value_to_name, aem_desc_value_to_name,
  acmp_cmd_value_to_name, aem_cmd_name_to_value, aem_desc_name_to_value, acmp_cmd_name_to_value,
}

-- No name of the list is the name.
abbrev fresh : String → List String → Bool
fresh name [] = true
fresh name (x ∷ names) = not (x == name) && fresh name names

abbrev distinct : List String → Bool
distinct [] = true
distinct (x ∷ names) = fresh x names && distinct names

fresh-get_elem? :
    (name : String) (names : List String) (v : ℕ) (s : String)
    → fresh name names ≡ true
    → get_elem? names v ≡ some s
    → (s == name) ≡ false
fresh-get_elem? name [] v s h e = cc
fresh-get_elem? name (x ∷ names) zero s h e =
    let q : x ≡ s = cc in subst (λ y. (y == name) ≡ false) q (ground (arith, h))
fresh-get_elem? name (x ∷ names) (suc v) s h e =
    fresh-get_elem? name names v s (ground (arith, h)) e

value_of-get_elem? :
    (names : List String) (n i error v : ℕ) (s : String)
    → distinct names ≡ true
    → get_elem? names v ≡ some s
    → v < n
    → value_of names n i error s ≡ i + v
unfolding value_of
value_of-get_elem? names zero i error v s d e h = ground (arith, h)
value_of-get_elem? [] (suc n) i error v s d e h = cc
value_of-get_elem? (x ∷ names) (suc n) i error zero s d e h =
    let q : x ≡ s = cc in
    let k : (s == x) ≡ true = subst (λ y. (s == y) ≡ true) (sym q) (eq_refl s) in
    rw (value_of, k) (omega arith)
value_of-get_elem? (x ∷ names) (suc n) i error (suc v) s d e h =
    let k = fresh-get_elem? x names v s (ground (arith, d)) e in
    rw (value_of, k)
      (value_of-get_elem? names n (suc i) error v s (ground (arith, d)) e (omega (arith, h))
        ∙ omega arith)

-- A name that is found stands at its value.
abbrev Found : List String → ℕ → ℕ → ℕ → String → Type 0
Found names n i r s = (k : ℕ) × (k < n) × (r ≡ i + k) × (get_elem? names k ≡ some s)

value_of-Found :
    (names : List String) (n i error : ℕ) (s : String)
    → value_of names n i error s ≢ error
    → Found names n i (value_of names n i error s) s
unfolding value_of
value_of-Found names zero i error s h = ground (arith, h refl)
value_of-Found [] (suc n) i error s h = ground (arith, h refl)
value_of-Found (x ∷ names) (suc n) i error s h = elim (Bool-cases (s == x)) [
  | inl e ↦ rw (value_of, e) (zero, omega arith, omega arith, ap some (sym ((eq_iff s x).0 e)))
  | inr e ↦
      let (k, l, q, g) = value_of-Found names n (suc i) error s (rw (value_of, e) at h) in
      rw (value_of, e) (suc k, omega (arith, l), q ∙ omega arith, g)
]

-- The three tables that are read in both directions.
pub data Table : Type 0 where
  aem_cmds aem_descs acmp_cmds : Table

abbrev pub names_of : Table → List String
names_of aem_cmds = aem_cmds_names
names_of aem_descs = aem_descs_names
names_of acmp_cmds = acmp_cmds_names

abbrev pub total_of : Table → ℕ
total_of aem_cmds = total_num_of_aem_cmds
total_of aem_descs = total_num_of_aem_descs
total_of acmp_cmds = total_num_of_acmp_cmds

abbrev pub value_to_name : Table → ℕ → Option String
value_to_name aem_cmds v = aem_cmd_value_to_name v
value_to_name aem_descs v = aem_desc_value_to_name v
value_to_name acmp_cmds v = acmp_cmd_value_to_name v

abbrev pub name_to_value : (String → String) → Table → String → ℕ
name_to_value up aem_cmds s = aem_cmd_name_to_value up s
name_to_value up aem_descs s = aem_desc_name_to_value up s
name_to_value up acmp_cmds s = acmp_cmd_name_to_value up s

get_elem?-below :
    (names : List String) (v : ℕ) → v < length names → (s : String) × (get_elem? names v ≡ some s)
get_elem?-below [] v h = ground (arith, h)
get_elem?-below (x ∷ names) zero h = (x, refl)
get_elem?-below (x ∷ names) (suc v) h = get_elem?-below names v (omega (arith, h))

All-at :
    (up : String → String) (names : List String) (v : ℕ) (s : String)
    → All (λ x. up x ≡ x) names
    → get_elem? names v ≡ some s
    → up s ≡ s
All-at up [] v s a e = cc
All-at up (x ∷ names) zero s a e = let q : x ≡ s = cc in subst (λ y. up y ≡ y) q a.0
All-at up (x ∷ names) (suc v) s a e = All-at up names v s a.1 e

zero_plus : (n : ℕ) → 0 + n ≡ n
zero_plus n = omega arith

name_of-at :
    (up : String → String) (names : List String) (total error v : ℕ)
    → distinct names ≡ true
    → length names ≡ total
    → All (λ x. up x ≡ x) names
    → v < total
    → (s : String) × (name_of names total v ≡ some s) × (value_of names total 0 error (up s) ≡ v)
name_of-at up names total error v d l a h =
    let (s, e) = get_elem?-below names v (omega (arith, h, l)) in
    let b : ltb v total ≡ true = ground (arith, h) in
    (
      s,
      rw b e,
      rw (All-at up names v s a e) (value_of-get_elem? names total 0 error v s d e h ∙ zero_plus v),
    )

-- If toupper leaves the names of a table unchanged, the name of every value below the number of values of the table is read within the table, and is converted back to that value: for AEM commands, AEM descriptors and ACMP commands.
pub value_to_name-name_to_value :
    (up : String → String) (k : Table) (v : ℕ)
    → All (λ s. up s ≡ s) (names_of k)
    → v < total_of k
    → (s : String) × (value_to_name k v ≡ some s) × (name_to_value up k s ≡ v)
value_to_name-name_to_value up aem_cmds v a h =
    name_of-at up aem_cmds_names total_num_of_aem_cmds 65535 v refl refl a h
value_to_name-name_to_value up aem_descs v a h =
    name_of-at up aem_descs_names total_num_of_aem_descs 65535 v refl refl a h
value_to_name-name_to_value up acmp_cmds v a h =
    name_of-at up acmp_cmds_names total_num_of_acmp_cmds 65535 v refl refl a h

name_of-found :
    (names : List String) (total error : ℕ) (s : String)
    → value_of names total 0 error s ≢ error
    → name_of names total (value_of names total 0 error s) ≡ some s
name_of-found names total error s h =
    let (k, l, q, g) = value_of-Found names total 0 error s h in
    let b : ltb (value_of names total 0 error s) total ≡ true = ground (arith, q, l) in
    rw b (ap (get_elem? names) (q ∙ zero_plus k) ∙ g)

-- A text that is converted to a value other than the error value 0xffff is, in upper case, the name of that value: for AEM commands, AEM descriptors and ACMP commands.
pub name_to_value-value_to_name :
    (up : String → String) (k : Table) (s : String)
    → name_to_value up k s ≢ 65535
    → value_to_name k (name_to_value up k s) ≡ some (up s)
name_to_value-value_to_name up aem_cmds s h =
    name_of-found aem_cmds_names total_num_of_aem_cmds 65535 (up s) h
name_to_value-value_to_name up aem_descs s h =
    name_of-found aem_descs_names total_num_of_aem_descs 65535 (up s) h
name_to_value-value_to_name up acmp_cmds s h =
    name_of-found acmp_cmds_names total_num_of_acmp_cmds 65535 (up s) h
