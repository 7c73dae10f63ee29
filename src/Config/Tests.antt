-- ===== src/Config/Tests.antt =====
-- Storing descriptors whose index is their first component, with an insertion sort for std::sort.
use avdecc_lib.Prelude.{
  ℕ, ◌+◌, ◌<◌, ◌≡◌, ◌≢◌, refl, inl, inr, true, some, List, [], ◌∷◌, arith, if◌then◌else◌, ◌==◌, ltb,
  All, Bool-cases,
}
use avdecc_lib.Config.{
  replace_first, add_or_replace_descriptor_and_sort, vec_init, desc_type_vec_init,
  desc_count_vec_init, are_desc_type_and_index_in_config,
}
use avdecc_lib.Config.Sorted.{Ascending, Apart, at_index, IsSort, add_or_replace_lem}

abbrev TestDesc : Type 0
TestDesc = ℕ × ℕ

abbrev ix : TestDesc → ℕ
ix d = d.0

abbrev insert : TestDesc → List TestDesc → List TestDesc
insert d [] = d ∷ []
insert d (x ∷ xs) = if ltb (ix d) (ix x) then d ∷ x ∷ xs else x ∷ insert d xs

abbrev insertion_sort : List TestDesc → List TestDesc
insertion_sort [] = []
insertion_sort (x ∷ xs) = insert x (insertion_sort xs)

All-insert :
    (P : TestDesc → Type 0) (d : TestDesc) (xs : List TestDesc)
    → P d
    → All P xs
    → All P (insert d xs)
All-insert P d [] h k = (h, tt)
All-insert P d (x ∷ xs) h k = elim (Bool-cases (ltb (ix d) (ix x))) [
  | inl q ↦ rw q (h, k)
  | inr q ↦ rw q (k.0, All-insert P d xs h k.1)
]

All-insertion_sort :
    (P : TestDesc → Type 0) (xs : List TestDesc) → All P xs → All P (insertion_sort xs)
All-insertion_sort P [] h = tt
All-insertion_sort P (x ∷ xs) h =
    All-insert P x (insertion_sort xs) h.0 (All-insertion_sort P xs h.1)

Ascending-insert :
    (d : TestDesc) (xs : List TestDesc)
    → All (λ y. ix d ≢ ix y) xs
    → Ascending ix xs
    → Ascending ix (insert d xs)
Ascending-insert d [] n a = (tt, tt)
Ascending-insert d (x ∷ xs) n a = elim (Bool-cases (ltb (ix d) (ix x))) [
  | inl q ↦ rw q ((ground (arith, q), above xs q a.0), a)
  | inr q ↦ rw q (
    All-insert (λ y. ix x < ix y) d xs (ground (arith, q, n.0)) a.0,
    Ascending-insert d xs n.1 a.1,
  )
]
  where
    above :
        (ys : List TestDesc)
        → ltb (ix d) (ix x) ≡ true
        → All (λ y. ix x < ix y) ys
        → All (λ y. ix d < ix y) ys
    above [] q h = tt
    above (y ∷ ys) q h = (ground (arith, q, h.0), above ys q h.1)

at_index-insert :
    (i : ℕ) (d : TestDesc) (xs : List TestDesc)
    → All (λ y. ix d ≢ ix y) xs
    → at_index ix i (insert d xs) ≡ (if ix d == i then some d else at_index ix i xs)
at_index-insert i d [] n = refl
at_index-insert i d (x ∷ xs) n = ground (arith, n.0, at_index-insert i d xs n.1)

insertion_sort-Ascending : (xs : List TestDesc) → Apart ix xs → Ascending ix (insertion_sort xs)
insertion_sort-Ascending [] a = tt
insertion_sort-Ascending (x ∷ xs) a =
    Ascending-insert x (insertion_sort xs) (All-insertion_sort (λ y. ix x ≢ ix y) xs a.0)
      (insertion_sort-Ascending xs a.1)

at_index-insertion_sort :
    (i : ℕ) (xs : List TestDesc)
    → Apart ix xs
    → at_index ix i (insertion_sort xs) ≡ at_index ix i xs
at_index-insertion_sort i [] a = refl
at_index-insertion_sort i (x ∷ xs) a =
    rw
      (
        at_index-insert i x (insertion_sort xs) (All-insertion_sort (λ y. ix x ≢ ix y) xs a.0),
        at_index-insertion_sort i xs a.1,
      )
      refl

insertion_sort-IsSort : IsSort ix insertion_sort
insertion_sort-IsSort = record { sorts = insertion_sort-Ascending; keeps = at_index-insertion_sort }

abbrev two_descs : List TestDesc
two_descs = (1, 10) ∷ (4, 40) ∷ []

stored :
    add_or_replace_descriptor_and_sort ix insertion_sort (3, 30) two_descs
    ≡ (1, 10) ∷ (3, 30) ∷ (4, 40) ∷ []
unfolding add_or_replace_descriptor_and_sort
stored = refl

replaced :
    add_or_replace_descriptor_and_sort ix insertion_sort (4, 44) two_descs ≡ (1, 10) ∷ (4, 44) ∷ []
unfolding add_or_replace_descriptor_and_sort replace_first
replaced = refl

is_in_config :
    are_desc_type_and_index_in_config 7 1
      (desc_type_vec_init (λ i. i + 5) 2 2)
      (desc_count_vec_init (λ i. i) 0 2)
    ≡ true
unfolding are_desc_type_and_index_in_config vec_init
is_in_config = refl

add_or_replace_lem_example :
    at_index ix 3 (add_or_replace_descriptor_and_sort ix insertion_sort (3, 30) two_descs)
    ≡ some (3, 30)
add_or_replace_lem_example =
    (add_or_replace_lem ix insertion_sort insertion_sort-IsSort (3, 30) two_descs
        ((omega arith, tt), (tt, tt))).1
      3
