-- ===== src/Config/Sorted.antt =====
-- The vectors stay sorted, with one object for each index, and hold what was stored last.
use avdecc_lib.Prelude.{
  ℕ, ◌<◌, ◌≡◌, ◌≢◌, refl, inl, inr, true, false, Option, some, List, [], ◌∷◌, ◌++◌, arith,
  if◌then◌else◌, ◌==◌, any, find_if, All, Bool-cases,
}
use mathlib.Core.Path.{◌∙◌}
use avdecc_lib.Config.{eq_index, replace_first, add_or_replace_descriptor_and_sort}

module _ {D : Type 0} (ix : D → ℕ) where
  -- Strictly ascending.
  abbrev pub Ascending : List D → Type 0
  Ascending [] = Unit {0}
  Ascending (x ∷ xs) = All (λ y. ix x < ix y) xs × Ascending xs

  -- The object with the index.
  abbrev pub at_index : ℕ → List D → Option D
  at_index i = find_if (λ x. ix x == i)

  -- What std::sort with operator< does with a vector whose indices are distinct: it puts it in
  -- ascending order, and keeps the objects.
  abbrev pub Apart : List D → Type 0
  Apart [] = Unit {0}
  Apart (x ∷ xs) = All (λ y. ix x ≢ ix y) xs × Apart xs

  pub record IsSort (sort : List D → List D) : Type 0 where
    pub sorts : (xs : List D) → Apart xs → Ascending (sort xs)
    pub keeps : (i : ℕ) (xs : List D) → Apart xs → at_index i (sort xs) ≡ at_index i xs

  Ascending-Apart : (xs : List D) → Ascending xs → Apart xs
  Ascending-Apart [] a = tt
  Ascending-Apart (x ∷ xs) a = (lt_ne xs a.0, Ascending-Apart xs a.1)
    where
      lt_ne : (ys : List D) → All (λ y. ix x < ix y) ys → All (λ y. ix x ≢ ix y) ys
      lt_ne [] h = tt
      lt_ne (y ∷ ys) h = (ground (arith, h.0), lt_ne ys h.1)

  Apart-snoc :
      (d : D) (xs : List D) → any (eq_index ix d) xs ≡ false → Apart xs → Apart (xs ++ d ∷ [])
  Apart-snoc d [] e a = (tt, tt)
  Apart-snoc d (x ∷ xs) e a = (go xs a.0, Apart-snoc d xs (ground (arith, e)) a.1)
    where
      ne : ix x ≢ ix d
      ne = ground (arith, e)

      go : (ys : List D) → All (λ y. ix x ≢ ix y) ys → All (λ y. ix x ≢ ix y) (ys ++ d ∷ [])
      go [] h = (ne, tt)
      go (y ∷ ys) h = (h.0, go ys h.1)

  at_index-snoc :
      (i : ℕ) (d : D) (xs : List D)
      → any (eq_index ix d) xs ≡ false
      → at_index i (xs ++ d ∷ []) ≡ (if ix d == i then some d else at_index i xs)
  at_index-snoc i d [] e = refl
  at_index-snoc i d (x ∷ xs) e = ground (arith, e, at_index-snoc i d xs)

  All-replace :
      (j : ℕ) (d : D) (xs : List D)
      → any (eq_index ix d) xs ≡ true
      → All (λ y. j < ix y) xs
      → All (λ y. j < ix y) (replace_first ix d xs)
  unfolding replace_first
  All-replace j d [] e h = tt
  All-replace j d (x ∷ xs) e h = elim (Bool-cases (ix d == ix x)) [
    | inl q ↦ rw (q, replace_first) (ground (arith, q, h.0), h.1)
    | inr q ↦ rw (q, replace_first) (h.0, All-replace j d xs (ground (arith, e, q)) h.1)
  ]

  Ascending-replace :
      (d : D) (xs : List D)
      → any (eq_index ix d) xs ≡ true
      → Ascending xs
      → Ascending (replace_first ix d xs)
  unfolding replace_first
  Ascending-replace d [] e h = tt
  Ascending-replace d (x ∷ xs) e h = elim (Bool-cases (ix d == ix x)) [
    | inl q ↦ rw (q, replace_first) (above xs h.0 q, h.1)
    | inr q ↦
        rw (q, replace_first)
          (
            All-replace (ix x) d xs (ground (arith, e, q)) h.0,
            Ascending-replace d xs (ground (arith, e, q)) h.1,
          )
  ]
    where
      above :
          (ys : List D)
          → All (λ y. ix x < ix y) ys
          → ((ix d == ix x) ≡ true)
          → All (λ y. ix d < ix y) ys
      above [] k q = tt
      above (y ∷ ys) k q = (ground (arith, k.0, q), above ys k.1 q)

  at_index-replace :
      (i : ℕ) (d : D) (xs : List D)
      → any (eq_index ix d) xs ≡ true
      → at_index i (replace_first ix d xs) ≡ (if ix d == i then some d else at_index i xs)
  unfolding replace_first
  at_index-replace i d [] e = cc
  at_index-replace i d (x ∷ xs) e = elim (Bool-cases (ix d == ix x)) [
    | inl q ↦ rw (q, replace_first) (ground (arith, q))
    | inr q ↦ rw (q, replace_first) (ground (arith, q, e, at_index-replace i d xs))
  ]

  -- If std::sort sorts by the descriptor index, storing an object in a vector in strictly ascending order of the index leaves a vector in strictly ascending order, in which the object is found under its index and under every other index what was found there before, whether an object with that index was there or not.
  pub add_or_replace_lem :
      (sort : List D → List D)
      → IsSort sort
      → (d : D) (xs : List D) → Ascending xs
      → let ys = add_or_replace_descriptor_and_sort ix sort d xs in
        Ascending ys × ((i : ℕ) → at_index i ys ≡ (if ix d == i then some d else at_index i xs))
  unfolding add_or_replace_descriptor_and_sort
  add_or_replace_lem sort s d xs a = elim (Bool-cases (any (eq_index ix d) xs)) [
    | inl e ↦ rw e (Ascending-replace d xs e a, λ i. at_index-replace i d xs e)
    | inr e ↦ rw e (
      s.sorts _ (Apart-snoc d xs e (Ascending-Apart xs a)),
      λ i. s.keeps i _ (Apart-snoc d xs e (Ascending-Apart xs a)) ∙ at_index-snoc i d xs e,
    )
  ]
