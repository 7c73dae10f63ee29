-- ===== src/Prelude/Sums.antt =====
-- The sum of a number for each element of a list, as elements come and go.
use Prim.Native.Nat.{ℕ, zero, suc, ◌+◌}
use mathlib.Core.Path.{◌≡◌, refl, ap}
use mathlib.Core.Bool.{Bool}
use mathlib.Core.List.{List, [], ◌∷◌, ◌++◌}
use mathlib.Core.Option.{some, some-injective}
use mathlib.Core.Logic.{inl, inr}
use native.Mathlib.Omega.{arith}
use avdecc_lib.Prelude.Tests.{Bool-cases}
use avdecc_lib.Prelude.Lists.{
  length, get_elem?, erase_at, erase_first, find_if, modify_at, modify_first,
}

module _ {A : Type 0} (f : A → ℕ) where
  abbrev pub sum_of : List A → ℕ
  sum_of [] = 0
  sum_of (x ∷ xs) = f x + sum_of xs

  pub sum_of-append : (xs ys : List A) → sum_of (xs ++ ys) ≡ sum_of xs + sum_of ys
  sum_of-append [] ys = omega arith
  sum_of-append (x ∷ xs) ys = omega (arith, sum_of-append xs ys)

  pub sum_of-erase_at :
      (xs : List A) (i : ℕ) {x : A}
      → get_elem? xs i ≡ some x
      → sum_of xs ≡ f x + sum_of (erase_at xs i)
  sum_of-erase_at [] i e = cc
  sum_of-erase_at (y ∷ xs) zero e = ap (λ z. f z + sum_of xs) (some-injective _ _ e)
  sum_of-erase_at (y ∷ xs) (suc i) e = omega (arith, sum_of-erase_at xs i e)

  pub sum_of-erase_first :
      (t : A → Bool) (xs : List A) {x : A}
      → find_if t xs ≡ some x
      → sum_of xs ≡ f x + sum_of (erase_first t xs)
  sum_of-erase_first t [] e = cc
  sum_of-erase_first t (y ∷ xs) e = elim (Bool-cases (t y)) [
    | inl q ↦ rw q (ap (λ z. f z + sum_of xs) (some-injective _ _ (rw q at e)))
    | inr q ↦ rw q (omega (arith, sum_of-erase_first t xs (rw q at e)))
  ]

  pub sum_of-modify_at :
      (g : A → A) (xs : List A) (i : ℕ)
      → ((x : A) → f (g x) ≡ f x)
      → sum_of (modify_at xs i g) ≡ sum_of xs
  sum_of-modify_at g [] i k = refl
  sum_of-modify_at g (x ∷ xs) zero k = omega (arith, k x)
  sum_of-modify_at g (x ∷ xs) (suc i) k = omega (arith, sum_of-modify_at g xs i k)

  pub sum_of-modify_first :
      (t : A → Bool) (g : A → A) (xs : List A)
      → ((x : A) → f (g x) ≡ f x)
      → sum_of (modify_first t g xs) ≡ sum_of xs
  sum_of-modify_first t g [] k = refl
  sum_of-modify_first t g (x ∷ xs) k = elim (Bool-cases (t x)) [
    | inl q ↦ rw q (omega (arith, k x))
    | inr q ↦ rw q (omega (arith, sum_of-modify_first t g xs k))
  ]

pub sum_of-one : {A : Type 0} (xs : List A) → sum_of (λ x. 1) xs ≡ length xs
sum_of-one [] = refl
sum_of-one (x ∷ xs) = omega (arith, sum_of-one xs)
