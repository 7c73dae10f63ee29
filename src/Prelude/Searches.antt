-- ===== src/Prelude/Searches.antt =====
-- What a search finds and an erasure removes, counted.
use Prim.Native.Nat.{ℕ, zero, suc}
use mathlib.Core.Path.{◌≡◌, refl, ap}
use mathlib.Core.Bool.{Bool}
use mathlib.Core.List.{List, [], ◌∷◌}
use mathlib.Core.Option.{some, some-injective}
use mathlib.Core.Logic.{inl, inr}
use native.Mathlib.Omega.{arith}
use avdecc_lib.Prelude.Tests.{Bool-cases}
use avdecc_lib.Prelude.Lists.{length, get_elem?, erase_at, erase_first, find_if, modify_first, All}

pub length-erase_at-some :
    {A : Type 0} (xs : List A) (i : ℕ) {x : A}
    → get_elem? xs i ≡ some x
    → length xs ≡ suc (length (erase_at xs i))
length-erase_at-some [] i e = cc
length-erase_at-some (y ∷ xs) zero e = refl
length-erase_at-some (y ∷ xs) (suc i) e = omega (arith, length-erase_at-some xs i e)

pub length-erase_first :
    {A : Type 0} (t : A → Bool) (xs : List A) {x : A}
    → find_if t xs ≡ some x
    → length xs ≡ suc (length (erase_first t xs))
length-erase_first t [] e = cc
length-erase_first t (y ∷ xs) e = elim (Bool-cases (t y)) [
  | inl q ↦ rw q refl
  | inr q ↦ rw q (ap suc (length-erase_first t xs (rw q at e)))
]

pub All-modify_first {κ} :
    {A : Type 0} (P : A → Type κ) (t : A → Bool) (f : A → A) (xs : List A)
    → ((x : A) → P x → P (f x))
    → All P xs
    → All P (modify_first t f xs)
All-modify_first P t f [] k h = tt
All-modify_first P t f (x ∷ xs) k h = elim (Bool-cases (t x)) [
  | inl q ↦ rw q (k x h.0, h.1)
  | inr q ↦ rw q (h.0, All-modify_first P t f xs k h.1)
]

pub All-find_if {κ} :
    {A : Type 0} (P : A → Type κ) (t : A → Bool) (xs : List A) {x : A}
    → All P xs
    → find_if t xs ≡ some x
    → P x
All-find_if P t [] h e = cc
All-find_if P t (y ∷ xs) h e = elim (Bool-cases (t y)) [
  | inl q ↦ rw (some-injective _ _ (rw q at e)) at h.0
  | inr q ↦ All-find_if P t xs h.1 (rw q at e)
]
