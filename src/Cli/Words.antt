-- ===== src/Cli/Words.antt =====
-- A greedy matching of words with arguments, and when set_value takes a word.
use Prim.Native.String.{String}
use avdecc_lib.Prelude.{
  ℕ, suc, ◌≤◌, ◌≡◌, refl, Bool, true, false, Option, none, some, List, [], ◌∷◌, ◌++◌, if◌then◌else◌,
  leb, length, arith, inl, inr, Bool-cases, Option-cases, ltb, length-append,
}
use avdecc_lib.Cli.Argument.{CText, Argument, set_value, value_of}

module _ (t : CText) (ids : List ℕ) where
  -- The argument with the words that it takes, and the words that are left.
  abbrev pub accept : List String → Argument → Argument × List String
  accept [] a = (a, [])
  accept (w ∷ words) a =
      if (set_value t ids w a).1 then accept words (set_value t ids w a).0 else (a, w ∷ words)

  abbrev pub with_first : Argument → Option (List Argument) → Option (List Argument)
  with_first a none = none
  with_first a (some args) = some (a ∷ args)

  abbrev pub greedy : List Argument → List String → Option (List Argument)
  greedy [] [] = some []
  greedy [] (w ∷ words) = none
  greedy (a ∷ rest) words =
      if leb (accept words a).0.match_min (length (accept words a).0.values)
      then with_first (accept words a).0 (greedy rest (accept words a).1)
      else none

  -- set_value, by cases.
  pub set_value_cases {κ} :
      (P : Argument × Bool → Type κ) (w : String) (a : Argument)
      → P (a, false)
      → ((b : Argument)
          → b.match_min ≡ a.match_min
          → b.match_max ≡ a.match_max
          → length b.values ≡ suc (length a.values)
          → suc (length a.values) ≤ a.match_max
          → P (b, true))
      → P (set_value t ids w a)
  unfolding set_value
  set_value_cases P w a refused taken = elim (Bool-cases (ltb (length a.values) a.match_max)) [
    | inl e ↦ elim (Option-cases (value_of t ids a.kind w)) [
      | inl q ↦ rw (set_value, e, q) refused
      | inr (v, q) ↦
          rw (set_value, e, q)
            (taken (record a { values = a.values ++ v ∷ [] }) refl refl
              (omega (arith, length-append a.values (v ∷ []))) (ground (arith, e)))
    ]
    | inr e ↦ rw (set_value, e) refused
  ]

  -- What is known of a word that is taken, and of one that is not.
  abbrev pub IsNext : Argument → Argument → Type 0
  IsNext b a =
      (b.match_min ≡ a.match_min)
      × (b.match_max ≡ a.match_max)
      × (length b.values ≡ suc (length a.values))

  pub set_value-taken :
      (w : String) (a : Argument)
      → (set_value t ids w a).1 ≡ true
      → IsNext (set_value t ids w a).0 a
  set_value-taken w a =
      set_value_cases (λ x. x.1 ≡ true → IsNext x.0 a) w a (λ e. cc) (λ b m k l h e. (m, k, l))

  pub set_value-refused :
      (w : String) (a : Argument) → (set_value t ids w a).1 ≡ false → (set_value t ids w a).0 ≡ a
  set_value-refused w a =
      set_value_cases (λ x. x.1 ≡ false → x.0 ≡ a) w a (λ e. refl) (λ b m k l h e. cc)

  -- A full argument takes nothing.
  pub set_value-full :
      (w : String) (a : Argument) → a.match_max ≤ length a.values → (set_value t ids w a).1 ≡ false
  set_value-full w a h =
      set_value_cases (λ x. x.1 ≡ false) w a refl (λ b m k l g. ground (arith, h, g))

  pub accept-full :
      (words : List String) (a : Argument)
      → a.match_max ≤ length a.values
      → accept words a ≡ (a, words)
  accept-full [] a h = refl
  accept-full (w ∷ words) a h = rw (set_value-full w a h) refl
