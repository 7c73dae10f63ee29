-- ===== src/Cli/Calls.antt =====
-- An outcome comes from one of the formats of the tree.
use Prim.Native.String.{String}
use text.Mathlib.Text.{◌==◌}
use avdecc_lib.Prelude.{
  ℕ, ◌≡◌, refl, Bool, true, ◌&&◌, Option, none, some, List, [], ◌∷◌, arith, inl, inr, Bool-cases,
  Option-cases,
}
use mathlib.Core.Path.{subst}
use avdecc_lib.Cli.Argument.{CText}
use avdecc_lib.Cli.Format.{Format, CliFptr, call}
use avdecc_lib.Cli.Format as Format
use avdecc_lib.Cli.Command.{
  CliCommand, SubCommands, command, no_more, sub_command, Outcome, action, print_help_details,
  try_formats, with_formats, run_command, run_sub_command,
}

abbrev pub all_list : (Format → Bool) → List Format → Bool
all_list q [] = true
all_list q (f ∷ formats) = q f && all_list q formats

-- A test of every format of a tree.
abbrev mutual
  pub all_formats : (Format → Bool) → CliCommand → Bool
  all_formats q (command subs formats) = all_list q formats && all_sub_formats q subs

  pub all_sub_formats : (Format → Bool) → SubCommands → Bool
  all_sub_formats q no_more = true
  all_sub_formats q (sub_command n c subs) = all_formats q c && all_sub_formats q subs

all_list-both :
    (q r : Format → Bool) (formats : List Format)
    → all_list q formats ≡ true
    → all_list r formats ≡ true
    → all_list (λ f. q f && r f) formats ≡ true
all_list-both q r [] h k = refl
all_list-both q r (f ∷ formats) h k =
    let rest = all_list-both q r formats (ground (arith, h)) (ground (arith, k)) in
    ground (arith, h, k, rest)

mutual
  pub all_formats-both :
      (q r : Format → Bool) (c : CliCommand)
      → all_formats q c ≡ true
      → all_formats r c ≡ true
      → all_formats (λ f. q f && r f) c ≡ true
  all_formats-both q r (command subs formats) h k =
      let here = all_list-both q r formats (ground (arith, h)) (ground (arith, k)) in
      let below = all_sub_formats-both q r subs (ground (arith, h)) (ground (arith, k)) in
      ground (arith, here, below)

  all_sub_formats-both :
      (q r : Format → Bool) (subs : SubCommands)
      → all_sub_formats q subs ≡ true
      → all_sub_formats r subs ≡ true
      → all_sub_formats (λ f. q f && r f) subs ≡ true
  all_sub_formats-both q r no_more h k = refl
  all_sub_formats-both q r (sub_command n c subs) h k =
      let here = all_formats-both q r c (ground (arith, h)) (ground (arith, k)) in
      let rest = all_sub_formats-both q r subs (ground (arith, h)) (ground (arith, k)) in
      ground (arith, here, rest)

module _ (t : CText) (ids : List ℕ) where
  -- The outcome comes from one of the formats that pass a test.
  abbrev pub From : (Format → Bool) → Option Outcome → Type 0
  From q (some (action act n args)) =
      (f : Format) × (ws : List String) × (q f ≡ true)
      × (Format.run_command t ids f ws ≡ some (act, n, args))
  From q (some print_help_details) = Unit {0}
  From q none = Unit {0}

  abbrev FromSub : (Format → Bool) → Option (Option Outcome) → Type 0
  FromSub q none = Unit {0}
  FromSub q (some o) = From q o

  pub try_formats-From :
      (q : Format → Bool) (formats : List Format) (words : List String)
      → all_list q formats ≡ true
      → From q (try_formats t ids formats words)
  unfolding try_formats
  try_formats-From q [] words h = tt
  try_formats-From q (f ∷ formats) words h =
      elim (Option-cases (Format.run_command t ids f words)) [
        | inl e ↦ elim (Option-cases (try_formats t ids formats words)) [
          | inl g ↦ rw (try_formats, e, g) tt
          | inr (o, g) ↦
              rw (try_formats, e, g)
                (subst (From q) g (try_formats-From q formats words (ground (arith, h))))
        ]
        | inr ((act, n, args), e) ↦ rw (try_formats, e) (f, words, ground (arith, h), e)
      ]

  with_formats-From :
      (q : Format → Bool) (x : Option (Option Outcome)) (formats : List Format) (w : String)
      → (words : List String) → FromSub q x
      → all_list q formats ≡ true
      → From q (with_formats t ids x formats w words)
  with_formats-From q none formats w words a h = try_formats-From q formats (w ∷ words) h
  with_formats-From q (some none) formats w words a h = try_formats-From q formats words h
  with_formats-From q (some (some o)) formats w words a h = a

  mutual
    unfolding run_command run_sub_command

    pub run_command-From :
        (q : Format → Bool) (c : CliCommand) (words : List String)
        → all_formats q c ≡ true
        → From q (run_command t ids c words)
    run_command-From q (command subs formats) [] h =
        try_formats-From q formats [] (ground (arith, h))
    run_command-From q (command subs formats) (w ∷ words) h =
        with_formats-From q (run_sub_command t ids subs w words) formats w words
          (run_sub_command-From q subs w words (ground (arith, h))) (ground (arith, h))

    run_sub_command-From :
        (q : Format → Bool) (subs : SubCommands) (w : String) (words : List String)
        → all_sub_formats q subs ≡ true
        → FromSub q (run_sub_command t ids subs w words)
    run_sub_command-From q no_more w words h = tt
    run_sub_command-From q (sub_command n c subs) w words h = elim (Bool-cases (n == w)) [
      | inl e ↦ rw e (run_command-From q c words (ground (arith, h)))
      | inr e ↦ rw e (run_sub_command-From q subs w words (ground (arith, h)))
    ]
