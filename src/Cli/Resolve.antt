-- ===== src/Cli/Resolve.antt =====
-- The command that a command line reaches: the deepest one along the names of sub-commands.
use Prim.Native.String.{String}
use text.Mathlib.Text.{◌==◌}
use avdecc_lib.Prelude.{
  ℕ, ◌≡◌, ◌≢◌, refl, Option, none, some, List, [], ◌∷◌, if◌then◌else◌, inl, inr, Bool-cases,
  Option-cases, arith, ap, sym,
}
use mathlib.Core.Path.{◌∙◌}
use avdecc_lib.Cli.Argument.{CText}
use avdecc_lib.Cli.Format.{Format}
use avdecc_lib.Cli.Format as Format
use avdecc_lib.Cli.Command.{
  CliCommand, SubCommands, command, no_more, sub_command, Outcome, action, print_help_details,
  try_formats, with_formats, run_command, run_sub_command,
}

-- The formats and the words that are reached, by what the sub-commands reach.
abbrev pub reached :
    Option (List Format × List String)
    → List Format
    → String
    → List String
    → List Format × List String
reached none formats w words = (formats, w ∷ words)
reached (some r) formats w words = r

-- The formats of that command, and the words behind its name.
abbrev mutual
  pub resolve : CliCommand → List String → List Format × List String
  resolve (command subs formats) [] = (formats, [])
  resolve (command subs formats) (w ∷ words) = reached (resolve_sub subs w words) formats w words

  pub resolve_sub : SubCommands → String → List String → Option (List Format × List String)
  resolve_sub no_more w words = none
  resolve_sub (sub_command n c subs) w words =
      let here = resolve c words in
      let rest = resolve_sub subs w words in if n == w then some here else rest

module _ (t : CText) (ids : List ℕ) where
  -- Formats print the help at least.
  try_formats-some :
      (formats : List Format) (words : List String)
      → formats ≢ []
      → (o : Outcome) × (try_formats t ids formats words ≡ some o)
  unfolding try_formats
  try_formats-some [] words h = ground (arith, h refl)
  try_formats-some (f ∷ formats) words h = elim (Option-cases (Format.run_command t ids f words)) [
    | inl e ↦ elim (Option-cases (try_formats t ids formats words)) [
      | inl q ↦ (print_help_details, rw (try_formats, e, q) refl)
      | inr (o, q) ↦ (o, rw (try_formats, e, q) refl)
    ]
    | inr ((act, total, args), e) ↦ (action act total args, rw (try_formats, e) refl)
  ]

  -- What a sub-command returns, against what the words reach.
  abbrev Agree : Option (Option Outcome) → Option (List Format × List String) → Type 0
  Agree x none = x ≡ none
  Agree x (some (formats, words)) = formats ≢ [] → x ≡ some (try_formats t ids formats words)

  with_formats-reached :
      (x : Option (Option Outcome)) (r : Option (List Format × List String))
      → (formats : List Format) (w : String) (words : List String) → Agree x r
      → (reached r formats w words).0 ≢ []
      → with_formats t ids x formats w words
        ≡ try_formats t ids (reached r formats w words).0 (reached r formats w words).1
  with_formats-reached x none formats w words a h = ap (λ y. with_formats t ids y formats w words) a
  with_formats-reached x (some (fs, ws)) formats w words a h =
      let (o, q) = try_formats-some fs ws h in
      ap (λ y. with_formats t ids y formats w words) (a h ∙ ap some q) ∙ sym q

  mutual
    unfolding run_command run_sub_command

    run_command-agrees :
        (c : CliCommand) (words : List String)
        → (resolve c words).0 ≢ []
        → run_command t ids c words ≡ try_formats t ids (resolve c words).0 (resolve c words).1
    run_command-agrees (command subs formats) [] h = refl
    run_command-agrees (command subs formats) (w ∷ words) h =
        with_formats-reached (run_sub_command t ids subs w words) (resolve_sub subs w words) formats
          w words (run_sub_command-agrees subs w words) h

    run_sub_command-agrees :
        (subs : SubCommands) (w : String) (words : List String)
        → Agree (run_sub_command t ids subs w words) (resolve_sub subs w words)
    run_sub_command-agrees no_more w words = refl
    run_sub_command-agrees (sub_command n c subs) w words = elim (Bool-cases (n == w)) [
      | inl e ↦ rw e (λ h. ap some (run_command-agrees c words h))
      | inr e ↦ rw e (run_sub_command-agrees subs w words)
    ]

  -- If the deepest command that the words reach by names of sub-commands has a format, run_command does what its formats do with the words behind its name.
  pub run_command-resolve :
      (c : CliCommand) (words : List String)
      → (resolve c words).0 ≢ []
      → run_command t ids c words ≡ try_formats t ids (resolve c words).0 (resolve c words).1
  run_command-resolve c words h = run_command-agrees c words h
