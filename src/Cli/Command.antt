-- ===== src/Cli/Command.antt =====
-- cli_command::run_command: the tree of commands. The map of the sub-commands is an association list;
-- add_sub_command asserts that a name is new.
use Prim.Native.String.{String}
use text.Mathlib.Text.{◌==◌}
use avdecc_lib.Prelude.{ℕ, Option, none, some, List, [], ◌∷◌, if◌then◌else◌}
use avdecc_lib.Cli.Argument.{CText, Argument}
use avdecc_lib.Cli.Format.{Format, CliFptr}
use avdecc_lib.Cli.Format as Format

mutual
  pub data CliCommand : Type 0 where
    command : SubCommands → List Format → CliCommand

  pub data SubCommands : Type 0 where
    no_more : SubCommands
    sub_command : String → CliCommand → SubCommands → SubCommands

-- The calls of add_sub_command with these names.
abbrev pub add_sub_commands : List (String × CliCommand) → SubCommands
add_sub_commands [] = no_more
add_sub_commands ((n, c) ∷ rest) = sub_command n c (add_sub_commands rest)

-- What a call that returns true has done: it called an action with what it matched, or it printed
-- the help.
pub data Outcome : Type 0 where
  action : CliFptr → ℕ → List Argument → Outcome
  print_help_details : Outcome

module _ (t : CText) (entity_ids : List ℕ) where
  -- The loop over the formats, and what follows it; none is false.
  unfoldable pub try_formats : List Format → List String → Option Outcome
  try_formats [] words = none
  try_formats (f ∷ formats) words =
      let others = try_formats formats words in
      elim (Format.run_command t entity_ids f words) [
        | some (act, total, args) ↦ some (action act total args)
        | none ↦ elim others [ none ↦ some print_help_details | some o ↦ some o ]
      ]

  -- The word that names a sub-command is popped, also when the sub-command returns false.
  abbrev pub with_formats :
      Option (Option Outcome) → List Format → String → List String → Option Outcome
  with_formats none formats w words = try_formats formats (w ∷ words)
  with_formats (some none) formats w words = try_formats formats words
  with_formats (some (some o)) formats w words = some o

  unfoldable mutual
    pub run_command : CliCommand → List String → Option Outcome
    run_command (command subs formats) [] = try_formats formats []
    run_command (command subs formats) (w ∷ words) =
        with_formats (run_sub_command subs w words) formats w words

    -- What the sub-command with the name returns, if there is one.
    pub run_sub_command : SubCommands → String → List String → Option (Option Outcome)
    run_sub_command no_more w words = none
    run_sub_command (sub_command n c subs) w words =
        let here = run_command c words in
        let rest = run_sub_command subs w words in if n == w then some here else rest
