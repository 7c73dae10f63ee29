-- ===== src/Cli/Reach.antt =====
-- What the tree of cmd_line_commands_init makes of some command lines.
use Prim.Native.String.{String}
use avdecc_lib.Prelude.{
  ℕ, ◌≡◌, ◌≢◌, refl, ap, sym, Bool, true, false, not, Option, none, some, List, [], ◌∷◌, arith,
}
use mathlib.Core.Path.{◌∙◌}
use avdecc_lib.Cli.Argument.{CText, Argument}
use avdecc_lib.Cli.Format.{CliFptr, cmd_stop_streaming}
use avdecc_lib.Cli.Fits.{run_command-AllFit}
use avdecc_lib.Cli.Command.{
  Outcome, action, run_command, run_sub_command, try_formats, with_formats, add_sub_commands,
}
use avdecc_lib.Cli.Tree.Streams.{start_cmd}
use avdecc_lib.Cli.Tree.All.{commands}

abbrev stops : Option CliFptr → Bool
stops none = false
stops (some cmd_stop_streaming) = true
stops (some act) = false

module _ (t : CText) (ids : List ℕ) where
  -- No command line calls cmd_stop_streaming, since no format with that action is in the tree.
  pub commands_never_stop :
      (words : List String) (n : ℕ) (args : List Argument)
      → run_command t ids commands words ≢ some (action cmd_stop_streaming n args)
  commands_never_stop words n args e =
      let (f, ws, q, a, m, z, fit) =
        run_command-AllFit t ids (λ f. not (stops f.action)) commands words cmd_stop_streaming n
          args refl refl e in
      ground (arith, sym (ap (λ x. not (stops x)) a) ∙ q)

  -- A command without formats does not look at the word that names its sub-command.
  with_formats-nil :
      (x : Option (Option Outcome)) (v w : String) (words : List String)
      → with_formats t ids x [] v words ≡ with_formats t ids x [] w words
  unfolding try_formats
  with_formats-nil none v w words = refl
  with_formats-nil (some none) v w words = refl
  with_formats-nil (some (some o)) v w words = refl

  -- A command line whose first word is stop does what the one with the word start in its place does.
  commands_stop_is_start :
      (words : List String)
      → run_command t ids commands ("stop" ∷ words) ≡ run_command t ids commands ("start" ∷ words)
  unfolding run_command run_sub_command
  commands_stop_is_start words =
      with_formats-nil
        (run_sub_command t ids (add_sub_commands (("start", start_cmd) ∷ [])) "start" words) "stop"
        "start" words

  -- No format is under the words get tx connection, nor above them.
  commands_get_tx_connection :
      (words : List String)
      → run_command t ids commands ("get" ∷ "tx" ∷ "connection" ∷ words) ≡ none
  unfolding run_command run_sub_command try_formats
  commands_get_tx_connection [] = refl
  commands_get_tx_connection (w ∷ words) = refl
