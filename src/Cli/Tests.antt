-- ===== src/Cli/Tests.antt =====
-- A command tree with two levels, and command lines for it.
use Prim.Native.String.{String}
use text.Mathlib.Text.{◌==◌}
use avdecc_lib.Prelude.{
  ℕ, ◌≡◌, ◌≢◌, refl, true, Option, none, some, List, [], ◌∷◌, if◌then◌else◌, length, map, arith,
}
use avdecc_lib.Cli.Argument.{
  CText, Argument, once, clear, cli_argument_int, cli_argument_end_station, int_value, index_value,
  set_value, value_of, get_end_station_index, is_end_station_found_by_entity_id,
}
use avdecc_lib.Cli.Format.{
  Format, Matching, match_loop, call, cmd_view_descriptor, cmd_view_details, cmd_stop_streaming,
  cmd_get_tx_connection, CliFptr,
}
use avdecc_lib.Cli.Format as Format
use avdecc_lib.Cli.Words.{greedy}
use avdecc_lib.Cli.Greedy.{match_loop-ends, run_command-greedy}
use avdecc_lib.Cli.Fits.{bounded, AllFit, run_command-AllFit}
use avdecc_lib.Cli.Help.{
  get_sub_command, command_of, get_sub_command-reach, get_sub_command-run_command,
}
use avdecc_lib.Cli.Shadowed.{commands_never_get_tx_connection}
use avdecc_lib.Cli.Reach.{commands_never_stop}
use avdecc_lib.Cli.Command.{action, run_sub_command, try_formats, run_command}
use avdecc_lib.Cli.Tree.View.{view_details_fmt, view_details_cmd}
use avdecc_lib.Cli.Tree.All.{commands}
use avdecc_lib.Cli.Resolve.{run_command-resolve}

abbrev read_number : String → Option ℕ
read_number s =
    if s == "0" then some 0 else if s == "1" then some 1 else if s == "27" then some 27 else none

abbrev c_text : CText
c_text = record {
  atoi = λ s. elim (read_number s) [ none ↦ 0 | some n ↦ n ];
  strtoull_16 = λ s. if s == "1b" then some 27 else read_number s;
  strtoul_10 = read_number;
}

abbrev ids : List ℕ
ids = 14 ∷ 27 ∷ []

abbrev end_station : Argument
end_station = once cli_argument_end_station "e_s"

abbrev numbers : Argument
numbers = record {
  kind = cli_argument_int;
  name = "d_i";
  match_min = 1;
  match_max = 2;
  values = [];
}

abbrev view : Format
view = record { args = end_station ∷ numbers ∷ []; action = some cmd_view_descriptor }

abbrev line : List String
line = "1b" ∷ "27" ∷ []

view_is_run :
    Format.run_command c_text ids view line
    ≡ some (
      cmd_view_descriptor,
      2,
      record end_station { values = index_value 1 ∷ [] }
          ∷ record numbers { values = int_value 27 ∷ [] }
          ∷ [],
    )
unfolding Format.run_command Format.match_loop Format.match_word Format.matched Format.have_enough
    set_value value_of get_end_station_index is_end_station_found_by_entity_id
view_is_run = refl

match_loop-ends_example :
    (s : Matching) × (match_loop c_text ids 5 [] (end_station ∷ numbers ∷ []) 0 0 line ≡ some s)
match_loop-ends_example =
    match_loop-ends c_text ids 5 [] (end_station ∷ numbers ∷ []) 0 0 line (omega arith)

run_command-greedy_example :
    Format.run_command c_text ids view line
    ≡ call c_text ids
        (some cmd_view_descriptor)
        (elim (greedy c_text ids (map clear view.args) line) [
          | none ↦ none
          | some args ↦ some (length line, args)
        ])
run_command-greedy_example =
    run_command-greedy c_text ids view line (omega arith, (omega arith, tt))

run_command-resolve_example :
    run_command c_text ids commands ("view" ∷ "details" ∷ "1" ∷ [])
    ≡ try_formats c_text ids (view_details_fmt ∷ []) ("1" ∷ [])
run_command-resolve_example =
    run_command-resolve c_text ids commands ("view" ∷ "details" ∷ "1" ∷ []) (λ e. cc)

abbrev details : List String
details = "view" ∷ "details" ∷ "1b" ∷ []

abbrev details_args : List Argument
details_args = record (once cli_argument_end_station "e_s") { values = index_value 1 ∷ [] } ∷ []

details_are_run :
    run_command c_text ids commands details ≡ some (action cmd_view_details 1 details_args)
unfolding run_command run_sub_command try_formats Format.run_command Format.match_loop
    Format.match_word Format.matched Format.have_enough set_value value_of get_end_station_index
    is_end_station_found_by_entity_id
details_are_run = refl

run_command-AllFit_example :
    (f : Format) × (ws : List String) × (bounded f ≡ true)
    × (f.action ≡ some cmd_view_details)
    × (1 ≡ length ws)
    × (greedy c_text ids (map clear f.args) ws ≡ some details_args)
    × AllFit f.args details_args
run_command-AllFit_example =
    run_command-AllFit c_text ids bounded commands details cmd_view_details 1 details_args refl refl
      details_are_run

commands_never_stop_example :
    run_command c_text ids commands ("stop" ∷ "streaming" ∷ "STREAM_INPUT" ∷ "0" ∷ [])
    ≢ some (action cmd_stop_streaming 2 [])
commands_never_stop_example =
    commands_never_stop c_text ids ("stop" ∷ "streaming" ∷ "STREAM_INPUT" ∷ "0" ∷ []) 2 []

get_sub_command-reach_example :
    command_of (get_sub_command commands details "") ≡ (some view_details_cmd, "1b" ∷ [])
unfolding get_sub_command
get_sub_command-reach_example =
    get_sub_command-reach commands details "" (refl, (refl, (refl, tt))) (λ e. cc)

get_sub_command-run_command_example :
    run_command c_text ids commands details
    ≡ try_formats c_text ids (view_details_fmt ∷ []) ("1b" ∷ [])
unfolding get_sub_command
get_sub_command-run_command_example =
    get_sub_command-run_command c_text ids commands view_details_cmd details ("1b" ∷ []) ""
      (refl, (refl, (refl, tt))) refl (λ e. cc)

commands_never_get_tx_connection_example :
    run_command c_text ids commands ("get" ∷ "tx" ∷ "state" ∷ "1b" ∷ "1" ∷ [])
    ≢ some (action cmd_get_tx_connection 2 [])
commands_never_get_tx_connection_example =
    commands_never_get_tx_connection c_text ids ("get" ∷ "tx" ∷ "state" ∷ "1b" ∷ "1" ∷ []) 2 []
