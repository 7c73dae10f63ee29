-- ===== src/Cli/Format.antt =====
-- cli_command_format::run_command: the loop that matches words with arguments. The action of a
-- format is called with the number of words matched and the arguments.
use Prim.Native.String.{String}
use avdecc_lib.Prelude.{
  ℕ, zero, suc, ◌+◌, Bool, true, false, not, ◌&&◌, Option, none, some, List, [], ◌∷◌, if◌then◌else◌,
  ◌==◌, leb, length, map, uint_max,
}
use avdecc_lib.Cli.Argument.{CText, Argument, clear, get_all_value_count, set_value}

-- The methods of cmd_line that are actions of formats, cli_fptr.
pub data CliFptr : Type 0 where
  cmd_help_one cmd_help_all cmd_version cmd_list cmd_select cmd_show_select cmd_log cmd_log_level
        cmd_unlog cmd_view_all cmd_view_media_clock cmd_view_details cmd_view_descriptor
        cmd_show_connections cmd_connect_rx cmd_connect_dst cmd_connect cmd_disconnect_rx
        cmd_get_rx_state cmd_get_tx_state cmd_get_tx_connection cmd_acquire_entity cmd_lock_entity
        cmd_entity_avail cmd_reboot cmd_controller_avail cmd_read_descriptor cmd_set_stream_format
        cmd_get_stream_format cmd_set_stream_info cmd_get_stream_info cmd_set_sampling_rate
        cmd_get_sampling_rate cmd_set_clock_source cmd_get_clock_source cmd_start_streaming
        cmd_stop_streaming cmd_identify_on cmd_identify_off cmd_set_path cmd_show_path cmd_clr
        cmd_quit cmd_firmware_upgrade :
      CliFptr

pub record Format : Type 0 where
  pub args : List Argument
  pub action : Option CliFptr

-- The state of the loop: the arguments before m_i, the last first, those from m_i on, match_count,
-- total_matched, the words, and args_ok.
pub record Matching : Type 0 where
  pub before : List Argument
  pub rest : List Argument
  pub match_count : ℕ
  pub total_matched : ℕ
  pub words : List String
  pub args_ok : Bool

module _ (t : CText) (entity_ids : List ℕ) where
  -- The body of the loop, for the argument at m_i and the word in front.
  unfoldable pub match_word :
      List Argument → Argument → List Argument → ℕ → ℕ → String → List String → Matching
  match_word before a rest count total w words =
      let (a', ok) = set_value t entity_ids w a in
      if ok
      then (let full = not (a.match_max == uint_max) && leb a.match_max (count + 1) in
          record {
            before = if full then a' ∷ before else before;
            rest = if full then rest else a' ∷ rest;
            match_count = if full then 0 else count + 1;
            total_matched = total + 1;
            words = words;
            args_ok = true;
          })
      else (let enough = leb a.match_min count in
          record {
            before = if enough then a' ∷ before else before;
            rest = if enough then rest else a' ∷ rest;
            match_count = if enough then 0 else count;
            total_matched = total;
            words = w ∷ words;
            args_ok = enough;
          })

  -- The loop, on fuel; none when the fuel ends before the loop does.
  unfoldable pub match_loop :
      ℕ → List Argument → List Argument → ℕ → ℕ → List String → Option Matching
  match_loop zero before rest count total words = none
  match_loop (suc n) before [] count total words = some (record {
    before = before;
    rest = [];
    match_count = count;
    total_matched = total;
    words = words;
    args_ok = true;
  })
  match_loop (suc n) before (a ∷ rest) count total [] = some (record {
    before = before;
    rest = a ∷ rest;
    match_count = count;
    total_matched = total;
    words = [];
    args_ok = true;
  })
  match_loop (suc n) before (a ∷ rest) count total (w ∷ words) =
      let s = match_word before a rest count total w words in
      elim s.args_ok [
        | true ↦ match_loop n s.before s.rest s.match_count s.total_matched s.words
        | false ↦ some s
      ]

  -- The arguments in their order: those before m_i are kept in reverse.
  abbrev pub rejoin : List Argument → List Argument → List Argument
  rejoin [] rest = rest
  rejoin (a ∷ before) rest = rejoin before (a ∷ rest)

  -- The second loop: whether the arguments from m_i on have enough values.
  unfoldable pub have_enough : List Argument → Bool
  have_enough [] = true
  have_enough (a ∷ rest) =
      let others = have_enough rest in
      if leb a.match_min (get_all_value_count a) then others else false

  -- After the first loop: what the action is called with, if the words match.
  unfoldable pub matched : Matching → Option (ℕ × List Argument)
  matched s =
      if s.args_ok && (length s.words == 0) && have_enough s.rest
      then some (s.total_matched, rejoin s.before s.rest)
      else none

  -- A round of the loop takes a word or goes on to the next argument.
  abbrev pub enough_fuel : List Argument → List String → ℕ
  enough_fuel args words = suc (length args + length words)

  abbrev pub ended : Option Matching → Option (ℕ × List Argument)
  ended none = none
  ended (some s) = matched s

  abbrev pub match_args : List Argument → List String → Option (ℕ × List Argument)
  match_args args words = ended (match_loop (enough_fuel args words) [] (map clear args) 0 0 words)

  -- The call of the action with the number of words matched and the arguments.
  abbrev pub call :
      Option CliFptr → Option (ℕ × List Argument) → Option (CliFptr × ℕ × List Argument)
  call act none = none
  call none (some (total, args)) = none
  call (some act) (some (total, args)) = some (act, total, args)

  -- What the action is called with, if there is one; none is false.
  unfoldable pub run_command : Format → List String → Option (CliFptr × ℕ × List Argument)
  run_command f words = call f.action (match_args f.args words)
