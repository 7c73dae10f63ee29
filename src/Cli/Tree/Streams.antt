-- ===== src/Cli/Tree/Streams.antt =====
-- cmd_line_commands_init: connect, disconnect, get, set and start. get_tx_connection_fmt is a format of
-- get_tx_state_cmd, and get_tx_connection_cmd has none.
use avdecc_lib.Prelude.{some, [], ◌∷◌, uint_max}
use avdecc_lib.Cli.Argument.{once, cli_argument_int, cli_argument_end_station, cli_argument_string}
use avdecc_lib.Cli.Format.{
  Format, cmd_connect_rx, cmd_connect_dst, cmd_connect, cmd_disconnect_rx, cmd_get_rx_state,
  cmd_get_tx_state, cmd_get_tx_connection, cmd_set_stream_format, cmd_get_stream_format,
  cmd_set_stream_info, cmd_get_stream_info, cmd_set_sampling_rate, cmd_get_sampling_rate,
  cmd_set_clock_source, cmd_get_clock_source, cmd_start_streaming,
}
use avdecc_lib.Cli.Command.{CliCommand, command, add_sub_commands, no_more}

abbrev pub connect_rx_fmt : Format
connect_rx_fmt = record {
  args =
      once cli_argument_end_station "s_e_s"
      ∷ once cli_argument_int "s_d_i"
      ∷ once cli_argument_end_station "d_e_s"
      ∷ once cli_argument_int "d_d_i"
      ∷ record {
        kind = cli_argument_string;
        name = "f";
        match_min = 0;
        match_max = uint_max;
        values = [];
      }
      ∷ [];
  action = some cmd_connect_rx;
}

abbrev pub connect_dst_fmt : Format
connect_dst_fmt = record {
  args = once cli_argument_end_station "d_e_s" ∷ once cli_argument_int "d_d_i" ∷ [];
  action = some cmd_connect_dst;
}

abbrev pub connect_none_fmt : Format
connect_none_fmt = record { args = []; action = some cmd_connect }

abbrev pub connect_cmd : CliCommand
connect_cmd = command no_more (connect_rx_fmt ∷ connect_dst_fmt ∷ connect_none_fmt ∷ [])

abbrev pub disconnect_fmt : Format
disconnect_fmt = record {
  args =
      once cli_argument_end_station "s_e_s"
      ∷ once cli_argument_int "s_d_i"
      ∷ once cli_argument_end_station "d_e_s"
      ∷ once cli_argument_int "d_d_i"
      ∷ [];
  action = some cmd_disconnect_rx;
}

abbrev pub disconnect_cmd : CliCommand
disconnect_cmd = command no_more (disconnect_fmt ∷ [])

abbrev pub get_rx_state_fmt : Format
get_rx_state_fmt = record {
  args = once cli_argument_end_station "d_e_s" ∷ once cli_argument_int "d_d_i" ∷ [];
  action = some cmd_get_rx_state;
}

abbrev pub get_rx_state_cmd : CliCommand
get_rx_state_cmd = command no_more (get_rx_state_fmt ∷ [])

abbrev pub get_rx_cmd : CliCommand
get_rx_cmd = command (add_sub_commands (("state", get_rx_state_cmd) ∷ [])) []

abbrev pub get_tx_state_fmt : Format
get_tx_state_fmt = record {
  args = once cli_argument_end_station "s_e_s" ∷ once cli_argument_int "s_d_i" ∷ [];
  action = some cmd_get_tx_state;
}

abbrev pub get_tx_connection_fmt : Format
get_tx_connection_fmt = record {
  args = once cli_argument_end_station "s_e_s" ∷ once cli_argument_int "s_d_i" ∷ [];
  action = some cmd_get_tx_connection;
}

abbrev pub get_tx_state_cmd : CliCommand
get_tx_state_cmd = command no_more (get_tx_state_fmt ∷ get_tx_connection_fmt ∷ [])

abbrev pub get_tx_connection_cmd : CliCommand
get_tx_connection_cmd = command no_more []

abbrev pub get_tx_cmd : CliCommand
get_tx_cmd =
    command
      (add_sub_commands (("state", get_tx_state_cmd) ∷ ("connection", get_tx_connection_cmd) ∷ []))
      []

abbrev pub get_stream_format_fmt : Format
get_stream_format_fmt = record {
  args = once cli_argument_string "d_t" ∷ once cli_argument_int "d_i" ∷ [];
  action = some cmd_get_stream_format;
}

abbrev pub get_stream_format_cmd : CliCommand
get_stream_format_cmd = command no_more (get_stream_format_fmt ∷ [])

abbrev pub get_stream_info_fmt : Format
get_stream_info_fmt = record {
  args = once cli_argument_string "d_t" ∷ once cli_argument_int "d_i" ∷ [];
  action = some cmd_get_stream_info;
}

abbrev pub get_stream_info_cmd : CliCommand
get_stream_info_cmd = command no_more (get_stream_info_fmt ∷ [])

abbrev pub get_sampling_rate_fmt : Format
get_sampling_rate_fmt = record {
  args = once cli_argument_string "d_t" ∷ once cli_argument_int "d_i" ∷ [];
  action = some cmd_get_sampling_rate;
}

abbrev pub get_sampling_rate_cmd : CliCommand
get_sampling_rate_cmd = command no_more (get_sampling_rate_fmt ∷ [])

abbrev pub get_clock_source_fmt : Format
get_clock_source_fmt = record {
  args = once cli_argument_string "d_t" ∷ once cli_argument_int "d_i" ∷ [];
  action = some cmd_get_clock_source;
}

abbrev pub get_clock_source_cmd : CliCommand
get_clock_source_cmd = command no_more (get_clock_source_fmt ∷ [])

abbrev pub get_cmd : CliCommand
get_cmd =
    command
      (add_sub_commands (
        ("rx", get_rx_cmd)
        ∷ ("tx", get_tx_cmd)
        ∷ ("stream_format", get_stream_format_cmd)
        ∷ ("stream_info", get_stream_info_cmd)
        ∷ ("sampling_rate", get_sampling_rate_cmd)
        ∷ ("clock_source", get_clock_source_cmd)
        ∷ []))
      []

abbrev pub set_stream_format_fmt : Format
set_stream_format_fmt = record {
  args =
      once cli_argument_string "d_t"
      ∷ once cli_argument_int "d_i"
      ∷ once cli_argument_string "s_f"
      ∷ [];
  action = some cmd_set_stream_format;
}

abbrev pub set_stream_format_cmd : CliCommand
set_stream_format_cmd = command no_more (set_stream_format_fmt ∷ [])

abbrev pub set_stream_info_fmt : Format
set_stream_info_fmt = record {
  args =
      once cli_argument_string "d_t"
      ∷ once cli_argument_int "d_i"
      ∷ once cli_argument_string "flag"
      ∷ once cli_argument_string "value"
      ∷ [];
  action = some cmd_set_stream_info;
}

abbrev pub set_stream_info_cmd : CliCommand
set_stream_info_cmd = command no_more (set_stream_info_fmt ∷ [])

abbrev pub set_sampling_rate_fmt : Format
set_sampling_rate_fmt = record {
  args =
      once cli_argument_string "d_t"
      ∷ once cli_argument_int "d_i"
      ∷ once cli_argument_int "rate"
      ∷ [];
  action = some cmd_set_sampling_rate;
}

abbrev pub set_sampling_rate_cmd : CliCommand
set_sampling_rate_cmd = command no_more (set_sampling_rate_fmt ∷ [])

abbrev pub set_clock_source_fmt : Format
set_clock_source_fmt = record {
  args =
      once cli_argument_string "d_t"
      ∷ once cli_argument_int "d_i"
      ∷ once cli_argument_int "c_s_i"
      ∷ [];
  action = some cmd_set_clock_source;
}

abbrev pub set_clock_source_cmd : CliCommand
set_clock_source_cmd = command no_more (set_clock_source_fmt ∷ [])

abbrev pub set_cmd : CliCommand
set_cmd =
    command
      (add_sub_commands (
        ("stream_format", set_stream_format_cmd)
        ∷ ("stream_info", set_stream_info_cmd)
        ∷ ("sampling_rate", set_sampling_rate_cmd)
        ∷ ("clock_source", set_clock_source_cmd)
        ∷ []))
      []

abbrev pub start_streaming_fmt : Format
start_streaming_fmt = record {
  args = once cli_argument_string "d_t" ∷ once cli_argument_int "d_i" ∷ [];
  action = some cmd_start_streaming;
}

abbrev pub start_streaming_cmd : CliCommand
start_streaming_cmd = command no_more (start_streaming_fmt ∷ [])

abbrev pub start_cmd : CliCommand
start_cmd = command (add_sub_commands (("streaming", start_streaming_cmd) ∷ [])) []
