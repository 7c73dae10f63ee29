-- ===== src/Cli/Tree/View.antt =====
-- cmd_line_commands_init: help, version, list, select, log, unlog, view and show.
use avdecc_lib.Prelude.{some, [], ◌∷◌, uint_max}
use avdecc_lib.Cli.Argument.{once, cli_argument_int, cli_argument_end_station, cli_argument_string}
use avdecc_lib.Cli.Format.{
  Format, cmd_help_one, cmd_help_all, cmd_version, cmd_list, cmd_select, cmd_show_select, cmd_log,
  cmd_log_level, cmd_unlog, cmd_view_all, cmd_view_media_clock, cmd_view_details,
  cmd_view_descriptor, cmd_show_connections,
}
use avdecc_lib.Cli.Command.{CliCommand, command, add_sub_commands, no_more}

abbrev pub help_one_fmt : Format
help_one_fmt = record {
  args =
      record {
        kind = cli_argument_string;
        name = "cmd";
        match_min = 1;
        match_max = uint_max;
        values = [];
      }
      ∷ [];
  action = some cmd_help_one;
}

abbrev pub help_all_fmt : Format
help_all_fmt = record { args = []; action = some cmd_help_all }

abbrev pub help_cmd : CliCommand
help_cmd = command no_more (help_one_fmt ∷ help_all_fmt ∷ [])

abbrev pub version_format : Format
version_format = record { args = []; action = some cmd_version }

abbrev pub version_cmd : CliCommand
version_cmd = command no_more (version_format ∷ [])

abbrev pub list_fmt : Format
list_fmt = record { args = []; action = some cmd_list }

abbrev pub list_cmd : CliCommand
list_cmd = command no_more (list_fmt ∷ [])

abbrev pub select_fmt : Format
select_fmt = record {
  args =
      once cli_argument_end_station "e_s"
      ∷ once cli_argument_int "e_i"
      ∷ once cli_argument_int "c_i"
      ∷ [];
  action = some cmd_select;
}

abbrev pub show_select_fmt : Format
show_select_fmt = record { args = []; action = some cmd_show_select }

abbrev pub select_cmd : CliCommand
select_cmd = command no_more (select_fmt ∷ show_select_fmt ∷ [])

abbrev pub log_level_fmt : Format
log_level_fmt = record { args = once cli_argument_int "n_l_l" ∷ []; action = some cmd_log_level }

abbrev pub log_level_cmd : CliCommand
log_level_cmd = command no_more (log_level_fmt ∷ [])

abbrev pub log_fmt : Format
log_fmt = record { args = once cli_argument_string "f_n" ∷ []; action = some cmd_log }

abbrev pub log_cmd : CliCommand
log_cmd = command (add_sub_commands (("level", log_level_cmd) ∷ [])) (log_fmt ∷ [])

abbrev pub unlog_fmt : Format
unlog_fmt = record { args = []; action = some cmd_unlog }

abbrev pub unlog_cmd : CliCommand
unlog_cmd = command no_more (unlog_fmt ∷ [])

abbrev pub view_all_fmt : Format
view_all_fmt = record { args = []; action = some cmd_view_all }

abbrev pub view_all_cmd : CliCommand
view_all_cmd = command no_more (view_all_fmt ∷ [])

abbrev pub view_media_clock_fmt : Format
view_media_clock_fmt = record { args = []; action = some cmd_view_media_clock }

abbrev pub view_media_clock_cmd : CliCommand
view_media_clock_cmd = command no_more (view_media_clock_fmt ∷ [])

abbrev pub view_media_cmd : CliCommand
view_media_cmd = command (add_sub_commands (("clock", view_media_clock_cmd) ∷ [])) []

abbrev pub view_details_fmt : Format
view_details_fmt = record {
  args = once cli_argument_end_station "e_s" ∷ [];
  action = some cmd_view_details;
}

abbrev pub view_details_cmd : CliCommand
view_details_cmd = command no_more (view_details_fmt ∷ [])

abbrev pub view_descriptor_fmt : Format
view_descriptor_fmt = record {
  args = once cli_argument_string "d_t" ∷ once cli_argument_int "d_i" ∷ [];
  action = some cmd_view_descriptor;
}

abbrev pub view_descriptor_cmd : CliCommand
view_descriptor_cmd = command no_more (view_descriptor_fmt ∷ [])

abbrev pub view_cmd : CliCommand
view_cmd =
    command
      (add_sub_commands (
        ("all", view_all_cmd)
        ∷ ("media", view_media_cmd)
        ∷ ("details", view_details_cmd)
        ∷ ("descriptor", view_descriptor_cmd)
        ∷ []))
      []

abbrev pub show_connections_fmt : Format
show_connections_fmt = record { args = []; action = some cmd_show_connections }

abbrev pub show_connections_cmd : CliCommand
show_connections_cmd = command no_more (show_connections_fmt ∷ [])

abbrev pub show_cmd : CliCommand
show_cmd = command (add_sub_commands (("connections", show_connections_cmd) ∷ [])) []
