-- ===== src/Cli/Tree/All.antt =====
-- cmd_line_commands_init: path, clr, quit, param and upgrade, and the tree of all commands. stop has the
-- command start_cmd as its sub-command, and stop_cmd is nowhere in the tree.
use avdecc_lib.Prelude.{some, [], ◌∷◌}
use avdecc_lib.Cli.Argument.{once, cli_argument_int, cli_argument_end_station, cli_argument_string}
use avdecc_lib.Cli.Format.{
  Format, cmd_connect_rx, cmd_set_path, cmd_show_path, cmd_clr, cmd_quit, cmd_firmware_upgrade,
}
use avdecc_lib.Cli.Command.{CliCommand, command, add_sub_commands, no_more}
use avdecc_lib.Cli.Tree.Entities.{
  acquire_cmd, controller_cmd, entity_cmd, identify_cmd, lock_cmd, read_cmd, reboot_cmd,
}
use avdecc_lib.Cli.Tree.Streams.{connect_cmd, disconnect_cmd, get_cmd, set_cmd, start_cmd}
use avdecc_lib.Cli.Tree.View.{
  help_cmd, list_cmd, log_cmd, select_cmd, show_cmd, unlog_cmd, version_cmd, view_cmd,
}

abbrev pub set_path_fmt : Format
set_path_fmt = record { args = once cli_argument_string "path" ∷ []; action = some cmd_set_path }

abbrev pub show_path_fmt : Format
show_path_fmt = record { args = []; action = some cmd_show_path }

abbrev pub path_cmd : CliCommand
path_cmd = command no_more (set_path_fmt ∷ show_path_fmt ∷ [])

abbrev pub clr_fmt : Format
clr_fmt = record { args = []; action = some cmd_clr }

abbrev pub clr_cmd : CliCommand
clr_cmd = command no_more (clr_fmt ∷ [])

abbrev pub quit_fmt : Format
quit_fmt = record { args = []; action = some cmd_quit }

abbrev pub quit_cmd : CliCommand
quit_cmd = command no_more (quit_fmt ∷ [])

abbrev pub param_fmt : Format
param_fmt = record {
  args =
      once cli_argument_end_station "e_s_i"
      ∷ once cli_argument_int "e_i"
      ∷ once cli_argument_int "c_i"
      ∷ once cli_argument_string "d_t"
      ∷ once cli_argument_int "d_i"
      ∷ [];
  action = some cmd_connect_rx;
}

abbrev pub param_cmd : CliCommand
param_cmd = command no_more (param_fmt ∷ [])

abbrev pub upgrade_cmd_fmt : Format
upgrade_cmd_fmt = record {
  args = once cli_argument_string "upgrade_image_path" ∷ [];
  action = some cmd_firmware_upgrade;
}

abbrev pub upgrade_cmd : CliCommand
upgrade_cmd = command no_more (upgrade_cmd_fmt ∷ [])

abbrev pub commands : CliCommand
commands =
    command
      (add_sub_commands (
        ("help", help_cmd)
        ∷ ("version", version_cmd)
        ∷ ("list", list_cmd)
        ∷ ("select", select_cmd)
        ∷ ("log", log_cmd)
        ∷ ("unlog", unlog_cmd)
        ∷ ("view", view_cmd)
        ∷ ("show", show_cmd)
        ∷ ("connect", connect_cmd)
        ∷ ("disconnect", disconnect_cmd)
        ∷ ("get", get_cmd)
        ∷ ("entity", entity_cmd)
        ∷ ("acquire", acquire_cmd)
        ∷ ("lock", lock_cmd)
        ∷ ("reboot", reboot_cmd)
        ∷ ("controller", controller_cmd)
        ∷ ("read", read_cmd)
        ∷ ("set", set_cmd)
        ∷ ("start", start_cmd)
        ∷ ("stop", start_cmd)
        ∷ ("identify", identify_cmd)
        ∷ ("path", path_cmd)
        ∷ ("clr", clr_cmd)
        ∷ ("quit", quit_cmd)
        ∷ ("q", quit_cmd)
        ∷ ("param", param_cmd)
        ∷ ("upgrade", upgrade_cmd)
        ∷ []))
      []
