-- ===== src/Cli/Tree/Entities.antt =====
-- cmd_line_commands_init: entity, acquire, lock, reboot, controller, read and identify. lock has the
-- command entity_lock_cmd as its sub-command, and lock_entity_cmd is nowhere in the tree.
use avdecc_lib.Prelude.{some, [], ◌∷◌}
use avdecc_lib.Cli.Argument.{once, cli_argument_int, cli_argument_end_station, cli_argument_string}
use avdecc_lib.Cli.Format.{
  Format, cmd_acquire_entity, cmd_lock_entity, cmd_entity_avail, cmd_reboot, cmd_controller_avail,
  cmd_read_descriptor, cmd_identify_on, cmd_identify_off,
}
use avdecc_lib.Cli.Command.{CliCommand, command, add_sub_commands, no_more}

abbrev pub entity_acquire_fmt : Format
entity_acquire_fmt = record {
  args =
      once cli_argument_string "a_e_f"
      ∷ once cli_argument_string "d_t"
      ∷ once cli_argument_int "d_i"
      ∷ [];
  action = some cmd_acquire_entity;
}

abbrev pub entity_acquire_cmd : CliCommand
entity_acquire_cmd = command no_more (entity_acquire_fmt ∷ [])

abbrev pub entity_lock_fmt : Format
entity_lock_fmt = record {
  args =
      once cli_argument_string "l_e_f"
      ∷ once cli_argument_string "d_t"
      ∷ once cli_argument_int "d_i"
      ∷ [];
  action = some cmd_lock_entity;
}

abbrev pub entity_lock_cmd : CliCommand
entity_lock_cmd = command no_more (entity_lock_fmt ∷ [])

abbrev pub entity_available_fmt : Format
entity_available_fmt = record { args = []; action = some cmd_entity_avail }

abbrev pub entity_available_cmd : CliCommand
entity_available_cmd = command no_more (entity_available_fmt ∷ [])

abbrev pub reboot_fmt : Format
reboot_fmt = record { args = []; action = some cmd_reboot }

abbrev pub entity_reboot_cmd : CliCommand
entity_reboot_cmd = command no_more (reboot_fmt ∷ [])

abbrev pub entity_cmd : CliCommand
entity_cmd =
    command
      (add_sub_commands (
        ("acquire", entity_acquire_cmd)
        ∷ ("lock", entity_lock_cmd)
        ∷ ("available", entity_available_cmd)
        ∷ ("reboot", entity_reboot_cmd)
        ∷ []))
      []

abbrev pub acquire_entity_cmd : CliCommand
acquire_entity_cmd = command no_more (entity_acquire_fmt ∷ [])

abbrev pub acquire_cmd : CliCommand
acquire_cmd = command (add_sub_commands (("entity", acquire_entity_cmd) ∷ [])) []

abbrev pub lock_cmd : CliCommand
lock_cmd = command (add_sub_commands (("entity", entity_lock_cmd) ∷ [])) []

abbrev pub reboot_entity_cmd : CliCommand
reboot_entity_cmd = command no_more (reboot_fmt ∷ [])

abbrev pub reboot_cmd : CliCommand
reboot_cmd = command (add_sub_commands (("entity", reboot_entity_cmd) ∷ [])) []

abbrev pub controller_available_fmt : Format
controller_available_fmt = record { args = []; action = some cmd_controller_avail }

abbrev pub controller_available_cmd : CliCommand
controller_available_cmd = command no_more (controller_available_fmt ∷ [])

abbrev pub controller_cmd : CliCommand
controller_cmd = command (add_sub_commands (("available", controller_available_cmd) ∷ [])) []

abbrev pub read_descriptor_fmt : Format
read_descriptor_fmt = record {
  args = once cli_argument_string "d_t" ∷ once cli_argument_int "d_i" ∷ [];
  action = some cmd_read_descriptor;
}

abbrev pub read_descriptor_cmd : CliCommand
read_descriptor_cmd = command no_more (read_descriptor_fmt ∷ [])

abbrev pub read_cmd : CliCommand
read_cmd = command (add_sub_commands (("descriptor", read_descriptor_cmd) ∷ [])) []

abbrev pub identify_on_fmt : Format
identify_on_fmt = record {
  args = once cli_argument_end_station "e_s" ∷ [];
  action = some cmd_identify_on;
}

abbrev pub identify_on_cmd : CliCommand
identify_on_cmd = command no_more (identify_on_fmt ∷ [])

abbrev pub identify_off_fmt : Format
identify_off_fmt = record {
  args = once cli_argument_end_station "e_s" ∷ [];
  action = some cmd_identify_off;
}

abbrev pub identify_off_cmd : CliCommand
identify_off_cmd = command no_more (identify_off_fmt ∷ [])

abbrev pub identify_cmd : CliCommand
identify_cmd =
    command (add_sub_commands (("on", identify_on_cmd) ∷ ("off", identify_off_cmd) ∷ [])) []
