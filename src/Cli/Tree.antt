-- ===== src/Cli/Tree.antt =====
-- controller/app/cmdline/src/cmd_line.cpp: the tree of commands that cmd_line_commands_init builds.
pub mod View
pub mod Entities
pub mod Streams
pub mod All
