-- ===== src/Cli.antt =====
-- controller/app/cmdline/src/cli_argument.cpp, cli_command_format.cpp and cli_command.cpp: how the
-- words of a command line are matched with the arguments of a command.
pub mod Argument
pub mod Format
pub mod Words
pub mod Steps
pub mod Greedy
pub mod Command
pub mod Resolve
pub mod Tree
pub mod Help
pub mod Calls
pub mod Fits
pub mod Reach
pub mod Shadowed
mod Tests
