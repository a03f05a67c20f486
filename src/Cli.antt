-- ===== src/Cli.antt =====
-- cli/: the commands of the console and of the scenarios.
pub mod Numbers
pub mod Commands
pub mod Execute
