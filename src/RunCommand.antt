-- ===== src/RunCommand.antt =====
-- Running programs, as root through `sudo` or `su` where that is needed (run_command.c).
pub mod Format
pub mod Output
pub mod Launch
pub mod Runs
pub mod Once
pub mod Found
