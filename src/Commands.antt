-- ===== src/Commands.antt =====
-- jdftx/commands: reading the input file, ordering the commands, and running them.
pub mod Command
pub mod Input
pub mod Schedule
pub mod Execution
pub mod Manual
mod Tests
