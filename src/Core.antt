-- ===== src/Core.antt =====
-- jdftx/core: the parts of the common layer that the rest of the program stands on.
pub mod Outcome
pub mod Text
pub mod Number
pub mod Complex
pub mod Minimize
pub mod Pulay
pub mod Grid
pub mod Memory
pub mod Tasks
pub mod Threads
mod Tests
