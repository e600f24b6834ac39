-- ===== src/Electronic.antt =====
-- jdftx/electronic: the parts that move data about or decide how many states there are.
pub mod Matrix
pub mod States
pub mod Folding
pub mod Fields
pub mod Filling
pub mod Kmesh
mod Tests
