-- ===== src/Electronic/Tests.antt =====
-- The routines of jdftx/electronic on concrete inputs, and their theorems there.
mod Matrices
mod Meshes
mod Folds
mod Inversions
mod Chemicals
