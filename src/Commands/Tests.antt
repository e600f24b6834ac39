-- ===== src/Commands/Tests.antt =====
-- The routines of jdftx/commands on concrete inputs, and their theorems there.
mod Inputs
mod Maps
mod Runs
mod Manuals
