-- ===== src/Shell.antt =====
-- The shell: apps/kronos_shell.cpp.
pub mod Options
pub mod Session
pub mod Command
pub mod Matches
pub mod Returns
