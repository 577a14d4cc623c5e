-- ===== src/Daemon.antt =====
-- The engine's program: apps/kronos_engine.cpp.
pub mod Options
pub mod Sizes
pub mod Bounds
pub mod Report
pub mod State
pub mod Request
pub mod Dispatch
pub mod Answers
pub mod Reply
pub mod Quiet
pub mod Sound
pub mod Recovery
pub mod Reserve
pub mod Restart
pub mod Start
pub mod Loop
pub mod Stop
