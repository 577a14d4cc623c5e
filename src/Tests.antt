-- ===== src/Tests.antt =====
-- Runs of the modelled code at concrete values.
mod Threads
mod Engine
mod Log
mod Protocol
mod Scheduler
mod Tasks
mod Transport
mod Shell
mod Daemon
mod Pipes
mod Restart
mod Stop
