-- ===== src/Transport.antt =====
-- The FIFO transport: src/fifo.cpp.
pub mod Line
pub mod Stream
pub mod Paths
pub mod Endpoint
pub mod Steady
pub mod Server
pub mod Client
pub mod Nodes
pub mod Making
pub mod Held
pub mod Connected
pub mod Arrived
pub mod Frame
