-- ===== src/Wal.antt =====
-- src/wal.cpp and include/kronos/wal.hpp: the write-ahead log.
pub mod Checksum
pub mod Line
pub mod Append
pub mod Parse
pub mod Recover
pub mod Replay
pub mod Field
pub mod LineRoundTrip
pub mod LogRoundTrip
pub mod Crash
