-- ===== src/Codec.antt =====
-- The text coding that src/wal.cpp, src/protocol.cpp and src/task_factory.cpp share, each with a copy
-- of its own: hex fields, fields between separators, and decimal numbers.
pub mod Hex
pub mod Split
pub mod Number
