-- ===== src/Protocol.antt =====
-- src/protocol.cpp and include/kronos/protocol.hpp: the framed messages between shell and engine.
pub mod Message
pub mod RoundTrip
pub mod Token
