-- ===== src/Protocol.antt =====
-- client/protocol.h and client/protocol.cpp: the messages of the sync protocol, their JSON text and
-- their frames.
pub mod Fields
pub mod Message
pub mod Json
pub mod Codec
pub mod Strings
pub mod Numbers
pub mod Progress
pub mod RoundTrip
pub mod Frame
pub mod Framing
pub mod Tests
