-- ===== src/Sync.antt =====
-- client/sync_events.h, client/sync_server.h and client/sync_server.cpp: the host of a shared
-- document.
pub mod Transport
pub mod Receive
pub mod Server
pub mod Session
pub mod Room
pub mod Reach
pub mod Listening
pub mod Admission
pub mod Client
pub mod Connecting
pub mod Log
pub mod LogTests
pub mod Queue
pub mod Joining
pub mod Heartbeat
pub mod Edits
pub mod Accepted
pub mod Deciding
pub mod Sending
pub mod Arrival
pub mod Tests
pub mod RoomTests
