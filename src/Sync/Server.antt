-- ===== src/Sync/Server.antt =====
-- The class `SyncServer` of client/sync_server.h and client/sync_server.cpp: its members, the
-- application of edits to the document, and the messages that it sends.
mod State
mod Editing
mod Sends
unfoldable pub use State.*
unfoldable pub use Editing.*
unfoldable pub use Sends.*
