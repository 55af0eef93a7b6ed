-- ===== src/Sync/Server/State.antt =====
-- The members of `SyncServer` of client/sync_server.h, its queue of events, its document and its count
-- of failed joins. A section under a lock is one step of the state. Sockets are numbers. The session
-- log is the list of its entries; a file that cannot be written, which sets `last_error_`, is left out.
use share_note_pad.Base.{
  ℕ, ◌+◌, ◌*◌, ◌%◌, ◌^◌, Bool, Option, some, none, List, [], ◌∷◌, ◌++◌, leb, Text,
}
use share_note_pad.Protocol.Message.{ProtocolMessage}
use share_note_pad.Sync.Transport.{Wire}

-- kSyncChunkChars, kMaxInsertChars and kMaxFailedJoinAttempts.
abbrev pub sync_chunk_chars : ℕ
sync_chunk_chars = 8 * 1024

abbrev pub max_insert_chars : ℕ
max_insert_chars = 32 * 1024

abbrev pub max_failed_join_attempts : ℕ
max_failed_join_attempts = 5

-- SyncEventType and SyncEvent of sync_events.h.
pub data SyncEventType : Type 0 where
  apply_event sync_response_event error_event disconnected_event : SyncEventType

pub record SyncEvent : Type 0 where
  pub type : SyncEventType
  pub message : ProtocolMessage
  pub detail : Text

-- What `AppendSessionLog` is given.
pub data LogEntry : Type 0 where
  start_entry stop_entry : Text → LogEntry
  join_ok_entry : Bool → LogEntry
  join_fail_entry edit_reject_entry : Text → LogEntry
  sync_response_entry : ℕ → ℕ → LogEntry
  insert_entry delete_entry : ℕ → Text → ℕ → ℕ → LogEntry

pub record Server : Type 0 where
  pub session_code : Text
  pub document : Text
  pub revision : ℕ
  pub peer_socket : Option ℕ
  pub running : Bool
  pub stopping : Bool
  pub peer_joined : Bool
  pub failed_join_count : ℕ
  pub event_queue : List SyncEvent
  pub last_error : Text
  pub log : List LogEntry
  pub wire : Wire
  pub closed : List ℕ

-- `closesocket`: the sockets that were closed, the last one first.
abbrev pub close_socket : ℕ → Server → Server
close_socket socket s = record s { closed = socket ∷ s.closed }

-- `CloseSocket(&peer_socket_)`.
unfoldable pub close_peer_socket : Option ℕ → Server → Server
close_peer_socket none s = s
close_peer_socket (some socket) s = record (close_socket socket s) { peer_socket = none }

unfoldable pub close_peer : Server → Server
unfolding close_peer_socket
close_peer s = close_peer_socket s.peer_socket s

abbrev pub append_session_log : LogEntry → Server → Server
append_session_log entry s = record s { log = s.log ++ entry ∷ [] }

-- `++revision_` of a `uint64_t`.
abbrev pub next_revision : ℕ → ℕ
next_revision revision = (revision + 1) % 2 ^ 64

unfoldable pub push_event : SyncEvent → Server → Server
push_event event s = record s { event_queue = s.event_queue ++ event ∷ [] }

unfoldable pub pop_front : Server → List SyncEvent → Server × Option SyncEvent
pop_front s [] = (s, none)
pop_front s (event ∷ events) = (record s { event_queue = events }, some event)

unfoldable pub try_pop_event : Server → Server × Option SyncEvent
unfolding pop_front
try_pop_event s = pop_front s s.event_queue

unfoldable pub set_document : Text → ℕ → Server → Server
set_document content revision s = record s { document = content; revision = revision }

unfoldable pub register_join_failure : Server → Server × Bool
register_join_failure s =
    let count = s.failed_join_count + 1 in
    (record s { failed_join_count = count }, leb max_failed_join_attempts count)

unfoldable pub is_join_blocked : Server → Bool
is_join_blocked s = leb max_failed_join_attempts s.failed_join_count
