-- ===== src/Sync/Server/Sends.antt =====
-- The messages that `SyncServer` of client/sync_server.cpp sends, and the edits of both sides.
use share_note_pad.Base.{
  ℕ, zero, suc, ◌+◌, ◌-◌, ◌*◌, ◌/◌, min, Bool, true, false, not, Option, some, none, [], ◌∷◌, ltb,
  if◌then◌else◌, length, take, drop, Text, codes, text_eq,
}
use share_note_pad.Document.Diff.{EditorOperation, insert_text, delete_range}
use share_note_pad.Protocol.Codec.{TextApi}
use share_note_pad.Protocol.Message.{
  join_ok, join_fail, insert_edit, delete_edit, sync_response, error, ProtocolMessage,
  empty_message, set_string, set_number,
}
use share_note_pad.Sync.Transport.{Net, send_protocol_message}
use share_note_pad.Sync.Server.State.{
  Server, append_session_log, apply_event, edit_reject_entry, join_fail_entry, join_ok_entry,
  push_event, sync_chunk_chars, sync_response_entry,
}
use share_note_pad.Sync.Server.Editing.{Edit, apply_message_to_document, edited, refused}

-- The number of chunks of a document, `max(1, (size + kSyncChunkChars - 1) / kSyncChunkChars)`.
unfoldable pub chunk_count_of : ℕ → ℕ
chunk_count_of size =
    let count = (size + sync_chunk_chars - 1) / sync_chunk_chars in if ltb count 1 then 1 else count

-- The message of one chunk.
unfoldable pub sync_chunk : Text → Text → ℕ → ℕ → ℕ → ProtocolMessage
sync_chunk session_code document revision chunk_count index =
    let offset = index * sync_chunk_chars in
    let count = min sync_chunk_chars (length document - offset) in
    let started : ProtocolMessage = record empty_message {
      type = sync_response;
      session = session_code;
      client = codes "server";
    } in
    set_string (codes "text") (take count (drop offset document)) (
      set_number (codes "chunk_count") chunk_count
        (set_number (codes "chunk_index") index (set_number (codes "rev") revision started)))

-- `client_id.empty() ? L"A" : client_id`.
local_client : Text → Text
local_client [] = codes "A"
local_client (c ∷ id) = c ∷ id

-- The request that a local operation is turned into.
unfoldable pub operation_request : Server → EditorOperation → Text → ProtocolMessage
unfolding local_client
operation_request s operation client_id = elim operation [
  | insert_text position text ↦ set_string (codes "text") text (
      set_number (codes "pos") position (
        set_number (codes "base_rev") s.revision (record empty_message {
          type = insert_edit;
          session = s.session_code;
          client = local_client client_id;
        })))
  | delete_range position count ↦ set_number (codes "len") count (
      set_number (codes "pos") position (
        set_number (codes "base_rev") s.revision (record empty_message {
          type = delete_edit;
          session = s.session_code;
          client = local_client client_id;
        })))
]

module _ (api : TextApi) (net : Net) where
  -- `SendProtocolMessage` on a socket.
  unfoldable pub send : Server → ℕ → ProtocolMessage → Server × Bool
  send s socket m =
      let (wire, sent) = send_protocol_message net api s.wire socket m in
      (record s { wire = wire }, sent)

  unfoldable pub send_join_ok : Text → Server → ℕ → Bool → Server × Bool
  send_join_ok token s socket reconnecting =
      send (append_session_log (join_ok_entry reconnecting) s) socket (
        set_number (codes "current_rev") 0 (
          set_string (codes "reconnect_token") token (
            set_string (codes "assigned_client") (codes "B") (record empty_message {
              type = join_ok;
              session = s.session_code;
              client = codes "server";
            }))))

  unfoldable pub send_join_fail : Server → ℕ → Text → Server × Bool
  send_join_fail s socket reason = send (append_session_log (join_fail_entry reason) s) socket (
      set_string (codes "reason") reason (record empty_message {
        type = join_fail;
        session = s.session_code;
        client = codes "server";
      }))

  unfoldable pub send_error : Server → ℕ → Text → Server × Bool
  send_error s socket reason = send s socket (
      set_string (codes "reason") reason
        (record empty_message { type = error; session = s.session_code; client = codes "server" }))

  -- The loop over the chunks from `index` on, `rounds` of them.
  unfoldable pub send_chunks : ℕ → ℕ → Text → ℕ → ℕ → Server → ℕ → Server × Bool
  send_chunks zero index document revision count s socket = (s, true)
  send_chunks (suc rounds) index document revision count s socket =
      let (s', sent) = send s socket (sync_chunk s.session_code document revision count index) in
      let more = send_chunks rounds (index + 1) document revision count s' socket in
      if sent then more else (s', false)

  unfoldable pub send_sync_response : Server → ℕ → Server × Bool
  send_sync_response s socket =
      let count = chunk_count_of (length s.document) in
      send_chunks count 0 s.document s.revision count
        (append_session_log (sync_response_entry s.revision count) s) socket

  unfoldable pub broadcast_to : Option ℕ → Server → ProtocolMessage → Server × Bool
  broadcast_to none s m = (s, true)
  broadcast_to (some socket) s m = send s socket m

  unfoldable pub broadcast_apply : Server → ProtocolMessage → Server × Bool
  unfolding broadcast_to
  broadcast_apply s m = broadcast_to s.peer_socket s m

  unfoldable pub local_result : Server × Edit → Server × Option ProtocolMessage
  local_result (s, refused reason) = (record s { last_error = reason }, none)
  local_result (s, edited m) = ((broadcast_apply s m).0, some m)

  -- The server and the result, with the message that is handed out on success.
  unfoldable pub apply_local_operation :
      Server → EditorOperation → Text → Server × Option ProtocolMessage
  unfolding local_result
  apply_local_operation s operation client_id =
      local_result (apply_message_to_document s (operation_request s operation client_id))

  unfoldable pub after_edit : Server → ℕ → Edit → Server × Bool
  after_edit s socket (refused reason) =
      let logged = append_session_log (edit_reject_entry reason) s in
      ((send_error logged socket reason).0, true)
  after_edit s socket (edited m) =
      send (push_event (record { type = apply_event; message = m; detail = [] }) s) socket m

  unfoldable pub handle_edit_message : Server → ℕ → ProtocolMessage → Server × Bool
  unfolding after_edit
  handle_edit_message s socket m =
      let rejected = append_session_log (edit_reject_entry (codes "invalid_client")) s in
      if not (text_eq m.client (codes "B"))
      then ((send_error rejected socket (codes "invalid_client")).0, true)
      else let (s', edit) = apply_message_to_document s m in after_edit s' socket edit
