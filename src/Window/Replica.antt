-- ===== src/Window/Replica.antt =====
-- `SendLocalOperations`, `ApplySyncResponse`, `ApplyFullSyncDocument`, `ApplySyncApply` and
-- `RequestFullSync` of client/webview_window.cpp. Of the effects outside the members, the saved
-- and posted documents and the requests to the connection are kept, in order; status texts and
-- log lines are not.
use share_note_pad.Base.{
  ℕ, ◌+◌, Bool, true, false, not, ◌&&◌, ◌||◌, Option, some, none, List, [], ◌∷◌, ◌++◌, ltb, leb,
  ◌==◌, if◌then◌else◌, length, set, replicate, Text, codes, text_eq,
}
use share_note_pad.Document.Diff.{EditorOperation, EditorDiffResult}
use share_note_pad.Document.Model.{
  Status, applied, invalid_operation, apply_insert_to_content, apply_delete_to_content,
}
use share_note_pad.Protocol.Codec.{TextApi}
use share_note_pad.Protocol.Message.{ProtocolMessage, get_string, get_number}
use share_note_pad.Sync.Server.{Server, apply_local_operation}
use share_note_pad.Sync.Transport.{Net}

pub data SyncRole : Type 0 where
  offline host guest : SyncRole

pub data Effect : Type 0 where
  saves posts : Text → Effect
  requests_sync : ℕ → Effect
  sends_edit : ℕ → EditorOperation → Effect

pub record Window : Type 0 where
  pub sync_role : SyncRole
  pub local_client_id : Text
  pub last_known_text : Text
  pub current_revision : ℕ
  pub sync_response_revision : ℕ
  pub sync_response_chunks : List Text
  pub sync_response_received : List Bool
  pub effects : List Effect

abbrev pub emit : Effect → Window → Window
emit effect w = record w { effects = w.effects ++ effect ∷ [] }

unfoldable pub apply_full_sync_document : Text → ℕ → Window → Window
apply_full_sync_document text revision w =
    emit (posts text)
      (emit (saves text) (record w { last_known_text = text; current_revision = revision }))

-- `server` is the member `server_`.
unfoldable pub request_as : SyncRole → Server → Window → Window
request_as offline server w = w
request_as guest server w = emit (requests_sync w.current_revision) w
request_as host server w = apply_full_sync_document server.document server.revision w

unfoldable pub request_full_sync : Server → Window → Window
unfolding request_as
request_full_sync server w = request_as w.sync_role server w

-- The status of the operation that an APPLY names, and the text after it.
unfoldable pub insert_status : Text → ℕ → Option Text → Status × Option Text
insert_status text position none = (invalid_operation, some text)
insert_status text position (some inserted) = apply_insert_to_content (some text) position inserted

unfoldable pub delete_status : Text → ℕ → Option ℕ → Status × Option Text
delete_status text position none = (invalid_operation, some text)
delete_status text position (some count) = apply_delete_to_content (some text) position count

unfoldable pub remote_change : Text → ℕ → Text → ProtocolMessage → Status × Option Text
unfolding insert_status delete_status
remote_change text position operation m =
    if text_eq operation (codes "INSERT")
    then insert_status text position (get_string (codes "text") m)
    else if text_eq operation (codes "DELETE")
    then delete_status text position (get_number (codes "len") m)
    else (invalid_operation, some text)

unfoldable pub accept_change : Server → Window → ℕ → Status × Option Text → Window
accept_change server w revision (applied, some text) =
    emit (posts text)
      (emit (saves text) (record w { last_known_text = text; current_revision = revision }))
accept_change server w revision _ = request_full_sync server w

unfoldable pub apply_change : Server → Window → ProtocolMessage → ℕ → ℕ → Text → Window
unfolding accept_change
apply_change server w m revision position operation =
    if leb revision w.current_revision
    then w
    else if text_eq m.client w.local_client_id
    then record w { current_revision = revision }
    else if not (revision == w.current_revision + 1)
    then request_full_sync server w
    else accept_change server w revision (remote_change w.last_known_text position operation m)

unfoldable pub apply_sync_apply : Server → Window → ProtocolMessage → Window
unfolding apply_change
apply_sync_apply server w m = elim (get_number (codes "rev") m) [
  | none ↦ w
  | some revision ↦ elim (get_number (codes "pos") m) [
    | none ↦ w
    | some position ↦ elim (get_string (codes "op") m) [
      | none ↦ w
      | some operation ↦ apply_change server w m revision position operation
    ]
  ]
]

-- `std::all_of` over the flags, and the chunks in a row.
unfoldable pub all_received : List Bool → Bool
all_received [] = true
all_received (received ∷ flags) = received && all_received flags

unfoldable pub merge_chunks : List Text → Text
merge_chunks [] = []
merge_chunks (chunk ∷ chunks) = chunk ++ merge_chunks chunks

-- Room for the chunks of a response that has not been begun.
unfoldable pub open_response : ℕ → ℕ → Window → Window
open_response revision chunk_count w =
    if not (w.sync_response_revision == revision)
      || not (length w.sync_response_chunks == chunk_count)
    then record w {
      sync_response_revision = revision;
      sync_response_chunks = replicate chunk_count [];
      sync_response_received = replicate chunk_count false;
    }
    else w

abbrev pub drop_response : Window → Window
drop_response w = record w { sync_response_chunks = []; sync_response_received = [] }

unfoldable pub store_chunk : ℕ → Text → Window → Window
store_chunk index text w = record w {
  sync_response_chunks = set w.sync_response_chunks index text;
  sync_response_received = set w.sync_response_received index true;
}

unfoldable pub finish_response : ℕ → Window → Window
finish_response revision w =
    if all_received w.sync_response_received
    then apply_full_sync_document (merge_chunks w.sync_response_chunks) revision (drop_response w)
    else w

unfoldable pub take_chunk : Text → ℕ → ℕ → ℕ → Window → Window
take_chunk text revision chunk_index chunk_count w =
    if chunk_count == 0 || leb chunk_count chunk_index
    then w
    else if ltb 1 chunk_count
    then finish_response revision
        (store_chunk chunk_index text (open_response revision chunk_count w))
    else apply_full_sync_document text revision (drop_response w)

abbrev pub or_else : ℕ → Option ℕ → ℕ
or_else default none = default
or_else default (some n) = n

unfoldable pub apply_sync_response : Window → ProtocolMessage → Window
apply_sync_response w m = elim (get_string (codes "text") m) [
  | none ↦ w
  | some text ↦ elim (get_number (codes "rev") m) [
    | none ↦ w
    | some revision ↦
        take_chunk text revision (or_else 0 (get_number (codes "chunk_index") m))
          (or_else 1 (get_number (codes "chunk_count") m)) w
  ]
]

module _ (api : TextApi) (net : Net) where
  unfoldable pub after_local : Server → Window → Option ProtocolMessage → Server × Window
  after_local server w none = (server, request_full_sync server w)
  after_local server w (some m) = elim (get_number (codes "rev") m) [
    | none ↦ (server, w)
    | some revision ↦ (server, record w { current_revision = revision })
  ]

  -- One operation of the loop. What a guest sends goes through its connection; an offline window
  -- sends nothing.
  unfoldable pub send_as : SyncRole → Server → Window → EditorOperation → Server × Window
  send_as offline server w operation = (server, w)
  send_as guest server w operation = (server, emit (sends_edit w.current_revision operation) w)
  send_as host server w operation =
      let (server', m) = apply_local_operation api net server operation w.local_client_id in
      after_local server' w m

  unfoldable pub send_operation : Server → Window → EditorOperation → Server × Window
  unfolding send_as
  send_operation server w operation = send_as w.sync_role server w operation

  unfoldable pub send_operations : Server → Window → List EditorOperation → Server × Window
  unfolding send_operation after_local
  send_operations server w [] = (server, w)
  send_operations server w (operation ∷ operations) =
      let (server', w') = send_operation server w operation in send_operations server' w' operations

  unfoldable pub send_local_operations : Server → Window → EditorDiffResult → Server × Window
  send_local_operations server w diff =
      if not diff.changed then (server, w) else send_operations server w diff.operations
