-- ===== src/Main/Shared.antt =====
-- The shared document in `MainWindow` of client/window.cpp: `SendLocalOperations`,
-- `ApplySyncResponse`, `ApplyFullSyncDocument`, `ApplySyncApply`, `RequestFullSync`,
-- `HandleSyncEvent` and `DrainSyncEvents`.
use share_note_pad.Base.{
  ℕ, ◌+◌, true, false, not, ◌||◌, Option, some, none, [], ◌∷◌, ◌++◌, ltb, leb, ◌==◌, if◌then◌else◌,
  length, set, replicate, Text, codes, text_eq,
}
use share_note_pad.Document.Model.{
  Status, applied, apply_insert_to_content, apply_delete_to_content,
}
use share_note_pad.Main.Selection.{
  EditorSelection, adjust_selection_for_insert, adjust_selection_for_delete,
  clamp_selection_to_text,
}
use share_note_pad.Main.State.{MainWindow, take_text, show_remote_text}
use share_note_pad.Protocol.Message.{ProtocolMessage, get_string, get_number}
use share_note_pad.Sync.Server.{Server}
use share_note_pad.Window.Replica.{
  SyncRole, offline, host, guest, Effect, requests_sync, all_received, merge_chunks, or_else,
}

abbrev pub send_effect : Effect → MainWindow → MainWindow
send_effect effect x = record x { sent = x.sent ++ effect ∷ [] }

-- What an APPLY does to the text and the selection.
pub data RemoteChange : Type 0 where
  changes : Text → EditorSelection → RemoteChange
  refuses : RemoteChange

unfoldable pub change_of : Status × Option Text → EditorSelection → RemoteChange
change_of (applied, some text) selection = changes text selection
change_of _ selection = refuses

unfoldable pub insert_change : Text → EditorSelection → ℕ → Option Text → RemoteChange
insert_change text selection position none = refuses
insert_change text selection position (some inserted) =
    change_of (apply_insert_to_content (some text) position inserted)
      (adjust_selection_for_insert selection position (length inserted))

unfoldable pub delete_change : Text → EditorSelection → ℕ → Option ℕ → RemoteChange
delete_change text selection position none = refuses
delete_change text selection position (some count) =
    change_of (apply_delete_to_content (some text) position count)
      (adjust_selection_for_delete selection position count)

unfoldable pub remote_edit : Text → EditorSelection → ℕ → Text → ProtocolMessage → RemoteChange
unfolding insert_change delete_change change_of
remote_edit text selection position operation m =
    if text_eq operation (codes "INSERT")
    then insert_change text selection position (get_string (codes "text") m)
    else if text_eq operation (codes "DELETE")
    then delete_change text selection position (get_number (codes "len") m)
    else refuses

-- Room for the chunks of a response that has not been begun.
unfoldable pub open_response : ℕ → ℕ → MainWindow → MainWindow
open_response revision chunk_count x =
    if not (x.sync_response_revision == revision)
      || not (length x.sync_response_chunks == chunk_count)
    then record x {
      sync_response_revision = revision;
      sync_response_chunks = replicate chunk_count [];
      sync_response_received = replicate chunk_count false;
    }
    else x

abbrev pub drop_response : MainWindow → MainWindow
drop_response x = record x { sync_response_chunks = []; sync_response_received = [] }

unfoldable pub store_chunk : ℕ → Text → MainWindow → MainWindow
store_chunk index text x = record x {
  sync_response_chunks = set x.sync_response_chunks index text;
  sync_response_received = set x.sync_response_received index true;
}

module _ (shown : Text → Text) where
  unfoldable pub apply_full_sync_document : Text → ℕ → MainWindow → MainWindow
  apply_full_sync_document text revision x =
      let selection = clamp_selection_to_text x.selection (length text) in
      take_text text
        (record (show_remote_text shown text selection x) { current_revision = revision })

  -- `server` is the member `server_`.
  unfoldable pub request_as : SyncRole → Server → MainWindow → MainWindow
  request_as offline server x = x
  request_as guest server x = send_effect (requests_sync x.current_revision) x
  request_as host server x = apply_full_sync_document server.document server.revision x

  unfoldable pub request_full_sync : Server → MainWindow → MainWindow
  unfolding request_as
  request_full_sync server x = request_as x.sync_role server x

  -- The caret is clamped to the new text.
  unfoldable pub accept_change : Server → MainWindow → ℕ → RemoteChange → MainWindow
  accept_change server x revision refuses = request_full_sync server x
  accept_change server x revision (changes text selection) =
      take_text text
        (record (show_remote_text shown text (clamp_selection_to_text selection (length text)) x) {
          current_revision = revision;
        })

  unfoldable pub apply_change : Server → MainWindow → ProtocolMessage → ℕ → ℕ → Text → MainWindow
  unfolding accept_change
  apply_change server x m revision position operation =
      if leb revision x.current_revision
      then x
      else if text_eq m.client x.local_client_id
      then record x { current_revision = revision }
      else if not (revision == x.current_revision + 1)
      then request_full_sync server x
      else accept_change server x revision
          (remote_edit x.editor_text x.selection position operation m)

  unfoldable pub apply_sync_apply : Server → MainWindow → ProtocolMessage → MainWindow
  unfolding apply_change
  apply_sync_apply server x m = elim (get_number (codes "rev") m) [
    | none ↦ x
    | some revision ↦ elim (get_number (codes "pos") m) [
      | none ↦ x
      | some position ↦ elim (get_string (codes "op") m) [
        | none ↦ x
        | some operation ↦ apply_change server x m revision position operation
      ]
    ]
  ]

  unfoldable pub finish_response : ℕ → MainWindow → MainWindow
  finish_response revision x =
      if all_received x.sync_response_received
      then apply_full_sync_document (merge_chunks x.sync_response_chunks) revision (drop_response x)
      else x

  unfoldable pub take_chunk : Text → ℕ → ℕ → ℕ → MainWindow → MainWindow
  take_chunk text revision chunk_index chunk_count x =
      if chunk_count == 0 || leb chunk_count chunk_index
      then x
      else if ltb 1 chunk_count
      then finish_response revision
          (store_chunk chunk_index text (open_response revision chunk_count x))
      else apply_full_sync_document text revision (drop_response x)

  unfoldable pub apply_sync_response : MainWindow → ProtocolMessage → MainWindow
  apply_sync_response x m = elim (get_string (codes "text") m) [
    | none ↦ x
    | some text ↦ elim (get_number (codes "rev") m) [
      | none ↦ x
      | some revision ↦
          take_chunk text revision (or_else 0 (get_number (codes "chunk_index") m))
            (or_else 1 (get_number (codes "chunk_count") m)) x
    ]
  ]
