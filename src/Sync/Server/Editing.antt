-- ===== src/Sync/Server/Editing.antt =====
-- The application of an edit to the document in client/sync_server.cpp.
use share_note_pad.Base.{
  ℕ, Bool, true, false, not, ◌&&◌, Option, some, none, [], ltb, if◌then◌else◌, length, Text, codes,
  text_eq,
}
use share_note_pad.Document.Model.{
  Status, applied, invalid_operation, invalid_position, insert_too_large, apply_insert_to_content,
  apply_delete_to_content, document_apply_status_to_string,
}
use share_note_pad.Protocol.Message.{
  MessageType, insert_edit, delete_edit, apply, ProtocolMessage, empty_message, set_string,
  set_number, get_string, get_number,
}
use share_note_pad.Sync.Server.State.{
  Server, LogEntry, insert_entry, delete_entry, max_insert_chars, append_session_log, next_revision,
}

pub data Edit : Type 0 where
  edited : ProtocolMessage → Edit
  refused : Text → Edit

-- The part under the lock that changes the document.
abbrev pub is_insert : MessageType → Bool
is_insert insert_edit = true
is_insert _ = false

abbrev pub is_delete : MessageType → Bool
is_delete delete_edit = true
is_delete _ = false

insert_to_document : Text → ℕ → Option Text → Status × Option Text
insert_to_document document position none = (invalid_operation, some document)
insert_to_document document position (some text) =
    if ltb max_insert_chars (length text)
    then (insert_too_large, some document)
    else apply_insert_to_content (some document) position text

delete_from_document : Text → ℕ → Option ℕ → Status × Option Text
delete_from_document document position none = (invalid_operation, some document)
delete_from_document document position (some count) =
    apply_delete_to_content (some document) position count

unfoldable pub change_document : Text → ℕ → ProtocolMessage → Status × Option Text
unfolding insert_to_document delete_from_document
change_document document position m =
    if ltb (length document) position
    then (invalid_position, some document)
    else if is_insert m.type
    then insert_to_document document position (get_string (codes "text") m)
    else if is_delete m.type
    then delete_from_document document position (get_number (codes "len") m)
    else (invalid_operation, some document)

abbrev pub or_empty : Option Text → Text
or_empty none = []
or_empty (some text) = text

abbrev pub or_zero : Option ℕ → ℕ
or_zero none = 0
or_zero (some n) = n

-- The APPLY message for an edit, with the revision that it makes.
unfoldable pub apply_message : Text → ℕ → ℕ → ProtocolMessage → ProtocolMessage
apply_message session_code revision position m =
    let started : ProtocolMessage = record empty_message {
      type = apply;
      session = session_code;
      client = m.client;
    } in
    let numbered = set_number (codes "pos") position (set_number (codes "rev") revision started) in
    if is_insert m.type
    then set_string (codes "text") (or_empty (get_string (codes "text") m))
        (set_string (codes "op") (codes "INSERT") numbered)
    else set_number (codes "len") (or_zero (get_number (codes "len") m))
        (set_string (codes "op") (codes "DELETE") numbered)

abbrev pub apply_entry : ℕ → ℕ → ProtocolMessage → LogEntry
apply_entry revision position m =
    if is_insert m.type
    then insert_entry revision m.client position (length (or_empty (get_string (codes "text") m)))
    else delete_entry revision m.client position (or_zero (get_number (codes "len") m))

-- The revision and the document after an edit that was applied.
unfoldable pub commit_edit : Server → ℕ → ProtocolMessage → Text → Server × Edit
commit_edit s position m document =
    let revision = next_revision s.revision in
    (
      append_session_log (apply_entry revision position m)
          (record s { document = document; revision = revision }),
      edited (apply_message s.session_code revision position m),
    )

unfoldable pub edit_status : Server → ℕ → ProtocolMessage → Status × Option Text → Server × Edit
edit_status s position m (applied, some document) = commit_edit s position m document
edit_status s position m (status, _) = (s, refused (document_apply_status_to_string status))

unfoldable pub edit_at : Server → ProtocolMessage → Option ℕ → Server × Edit
edit_at s m none = (s, refused (codes "missing_position"))
edit_at s m (some position) = edit_status s position m (change_document s.document position m)

unfoldable pub apply_message_to_document : Server → ProtocolMessage → Server × Edit
unfolding edit_at edit_status commit_edit
apply_message_to_document s m =
    if not (text_eq m.session s.session_code)
    then (s, refused (codes "invalid_session"))
    else if not (text_eq m.client (codes "A")) && not (text_eq m.client (codes "B"))
    then (s, refused (codes "invalid_client"))
    else edit_at s m (get_number (codes "pos") m)
