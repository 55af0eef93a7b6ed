-- ===== src/Sync/Accepted.antt =====
-- Which edits the server of client/sync_server.cpp accepts: those that the document model accepts,
-- with an insertion of at most `kMaxInsertChars` units.
use share_note_pad.Base.{
  ℕ, ◌≤◌, ◌≡◌, refl, ap, ◌⊎◌, inl, inr, false, not, ◌&&◌, Option, some, length, Text, codes,
  text_eq, text_eq_iff, text_lt, arith, Option-cases, Bool-cases,
}
use share_note_pad.Document.Diff.{EditorOperation, insert_text, delete_range}
use share_note_pad.Document.Diffing.{applied_text, apply_operation}
use share_note_pad.Document.Model.{
  Status, applied, invalid_position, invalid_operation, insert_too_large, document_too_large,
  apply_insert_to_content, apply_delete_to_content,
}
use share_note_pad.Protocol.Codec.{TextApi}
use share_note_pad.Protocol.Fields.{lookup, insert}
use share_note_pad.Protocol.Message.{
  insert_edit, delete_edit, ProtocolMessage, get_string, get_number, set_string, set_number,
}
use share_note_pad.Sync.Server.{
  Server, is_insert, max_insert_chars, next_revision, change_document, apply_message, edit_at,
  edit_status, commit_edit, apply_message_to_document, operation_request, broadcast_apply,
  apply_local_operation, send,
}
use share_note_pad.Sync.Transport.{Net}

-- The operation is one that the server takes.
abbrev pub IsSendable : EditorOperation → Type 0
IsSendable (insert_text position text) = length text ≤ max_insert_chars
IsSendable (delete_range position count) = Unit

-- A name that the server knows.
abbrev pub IsClient : Text → Type 0
IsClient client = (client ≡ codes "A") ⊎ (client ≡ codes "B")

apply_insert-inside :
    (document text after : Text) (position : ℕ)
    → apply_insert_to_content (some document) position text ≡ (applied, some after)
    → position ≤ length document
unfolding apply_insert_to_content
apply_insert-inside document text after position h = ground arith

apply_delete-inside :
    (document after : Text) (position count : ℕ)
    → apply_delete_to_content (some document) position count ≡ (applied, some after)
    → position ≤ length document
unfolding apply_delete_to_content
apply_delete-inside document after position count h = ground arith

module _ (s : Server) (m : ProtocolMessage) (position : ℕ) (after : Text) where
  pub change_document-insert :
      (text : Text)
      → m.type ≡ insert_edit
      → get_string (codes "text") m ≡ some text
      → length text ≤ max_insert_chars
      → apply_insert_to_content (some s.document) position text ≡ (applied, some after)
      → change_document s.document position m ≡ (applied, some after)
  unfolding change_document get_string
  change_document-insert text t e small h =
      let inside = apply_insert-inside s.document text after position h in rw (t, e) (ground arith)

  change_document-delete :
      (count : ℕ)
      → m.type ≡ delete_edit
      → get_number (codes "len") m ≡ some count
      → apply_delete_to_content (some s.document) position count ≡ (applied, some after)
      → change_document s.document position m ≡ (applied, some after)
  unfolding change_document get_number
  change_document-delete count t e h =
      let inside = apply_delete-inside s.document after position count h in rw (t, e) (ground arith)

  pub apply_message_to_document-accepted :
      m.session ≡ s.session_code
      → IsClient m.client
      → get_number (codes "pos") m ≡ some position
      → change_document s.document position m ≡ (applied, some after)
      → apply_message_to_document s m ≡ commit_edit s position m after
  unfolding apply_message_to_document edit_at edit_status
  apply_message_to_document-accepted session client p h =
      let known : (not (text_eq m.client (codes "A")) && not (text_eq m.client (codes "B")))
          ≡ false =
        ground (arith, text_eq_iff m.client (codes "A"), text_eq_iff m.client (codes "B")) in
      let same = (text_eq_iff m.session s.session_code).1 session in rw (same, known, p, h) refl

pub applied_text-inv :
    (r : Status × Option Text) {after : Text}
    → applied_text r ≡ some after
    → r ≡ (applied, some after)
applied_text-inv (applied, content) h = ap (λ c. (applied, c)) h
applied_text-inv (invalid_position, content) h = cc
applied_text-inv (invalid_operation, content) h = cc
applied_text-inv (insert_too_large, content) h = cc
applied_text-inv (document_too_large, content) h = cc

-- What an accepted local operation makes of the server.
pub record Made (s s' : Server) (m : Option ProtocolMessage) (after : Text) : Type 0 where
  pub document : s'.document ≡ after
  pub revision : s'.revision ≡ next_revision s.revision
  pub session : s'.session_code ≡ s.session_code
  pub result : ProtocolMessage
  pub given : m ≡ some result
  pub rev : get_number (codes "rev") result ≡ some (next_revision s.revision)

pub rev-apply_message :
    (code : Text) (revision position : ℕ) (m : ProtocolMessage)
    → get_number (codes "rev") (apply_message code revision position m) ≡ some revision
unfolding apply_message get_number set_number set_string lookup insert text_eq text_lt
rev-apply_message code revision position m = elim (Bool-cases (is_insert m.type)) [
  | inl e ↦ rw (e, apply_message) refl
  | inr e ↦ rw (e, apply_message) refl
]

module _ (api : TextApi) (net : Net) where
  broadcast_apply-room :
      (s : Server) (m : ProtocolMessage)
      → ((broadcast_apply api net s m).0.document ≡ s.document)
        × ((broadcast_apply api net s m).0.revision ≡ s.revision)
        × ((broadcast_apply api net s m).0.session_code ≡ s.session_code)
  unfolding broadcast_apply send
  broadcast_apply-room s m = elim (Option-cases s.peer_socket) [
    | inl e ↦ rw (e, broadcast_apply) (refl, refl, refl)
    | inr (socket, e) ↦ rw (e, broadcast_apply) (refl, refl, refl)
  ]

  Made-commit :
      (s : Server) (operation : EditorOperation) (client after : Text) (position : ℕ)
      → apply_message_to_document s (operation_request s operation client)
        ≡ commit_edit s position (operation_request s operation client) after
      → let (s', m) = apply_local_operation api net s operation client in Made s s' m after
  unfolding apply_local_operation commit_edit
  Made-commit s operation client after position e =
      let m = operation_request s operation client in
      let a = apply_message s.session_code (next_revision s.revision) position m in
      let (d, r, c) = broadcast_apply-room (commit_edit s position m after).0 a in
      rw (e, apply_local_operation)
        (record {
          document = d;
          revision = r;
          session = c;
          result = a;
          given = refl;
          rev = rev-apply_message s.session_code (next_revision s.revision) position m;
        })

  pub apply_local_operation-Made :
      (s : Server) (operation : EditorOperation) (after : Text)
      → IsSendable operation
      → apply_operation s.document operation ≡ some after
      → let (s', m) = apply_local_operation api net s operation (codes "A") in Made s s' m after
  unfolding operation_request apply_operation get_string get_number set_string set_number lookup
      insert text_eq text_lt
  apply_local_operation-Made s (insert_text position text) after small h =
      let m = operation_request s (insert_text position text) (codes "A") in
      Made-commit s (insert_text position text) (codes "A") after position (
        apply_message_to_document-accepted s m position after refl (inl refl) refl (
          change_document-insert s m position after text refl refl small
            (applied_text-inv (apply_insert_to_content (some s.document) position text) h)))
  apply_local_operation-Made s (delete_range position count) after small h =
      let m = operation_request s (delete_range position count) (codes "A") in
      Made-commit s (delete_range position count) (codes "A") after position (
        apply_message_to_document-accepted s m position after refl (inl refl) refl (
          change_document-delete s m position after count refl refl
            (applied_text-inv (apply_delete_to_content (some s.document) position count) h)))
