-- ===== src/Window/Convergence.antt =====
-- A window that gets the APPLY messages of the server follows its document.
use share_note_pad.Base.{
  ℕ, ◌+◌, ◌^◌, ◌<◌, ◌≡◌, ◌≢◌, refl, ◌∙◌, inl, inr, some, List, [], ◌∷◌, length, Text, codes,
  text_eq, text_lt, text_eq_iff, arith,
}
use share_note_pad.Document.Model.{applied, apply_insert_to_content, apply_delete_to_content}
use share_note_pad.Protocol.Fields.{lookup, insert}
use share_note_pad.Protocol.Message.{
  insert_edit, delete_edit, ProtocolMessage, get_string, get_number, set_string, set_number,
}
use share_note_pad.Sync.Edits.{
  Accepted, EditOutcome, apply_message_outcome, Change, change_document-Change,
}
use share_note_pad.Sync.Server.{
  Server, Edit, edited, refused, apply_message, apply_message_to_document,
}
use share_note_pad.Window.Replica.{Window, saves, posts, remote_change, apply_sync_apply, emit}

-- What a reader finds in the APPLY message of an insertion, and of a deletion.
pub apply_message-insert :
    (code text : Text) (revision position : ℕ) (m : ProtocolMessage)
    → m.type ≡ insert_edit
    → get_string (codes "text") m ≡ some text
    → let a = apply_message code revision position m in
      (get_number (codes "rev") a ≡ some revision)
      × (get_number (codes "pos") a ≡ some position)
      × (get_string (codes "op") a ≡ some (codes "INSERT"))
      × (get_string (codes "text") a ≡ some text)
      × (a.client ≡ m.client)
unfolding apply_message get_number get_string set_string
apply_message-insert code text revision position m t e =
    rw (t, e) (unfold set_number lookup insert text_eq text_lt in (refl, refl, refl, refl, refl))

apply_message-delete :
    (code : Text) (count revision position : ℕ) (m : ProtocolMessage)
    → m.type ≡ delete_edit
    → get_number (codes "len") m ≡ some count
    → let a = apply_message code revision position m in
      (get_number (codes "rev") a ≡ some revision)
      × (get_number (codes "pos") a ≡ some position)
      × (get_string (codes "op") a ≡ some (codes "DELETE"))
      × (get_number (codes "len") a ≡ some count)
      × (a.client ≡ m.client)
unfolding apply_message get_number get_string set_number
apply_message-delete code count revision position m t e =
    rw (t, e) (unfold set_string lookup insert text_eq text_lt in (refl, refl, refl, refl, refl))

-- The window takes the next APPLY of another client as its text.
pub apply_sync_apply-next :
    (server : Server) (w : Window) (a : ProtocolMessage) (revision position : ℕ)
    (operation after : Text)
    → get_number (codes "rev") a ≡ some revision
    → get_number (codes "pos") a ≡ some position
    → get_string (codes "op") a ≡ some operation
    → revision ≡ w.current_revision + 1
    → a.client ≢ w.local_client_id
    → remote_change w.last_known_text position operation a ≡ (applied, some after)
    → apply_sync_apply server w a
      ≡ emit
          (posts after)
          (emit (saves after) (record w { last_known_text = after; current_revision = revision }))
unfolding apply_sync_apply
apply_sync_apply-next server w a revision position operation after r p o next other change =
    rw (r, apply_sync_apply, p, o) (ground (arith, text_eq_iff a.client w.local_client_id))

pub remote_change-insert :
    (document text : Text) (position : ℕ) (a : ProtocolMessage)
    → get_string (codes "text") a ≡ some text
    → remote_change document position (codes "INSERT") a
      ≡ apply_insert_to_content (some document) position text
unfolding remote_change text_eq
remote_change-insert document text position a e = rw e refl

remote_change-delete :
    (document : Text) (count position : ℕ) (a : ProtocolMessage)
    → get_number (codes "len") a ≡ some count
    → remote_change document position (codes "DELETE") a
      ≡ apply_delete_to_content (some document) position count
unfolding remote_change text_eq
remote_change-delete document count position a e = rw e refl

remote_change-Change :
    (code document after : Text) (revision position : ℕ) (m : ProtocolMessage)
    → Change document position m after
    → let a = apply_message code revision position m in
      (operation : Text) × (get_number (codes "rev") a ≡ some revision)
      × (get_number (codes "pos") a ≡ some position)
      × (get_string (codes "op") a ≡ some operation)
      × (a.client ≡ m.client)
      × (remote_change document position operation a ≡ (applied, some after))
remote_change-Change code document after revision position m (inl (text, t, e, _, h)) =
    let (r, p, o, x, c) = apply_message-insert code text revision position m t e in
    (codes "INSERT", r, p, o, c, remote_change-insert document text position _ x ∙ h)
remote_change-Change code document after revision position m (inr (count, t, e, h)) =
    let (r, p, o, x, c) = apply_message-delete code count revision position m t e in
    (codes "DELETE", r, p, o, c, remote_change-delete document count position _ x ∙ h)

-- The window shows the document of the server, at its revision.
pub record Follows (s : Server) (w : Window) : Type 0 where
  pub text : w.last_known_text ≡ s.document
  pub revision : w.current_revision ≡ s.revision

Follows-Accepted :
    (server s s' : Server) (w : Window) (m a : ProtocolMessage)
    → Accepted s m s' a
    → Follows s w
    → m.client ≢ w.local_client_id
    → s.revision + 1 < 2 ^ 64
    → Follows s' (apply_sync_apply server w a)
      × ((apply_sync_apply server w a).local_client_id ≡ w.local_client_id)
Follows-Accepted server s s' w m a h f other fits =
    let change = change_document-Change s.document h.position m h.changed in
    let (operation, r, p, o, c, e) =
      remote_change-Change s.session_code s.document s'.document s'.revision h.position m change in
    let step =
      apply_sync_apply-next server w (apply_message s.session_code s'.revision h.position m)
        s'.revision h.position operation s'.document r p o (omega (arith, h.revision, f.revision))
        (rw c other) (rw f.text e) in
    rw (h.announced, step) (record { text = refl; revision = refl }, refl)

-- A window that shows the server's document and receives the APPLY message of the next edit of
-- somebody else shows the server's document afterwards, at its revision. The revision must not
-- wrap around.
pub apply_sync_apply-Follows :
    (server s s' : Server) (w : Window) (m a : ProtocolMessage)
    → apply_message_to_document s m ≡ (s', edited a)
    → Follows s w
    → m.client ≢ w.local_client_id
    → s.revision + 1 < 2 ^ 64
    → Follows s' (apply_sync_apply server w a)
      × ((apply_sync_apply server w a).local_client_id ≡ w.local_client_id)
apply_sync_apply-Follows server s s' w m a e f other fits =
    Follows-Accepted server s s' w m a (rw e at (apply_message_outcome s m)) f other fits

unfoldable pub announce : Server × List ProtocolMessage → Edit → Server × List ProtocolMessage
announce (s, applies) (edited a) = (s, a ∷ applies)
announce (s, applies) (refused reason) = (s, applies)

-- The edits of a list in order, with the APPLY messages of those that are accepted.
unfoldable pub run_edits : Server → List ProtocolMessage → Server × List ProtocolMessage
run_edits s [] = (s, [])
run_edits s (m ∷ ms) =
    let (s', edit) = apply_message_to_document s m in announce (run_edits s' ms) edit

-- A window that handles APPLY messages in order.
unfoldable pub receive_applies : Server → Window → List ProtocolMessage → Window
receive_applies server w [] = w
receive_applies server w (a ∷ applies) =
    receive_applies server (apply_sync_apply server w a) applies

-- No message of the list is of the client.
abbrev pub NotOf : Text → List ProtocolMessage → Type 0
NotOf client [] = Unit
NotOf client (m ∷ ms) = (m.client ≢ client) × NotOf client ms

abbrev InStep : Server → Window → List ProtocolMessage → Type 0
InStep s w ms =
    (server : Server)
    → let (last, applies) = run_edits s ms in Follows last (receive_applies server w applies)

InStep-announce :
    (s s' : Server) (w : Window) (m : ProtocolMessage) (ms : List ProtocolMessage) (edit : Edit)
    → EditOutcome s m (s', edit)
    → ((w' : Window)
        → Follows s' w'
        → NotOf w'.local_client_id ms
        → s'.revision + length ms < 2 ^ 64
        → InStep s' w' ms)
    → Follows s w
    → NotOf w.local_client_id (m ∷ ms)
    → s.revision + length (m ∷ ms) < 2 ^ 64
    → (server : Server)
    → let (last, applies) = announce (run_edits s' ms) edit in
      Follows last (receive_applies server w applies)
unfolding announce receive_applies
InStep-announce s s' w m ms (edited a) h rest f others fits server =
    let (f', id) = Follows-Accepted server s s' w m a h f others.0 (omega arith) in
    rest (apply_sync_apply server w a) f' (rw id others.1) (omega (arith, h.revision)) server
InStep-announce s s' w m ms (refused r) h rest f others fits server =
    rest w (rw h f) others.1 (rw h (omega arith)) server

-- Whatever edits the other side makes, valid or not, a window that starts in step with the server
-- and handles every APPLY message in order ends in step with it: same text, same revision.
pub receive_applies-Follows :
    (server s : Server) (w : Window) (ms : List ProtocolMessage)
    → Follows s w
    → NotOf w.local_client_id ms
    → s.revision + length ms < 2 ^ 64
    → let (last, applies) = run_edits s ms in Follows last (receive_applies server w applies)
unfolding run_edits receive_applies
receive_applies-Follows server s w [] f others fits = f
receive_applies-Follows server s w (m ∷ ms) f others fits =
    let (s', edit) = apply_message_to_document s m in
    InStep-announce s s' w m ms edit (apply_message_outcome s m)
      (λ w' f' o' l server'. receive_applies-Follows server' s' w' ms f' o' l) f others fits server
