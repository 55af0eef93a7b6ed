-- ===== src/Sync/Edits.antt =====
-- What an edit does to the server of client/sync_server.cpp.
use share_note_pad.Base.{
  ℕ, ◌≤◌, ◌≡◌, refl, ◌⊎◌, inl, inr, true, not, ◌&&◌, Option, some, none, [], ◌∷◌, ◌++◌, length,
  Text, codes, text_eq, text_eq_iff, arith, Option-cases, Bool-cases,
}
use share_note_pad.Document.Laws.{length-insert_at, length-erase_at}
use share_note_pad.Document.Model.{
  max_document_chars, Status, applied, apply_insert_to_content, apply_delete_to_content,
}
use share_note_pad.Protocol.Message.{
  MessageType, insert_edit, delete_edit, ProtocolMessage, get_string, get_number,
}
use share_note_pad.Sync.Server.{
  Server, Edit, edited, refused, is_insert, is_delete, next_revision, max_insert_chars,
  change_document, apply_message, apply_entry, edit_at, edit_status, commit_edit,
  apply_message_to_document,
}

-- An accepted edit: what was checked, and what it made.
pub record Accepted (s : Server) (m : ProtocolMessage) (s' : Server) (a : ProtocolMessage)
    : Type 0 where
  pub session : m.session ≡ s.session_code
  pub client : (m.client ≡ codes "A") ⊎ (m.client ≡ codes "B")
  pub position : ℕ
  pub position_given : get_number (codes "pos") m ≡ some position
  pub changed : change_document s.document position m ≡ (applied, some s'.document)
  pub revision : s'.revision ≡ next_revision s.revision
  pub announced : a ≡ apply_message s.session_code s'.revision position m
  pub rest : s' ≡ record s { document = s'.document; revision = s'.revision; log = s'.log }
  pub logged : s'.log ≡ s.log ++ apply_entry s'.revision position m ∷ []

-- What is known of the server and the answer after an edit.
abbrev pub EditOutcome : Server → ProtocolMessage → Server × Edit → Type 0
EditOutcome s m (s', edited a) = Accepted s m s' a
EditOutcome s m (s', refused reason) = s' ≡ s

module _ (s : Server) (m : ProtocolMessage) where
  edit_status-outcome :
      (position : ℕ) (r : Status × Option Text)
      → m.session ≡ s.session_code
      → (m.client ≡ codes "A") ⊎ (m.client ≡ codes "B")
      → get_number (codes "pos") m ≡ some position
      → change_document s.document position m ≡ r
      → EditOutcome s m (edit_status s position m r)
  unfolding edit_status commit_edit
  edit_status-outcome position (applied, some document) e c p h = record {
    session = e;
    client = c;
    position = position;
    position_given = p;
    changed = h;
    revision = refl;
    announced = refl;
    rest = refl;
    logged = refl;
  }
  edit_status-outcome position (applied, none) e c p h = refl
  edit_status-outcome position (_, _) e c p h = refl

  edit_at-outcome :
      (position : Option ℕ)
      → m.session ≡ s.session_code
      → (m.client ≡ codes "A") ⊎ (m.client ≡ codes "B")
      → get_number (codes "pos") m ≡ position
      → EditOutcome s m (edit_at s m position)
  unfolding edit_at
  edit_at-outcome none e c p = refl
  edit_at-outcome (some position) e c p =
      edit_status-outcome position (change_document s.document position m) e c p refl

  -- An edit is refused and changes nothing, or it was made: the session and the client were checked,
  -- the document changed as `change_document` says, the revision went up by one, a
  -- line was logged, the APPLY message tells it, and nothing else of the server changes.
  pub apply_message_outcome : EditOutcome s m (apply_message_to_document s m)
  unfolding apply_message_to_document
  apply_message_outcome = elim (Bool-cases (text_eq m.session s.session_code)) [
    | inr wrong ↦ rw (wrong, apply_message_to_document) refl
    | inl same ↦
        elim (Bool-cases
          (not (text_eq m.client (codes "A")) && not (text_eq m.client (codes "B")))) [
            | inl stranger ↦ rw (same, stranger, apply_message_to_document) refl
            | inr known ↦
                rw (same, known, apply_message_to_document)
                  (edit_at-outcome (get_number (codes "pos") m)
                    ((text_eq_iff m.session s.session_code).0 same)
                    (ground
                      (arith, text_eq_iff m.client (codes "A"), text_eq_iff m.client (codes "B")))
                    refl)
          ]
  ]

apply_insert-bounded :
    (content text : Text) (position : ℕ) {after : Text}
    → apply_insert_to_content (some content) position text ≡ (applied, some after)
    → length content ≤ max_document_chars
    → length after ≤ max_document_chars
unfolding apply_insert_to_content
apply_insert-bounded content text position h fits =
    ground (arith, length-insert_at position text content)

apply_delete-bounded :
    (content : Text) (position count : ℕ) {after : Text}
    → apply_delete_to_content (some content) position count ≡ (applied, some after)
    → length content ≤ max_document_chars
    → length after ≤ max_document_chars
unfolding apply_delete_to_content
apply_delete-bounded content position count h fits =
    ground (arith, length-erase_at position count content)

-- What an applied change was: an insertion of the text that the message gives, or a deletion of the
-- length that it gives, made by the document model.
abbrev pub Change : Text → ℕ → ProtocolMessage → Text → Type 0
Change document position m after =
    ((text : Text) × (m.type ≡ insert_edit)
      × (get_string (codes "text") m ≡ some text)
      × (length text ≤ max_insert_chars)
      × (apply_insert_to_content (some document) position text ≡ (applied, some after)))
    ⊎ ((count : ℕ) × (m.type ≡ delete_edit)
        × (get_number (codes "len") m ≡ some count)
        × (apply_delete_to_content (some document) position count ≡ (applied, some after)))

type_of_insert : (t : MessageType) → is_insert t ≡ true → t ≡ insert_edit
type_of_insert t h = ground arith

type_of_delete : (t : MessageType) → is_delete t ≡ true → t ≡ delete_edit
type_of_delete t h = ground arith

pub change_document-Change :
    (document : Text) (position : ℕ) (m : ProtocolMessage) {after : Text}
    → change_document document position m ≡ (applied, some after)
    → Change document position m after
unfolding change_document
change_document-Change document position m {after} h = elim (Bool-cases (is_insert m.type)) [
  | inl ins ↦ elim (Option-cases (get_string (codes "text") m)) [
    | inl e ↦ absurd (ground arith)
    | inr (text, e) ↦ inl (text, type_of_insert m.type ins, e, ground arith, ground arith)
  ]
  | inr other ↦ elim (Bool-cases (is_delete m.type)) [
    | inr neither ↦ absurd (ground arith)
    | inl del ↦ elim (Option-cases (get_number (codes "len") m)) [
      | inl e ↦ absurd (ground arith)
      | inr (count, e) ↦ inr (count, type_of_delete m.type del, e, ground arith)
    ]
  ]
]

pub change_document-bounded :
    (document : Text) (position : ℕ) (m : ProtocolMessage) {after : Text}
    → change_document document position m ≡ (applied, some after)
    → length document ≤ max_document_chars
    → length after ≤ max_document_chars
change_document-bounded document position m h fits =
    elim (change_document-Change document position m h) [
      | inl (text, _, _, _, e) ↦ apply_insert-bounded document text position e fits
      | inr (count, _, _, e) ↦ apply_delete-bounded document position count e fits
    ]
