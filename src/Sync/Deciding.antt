-- ===== src/Sync/Deciding.antt =====
-- Which edits the server of client/sync_server.cpp takes, and what it makes of them.
use share_note_pad.Base.{ℕ, ◌≤◌, ◌≡◌, ◌⊎◌, some, [], ◌∷◌, ◌++◌, length, Text, codes}
use share_note_pad.Document.Model.{applied, apply_insert_to_content, apply_delete_to_content}
use share_note_pad.Protocol.Message.{
  apply, insert_edit, delete_edit, ProtocolMessage, get_string, get_number,
}
use share_note_pad.Sync.Server.{
  delete_entry, Edit, edited, insert_entry, LogEntry, max_insert_chars, next_revision, refused,
  Server,
}

-- The fields that every APPLY of an edit has.
pub record Announced (s : Server) (m a : ProtocolMessage) (position : ℕ) (operation : Text)
    : Type 0 where
  pub type : a.type ≡ apply
  pub session : a.session ≡ s.session_code
  pub client : a.client ≡ m.client
  pub rev : get_number (codes "rev") a ≡ some (next_revision s.revision)
  pub pos : get_number (codes "pos") a ≡ some position
  pub op : get_string (codes "op") a ≡ some operation

-- The server after an edit: the document, the next revision and a line of the log; nothing else.
abbrev pub server_after : Server → Text → LogEntry → Server
server_after s document entry = record s {
  document = document;
  revision = next_revision s.revision;
  log = s.log ++ entry ∷ [];
}

-- The message asks for an insertion or a deletion that the document model makes.
abbrev pub Asks : Server → ProtocolMessage → ℕ → Text → Type 0
Asks s m position after =
    ((text : Text) × (m.type ≡ insert_edit)
      × (get_string (codes "text") m ≡ some text)
      × (length text ≤ max_insert_chars)
      × (apply_insert_to_content (some s.document) position text ≡ (applied, some after)))
    ⊎ ((count : ℕ) × (m.type ≡ delete_edit)
        × (get_number (codes "len") m ≡ some count)
        × (apply_delete_to_content (some s.document) position count ≡ (applied, some after)))

-- An edit of one of the two clients of the session.
abbrev pub Allowed : Server → ProtocolMessage → ℕ → Text → Type 0
Allowed s m position after =
    (m.session ≡ s.session_code)
    × ((m.client ≡ codes "A") ⊎ (m.client ≡ codes "B"))
    × (get_number (codes "pos") m ≡ some position)
    × Asks s m position after

-- What is known of the server and the answer: an edit that was made, with what was told and logged,
-- or one that is not allowed at any position with any document after it.
abbrev pub Decided : Server → ProtocolMessage → Server × Edit → Type 0
Decided s m (s', edited a) =
    (position : ℕ) × Allowed s m position s'.document
    × (((text : Text) × (m.type ≡ insert_edit)
          × (get_string (codes "text") m ≡ some text)
          × Announced s m a position (codes "INSERT")
          × (get_string (codes "text") a ≡ some text)
          × (s'
              ≡ server_after s s'.document
                  (insert_entry (next_revision s.revision) m.client position (length text))))
        ⊎ ((count : ℕ) × (m.type ≡ delete_edit)
            × (get_number (codes "len") m ≡ some count)
            × Announced s m a position (codes "DELETE")
            × (get_number (codes "len") a ≡ some count)
            × (s'
                ≡ server_after s s'.document
                    (delete_entry (next_revision s.revision) m.client position count))))
Decided s m (s', refused reason) =
    (s' ≡ s) × ((position : ℕ) (after : Text) → ¬ Allowed s m position after)
