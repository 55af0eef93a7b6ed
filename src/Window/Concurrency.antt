-- ===== src/Window/Concurrency.antt =====
-- Two people who type at once: the server of client/sync_server.cpp and the window of the guest of
-- client/webview_window.cpp.
use share_note_pad.Base.{
  ℕ, ◌+◌, ◌^◌, ◌<◌, ◌≤◌, ◌≡◌, ◌≢◌, refl, sym, ap, ◌∙◌, some, [], ◌∷◌, ◌++◌, append-nil, length,
  length-append, Text, codes, text_eq, text_lt, text_eq_iff, ne_of_text_eq, arith, inl, inr,
}
use share_note_pad.Document.Diff.{insert_text, compute_editor_diff}
use share_note_pad.Document.Laws.{apply_insert-applied}
use share_note_pad.Document.Model.{max_document_chars}
use share_note_pad.Protocol.Codec.{TextApi}
use share_note_pad.Protocol.Fields.{lookup, insert}
use share_note_pad.Protocol.Message.{
  ProtocolMessage, insert_edit, get_string, get_number, set_string, set_number,
}
use share_note_pad.Sync.Accepted.{
  IsClient, change_document-insert, apply_message_to_document-accepted,
}
use share_note_pad.Sync.Client.{Client, insert_request}
use share_note_pad.Sync.Server.{
  Server, edited, max_insert_chars, next_revision, apply_message, commit_edit,
  apply_message_to_document, operation_request,
}
use share_note_pad.Sync.Transport.{Net}
use share_note_pad.Window.Convergence.{
  run_edits, announce, receive_applies, apply_sync_apply-next, apply_message-insert,
  remote_change-insert,
}
use share_note_pad.Window.Editor.{handle_editor_changed}
use share_note_pad.Window.Refusal.{paste_diff, compute_editor_diff-empty}
use share_note_pad.Window.Replica.{
  guest, Window, apply_sync_apply, emit, saves, posts, send_as, send_operation, send_operations,
  send_local_operations,
}

run_edits-two :
    (s s1 s2 : Server) (m n a b : ProtocolMessage)
    → apply_message_to_document s m ≡ (s1, edited a)
    → apply_message_to_document s1 n ≡ (s2, edited b)
    → run_edits s (m ∷ n ∷ []) ≡ (s2, a ∷ b ∷ [])
unfolding run_edits announce
run_edits-two s s1 s2 m n a b e f = rw (e, run_edits) (rw (f, run_edits) refl)

-- An insertion at the beginning that the server takes.
accepted_front :
    (s : Server) (m : ProtocolMessage) (text : Text)
    → m.session ≡ s.session_code
    → IsClient m.client
    → m.type ≡ insert_edit
    → get_number (codes "pos") m ≡ some 0
    → get_string (codes "text") m ≡ some text
    → text ≢ []
    → length text ≤ max_insert_chars
    → length s.document + length text ≤ max_document_chars
    → apply_message_to_document s m ≡ commit_edit s 0 m (text ++ s.document)
accepted_front s m text session client type position given ne small fits =
    apply_message_to_document-accepted s m 0 (text ++ s.document) session client position (
      change_document-insert s m 0 (text ++ s.document) text type given small
        (apply_insert-applied s.document text 0 ne (omega arith) fits))

-- The APPLY message of the window's own edit only counts.
apply_sync_apply-own :
    (server : Server) (w : Window) (a : ProtocolMessage) (revision position : ℕ) (operation : Text)
    → get_number (codes "rev") a ≡ some revision
    → get_number (codes "pos") a ≡ some position
    → get_string (codes "op") a ≡ some operation
    → w.current_revision < revision
    → a.client ≡ w.local_client_id
    → apply_sync_apply server w a ≡ (let v : Window = record w { current_revision = revision } in v)
unfolding apply_sync_apply
apply_sync_apply-own server w a revision position operation r p o later own =
    rw (r, apply_sync_apply, p, o) (ground (arith, text_eq_iff a.client w.local_client_id))

-- What the window shows after both APPLY messages, if its text is the one that it typed itself.
after_both :
    (server s : Server) (w : Window) (host_edit own_edit : ProtocolMessage) (t u : Text)
    → w.last_known_text ≡ u
    → w.current_revision ≡ s.revision
    → s.revision + 2 < 2 ^ 64
    → host_edit.type ≡ insert_edit
    → get_string (codes "text") host_edit ≡ some t
    → host_edit.client ≢ w.local_client_id
    → own_edit.type ≡ insert_edit
    → get_string (codes "text") own_edit ≡ some u
    → own_edit.client ≡ w.local_client_id
    → t ≢ []
    → length u + length t ≤ max_document_chars
    → let w' = receive_applies server w (
        apply_message s.session_code (next_revision s.revision) 0 host_edit
        ∷ apply_message s.session_code (next_revision (next_revision s.revision)) 0 own_edit
        ∷ []) in
      (w'.last_known_text ≡ t ++ u)
      × (w'.current_revision ≡ next_revision (next_revision s.revision))
unfolding receive_applies
after_both server s w host_edit own_edit t u shown now room type given other own_type own_given own
      ne fits =
    let rev = next_revision s.revision in
    let (r, p, o, x, c) = apply_message-insert s.session_code t rev 0 host_edit type given in
    let (r', p', o', _, c') =
      apply_message-insert s.session_code u (next_revision rev) 0 own_edit own_type own_given in
    let a = apply_message s.session_code rev 0 host_edit in
    let b = apply_message s.session_code (next_revision rev) 0 own_edit in
    let v : Window =
      emit (posts (t ++ u))
        (emit (saves (t ++ u)) (record w { last_known_text = t ++ u; current_revision = rev })) in
    let first : apply_sync_apply server w a ≡ v =
      apply_sync_apply-next server w a rev 0 (codes "INSERT") (t ++ u) r p o (omega (arith, now))
        (rw c other)
        (remote_change-insert w.last_known_text t 0 a x
          ∙ rw shown (apply_insert-applied u t 0 ne (omega arith) fits)) in
    let second : apply_sync_apply server v b
        ≡ (let z : Window = record v { current_revision = next_revision rev } in z) =
      apply_sync_apply-own server v b (next_revision rev) 0 (codes "INSERT") r' p' o' (omega arith)
        (c' ∙ own) in
    let both = ap (λ z. apply_sync_apply server z b) first ∙ second in
    (ap (λ (z : Window). z.last_known_text) both, ap (λ (z : Window). z.current_revision) both)

module _ (api : TextApi) (net : Net) where
  guest_types :
      (s : Server) (w : Window) (c : ℕ) (text : Text)
      → w.sync_role ≡ guest
      → w.last_known_text ≡ []
      → length (c ∷ text) ≤ max_document_chars
      → let w' = (handle_editor_changed api net s w (c ∷ text)).1 in
        (w'.last_known_text ≡ c ∷ text)
        × (w'.current_revision ≡ w.current_revision)
        × (w'.local_client_id ≡ w.local_client_id)
  unfolding handle_editor_changed paste_diff send_local_operations send_operations send_operation
  guest_types s w c text role shown fits =
      let pasted : compute_editor_diff w.last_known_text (c ∷ text)
          ≡ paste_diff api net (c ∷ text) =
        ap (λ t. compute_editor_diff t (c ∷ text)) shown
        ∙ compute_editor_diff-empty api net c text fits in
      let sent : send_as api net w.sync_role s w (insert_text 0 (c ∷ text))
          ≡ send_as api net guest s w (insert_text 0 (c ∷ text)) =
        ap (λ r. send_as api net r s w (insert_text 0 (c ∷ text))) role in
      rw (pasted, handle_editor_changed)
        (
          refl,
          unfold send_as in ap (λ (r : Server × Window). r.1.current_revision) sent,
          unfold send_as in ap (λ (r : Server × Window). r.1.local_client_id) sent,
        )

  -- Two people who type at the beginning of an empty note at the same time end with different texts:
  -- the host inserts `t`, and the guest inserts `u` before it hears of that. The server, which gets
  -- the edit of the host first, has `u ++ t`; the window of the guest, which has made its own edit
  -- already, has `t ++ u`, and both are at the same revision, so that nothing asks for a full
  -- synchronisation.
  pub handle_editor_changed-concurrent :
      (server s : Server) (w : Window) (client : Client) (t : Text) (c : ℕ) (text : Text)
      → let u = c ∷ text in
        s.document ≡ []
        → w.sync_role ≡ guest
        → w.last_known_text ≡ []
        → w.current_revision ≡ s.revision
        → w.local_client_id ≡ codes "B"
        → client.assigned_client ≡ codes "B"
        → client.session_code ≡ s.session_code
        → t ≢ []
        → length t ≤ max_insert_chars
        → length u ≤ max_insert_chars
        → length u + length t ≤ max_document_chars
        → s.revision + 2 < 2 ^ 64
        → let w' = (handle_editor_changed api net s w u).1 in
          let host_edit = operation_request s (insert_text 0 t) (codes "A") in
          let own_edit = insert_request client w.current_revision 0 u in
          let (last, applies) = run_edits s (host_edit ∷ own_edit ∷ []) in
          let w'' = receive_applies server w' applies in
          (last.document ≡ u ++ t)
          × (w''.last_known_text ≡ t ++ u)
          × (w''.current_revision ≡ last.revision)
  unfolding operation_request insert_request commit_edit get_string get_number set_string set_number
      lookup insert text_eq text_lt
  handle_editor_changed-concurrent server s w client t c text empty role shown now id assigned
        session ne small_t small_u fits room =
      let u = c ∷ text in
      let (typed, still, kept) = guest_types s w c text role shown (omega arith) in
      let host_edit = operation_request s (insert_text 0 t) (codes "A") in
      let own_edit = insert_request client w.current_revision 0 u in
      let s1 = (commit_edit s 0 host_edit (t ++ s.document)).0 in
      let name : own_edit.client ≡ codes "B" =
        ap
          (λ (a : Text).
            let k : Client = record client { assigned_client = a } in
            (insert_request k w.current_revision 0 u).client)
          assigned in
      let edits =
        run_edits-two s s1 _ host_edit own_edit _ _
          (accepted_front s host_edit t refl (inl refl) refl refl refl ne small_t
            (omega (arith, ap length empty)))
          (accepted_front s1 own_edit u session (inr name) refl refl refl (λ e. cc) small_u
            (omega (arith, length-append t s.document, ap length empty))) in
      let typed_w = (handle_editor_changed api net s w u).1 in
      let both =
        after_both server s typed_w host_edit own_edit t u typed (still ∙ now) room refl refl
          (λ e. ne_of_text_eq (codes "A") (codes "B") refl (e ∙ kept ∙ id)) refl refl
          (name ∙ sym id ∙ sym kept) ne fits in
      (
        ap (λ r. r.0.document) edits
            ∙ ap (λ (d : Text). u ++ (t ++ d)) empty
            ∙ ap (λ (d : Text). u ++ d) (append-nil t),
        ap (λ r. (receive_applies server typed_w r.1).last_known_text) edits ∙ both.0,
        ap (λ r. (receive_applies server typed_w r.1).current_revision) edits
            ∙ both.1
            ∙ sym (ap (λ r. r.0.revision) edits),
      )
