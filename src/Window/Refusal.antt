-- ===== src/Window/Refusal.antt =====
-- What the window of client/webview_window.cpp does with a paste that the server refuses.
use share_note_pad.Base.{
  ℕ, suc, ◌-◌, ◌<◌, ◌≤◌, ◌≡◌, refl, sym, ap, ◌∙◌, true, false, not, some, none, [], ◌∷◌, ◌++◌, min,
  ltb, if◌then◌else◌, length, take, take-all, Text, codes, text_eq, text_lt, arith, inl, inr,
}
use share_note_pad.Document.Diff.{
  insert_text, EditorDiffResult, compute_editor_diff, diff_operations, scan_prefix, scan_suffix,
  range_operations,
}
use share_note_pad.Document.Model.{max_document_chars}
use share_note_pad.Protocol.Codec.{TextApi}
use share_note_pad.Protocol.Fields.{lookup, insert}
use share_note_pad.Protocol.Message.{
  ProtocolMessage, insert_edit, delete_edit, get_string, set_string, set_number,
}
use share_note_pad.Sync.Edits.{EditOutcome, apply_message_outcome, change_document-Change}
use share_note_pad.Sync.Server.{
  Server, Edit, edited, refused, max_insert_chars, apply_message_to_document, operation_request,
  local_result, apply_local_operation,
}
use share_note_pad.Sync.Transport.{Net}
use share_note_pad.Window.Editor.{handle_editor_changed}
use share_note_pad.Window.Replica.{
  host, Window, saves, posts, send_as, send_operation, send_operations, send_local_operations,
  after_local, request_as, request_full_sync, apply_full_sync_document,
}

module _ (api : TextApi) (net : Net) where
  local_result-refused :
      (s : Server) (m : ProtocolMessage) (text : Text) (r : Server × Edit)
      → EditOutcome s m r
      → m.type ≡ insert_edit
      → get_string (codes "text") m ≡ some text
      → max_insert_chars < length text
      → (reason : Text) × (local_result api net r
          ≡ ((let v : Server = record s { last_error = reason } in v), none))
  unfolding local_result
  local_result-refused s m text (s', refused reason) h t e large =
      (reason, ap (λ u. (let v : Server = record u { last_error = reason } in v, none)) h)
  local_result-refused s m text (s', edited a) h t e large =
      absurd (elim (change_document-Change s.document h.position m h.changed) [
        | inl (given, _, f, small, _) ↦ ground (arith, sym e ∙ f)
        | inr (count, f, _, _) ↦ let no : insert_edit ≡ delete_edit = sym t ∙ f in cc
      ])

  apply_local_operation-refused :
      (s : Server) (position : ℕ) (text client : Text)
      → max_insert_chars < length text
      → (reason : Text) × (apply_local_operation api net s (insert_text position text) client
          ≡ ((let v : Server = record s { last_error = reason } in v), none))
  unfolding apply_local_operation operation_request get_string set_string set_number lookup insert
      text_eq text_lt
  apply_local_operation-refused s position text client large =
      let m = operation_request s (insert_text position text) client in
      local_result-refused s m text (apply_message_to_document s m) (apply_message_outcome s m) refl
        refl large

  diff_operations-empty :
      (c : ℕ) (text : Text) → diff_operations [] (c ∷ text) ≡ insert_text 0 (c ∷ text) ∷ []
  unfolding diff_operations scan_prefix scan_suffix range_operations
  diff_operations-empty c text =
      let none_common : min 0 (suc (length text)) ≡ 0 = omega arith in
      let whole : take (suc (length text) - 0) (c ∷ text) ≡ c ∷ text =
        take-all _ (c ∷ text) (omega arith) in
      rw none_common (rw whole refl)

  send_as-refused :
      (s : Server) (w : Window) (text : Text)
      → w.sync_role ≡ host
      → max_insert_chars < length text
      → let (s', w') = send_as api net host s w (insert_text 0 text) in
        (s'.document ≡ s.document) × (w' ≡ apply_full_sync_document s.document s.revision w)
  unfolding send_as after_local request_full_sync request_as
  send_as-refused s w text role large =
      let (reason, e) = apply_local_operation-refused s 0 text w.local_client_id large in
      rw e (refl, ap (λ r. request_as r (record s { last_error = reason }) w) role)

  send_local_operations-refused :
      (s : Server) (w : Window) (c : ℕ) (text : Text) (diff : EditorDiffResult)
      → w.sync_role ≡ host
      → max_insert_chars < length (c ∷ text)
      → diff.changed ≡ true
      → diff.operations ≡ insert_text 0 (c ∷ text) ∷ []
      → let (s', w') = send_local_operations api net s w diff in
        (s'.document ≡ s.document) × (w' ≡ apply_full_sync_document s.document s.revision w)
  unfolding send_local_operations send_operations send_operation
  send_local_operations-refused s w c text diff role large changed ops =
      let all : send_local_operations api net s w diff
          ≡ send_as api net host s w (insert_text 0 (c ∷ text)) =
        let no_change : Server × Window = (s, w) in
        ap (λ b. if not b then no_change else send_operations api net s w diff.operations) changed
        ∙ ap (send_operations api net s w) ops
        ∙ ap (λ r. send_as api net r s w (insert_text 0 (c ∷ text))) role in
      rw all (send_as-refused s w (c ∷ text) role large)

  unfoldable pub paste_diff : Text → EditorDiffResult
  paste_diff text = record {
    valid = true;
    changed = true;
    document_too_large = false;
    operations = insert_text 0 text ∷ [];
  }

  pub compute_editor_diff-empty :
      (c : ℕ) (text : Text)
      → length (c ∷ text) ≤ max_document_chars
      → compute_editor_diff [] (c ∷ text) ≡ paste_diff (c ∷ text)
  unfolding compute_editor_diff paste_diff text_eq
  compute_editor_diff-empty c text fits =
      let ops = diff_operations-empty c text in
      let inside : ltb max_document_chars (length (c ∷ text)) ≡ false = ground arith in
      rw inside (
        ap
          (λ o.
            let d : EditorDiffResult = record {
              valid = true;
              changed = true;
              document_too_large = false;
              operations = o;
            } in
            d)
          ops)

  -- A paste that the server refuses splits the host: an empty room, and a text that is within the
  -- limit for documents but longer than an INSERT may be. The document of the server stays empty and
  -- the page is told to show it, but the window then takes the refused text as the one that is known,
  -- and saves it.
  pub handle_editor_changed-refused :
      (s : Server) (w : Window) (text : Text)
      → w.sync_role ≡ host
      → w.last_known_text ≡ []
      → s.document ≡ []
      → max_insert_chars < length text
      → length text ≤ max_document_chars
      → let (s', w') = handle_editor_changed api net s w text in
        (s'.document ≡ [])
        × (w'.last_known_text ≡ text)
        × (w'.effects ≡ ((w.effects ++ saves [] ∷ []) ++ posts [] ∷ []) ++ saves text ∷ [])
  unfolding handle_editor_changed paste_diff apply_full_sync_document
  handle_editor_changed-refused s w [] role shown empty large fits = absurd (omega arith)
  handle_editor_changed-refused s w (c ∷ text) role shown empty large fits =
      let pasted : compute_editor_diff w.last_known_text (c ∷ text) ≡ paste_diff (c ∷ text) =
        ap (λ t. compute_editor_diff t (c ∷ text)) shown ∙ compute_editor_diff-empty c text fits in
      let (document, told) =
        send_local_operations-refused s w c text (paste_diff (c ∷ text)) role large refl refl in
      rw (pasted, handle_editor_changed)
        (
          document ∙ empty,
          refl,
          ap (λ (v : Window). v.effects ++ saves (c ∷ text) ∷ []) told
              ∙ ap
                  (λ (d : Text).
                    ((w.effects ++ saves d ∷ []) ++ posts d ∷ []) ++ saves (c ∷ text) ∷ [])
                  empty,
        )
