-- ===== src/Main/Agreement/Typed.antt =====
-- `MainWindow` and `WebViewWindow` handle what is typed in the same way.
use mathlib.Core.Path.{subst}
use share_note_pad.Base.{
  ◌≤◌, ◌≡◌, refl, sym, ap, ◌∙◌, Bool, true, false, not, if◌then◌else◌, List, [], ◌∷◌, ◌++◌, Text,
  codes, text_eq, text_eq_iff, length, if_cases, Bool-cases, inl, inr, append-nil,
}
use share_note_pad.Document.Diff.{compute_editor_diff}
use share_note_pad.Document.Model.{max_document_chars}
use share_note_pad.Window.Typing.{AllSendable, handle_editor_changed-host}
use share_note_pad.Document.Diffing.{compute_editor_diff_correct}
use share_note_pad.Main.Agreement.{
  to_connection, to_connection-append, window_of, Agrees, preview-Agrees,
}
use share_note_pad.Main.Editor as Typing
use share_note_pad.Main.State.{MainWindow, take_text, write_tab, replace_editor_text}
use share_note_pad.Protocol.Codec.{TextApi}
use share_note_pad.Sync.Server.{Server}
use share_note_pad.Sync.Transport.{Net}
use share_note_pad.Window.Editor as Page
use share_note_pad.Window.Replica
use share_note_pad.Window.Replica.{
  SyncRole, Window, Effect, saves, posts, sends_edit, requests_sync, emit,
}
use share_note_pad.Main.Agreement.Sending.{
  BothShare, operations-BothShare, send_local_operations_loop,
}

unchanged :
    (equal changed : Bool)
    → changed ≡ not equal
    → changed ≡ false
    → {old new : Text} → (equal ≡ true → old ≡ new)
    → old ≡ new
unchanged true changed e n same = same refl
unchanged false changed e n same = cc

module _ (api : TextApi) (net : Net) (shown : Text → Text) where
  take_text-Agrees :
      (text : Text) (w : Window) (x : MainWindow)
      → Agrees w x
      → Agrees (emit (saves text) (record w { last_known_text = text })) (take_text text x)
  unfolding take_text to_connection
  take_text-Agrees text w x h =
      let taken : MainWindow = record x {
        last_known_text = text;
        dirty = true;
        tabs = write_tab x.tabs x.active_tab_index text true;
        autosave_timer = true;
      } in
      preview-Agrees _ taken (record {
        members =
            ap
              (λ (v : Window).
                let saved : Window = record v {
                  last_known_text = text;
                  effects = w.effects ++ saves text ∷ [];
                } in
                saved)
              h.members;
        sent = to_connection-append w.effects _ ∙ append-nil _ ∙ h.sent;
      })

  -- A difference that is refused.
  refused-BothShare :
      (server : Server) (x : MainWindow) (effects : List Effect)
      → (compute_editor_diff x.last_known_text x.editor_text).valid ≡ false
      → to_connection effects ≡ x.sent
      → BothShare
          (Page.handle_editor_changed api net server (window_of x effects) x.editor_text)
          (Typing.process_editor_change api net shown server x)
  unfolding Page.handle_editor_changed Typing.process_editor_change Typing.reject_change
      replace_editor_text to_connection
  refused-BothShare server x effects refused e =
      rw (refused, Page.handle_editor_changed, Typing.process_editor_change)
        (
          refl,
          if_cases (Agrees (emit (posts x.last_known_text) (window_of x effects)))
              (compute_editor_diff x.last_known_text x.editor_text).document_too_large _ _
              (λ _. record { members = refl; sent = dropped })
              (λ _. record { members = refl; sent = dropped }),
        )
    where
      dropped : to_connection (effects ++ posts x.last_known_text ∷ []) ≡ x.sent
      dropped = to_connection-append effects _ ∙ append-nil _ ∙ e

  -- A text that is the known one.
  same-BothShare :
      (server : Server) (x : MainWindow) (effects : List Effect)
      → (compute_editor_diff x.last_known_text x.editor_text).valid ≡ true
      → (compute_editor_diff x.last_known_text x.editor_text).changed ≡ false
      → x.last_known_text ≡ x.editor_text
      → to_connection effects ≡ x.sent
      → BothShare
          (Page.handle_editor_changed api net server (window_of x effects) x.editor_text)
          (Typing.process_editor_change api net shown server x)
  unfolding Page.handle_editor_changed Typing.process_editor_change Replica.send_local_operations
      to_connection
  same-BothShare server x effects valid same text e =
      rw
        (
          valid, same, Page.handle_editor_changed, Typing.process_editor_change,
          Replica.send_local_operations,
        )
        (
          refl,
          record {
            members =
                ap
                  (λ t.
                    let saved : Window =
                      record (window_of x (effects ++ saves x.editor_text ∷ [])) {
                        last_known_text = t;
                      } in
                    saved)
                  (sym text);
            sent = to_connection-append effects _ ∙ append-nil _ ∙ e;
          },
        )

  -- Any other text.
  changed-BothShare :
      (server : Server) (x : MainWindow) (effects : List Effect)
      → (compute_editor_diff x.last_known_text x.editor_text).valid ≡ true
      → (compute_editor_diff x.last_known_text x.editor_text).changed ≡ true
      → to_connection effects ≡ x.sent
      → BothShare
          (Page.handle_editor_changed api net server (window_of x effects) x.editor_text)
          (Typing.process_editor_change api net shown server x)
  unfolding Page.handle_editor_changed Typing.process_editor_change Replica.send_local_operations
  changed-BothShare server x effects valid changed e =
      let diff = compute_editor_diff x.last_known_text x.editor_text in
      let (same, h) =
        operations-BothShare api net shown diff.operations (server, window_of x effects) (server, x)
          (refl, record { members = refl; sent = e }) in
      subst
        (λ (q : Server × MainWindow).
          BothShare (Page.handle_editor_changed api net server (window_of x effects) x.editor_text)
            (if not diff.valid
              then (server, Typing.reject_change api net shown diff x)
              else if not diff.changed
              then (server, x)
              else (q.0, take_text x.editor_text q.1)))
        (sym (send_local_operations_loop api net shown x.sync_role server x diff refl))
        (rw (valid, changed, Page.handle_editor_changed, Replica.send_local_operations)
          (same, take_text-Agrees x.editor_text _ _ h))

  members-BothShare :
      (server : Server) (x : MainWindow) (effects : List Effect)
      → to_connection effects ≡ x.sent
      → BothShare
          (Page.handle_editor_changed api net server (window_of x effects) x.editor_text)
          (Typing.process_editor_change api net shown server x)
  members-BothShare server x effects e =
      let diff = compute_editor_diff x.last_known_text x.editor_text in
      let (_, _, _, changes, _) = compute_editor_diff_correct x.last_known_text x.editor_text in
      elim (Bool-cases diff.valid) [
        | inr refused ↦ refused-BothShare server x effects refused e
        | inl valid ↦ elim (Bool-cases diff.changed) [
          | inl changed ↦ changed-BothShare server x effects valid changed e
          | inr same ↦
              same-BothShare server x effects valid same
                (unchanged (text_eq x.last_known_text x.editor_text) diff.changed (changes valid)
                  same (text_eq_iff x.last_known_text x.editor_text).0)
                e
        ]
      ]

  -- What is typed is handled alike: from windows with the same members that sent the same, with the
  -- new text in the editor of the one and in the message of the page of the other, the servers end
  -- equal, the members are the same again, and the same was sent, whatever the editor control makes of
  -- the texts that it is set to. The difference may be refused, empty or any other.
  pub process_editor_change-BothShare :
      (server : Server) (w : Window) (x : MainWindow)
      → Agrees w x
      → BothShare
          (Page.handle_editor_changed api net server w x.editor_text)
          (Typing.process_editor_change api net shown server x)
  process_editor_change-BothShare server w x h =
      subst
        (λ v.
          BothShare (Page.handle_editor_changed api net server v x.editor_text)
            (Typing.process_editor_change api net shown server x))
        (sym h.members) (members-BothShare server x w.effects h.sent)

  -- What the host types reaches the document of its server: if the window shows the document of the
  -- server at its revision, the new text is within the limit for documents and no insertion of the
  -- difference is longer than an INSERT may be, the server has the new text afterwards, and the window
  -- knows it at the revision of the server. What the window has sent holds nothing but messages to the
  -- connection.
  pub process_editor_change-host :
      (server : Server) (x : MainWindow)
      → to_connection x.sent ≡ x.sent
      → x.sync_role ≡ SyncRole.host
      → x.local_client_id ≡ codes "A"
      → x.last_known_text ≡ server.document
      → x.current_revision ≡ server.revision
      → length x.editor_text ≤ max_document_chars
      → AllSendable (compute_editor_diff x.last_known_text x.editor_text).operations
      → let (server', x') = Typing.process_editor_change api net shown server x in
        (server'.document ≡ x.editor_text)
        × (x'.last_known_text ≡ server'.document)
        × (x'.current_revision ≡ server'.revision)
  process_editor_change-host server x sent role id text revision fits small =
      let (same, h) = members-BothShare server x x.sent sent in
      let (document, known, now) =
        handle_editor_changed-host api net server (window_of x x.sent) x.editor_text role id text
          revision fits small in
      (
        sym (ap (λ (s : Server). s.document) same) ∙ document,
        sym (ap (λ (v : Window). v.last_known_text) h.members)
            ∙ known
            ∙ ap (λ (s : Server). s.document) same,
        sym (ap (λ (v : Window). v.current_revision) h.members)
            ∙ now
            ∙ ap (λ (s : Server). s.revision) same,
      )
