-- ===== src/Window/Typing.antt =====
-- What the host types reaches the document of its server.
use share_note_pad.Base.{
  ℕ, ◌≤◌, ◌≡◌, refl, sym, ap, ◌∙◌, Bool, true, false, not, some, List, [], ◌∷◌, length, Text, codes,
  text_eq, text_eq_iff, arith, Option-cases, Bool-cases, inl, inr,
}
use share_note_pad.Document.Diff.{EditorOperation, EditorDiffResult, compute_editor_diff}
use share_note_pad.Document.Diffing.{apply_operation, replay, compute_editor_diff_correct}
use share_note_pad.Document.Model.{max_document_chars}
use share_note_pad.Protocol.Codec.{TextApi}
use share_note_pad.Protocol.Message.{ProtocolMessage, get_number}
use share_note_pad.Sync.Accepted.{IsSendable, apply_local_operation-Made}
use share_note_pad.Sync.Server.{Server, apply_local_operation, next_revision}
use share_note_pad.Sync.Transport.{Net}
use share_note_pad.Window.Editor.{handle_editor_changed}
use share_note_pad.Window.Replica.{
  host, Window, send_as, send_operation, send_operations, send_local_operations, after_local,
}

same_text :
    (equal changed : Bool)
    → changed ≡ not equal
    → changed ≡ false
    → {old new : Text} → (equal ≡ true → old ≡ new)
    → old ≡ new
same_text true changed e n same = same refl
same_text false changed e n same = cc

abbrev pub AllSendable : List EditorOperation → Type 0
AllSendable [] = Unit
AllSendable (op ∷ ops) = IsSendable op × AllSendable ops

module _ (api : TextApi) (net : Net) where
  after_local-given :
      (s : Server) (w : Window) (m : ProtocolMessage) (revision : ℕ)
      → get_number (codes "rev") m ≡ some revision
      → after_local api net s w (some m) ≡ (s, record w { current_revision = revision })
  unfolding after_local
  after_local-given s w m revision e = rw (e, after_local) refl

  send_operation-as_host :
      (s : Server) (w : Window) (op : EditorOperation)
      → w.sync_role ≡ host
      → send_operation api net s w op
        ≡ after_local api net
            (apply_local_operation api net s op w.local_client_id).0
            w
            (apply_local_operation api net s op w.local_client_id).1
  unfolding send_operation send_as
  send_operation-as_host s w op role = ap (λ r. send_as api net r s w op) role

  send_operation-host :
      (s : Server) (w : Window) (op : EditorOperation) (after : Text)
      → w.sync_role ≡ host
      → w.local_client_id ≡ codes "A"
      → IsSendable op
      → apply_operation s.document op ≡ some after
      → let (s', w') = send_operation api net s w op in
        (s'.document ≡ after)
        × (s'.revision ≡ next_revision s.revision)
        × (w' ≡ record w { current_revision = s'.revision })
  send_operation-host s w op after role id small h =
      let made = apply_local_operation-Made api net s op after small h in
      let s' = (apply_local_operation api net s op (codes "A")).0 in
      let sent : send_operation api net s w op
          ≡ (s', record w { current_revision = next_revision s.revision }) =
        send_operation-as_host s w op role
        ∙ ap
            (λ c.
              after_local api net (apply_local_operation api net s op c).0 w
                (apply_local_operation api net s op c).1)
            id
        ∙ ap (after_local api net s' w) made.given
        ∙ after_local-given s' w made.result _ made.rev in
      rw sent (
        made.document,
        made.revision,
        ap (λ r. let v : Window = record w { current_revision = r } in v) (sym made.revision),
      )

  send_operations-host :
      (ops : List EditorOperation) (s : Server) (w : Window) (new : Text)
      → w.sync_role ≡ host
      → w.local_client_id ≡ codes "A"
      → w.current_revision ≡ s.revision
      → AllSendable ops
      → replay s.document ops ≡ some new
      → let (s', w') = send_operations api net s w ops in
        (s'.document ≡ new) × (w' ≡ record w { current_revision = s'.revision })
  unfolding send_operations replay
  send_operations-host [] s w new role id now small h =
      (ground arith, ap (λ r. let v : Window = record w { current_revision = r } in v) now)
  send_operations-host (op ∷ ops) s w new role id now small h =
      elim (Option-cases (apply_operation s.document op)) [
        | inl e ↦ absurd (ground arith)
        | inr (after, e) ↦
            let (s1, w1) = send_operation api net s w op in
            let (d, r, same) = send_operation-host s w op after role id small.0 e in
            let left : replay after ops ≡ some new = rw (e, replay) at h in
            let (document, rest) =
              send_operations-host ops s1 w1 new (ap (λ v. v.sync_role) same ∙ role)
                (ap (λ v. v.local_client_id) same ∙ id) (ap (λ v. v.current_revision) same) small.1
                (ap (λ t. replay t ops) d ∙ left) in
            (
              document,
              rest
                  ∙ ap
                      (λ (v : Window).
                        let u : Window = record v {
                          current_revision = (send_operations api net s1 w1 ops).0.revision;
                        } in
                        u)
                      same,
            )
      ]

  send_local_operations-host :
      (s : Server) (w : Window) (diff : EditorDiffResult) (new : Text)
      → w.sync_role ≡ host
      → w.local_client_id ≡ codes "A"
      → w.current_revision ≡ s.revision
      → AllSendable diff.operations
      → replay s.document diff.operations ≡ some new
      → (diff.changed ≡ false → s.document ≡ new)
      → let (s', w') = send_local_operations api net s w diff in
        (s'.document ≡ new) × (w'.current_revision ≡ s'.revision)
  unfolding send_local_operations
  send_local_operations-host s w diff new role id now small h same =
      let (document, rest) = send_operations-host diff.operations s w new role id now small h in
      elim (Bool-cases diff.changed) [
        | inl e ↦ rw (e, send_local_operations) (document, ap (λ v. v.current_revision) rest)
        | inr e ↦ rw (e, send_local_operations) (same e, now)
      ]

  -- Whatever the host types within the limits reaches the document of the server: if the window
  -- shows the document of the server at its revision, the new text is within the limit for documents
  -- and no insertion of the difference is longer than an INSERT may be, then the server has the new
  -- text afterwards, and the window shows it at the revision of the server.
  pub handle_editor_changed-host :
      (s : Server) (w : Window) (text : Text)
      → w.sync_role ≡ host
      → w.local_client_id ≡ codes "A"
      → w.last_known_text ≡ s.document
      → w.current_revision ≡ s.revision
      → length text ≤ max_document_chars
      → AllSendable (compute_editor_diff w.last_known_text text).operations
      → let (s', w') = handle_editor_changed api net s w text in
        (s'.document ≡ text)
        × (w'.last_known_text ≡ s'.document)
        × (w'.current_revision ≡ s'.revision)
  unfolding handle_editor_changed compute_editor_diff
  handle_editor_changed-host s w text role id shown now fits small =
      let diff = compute_editor_diff w.last_known_text text in
      let (valid, _, turns, changes, _) = compute_editor_diff_correct w.last_known_text text in
      let good : diff.valid ≡ true = valid ∙ ground arith in
      let (document, revision) =
        send_local_operations-host s w diff text role id now small
          (ap (λ t. replay t diff.operations) (sym shown) ∙ turns good)
          (λ e.
            sym shown
            ∙ same_text (text_eq w.last_known_text text) diff.changed (changes good) e
                (text_eq_iff w.last_known_text text).0) in
      rw (good, handle_editor_changed) (document, sym document, revision)
