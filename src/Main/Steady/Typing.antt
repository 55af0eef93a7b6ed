-- ===== src/Main/Steady/Typing.antt =====
-- A change of the editor keeps the window steady.
use share_note_pad.Base.{
  ℕ, not, ◌||◌, Option, some, none, List, [], ◌∷◌, Text, codes, arith, ltb, ◌==◌, length, if_cases,
}
use share_note_pad.Document.Diff.{EditorOperation, EditorDiffResult, compute_editor_diff}
use share_note_pad.Main.Editor.{
  after_local, send_as, send_operation, send_operations, send_local_operations, reject_change,
  process_editor_change, on_editor_changed,
}
use share_note_pad.Main.Shared.{request_full_sync}
use share_note_pad.Main.Shortcuts.{
  line_start_of, delete_markdown_marker, apply_shortcut, is_space_before,
  apply_markdown_shortcut_if_needed,
}
use share_note_pad.Main.State.{MainWindow}
use share_note_pad.Main.Steady.{Steady, take_text-Steady, replace_editor_text-Steady}
use share_note_pad.Main.Steady.Sharing.{request-Steady}
use share_note_pad.Protocol.Codec.{TextApi}
use share_note_pad.Protocol.Message.{ProtocolMessage, get_number}
use share_note_pad.Sync.Server.{Server}
use share_note_pad.Sync.Transport.{Net}
use share_note_pad.Window.Replica.{SyncRole, offline, host, guest}

pub apply_shortcut-Steady :
    (line_start : ℕ) (marker : Option ℕ) (x : MainWindow)
    → Steady x
    → Steady (apply_shortcut line_start marker x)
unfolding apply_shortcut delete_markdown_marker
apply_shortcut-Steady line_start none x v = v
apply_shortcut-Steady line_start (some count) x v = ground arith

shortcut-Steady : (x : MainWindow) → Steady x → Steady (apply_markdown_shortcut_if_needed x)
unfolding apply_markdown_shortcut_if_needed
shortcut-Steady x v =
    if_cases Steady (not (x.selection.first == x.selection.last) || x.selection.last == 0) _ _
      (λ _. v)
      (λ _.
        if_cases Steady
          (ltb (length x.editor_text) x.selection.last
            || not (is_space_before x.editor_text x.selection.last))
          _ _ (λ _. v)
          (λ _. apply_shortcut-Steady (line_start_of x.editor_text x.selection.last) _ x v))

module _ (api : TextApi) (net : Net) (shown : Text → Text) where
  local-Steady :
      (server : Server) (x : MainWindow) (m : Option ProtocolMessage)
      → Steady x
      → Steady (after_local api net shown server x m).1
  unfolding after_local request_full_sync
  local-Steady server x none v = request-Steady shown x.sync_role server x v
  local-Steady server x (some m) v = by_revision (get_number (codes "rev") m)
    where
      by_revision :
          (rev : Option ℕ)
          → let after : Server × MainWindow = elim rev [
            | none ↦ (server, x)
            | some revision ↦ (server, record x { current_revision = revision })
          ] in
            Steady after.1
      by_revision none = v
      by_revision (some revision) = ground arith

  operation-Steady :
      (role : SyncRole) (server : Server) (x : MainWindow) (operation : EditorOperation)
      → Steady x
      → Steady (send_as api net shown role server x operation).1
  unfolding send_as
  operation-Steady offline server x operation v = v
  operation-Steady guest server x operation v = ground arith
  operation-Steady host server x operation v = local-Steady _ x _ v

  operations-Steady :
      (operations : List EditorOperation) (server : Server) (x : MainWindow)
      → Steady x
      → Steady (send_operations api net shown server x operations).1
  unfolding send_operations send_operation
  operations-Steady [] server x v = v
  operations-Steady (operation ∷ operations) server x v =
      operations-Steady operations _ _ (operation-Steady x.sync_role server x operation v)

  send_local_operations-Steady :
      (role : SyncRole) (server : Server) (x : MainWindow) (diff : EditorDiffResult)
      → Steady x
      → let sent : Server × MainWindow = elim role [
        | offline ↦ (server, x)
        | _ ↦ send_operations api net shown server x diff.operations
      ] in
        Steady sent.1
  send_local_operations-Steady offline server x diff v = v
  send_local_operations-Steady _ server x diff v = operations-Steady diff.operations server x v

  pub process_editor_change-Steady :
      (server : Server) (x : MainWindow)
      → Steady x
      → Steady (process_editor_change api net shown server x).1
  unfolding process_editor_change reject_change send_local_operations
  process_editor_change-Steady server x v =
      let diff = compute_editor_diff x.last_known_text x.editor_text in
      if_cases (λ (r : Server × MainWindow). Steady r.1) (not diff.valid) _ _
        (λ _.
          if_cases Steady diff.document_too_large _ _
            (λ _. replace_editor_text-Steady shown x.last_known_text x v) (λ _. v))
        (λ _.
          if_cases (λ (r : Server × MainWindow). Steady r.1) (not diff.changed) _ _ (λ _. v)
            (λ _.
              take_text-Steady x.editor_text _
                (send_local_operations-Steady x.sync_role server x diff v)))

  pub on_editor_changed-Steady :
      (server : Server) (x : MainWindow)
      → Steady x
      → Steady (on_editor_changed api net shown server x).1
  unfolding on_editor_changed
  on_editor_changed-Steady server x v =
      if_cases (λ (r : Server × MainWindow). Steady r.1)
        (x.suppress_editor_change
          || (x.remote_applying || (x.ime_composing || x.markdown_shortcut_applying)))
        _ _ (λ _. v) (λ _. process_editor_change-Steady server _ (shortcut-Steady x v))
