-- ===== src/Main/Agreement/Sending.antt =====
-- `MainWindow` and `WebViewWindow` send the operations of a difference in the same way.
use mathlib.Core.Path.{subst, ap₂}
use share_note_pad.Base.{
  ℕ, ◌≡◌, refl, sym, ap, ◌∙◌, Option, some, none, List, [], ◌∷◌, ◌++◌, Text, codes,
}
use share_note_pad.Document.Diff.{EditorOperation, EditorDiffResult}
use share_note_pad.Main.Agreement.{
  to_connection, to_connection-append, window_of, Agrees, request-Agrees,
}
use share_note_pad.Main.Editor as Typing
use share_note_pad.Main.Shared
use share_note_pad.Main.State.{MainWindow}
use share_note_pad.Protocol.Codec.{TextApi}
use share_note_pad.Protocol.Message.{ProtocolMessage, get_number}
use share_note_pad.Sync.Server.{Server, apply_local_operation}
use share_note_pad.Sync.Transport.{Net}
use share_note_pad.Window.Replica
use share_note_pad.Window.Replica.{
  SyncRole, Window, Effect, saves, posts, sends_edit, requests_sync, emit,
}

-- The windows agree, and so do the servers.
abbrev pub BothShare : Server × Window → Server × MainWindow → Type 0
BothShare (server, w) (server', x) = (server ≡ server') × Agrees w x

module _ (api : TextApi) (net : Net) (shown : Text → Text) where
  local-BothShare :
      (server : Server) (x : MainWindow) (effects : List Effect) (m : Option ProtocolMessage)
      → to_connection effects ≡ x.sent
      → BothShare
          (Replica.after_local api net server (window_of x effects) m)
          (Typing.after_local api net shown server x m)
  unfolding Replica.after_local Typing.after_local Replica.request_full_sync
      Shared.request_full_sync
  local-BothShare server x effects none e =
      (refl, request-Agrees shown x.sync_role server x effects e)
  local-BothShare server x effects (some m) e = by_revision (get_number (codes "rev") m)
    where
      by_revision :
          (rev : Option ℕ)
          → BothShare
              (elim rev [
                | none ↦ (server, window_of x effects)
                | some revision ↦
                    (server, record (window_of x effects) { current_revision = revision })
              ])
              (elim rev [
                | none ↦ (server, x)
                | some revision ↦ (server, record x { current_revision = revision })
              ])
      by_revision none = (refl, record { members = refl; sent = e })
      by_revision (some revision) = (refl, record { members = refl; sent = e })

  operation-BothShare :
      (role : SyncRole) (server : Server) (x : MainWindow) (effects : List Effect)
      (operation : EditorOperation)
      → to_connection effects ≡ x.sent
      → BothShare
          (Replica.send_as api net role server (window_of x effects) operation)
          (Typing.send_as api net shown role server x operation)
  unfolding Replica.send_as Typing.send_as to_connection
  operation-BothShare SyncRole.offline server x effects operation e =
      (refl, record { members = refl; sent = e })
  operation-BothShare SyncRole.guest server x effects operation e = (
    refl,
    record {
      members = refl;
      sent =
          to_connection-append effects _
          ∙ ap (λ es. es ++ sends_edit x.current_revision operation ∷ []) e;
    },
  )
  operation-BothShare SyncRole.host server x effects operation e =
      let (server', m) = apply_local_operation api net server operation x.local_client_id in
      local-BothShare server' x effects m e

  pub operations-BothShare :
      (operations : List EditorOperation) (p : Server × Window) (q : Server × MainWindow)
      → BothShare p q
      → BothShare
          (Replica.send_operations api net p.0 p.1 operations)
          (Typing.send_operations api net shown q.0 q.1 operations)
  unfolding Replica.send_operations Typing.send_operations Replica.send_operation
      Typing.send_operation
  operations-BothShare [] p q h = h
  operations-BothShare (operation ∷ operations) (server, w) (server', x) (same, h) =
      operations-BothShare operations _ _ (
        subst
          (λ (v : Server × Window).
            BothShare (Replica.send_as api net v.1.sync_role v.0 v.1 operation)
              (Typing.send_as api net shown x.sync_role server' x operation))
          (ap₂ (λ (s : Server) (v : Window). (s, v)) (sym same) (sym h.members))
          (operation-BothShare x.sync_role server' x w.effects operation h.sent))

  send_operations-offline :
      (operations : List EditorOperation) (server : Server) (x : MainWindow)
      → x.sync_role ≡ SyncRole.offline
      → Typing.send_operations api net shown server x operations ≡ (server, x)
  unfolding Typing.send_operations Typing.send_operation Typing.send_as
  send_operations-offline [] server x role = refl
  send_operations-offline (operation ∷ operations) server x role =
      ap
        (λ r.
          let (server', x') = Typing.send_as api net shown r server x operation in
          Typing.send_operations api net shown server' x' operations)
        role
      ∙ send_operations-offline operations server x role

  -- `SendLocalOperations` of `MainWindow` is its loop: a window without a room sends nothing.
  pub send_local_operations_loop :
      (role : SyncRole) (server : Server) (x : MainWindow) (diff : EditorDiffResult)
      → x.sync_role ≡ role
      → Typing.send_local_operations api net shown server x diff
        ≡ Typing.send_operations api net shown server x diff.operations
  unfolding Typing.send_local_operations
  send_local_operations_loop SyncRole.offline server x diff role =
      ap
        (λ r.
          let sent : Server × MainWindow = elim r [
            | SyncRole.offline ↦ (server, x)
            | _ ↦ Typing.send_operations api net shown server x diff.operations
          ] in
          sent)
        role
      ∙ sym (send_operations-offline diff.operations server x role)
  send_local_operations_loop r server x diff role =
      ap
        (λ r.
          let sent : Server × MainWindow = elim r [
            | SyncRole.offline ↦ (server, x)
            | _ ↦ Typing.send_operations api net shown server x diff.operations
          ] in
          sent)
        role
