-- ===== src/Main/Editor.antt =====
-- What `MainWindow` of client/window.cpp does when its editor changes: `OnEditorChanged`,
-- `ProcessEditorChange` and `SendLocalOperations`; and `HandleSyncEvent` and `DrainSyncEvents`, with
-- `StartReconnectLoop` up to its thread. The style that a line break resets is not kept.
use share_note_pad.Base.{
  Bool, true, false, not, ◌||◌, Option, some, none, List, [], ◌∷◌, ◌==◌, if◌then◌else◌, Text, codes,
}
use share_note_pad.Document.Diff.{EditorOperation, EditorDiffResult, compute_editor_diff}
use share_note_pad.Main.Shared.{
  send_effect, request_full_sync, apply_sync_apply, apply_sync_response,
}
use share_note_pad.Main.Shortcuts.{apply_markdown_shortcut_if_needed}
use share_note_pad.Main.State.{MainWindow, take_text, replace_editor_text}
use share_note_pad.Protocol.Codec.{TextApi, is_empty}
use share_note_pad.Protocol.Message.{ProtocolMessage, get_number}
use share_note_pad.Sync.Client.{Client}
use share_note_pad.Sync.Server.{
  Server, SyncEvent, apply_event, sync_response_event, error_event, disconnected_event,
  apply_local_operation,
}
use share_note_pad.Sync.Transport.{Net}
use share_note_pad.Window.Replica.{SyncRole, offline, host, guest, sends_edit}

module _ (api : TextApi) (net : Net) (shown : Text → Text) where
  unfoldable pub after_local : Server → MainWindow → Option ProtocolMessage → Server × MainWindow
  after_local server x none = (server, request_full_sync shown server x)
  after_local server x (some m) = elim (get_number (codes "rev") m) [
    | none ↦ (server, x)
    | some revision ↦ (server, record x { current_revision = revision })
  ]

  -- One operation of the loop. What a guest sends goes through its connection.
  unfoldable pub send_as : SyncRole → Server → MainWindow → EditorOperation → Server × MainWindow
  send_as offline server x operation = (server, x)
  send_as guest server x operation =
      (server, send_effect (sends_edit x.current_revision operation) x)
  send_as host server x operation =
      let (server', m) = apply_local_operation api net server operation x.local_client_id in
      after_local server' x m

  unfoldable pub send_operation : Server → MainWindow → EditorOperation → Server × MainWindow
  unfolding send_as
  send_operation server x operation = send_as x.sync_role server x operation

  unfoldable pub send_operations : Server → MainWindow → List EditorOperation → Server × MainWindow
  unfolding send_operation after_local
  send_operations server x [] = (server, x)
  send_operations server x (operation ∷ operations) =
      let (server', x') = send_operation server x operation in send_operations server' x' operations

  unfoldable pub send_local_operations :
      Server → MainWindow → EditorDiffResult → Server × MainWindow
  send_local_operations server x diff = elim x.sync_role [
    | offline ↦ (server, x)
    | _ ↦ send_operations server x diff.operations
  ]

  -- A text over the limit is taken back.
  unfoldable pub reject_change : EditorDiffResult → MainWindow → MainWindow
  reject_change diff x =
      if diff.document_too_large then replace_editor_text shown x.last_known_text x else x

  unfoldable pub process_editor_change : Server → MainWindow → Server × MainWindow
  unfolding reject_change
  process_editor_change server x =
      let current_text = x.editor_text in
      let diff = compute_editor_diff x.last_known_text current_text in
      let (server', x') = send_local_operations server x diff in
      if not diff.valid
      then (server, reject_change diff x)
      else if not diff.changed
      then (server, x)
      else (server', take_text current_text x')

  unfoldable pub on_editor_changed : Server → MainWindow → Server × MainWindow
  on_editor_changed server x =
      if x.suppress_editor_change
        || (x.remote_applying || (x.ime_composing || x.markdown_shortcut_applying))
      then (server, x)
      else process_editor_change server (apply_markdown_shortcut_if_needed x)

abbrev pub is_guest : SyncRole → Bool
is_guest guest = true
is_guest _ = false

-- `StartReconnectLoop`: without a target nothing happens, and one loop runs at a time.
unfoldable pub start_reconnect_loop : MainWindow → MainWindow
start_reconnect_loop x =
    if not (is_guest x.sync_role) || (is_empty x.reconnect.host || x.reconnect.port == 0)
    then x
    else if x.reconnecting
    then x
    else record x { reconnecting = true; reconnect_stop = false }

unfoldable pub disconnected_as : SyncRole → MainWindow → MainWindow
disconnected_as guest x = start_reconnect_loop x
disconnected_as _ x = x

module _ (shown : Text → Text) where
  -- An error changes only the status line.
  unfoldable pub handle_sync_event : Server → MainWindow → SyncEvent → MainWindow
  unfolding disconnected_as
  handle_sync_event server x event = elim event.type [
    | apply_event ↦ apply_sync_apply shown server x event.message
    | sync_response_event ↦ apply_sync_response shown x event.message
    | error_event ↦ x
    | disconnected_event ↦ disconnected_as x.sync_role x
  ]

  unfoldable pub handle_sync_events : Server → MainWindow → List SyncEvent → MainWindow
  handle_sync_events server x [] = x
  handle_sync_events server x (event ∷ events) =
      handle_sync_events server (handle_sync_event server x event) events

  -- The loops of `DrainSyncEvents`, for the events that are queued.
  unfoldable pub drain_sync_events : Server → Client → MainWindow → Server × Client × MainWindow
  drain_sync_events server client x = (
    record server { event_queue = [] },
    record client { event_queue = [] },
    handle_sync_events server (handle_sync_events server x server.event_queue) client.event_queue,
  )
