-- ===== src/Window/Editor.antt =====
-- What the window of client/webview_window.cpp does for its editor and its rooms: the message
-- `editorChanged` of `HandleWebMessage`, `HandleCreateRoom`, `HandleJoinRoom`, `DrainSyncEvents` and
-- `HandleSyncEvent`. The text that a message of the page holds, the session code that is generated
-- and the room that discovery finds are arguments. Whether the text could be saved changes only the
-- status line.
use share_note_pad.Base.{ℕ, not, Option, some, none, List, [], ◌∷◌, if◌then◌else◌, Text, codes}
use share_note_pad.Document.Diff.{compute_editor_diff}
use share_note_pad.Protocol.Codec.{TextApi}
use share_note_pad.Sync.Client.{Client, Opening, connect, disconnect}
use share_note_pad.Sync.Receive.{ReceiveResult}
use share_note_pad.Sync.Server.{
  Server, SyncEvent, apply_event, sync_response_event, error_event, disconnected_event,
  set_document,
}
use share_note_pad.Sync.Session.{Probe, listening, no_listener, start, stop}
use share_note_pad.Sync.Transport.{Net}
use share_note_pad.Window.Replica.{
  offline, host, guest, Window, saves, posts, emit, apply_sync_apply, apply_sync_response,
  send_local_operations,
}

module _ (api : TextApi) (net : Net) where
  -- The text of the editor after a change.
  unfoldable pub handle_editor_changed : Server → Window → Text → Server × Window
  handle_editor_changed server w text =
      let diff = compute_editor_diff w.last_known_text text in
      let (server', w') = send_local_operations api net server w diff in
      if not diff.valid
      then (server, emit (posts w.last_known_text) w)
      else (server', emit (saves text) (record w' { last_known_text = text }))

keep_text : Option Text → Window → Window
keep_text none w = w
keep_text (some text) w = emit (saves text) (record w { last_known_text = text })

-- The members after the code of a room is there.
abbrev enter_room : Text → Window → Window
enter_room client w = record w {
  local_client_id = client;
  current_revision = 0;
  sync_response_revision = 0;
  sync_response_chunks = [];
  sync_response_received = [];
}

-- `HandleCreateRoom` with working sockets; the client is disconnected besides.
unfoldable pub handle_create_room :
    (ℕ → Probe) → Text → ℕ → Server → Window → Option Text → Server × Window
unfolding keep_text
handle_create_room probe session_code preferred_port server w text =
    let entered = enter_room (codes "A") (keep_text text w) in
    let (server', listen) =
      start probe (set_document entered.last_known_text 0 (stop server)) session_code
        preferred_port in
    elim listen [
      | no_listener reason ↦ (server', record entered { sync_role = offline })
      | listening port ↦ (server', record entered { sync_role = host })
    ]

-- `client_.assigned_client().empty() ? L"B" : client_.assigned_client()`.
assigned_or_guest : Text → Text
assigned_or_guest [] = codes "B"
assigned_or_guest (c ∷ id) = c ∷ id

module _ (api : TextApi) (net : Net) where
  -- `HandleJoinRoom` with working sockets and a room that was found.
  unfoldable pub handle_join_room :
      Client
      → Server
      → Window
      → Opening
      → Text
      → Text
      → Text
      → ℕ
      → ReceiveResult
      → Client × Server × Window
  unfolding assigned_or_guest
  handle_join_room client server w opening code device_id nickname now response =
      let (client', joined) =
        connect api net (disconnect client) opening code device_id nickname now response in
      let entered = enter_room (assigned_or_guest client'.assigned_client) w in
      if joined
      then (client', stop server, record entered { sync_role = guest })
      else (client', stop server, w)

-- `HandleSyncEvent`; a lost connection and an error change only the status line.
unfoldable pub handle_sync_event : Server → Window → SyncEvent → Window
handle_sync_event server w event = elim event.type [
  | apply_event ↦ apply_sync_apply server w event.message
  | sync_response_event ↦ apply_sync_response w event.message
  | error_event ↦ w
  | disconnected_event ↦ w
]

-- `DrainSyncEvents`, for the events that the server and the client have queued.
unfoldable pub handle_sync_events : Server → Window → List SyncEvent → Window
handle_sync_events server w [] = w
handle_sync_events server w (event ∷ events) =
    handle_sync_events server (handle_sync_event server w event) events

unfoldable pub drain_sync_events : Server → Client → Window → Server × Client × Window
drain_sync_events server client w = (
  record server { event_queue = [] },
  record client { event_queue = [] },
  handle_sync_events server (handle_sync_events server w server.event_queue) client.event_queue,
)
