-- ===== src/Main/Rooms.antt =====
-- The rooms of `MainWindow` in client/window.cpp: `HandleCreateRoom`, `HandleJoinRoom`,
-- `HandleLeaveRoom`, `HandleNewDocument`, the screens and `CurrentEditorStatusText`. The code that is
-- generated, the room that discovery finds and what the fields of the join screen hold are
-- arguments; the announcer of the room is another component.
use share_note_pad.Base.{
  ℕ, Bool, true, false, not, ◌||◌, Option, some, none, [], ◌∷◌, ◌++◌, ltb, ◌==◌, if◌then◌else◌,
  Text, codes,
}
use share_note_pad.Main.State.{
  MainWindow, start_screen, join_screen, editor_screen, ReconnectTarget, update_markdown_preview,
  replace_editor_text,
}
use share_note_pad.Numbers.{stoul}
use share_note_pad.Protocol.Codec.{TextApi, is_empty}
use share_note_pad.Protocol.Json.{format_unsigned}
use share_note_pad.Sync.Client.{Client, Opening, connect, disconnect}
use share_note_pad.Sync.Receive.{ReceiveResult}
use share_note_pad.Sync.Server.{Server, set_document}
use share_note_pad.Sync.Session.{Probe, Listen, listening, no_listener, start, stop}
use share_note_pad.Sync.Transport.{Net}
use share_note_pad.Window.Replica.{SyncRole, offline, host, guest}

-- `StopReconnectLoop`, after the thread has ended.
unfoldable pub stop_reconnect_loop : MainWindow → MainWindow
stop_reconnect_loop x = record x { reconnect_stop = true; reconnecting = false }

-- The screens; which controls are visible follows from `screen_` and the flags.
unfoldable pub show_editor_screen : MainWindow → MainWindow
show_editor_screen x = update_markdown_preview (record x { screen = editor_screen })

unfoldable pub show_start_screen : MainWindow → MainWindow
show_start_screen x = record x { screen = start_screen; sync_role = offline }

unfoldable pub show_join_screen : MainWindow → MainWindow
show_join_screen x = record x { screen = join_screen; advanced_join_visible = false }

unfoldable pub toggle_advanced_join : MainWindow → MainWindow
toggle_advanced_join x = record x { advanced_join_visible = not x.advanced_join_visible }

abbrev pub no_target : ReconnectTarget
no_target = record { host = []; port = 0; device_id = []; nickname = [] }

-- `HandleLeaveRoom`.
unfoldable pub handle_leave_room : Client → Server → MainWindow → Client × Server × MainWindow
unfolding show_editor_screen stop_reconnect_loop
handle_leave_room client server x = (
  disconnect client,
  stop server,
  show_editor_screen (record (stop_reconnect_loop x) {
    sync_role = offline;
    session_code = [];
    local_client_id = codes "A";
    reconnect = no_target;
    current_revision = 0;
    sync_response_revision = 0;
    sync_response_chunks = [];
    sync_response_received = [];
  }),
)

-- `HandleNewDocument`.
unfoldable pub handle_new_document :
    (Text → Text) → Client → Server → MainWindow → Client × Server × MainWindow
unfolding handle_leave_room
handle_new_document shown client server x =
    let (client', server', left) = handle_leave_room client server x in
    (
      client',
      server',
      show_editor_screen
          (record (update_markdown_preview (record (replace_editor_text shown [] left) {
            last_known_text = [];
            current_revision = 0;
            dirty = true;
          })) { autosave_timer = true }),
    )

unfoldable pub hosted : Server × Listen → MainWindow → Server × MainWindow
hosted (server, no_listener reason) x = (server, x)
hosted (server, listening port) x = (server, show_editor_screen (record x { sync_role = host }))

-- `HandleCreateRoom`; `winsock_ok` says that the sockets work.
unfoldable pub handle_create_room :
    Bool → (ℕ → Probe) → Text → ℕ → Server → MainWindow → Server × MainWindow
unfolding hosted stop_reconnect_loop
handle_create_room winsock_ok probe code preferred_port server x =
    let entered : MainWindow = record (stop_reconnect_loop x) {
      session_code = code;
      local_client_id = codes "A";
      current_revision = 0;
    } in
    if not winsock_ok
    then (server, stop_reconnect_loop x)
    else hosted (start probe (set_document entered.last_known_text 0 server) code preferred_port)
        entered

-- The fields of the join screen.
pub record JoinForm : Type 0 where
  pub code : Text
  pub host : Text
  pub port_text : Text

checked_port : Text → Option ℕ → Option (Text × ℕ)
checked_port address none = none
checked_port address (some parsed) =
    if parsed == 0 || ltb 65535 parsed then none else some (address, parsed)

-- The address to connect to: the room that was found, else the advanced fields.
unfoldable pub join_address : Option (Text × ℕ) → Bool → JoinForm → Option (Text × ℕ)
unfolding checked_port
join_address (some endpoint) advanced form = some endpoint
join_address none advanced form =
    if not advanced
    then none
    else if is_empty form.host || is_empty form.port_text
    then none
    else checked_port form.host (stoul form.port_text)

unfoldable pub assigned_or_guest : Text → Text
assigned_or_guest [] = codes "B"
assigned_or_guest (c ∷ id) = c ∷ id

unfoldable pub joined_as : Text → ReconnectTarget → Client × Bool → MainWindow → Client × MainWindow
joined_as code target (client, false) x = (client, x)
joined_as code target (client, true) x = (
  client,
  show_editor_screen (record x {
    session_code = code;
    local_client_id = assigned_or_guest client.assigned_client;
    reconnect = target;
    current_revision = 0;
    sync_role = guest;
  }),
)

module _ (api : TextApi) (net : Net) where
  unfoldable pub join_at :
      Option (Text × ℕ)
      → Client
      → MainWindow
      → Opening
      → Text
      → Text
      → Text
      → ℕ
      → ReceiveResult
      → Client × MainWindow
  join_at none client x opening code device_id nickname now response = (client, x)
  join_at (some (address, port)) client x opening code device_id nickname now response =
      joined_as code
        (record { host = address; port = port; device_id = device_id; nickname = nickname })
        (connect api net client opening code device_id nickname now response) x

  -- `HandleJoinRoom`.
  unfoldable pub handle_join_room :
      Bool
      → Option (Text × ℕ)
      → JoinForm
      → Client
      → MainWindow
      → Opening
      → Text
      → Text
      → ℕ
      → ReceiveResult
      → Client × MainWindow
  unfolding join_at joined_as assigned_or_guest stop_reconnect_loop
  handle_join_room winsock_ok found form client x opening device_id nickname now response =
      let x' = stop_reconnect_loop x in
      if not winsock_ok || is_empty form.code
      then (client, x')
      else join_at (join_address found x'.advanced_join_visible form) client x' opening form.code
          device_id nickname now response

status_as : SyncRole → Text → ℕ → Text
status_as host code port =
    codes "Hosting | 방 코드 " ++ (code ++ (codes " | 포트 " ++ format_unsigned port))
status_as guest code port = codes "Connected | 코드 " ++ code
status_as offline code port = codes "Idle | 로컬 메모장"

-- `CurrentEditorStatusText`; `port` is the port of the server.
unfoldable pub current_editor_status_text : MainWindow → ℕ → Text
unfolding status_as
current_editor_status_text x port =
    if is_empty x.session_code
    then status_as offline [] port
    else status_as x.sync_role x.session_code port
