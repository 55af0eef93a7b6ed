-- ===== src/Main/Steady/Rooms.antt =====
-- The rooms and the screens keep the window steady.
use share_note_pad.Base.{
  ℕ, Bool, true, false, not, ◌||◌, Option, some, none, [], Text, codes, arith, if_cases,
}
use share_note_pad.Main.Rooms.{
  stop_reconnect_loop, show_editor_screen, handle_leave_room, handle_new_document, hosted,
  handle_create_room, JoinForm, join_address, joined_as, join_at, handle_join_room, no_target,
  assigned_or_guest,
}
use share_note_pad.Main.State.{
  MainWindow, editor_screen, ReconnectTarget, update_markdown_preview, replace_editor_text,
}
use share_note_pad.Main.Steady.{Steady, update_markdown_preview-Steady, replace_editor_text-Steady}
use share_note_pad.Protocol.Codec.{TextApi, is_empty}
use share_note_pad.Sync.Client.{Client, Opening}
use share_note_pad.Sync.Receive.{ReceiveResult}
use share_note_pad.Sync.Server.{Server}
use share_note_pad.Sync.Session.{Probe, Listen, listening, no_listener}
use share_note_pad.Sync.Transport.{Net}
use share_note_pad.Window.Replica.{host, guest, offline}

pub show_editor_screen-Steady : (x : MainWindow) → Steady x → Steady (show_editor_screen x)
unfolding show_editor_screen
show_editor_screen-Steady x v =
    let on_editor : MainWindow = record x { screen = editor_screen } in
    update_markdown_preview-Steady on_editor (ground arith)

pub leave-Steady :
    (client : Client) (server : Server) (x : MainWindow)
    → Steady x
    → Steady (handle_leave_room client server x).2
unfolding handle_leave_room stop_reconnect_loop
leave-Steady client server x v =
    let alone : MainWindow = record (stop_reconnect_loop x) {
      sync_role = offline;
      session_code = [];
      local_client_id = codes "A";
      reconnect = no_target;
      current_revision = 0;
      sync_response_revision = 0;
      sync_response_chunks = [];
      sync_response_received = [];
    } in
    show_editor_screen-Steady alone (ground arith)

hosted-Steady : (r : Server × Listen) (x : MainWindow) → Steady x → Steady (hosted r x).1
unfolding hosted
hosted-Steady (server, no_listener reason) x v = v
hosted-Steady (server, listening port) x v =
    let as_host : MainWindow = record x { sync_role = host } in
    show_editor_screen-Steady as_host (ground arith)

pub create-Steady :
    (winsock_ok : Bool) (probe : ℕ → Probe) (code : Text) (port : ℕ) (server : Server)
    (x : MainWindow)
    → Steady x
    → Steady (handle_create_room winsock_ok probe code port server x).1
unfolding handle_create_room stop_reconnect_loop
create-Steady winsock_ok probe code port server x v =
    let entered : MainWindow = record (stop_reconnect_loop x) {
      session_code = code;
      local_client_id = codes "A";
      current_revision = 0;
    } in
    if_cases (λ (r : Server × MainWindow). Steady r.1) (not winsock_ok) _ _ (λ _. ground arith)
      (λ _. hosted-Steady _ entered (ground arith))

joined-Steady :
    (code : Text) (target : ReconnectTarget) (r : Client × Bool) (x : MainWindow)
    → Steady x
    → Steady (joined_as code target r x).1
unfolding joined_as
joined-Steady code target (client, false) x v = v
joined-Steady code target (client, true) x v =
    let joined : MainWindow = record x {
      session_code = code;
      local_client_id = assigned_or_guest client.assigned_client;
      reconnect = target;
      current_revision = 0;
      sync_role = guest;
    } in
    show_editor_screen-Steady joined (ground arith)

module _ (api : TextApi) (net : Net) (shown : Text → Text) where
  pub new_document-Steady :
      (client : Client) (server : Server) (x : MainWindow)
      → Steady x
      → Steady (handle_new_document shown client server x).2
  unfolding handle_new_document
  new_document-Steady client server x v =
      let left = (handle_leave_room client server x).2 in
      let cleared : MainWindow = record (replace_editor_text shown [] left) {
        last_known_text = [];
        current_revision = 0;
        dirty = true;
      } in
      let previewed = update_markdown_preview cleared in
      let timed : MainWindow = record previewed { autosave_timer = true } in
      let w = replace_editor_text-Steady shown [] left (leave-Steady client server x v) in
      let p = update_markdown_preview-Steady cleared (ground arith) in
      show_editor_screen-Steady timed (ground arith)

  pub join-Steady :
      (winsock_ok : Bool) (found : Option (Text × ℕ)) (form : JoinForm) (client : Client)
      (x : MainWindow) (opening : Opening) (device_id nickname : Text) (now : ℕ)
      (response : ReceiveResult)
      → Steady x
      → Steady
          (handle_join_room api net winsock_ok found form client x opening device_id nickname now
            response).1
  unfolding handle_join_room join_at stop_reconnect_loop
  join-Steady winsock_ok found form client x opening device_id nickname now response v =
      let alone : MainWindow = stop_reconnect_loop x in
      if_cases (λ (r : Client × MainWindow). Steady r.1) (not winsock_ok || is_empty form.code) _ _
        (λ _. ground arith)
        (λ _. at (join_address found x.advanced_join_visible form) alone (ground arith))
    where
      at :
          (address : Option (Text × ℕ)) (y : MainWindow)
          → Steady y
          → Steady
              (join_at api net address client y opening form.code device_id nickname now response).1
      at none y w = w
      at (some (there, port)) y w = joined-Steady form.code _ _ y w
