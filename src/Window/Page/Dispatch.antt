-- ===== src/Window/Page/Dispatch.antt =====
-- `HandleWebMessage` of client/webview_window.cpp, with the whole handlers of the messages of the
-- page and `PostInitialState`. Status texts, log lines and the announcer of the room are not kept.
use share_note_pad.Base.{ℕ, Bool, true, Option, none, some, [], ◌∷◌, if◌then◌else◌, Text, codes}
use share_note_pad.Protocol.Codec.{TextApi}
use share_note_pad.Sync.Client.{Client, Opening, disconnect}
use share_note_pad.Sync.Receive.{ReceiveResult}
use share_note_pad.Sync.Server.{Server}
use share_note_pad.Sync.Session.{Probe}
use share_note_pad.Sync.Transport.{Net}
use share_note_pad.Window.Editor.{handle_editor_changed, handle_create_room, handle_join_room}
use share_note_pad.Window.Page.{extract_json_string, generate_session_code, has_message_type}
use share_note_pad.Window.Replica.{Window, posts, emit}

-- The members that the messages change; `closing` says whether WM_CLOSE was posted.
pub record PageState : Type 0 where
  pub server : Server
  pub client : Client
  pub window : Window
  pub closing : Bool

-- What the system and the other parts of the program give while a message is handled: whether
-- Winsock is there, what `LoadCurrent` leaves in the content, the number that is drawn for a code,
-- the ports, the room that `DiscoveryClient::Find` finds for a code, with how the connection to it
-- opens, the configuration, the time and the answer of the room.
pub record Surroundings : Type 0 where
  pub winsock : Bool
  pub content : Text
  pub drawn : ℕ
  pub probe : ℕ → Probe
  pub port : ℕ
  pub find : Text → Option Opening
  pub device_id : Text
  pub nickname : Text
  pub now : ℕ
  pub response : ReceiveResult

unfoldable pub post_initial_state : Surroundings → PageState → PageState
post_initial_state o s = record s {
  window = emit (posts o.content) (record s.window { last_known_text = o.content });
}

module _ (api : TextApi) (net : Net) where
  -- The message `editorChanged`, for the text that is read from it.
  unfoldable pub change_editor : PageState → Option Text → PageState
  change_editor s none = s
  change_editor s (some text) =
      let (server', window') = handle_editor_changed api net s.server s.window text in
      record s { server = server'; window = window' }

  -- `HandleCreateRoom`.
  unfoldable pub create_room : Surroundings → PageState → Option Text → PageState
  create_room o s text =
      let (server', window') =
        handle_create_room o.probe (generate_session_code o.drawn) o.port s.server s.window text in
      if o.winsock
      then record s { server = server'; client = disconnect s.client; window = window' }
      else s

  join_found : Surroundings → PageState → Text → Option Opening → PageState
  join_found o s code none = s
  join_found o s code (some opening) =
      let (client', server', window') =
        handle_join_room api net s.client s.server s.window opening code o.device_id o.nickname
          o.now o.response in
      record s { client = client'; server = server'; window = window' }

  join_code : Surroundings → PageState → Option Text → PageState
  unfolding join_found
  join_code o s none = s
  join_code o s (some []) = s
  join_code o s (some (c ∷ code)) = join_found o s (c ∷ code) (o.find (c ∷ code))

  -- `HandleJoinRoom`, for the code that is read from the message.
  unfoldable pub join_room : Surroundings → PageState → Option Text → PageState
  unfolding join_code
  join_room o s code = if o.winsock then join_code o s code else s

  unfoldable pub handle_web_message : Surroundings → PageState → Text → PageState
  handle_web_message o s message =
      if has_message_type message (codes "uiReady")
      then post_initial_state o s
      else if has_message_type message (codes "editorChanged")
      then change_editor s (extract_json_string message (codes "text"))
      else if has_message_type message (codes "createRoom")
      then create_room o s (extract_json_string message (codes "text"))
      else if has_message_type message (codes "joinRoom")
      then join_room o s (extract_json_string message (codes "code"))
      else if has_message_type message (codes "quit")
      then record s { closing = true }
      else s
