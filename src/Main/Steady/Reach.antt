-- ===== src/Main/Steady/Reach.antt =====
-- The messages that the window handles, as steps, and what holds after any number of them.
use share_note_pad.Base.{ℕ, Bool, true, false, Option, some, none, Text, arith}
use share_note_pad.Main.Editor.{process_editor_change, on_editor_changed, handle_sync_event}
use share_note_pad.Main.Reconnect.{Attempts, reconnect_loop}
use share_note_pad.Main.Rooms.{
  show_editor_screen, show_join_screen, toggle_advanced_join, handle_leave_room,
  handle_new_document, handle_create_room, JoinForm, handle_join_room,
}
use share_note_pad.Main.Selection.{EditorSelection}
use share_note_pad.Main.State.{MainWindow, fresh_window, replace_editor_text}
use share_note_pad.Main.Steady.{
  Steady, toggle_markdown_preview-Steady, switch_to_tab-Steady, handle_new_tab-Steady,
  save_editor_content-Steady,
}
use share_note_pad.Main.Steady.Sharing.{handle_sync_event-Steady}
use share_note_pad.Main.Steady.Typing.{process_editor_change-Steady, on_editor_changed-Steady}
use share_note_pad.Main.Tabs.{
  initialize_tabs, load_into, load_initial_document, switch_to_tab, handle_new_tab,
  handle_file_save, handle_autosave_timer, toggle_markdown_preview,
}
use share_note_pad.Protocol.Codec.{TextApi}
use share_note_pad.Storage.{Storage, Disk, load_current}
use share_note_pad.Sync.Client.{Client, Opening}
use share_note_pad.Sync.Receive.{ReceiveResult}
use share_note_pad.Sync.Server.{Server, SyncEvent}
use share_note_pad.Sync.Session.{Probe}
use share_note_pad.Sync.Transport.{Net}
use share_note_pad.Main.Steady.Rooms.{
  show_editor_screen-Steady, leave-Steady, create-Steady, new_document-Steady, join-Steady,
}

module _ (api : TextApi) (net : Net) (shown : Text → Text) where
  -- One message of the system. Between two messages the user may change the text and the selection of
  -- the editor, of which the window is told by `changes`.
  pub data Step (x : MainWindow) : MainWindow → Type 0 where
    edits :
        (text : Text) (selection : EditorSelection)
        → Step x (record x { editor_text = text; selection = selection })
    changes : (server : Server) → Step x (on_editor_changed api net shown server x).1
    starts_composing : Step x (record x { ime_composing = true })
    ends_composing :
        (server : Server)
        → Step x (process_editor_change api net shown server (record x { ime_composing = false })).1
    gets : (server : Server) (event : SyncEvent) → Step x (handle_sync_event shown server x event)
    switches : (index : ℕ) → Step x (switch_to_tab shown index x)
    opens_tab : Step x (handle_new_tab shown x)
    saves_file : (disk : Disk) (s : Storage) → Step x (handle_file_save api disk s x).1
    autosaves : (disk : Disk) (s : Storage) → Step x (handle_autosave_timer api disk s x).1
    toggles_preview : Step x (toggle_markdown_preview x)
    toggles_advanced : Step x (toggle_advanced_join x)
    shows_join : Step x (show_join_screen x)
    shows_editor : Step x (show_editor_screen x)
    hosts :
        (winsock_ok : Bool) (probe : ℕ → Probe) (code : Text) (port : ℕ) (server : Server)
        → Step x (handle_create_room winsock_ok probe code port server x).1
    joins :
        (winsock_ok : Bool) (found : Option (Text × ℕ)) (form : JoinForm) (client : Client)
        (opening : Opening) (device_id nickname : Text) (now : ℕ) (response : ReceiveResult)
        → Step x
            (handle_join_room api net winsock_ok found form client x opening device_id nickname now
              response).1
    leaves : (client : Client) (server : Server) → Step x (handle_leave_room client server x).2
    clears :
        (client : Client) (server : Server) → Step x (handle_new_document shown client server x).2
    reconnects :
        (attempts : Attempts) (stops : ℕ → Bool) (client : Client)
        → Step x (reconnect_loop api net attempts stops client x).1

  -- Any number of messages after each other.
  pub data Steps (x : MainWindow) : MainWindow → Type 0 where
    none_yet : Steps x x
    and_then : {y z : MainWindow} → Steps x y → Step y z → Steps x z

  Step-Steady : {x y : MainWindow} → Step x y → Steady x → Steady y
  unfolding handle_file_save handle_autosave_timer toggle_advanced_join show_join_screen
      reconnect_loop
  Step-Steady {x} (edits text selection) v = ground arith
  Step-Steady {x} (changes server) v = on_editor_changed-Steady api net shown server x v
  Step-Steady {x} starts_composing v = ground arith
  Step-Steady {x} (ends_composing server) v =
      process_editor_change-Steady api net shown server _ (ground arith)
  Step-Steady {x} (gets server event) v = handle_sync_event-Steady shown server x event v
  Step-Steady {x} (switches index) v = switch_to_tab-Steady shown index x v
  Step-Steady {x} opens_tab v = handle_new_tab-Steady shown x v
  Step-Steady {x} (saves_file disk s) v = save_editor_content-Steady api disk s _ (ground arith)
  Step-Steady {x} (autosaves disk s) v = save_editor_content-Steady api disk s _ (ground arith)
  Step-Steady {x} toggles_preview v = toggle_markdown_preview-Steady x v
  Step-Steady {x} toggles_advanced v = ground arith
  Step-Steady {x} shows_join v = ground arith
  Step-Steady {x} shows_editor v = show_editor_screen-Steady x v
  Step-Steady {x} (hosts winsock_ok probe code port server) v =
      create-Steady winsock_ok probe code port server x v
  Step-Steady {x} (joins winsock_ok found form client opening device_id nickname now response) v =
      join-Steady api net shown winsock_ok found form client x opening device_id nickname now
        response v
  Step-Steady {x} (leaves client server) v = leave-Steady client server x v
  Step-Steady {x} (clears client server) v = new_document-Steady api net shown client server x v
  Step-Steady {x} (reconnects attempts stops client) v = ground arith

  -- The window when it has been created: `LoadInitialDocument`, `InitializeTabs` and the screen.
  abbrev pub opened : Disk → Storage → MainWindow
  opened disk s =
      show_editor_screen (initialize_tabs (load_initial_document shown api disk s fresh_window).1)

  loaded-Steady :
      (r : Storage × Option Text) → Steady (initialize_tabs (load_into shown fresh_window r).1)
  unfolding initialize_tabs load_into replace_editor_text
  loaded-Steady (s, none) = ground arith
  loaded-Steady (s, some content) = ground arith

  opened-Steady : (disk : Disk) (s : Storage) → Steady (opened disk s)
  unfolding load_initial_document
  opened-Steady disk s = show_editor_screen-Steady _ (loaded-Steady (load_current api disk s))

  -- Whatever the file holds, and whatever the user, the connections and the timers do afterwards, in
  -- any order: there are one to three tabs and the active one is one of them, no flag is left up that
  -- hides a change of the editor from the window, and every place for a chunk of a response has its
  -- flag, so that no chunk is marked out of range.
  pub Steps-Steady :
      (disk : Disk) (s : Storage) (x : MainWindow) → Steps (opened disk s) x → Steady x
  Steps-Steady disk s x none_yet = opened-Steady disk s
  Steps-Steady disk s x (and_then steps step) = Step-Steady step (Steps-Steady disk s _ steps)
