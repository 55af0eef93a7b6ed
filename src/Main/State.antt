-- ===== src/Main/State.antt =====
-- The members of `MainWindow` in client/window.h, and the steps that several handlers share. Of the
-- controls of the window the editor's text and selection and the preview are kept; the status line,
-- the log, the layout and the menus are not. `shown` gives the text that the editor control returns
-- for a text that it was set to.
use share_note_pad.Base.{ℕ, zero, suc, Bool, true, false, List, [], ◌∷◌, if◌then◌else◌, Text, codes}
use share_note_pad.Main.Preview.{render_markdown_preview}
use share_note_pad.Main.Selection.{EditorSelection}
use share_note_pad.Window.Replica.{SyncRole, offline, Effect}

pub data Screen : Type 0 where
  start_screen join_screen editor_screen : Screen

pub record TabState : Type 0 where
  pub title : Text
  pub content : Text
  pub dirty : Bool

-- `reconnect_host_` and the three members after it.
pub record ReconnectTarget : Type 0 where
  pub host : Text
  pub port : ℕ
  pub device_id : Text
  pub nickname : Text

pub record MainWindow : Type 0 where
  pub editor_text : Text
  pub selection : EditorSelection
  pub preview : Text
  pub autosave_timer : Bool
  pub sent : List Effect  -- what goes to the connection, in order
  pub screen : Screen
  pub advanced_join_visible : Bool
  pub dirty : Bool
  pub suppress_editor_change : Bool
  pub ime_composing : Bool
  pub remote_applying : Bool
  pub markdown_preview_visible : Bool
  pub markdown_shortcut_applying : Bool
  pub sync_role : SyncRole
  pub session_code : Text
  pub local_client_id : Text
  pub reconnect : ReconnectTarget
  pub reconnecting : Bool
  pub reconnect_stop : Bool
  pub current_revision : ℕ
  pub sync_response_revision : ℕ
  pub sync_response_chunks : List Text
  pub sync_response_received : List Bool
  pub last_known_text : Text
  pub tabs : List TabState
  pub active_tab_index : ℕ

-- `tabs_[index].content` and `tabs_[index].dirty` are set, where there is such a tab.
unfoldable pub write_tab : List TabState → ℕ → Text → Bool → List TabState
write_tab [] index content dirty = []
write_tab (tab ∷ tabs) zero content dirty =
    let written : TabState = record tab { content = content; dirty = dirty } in written ∷ tabs
write_tab (tab ∷ tabs) (suc index) content dirty = tab ∷ write_tab tabs index content dirty

-- `UpdateMarkdownPreview`.
unfoldable pub update_markdown_preview : MainWindow → MainWindow
update_markdown_preview x =
    if x.markdown_preview_visible
    then record x { preview = render_markdown_preview x.editor_text }
    else x

-- `last_known_text_`, `dirty_` and the active tab after a change, then the preview and the timer.
unfoldable pub take_text : Text → MainWindow → MainWindow
unfolding update_markdown_preview
take_text text x = update_markdown_preview (record x {
  last_known_text = text;
  dirty = true;
  tabs = write_tab x.tabs x.active_tab_index text true;
  autosave_timer = true;
})

module _ (shown : Text → Text) where
  -- The editor is set to a text under `suppress_editor_change_`, so that it is not handled as typed;
  -- the control puts its caret in front.
  unfoldable pub replace_editor_text : Text → MainWindow → MainWindow
  replace_editor_text text x = record x {
    editor_text = shown text;
    selection = record { first = 0; last = 0 };
    suppress_editor_change = false;
  }

  -- The same for a text of the other side, with `remote_applying_` and a selection.
  unfoldable pub show_remote_text : Text → EditorSelection → MainWindow → MainWindow
  show_remote_text text selection x = record x {
    editor_text = shown text;
    selection = selection;
    suppress_editor_change = false;
    remote_applying = false;
  }

-- The members before the window is created.
abbrev pub fresh_window : MainWindow
fresh_window = record {
  editor_text = [];
  selection = record { first = 0; last = 0 };
  preview = [];
  autosave_timer = false;
  sent = [];
  screen = start_screen;
  advanced_join_visible = false;
  dirty = false;
  suppress_editor_change = false;
  ime_composing = false;
  remote_applying = false;
  markdown_preview_visible = false;
  markdown_shortcut_applying = false;
  sync_role = offline;
  session_code = [];
  local_client_id = codes "A";
  reconnect = record { host = []; port = 0; device_id = []; nickname = [] };
  reconnecting = false;
  reconnect_stop = false;
  current_revision = 0;
  sync_response_revision = 0;
  sync_response_chunks = [];
  sync_response_received = [];
  last_known_text = [];
  tabs = [];
  active_tab_index = 0;
}
