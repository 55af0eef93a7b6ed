-- ===== src/Main/Tabs.antt =====
-- The tabs of `MainWindow` in client/window.cpp and its file: `LoadInitialDocument`,
-- `InitializeTabs`, `SyncActiveTabFromEditor`, `SwitchToTab`, `HandleNewTab`, `TabTitleText`,
-- `SaveEditorContent`, `ToggleMarkdownPreview` and the commands that use them.
pub mod Switching
pub mod Saving
use share_note_pad.Base.{
  ℕ, zero, suc, ◌+◌, ◌-◌, ◌/◌, Bool, true, false, not, ◌&&◌, Option, some, none, List, [], ◌∷◌,
  ◌++◌, ltb, leb, ◌==◌, if◌then◌else◌, length, take, get_elem?, Text, codes,
}
use share_note_pad.Main.State.{
  MainWindow, TabState, ReconnectTarget, write_tab, update_markdown_preview, replace_editor_text,
}
use share_note_pad.Main.Selection.{EditorSelection}
use share_note_pad.Protocol.Codec.{TextApi}
use share_note_pad.Protocol.Json.{format_unsigned}
use share_note_pad.Storage.{Storage, Disk, load_current, save_current}
use share_note_pad.Window.Replica.{SyncRole, offline, host, guest}

-- kMaxTabs.
abbrev pub max_tabs : ℕ
max_tabs = 3

abbrev pub is_offline : SyncRole → Bool
is_offline offline = true
is_offline _ = false

unfoldable pub sync_active_tab_from_editor : MainWindow → MainWindow
sync_active_tab_from_editor x = record x {
  tabs = write_tab x.tabs x.active_tab_index x.editor_text x.dirty;
}

-- `InitializeTabs`.
unfoldable pub initialize_tabs : MainWindow → MainWindow
initialize_tabs x =
    let tab : TabState = record {
      title = codes "current.txt";
      content = x.last_known_text;
      dirty = false;
    } in
    record x { tabs = tab ∷ []; active_tab_index = 0 }

unfoldable pub push_tab : MainWindow → MainWindow
push_tab x =
    let tab : TabState = record {
      title = codes "새 탭 " ++ format_unsigned (length x.tabs);
      content = [];
      dirty = false;
    } in
    record x { tabs = x.tabs ++ tab ∷ [] }

module _ (shown : Text → Text) where
  -- The tab with the index is shown in the editor.
  unfoldable pub show_tab : ℕ → Option TabState → MainWindow → MainWindow
  show_tab index none x = x
  show_tab index (some tab) x =
      update_markdown_preview (record (replace_editor_text shown tab.content x) {
        active_tab_index = index;
        last_known_text = tab.content;
        dirty = tab.dirty;
        current_revision = 0;
      })

  unfoldable pub switch_to_tab : ℕ → MainWindow → MainWindow
  unfolding show_tab sync_active_tab_from_editor
  switch_to_tab index x =
      let x' = sync_active_tab_from_editor x in
      if leb (length x.tabs) index
      then x
      else if not (is_offline x.sync_role)
      then x
      else show_tab index (get_elem? x'.tabs index) x'

  unfoldable pub handle_new_tab : MainWindow → MainWindow
  unfolding push_tab sync_active_tab_from_editor
  handle_new_tab x =
      if not (is_offline x.sync_role)
      then x
      else if leb max_tabs (length x.tabs)
      then x
      else switch_to_tab (length x.tabs) (push_tab (sync_active_tab_from_editor x))

  unfoldable pub load_into : MainWindow → Storage × Option Text → Storage × MainWindow
  load_into x (s, some content) =
      (s, record (replace_editor_text shown content x) { last_known_text = content; dirty = false })
  load_into x (s, none) =
      (s, record (replace_editor_text shown [] x) { last_known_text = []; dirty = false })

  unfoldable pub load_initial_document :
      TextApi → Disk → Storage → MainWindow → Storage × MainWindow
  unfolding load_into
  load_initial_document api disk s x = load_into x (load_current api disk s)

-- `TabTitleText` for a tab label of the width.
unfoldable pub max_title_chars : ℕ → Bool → ℕ
max_title_chars width dirty =
    let available_width = if ltb (width - 18) 24 then 24 else width - 18 in
    let chars = if ltb (available_width / 9) 1 then 1 else available_width / 9 in
    if dirty && ltb 2 chars then chars - 2 else chars

unfoldable pub short_title : ℕ → ℕ → Text → Text
short_title index chars title =
    if ltb chars (length title)
    then if leb chars 3 then format_unsigned (index + 1) else take (chars - 3) title ++ codes "..."
    else title

title_text : ℕ → ℕ → Option TabState → Text
title_text width index none = []
title_text width index (some tab) =
    codes " "
    ++ (short_title index (max_title_chars width tab.dirty) tab.title
        ++ (if tab.dirty then codes " *" else []))

unfoldable pub tab_title_text : ℕ → List TabState → ℕ → Text
unfolding title_text
tab_title_text width tabs index = title_text width index (get_elem? tabs index)

-- Only the first tab is kept in the file.
unfoldable pub saved_as : Text → MainWindow → Storage × Bool → Storage × MainWindow
saved_as text x (s, true) = (s, record x { dirty = false; tabs = write_tab x.tabs 0 text false })
saved_as text x (s, false) = (s, x)

unfoldable pub save_editor_content : TextApi → Disk → Storage → MainWindow → Storage × MainWindow
unfolding saved_as sync_active_tab_from_editor
save_editor_content api disk s x =
    if not x.dirty
    then (s, x)
    else if ltb 0 x.active_tab_index
    then (s, sync_active_tab_from_editor x)
    else saved_as x.editor_text x (save_current api disk x.editor_text s)

-- The command to save, and the timer of the autosave.
unfoldable pub handle_file_save : TextApi → Disk → Storage → MainWindow → Storage × MainWindow
handle_file_save api disk s x = save_editor_content api disk s (record x { dirty = true })

unfoldable pub handle_autosave_timer : TextApi → Disk → Storage → MainWindow → Storage × MainWindow
handle_autosave_timer api disk s x =
    save_editor_content api disk s (record x { autosave_timer = false })

unfoldable pub toggle_markdown_preview : MainWindow → MainWindow
toggle_markdown_preview x =
    update_markdown_preview (record x { markdown_preview_visible = not x.markdown_preview_visible })
