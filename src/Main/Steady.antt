-- ===== src/Main/Steady.antt =====
-- What holds of `MainWindow` between two messages of the system.
pub mod Sharing
pub mod Typing
pub mod Rooms
pub mod Reach
use share_note_pad.Base.{
  ℕ, ◌+◌, ◌≤◌, ◌<◌, ◌≡◌, refl, sym, ap, ◌∙◌, Bool, true, false, not, Option, some, none, List, [],
  ◌∷◌, ◌++◌, length, length-append, get_elem?, Text, arith, leb, ltb, if_cases, if◌then◌else◌,
  codes,
}
use share_note_pad.Main.Selection.{EditorSelection}
use share_note_pad.Main.State.{
  MainWindow, TabState, ReconnectTarget, write_tab, take_text, update_markdown_preview,
  replace_editor_text, show_remote_text,
}
use share_note_pad.Main.Tabs.{
  is_offline, max_tabs, sync_active_tab_from_editor, push_tab, show_tab, switch_to_tab,
  handle_new_tab, save_editor_content, saved_as, toggle_markdown_preview, initialize_tabs,
}
use share_note_pad.Main.Tabs.Switching.{length-write_tab}
use share_note_pad.Protocol.Codec.{TextApi}
use share_note_pad.Protocol.Json.{format_unsigned}
use share_note_pad.Storage.{Storage, Disk, save_current}

-- There are one to three tabs and one of them is active; the flags that hide a change of the editor
-- are down; every place for a chunk of a response has its flag.
pub record Steady (x : MainWindow) : Type 0 where
  pub active : x.active_tab_index < length x.tabs
  pub few : length x.tabs ≤ max_tabs
  pub listens : x.suppress_editor_change ≡ false
  pub own : x.remote_applying ≡ false
  pub plain : x.markdown_shortcut_applying ≡ false
  pub flagged : length x.sync_response_chunks ≡ length x.sync_response_received

pub update_markdown_preview-Steady :
    (x : MainWindow) → Steady x → Steady (update_markdown_preview x)
unfolding update_markdown_preview
update_markdown_preview-Steady x v =
    if_cases Steady x.markdown_preview_visible _ x (λ _. ground arith) (λ _. v)

pub take_text-Steady : (text : Text) (x : MainWindow) → Steady x → Steady (take_text text x)
unfolding take_text
take_text-Steady text x v =
    let taken : MainWindow = record x {
      last_known_text = text;
      dirty = true;
      tabs = write_tab x.tabs x.active_tab_index text true;
      autosave_timer = true;
    } in
    update_markdown_preview-Steady taken
      (ground (arith, length-write_tab x.tabs x.active_tab_index text true))

pub sync_active_tab-Steady : (x : MainWindow) → Steady x → Steady (sync_active_tab_from_editor x)
unfolding sync_active_tab_from_editor
sync_active_tab-Steady x v =
    ground (arith, length-write_tab x.tabs x.active_tab_index x.editor_text x.dirty)

pub toggle_markdown_preview-Steady :
    (x : MainWindow) → Steady x → Steady (toggle_markdown_preview x)
unfolding toggle_markdown_preview
toggle_markdown_preview-Steady x v =
    let toggled : MainWindow = record x {
      markdown_preview_visible = not x.markdown_preview_visible;
    } in
    update_markdown_preview-Steady toggled (ground arith)

module _ (shown : Text → Text) where
  pub replace_editor_text-Steady :
      (text : Text) (x : MainWindow) → Steady x → Steady (replace_editor_text shown text x)
  unfolding replace_editor_text
  replace_editor_text-Steady text x v = ground arith

  show_tab-Steady :
      (index : ℕ) (tab : Option TabState) (x : MainWindow)
      → index < length x.tabs
      → Steady x
      → Steady (show_tab shown index tab x)
  unfolding show_tab replace_editor_text
  show_tab-Steady index none x h v = v
  show_tab-Steady index (some tab) x h v =
      let tab_shown : MainWindow = record (replace_editor_text shown tab.content x) {
        active_tab_index = index;
        last_known_text = tab.content;
        dirty = tab.dirty;
        current_revision = 0;
      } in
      update_markdown_preview-Steady tab_shown (ground arith)

  pub switch_to_tab-Steady :
      (index : ℕ) (x : MainWindow) → Steady x → Steady (switch_to_tab shown index x)
  unfolding switch_to_tab
  switch_to_tab-Steady index x v =
      if_cases Steady (leb (length x.tabs) index) _ _ (λ _. v)
        (λ e.
          if_cases Steady (not (is_offline x.sync_role)) _ _ (λ _. v)
            (λ _.
              show_tab-Steady index _ (sync_active_tab_from_editor x) (inside (ground arith))
                (sync_active_tab-Steady x v)))
    where
      inside : index < length x.tabs → index < length (sync_active_tab_from_editor x).tabs
      inside h = omega (arith, length-write_tab x.tabs x.active_tab_index x.editor_text x.dirty)

  push_tab-Steady : (x : MainWindow) → length x.tabs < max_tabs → Steady x → Steady (push_tab x)
  unfolding push_tab
  push_tab-Steady x h v =
      let tab : TabState = record {
        title = codes "새 탭 " ++ format_unsigned (length x.tabs);
        content = [];
        dirty = false;
      } in
      ground (arith, length-append x.tabs (tab ∷ []))

  pub handle_new_tab-Steady : (x : MainWindow) → Steady x → Steady (handle_new_tab shown x)
  unfolding handle_new_tab sync_active_tab_from_editor
  handle_new_tab-Steady x v =
      if_cases Steady (not (is_offline x.sync_role)) _ _ (λ _. v)
        (λ _.
          if_cases Steady (leb max_tabs (length x.tabs)) _ _ (λ _. v)
            (λ e. switch_to_tab-Steady (length x.tabs) _ (
              push_tab-Steady (sync_active_tab_from_editor x) (room (ground arith))
                (sync_active_tab-Steady x v))))
    where
      room : length x.tabs < max_tabs → length (sync_active_tab_from_editor x).tabs < max_tabs
      room h = omega (arith, length-write_tab x.tabs x.active_tab_index x.editor_text x.dirty)

saved_as-Steady :
    (text : Text) (x : MainWindow) (r : Storage × Bool) → Steady x → Steady (saved_as text x r).1
unfolding saved_as
saved_as-Steady text x (s, true) v = ground (arith, length-write_tab x.tabs 0 text false)
saved_as-Steady text x (s, false) v = v

pub save_editor_content-Steady :
    (api : TextApi) (disk : Disk) (s : Storage) (x : MainWindow)
    → Steady x
    → Steady (save_editor_content api disk s x).1
unfolding save_editor_content
save_editor_content-Steady api disk s x v =
    if_cases (λ (r : Storage × MainWindow). Steady r.1) (not x.dirty) _ _ (λ _. v)
      (λ _.
        if_cases (λ (r : Storage × MainWindow). Steady r.1) (ltb 0 x.active_tab_index) _ _
          (λ _. sync_active_tab-Steady x v)
          (λ _. saved_as-Steady x.editor_text x (save_current api disk x.editor_text s) v))
