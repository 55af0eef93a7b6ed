-- ===== src/Main/Tabs/Saving.antt =====
-- What `SaveEditorContent` writes, and what it does not.
use mathlib.Core.Path.{subst}
use share_note_pad.Base.{
  ℕ, zero, suc, ◌+◌, ◌<◌, ◌≡◌, refl, sym, ◌⊎◌, inl, inr, Bool, true, false, not, some, List, [],
  ◌∷◌, ◌++◌, length, length-append, get_elem?, Text, arith, leb, ltb, if_cases, codes,
}
use share_note_pad.Main.State.{MainWindow, TabState, write_tab}
use share_note_pad.Main.Tabs.{
  is_offline, max_tabs, sync_active_tab_from_editor, push_tab, handle_new_tab, save_editor_content,
  saved_as, handle_autosave_timer,
}
use share_note_pad.Main.Tabs.Switching.{
  Holds, length-write_tab, get_elem?-write_tab_self, Holds-write_tab, switch_to_tab-ShowsTab,
}
use share_note_pad.Protocol.Json.{format_unsigned}
use share_note_pad.Protocol.Codec.{TextApi, wide_to_utf8}
use share_note_pad.Storage.{Storage, Disk}
use share_note_pad.Storage.Saving.{save_current-current}

module _ (api : TextApi) (disk : Disk) (s : Storage) where
  -- What a save leaves behind.
  abbrev pub Saved : MainWindow → Storage × MainWindow → Type 0
  Saved x r =
      ((r.1.dirty ≡ false) × (r.0.current ≡ some (wide_to_utf8 api x.editor_text)))
      ⊎ ((r.1 ≡ x) × (r.0.current ≡ s.current))

  saved_as-Saved :
      (x : MainWindow) (r : Storage × Bool)
      → ((r.1 ≡ true)
          × (r.0.current ≡ some (wide_to_utf8 api x.editor_text))
          × (r.0.last_error ≡ []))
        ⊎ ((r.1 ≡ false) × (r.0.current ≡ s.current))
      → Saved x (saved_as x.editor_text x r)
  unfolding saved_as
  saved_as-Saved x (s', true) (inl (_, c, _)) = inl (refl, c)
  saved_as-Saved x (s', true) (inr (e, c)) = absurd (let z : true ≡ false = e in cc)
  saved_as-Saved x (s', false) (inl (e, c, _)) = absurd (let z : false ≡ true = e in cc)
  saved_as-Saved x (s', false) (inr (_, c)) = inr (refl, c)

  -- A save of the first tab either writes the text of the editor and takes the mark of unsaved
  -- changes away, or, on any failure, changes neither the file nor the window.
  pub save_editor_content-Saved :
      (x : MainWindow)
      → x.dirty ≡ true
      → x.active_tab_index ≡ 0
      → Saved x (save_editor_content api disk s x)
  unfolding save_editor_content
  save_editor_content-Saved x dirty first =
      if_cases (Saved x) (not x.dirty) _ _ (λ e. absurd (ground arith))
        (λ e.
          if_cases (Saved x) (ltb 0 x.active_tab_index) _ _ (λ f. absurd (ground arith))
            (λ f. saved_as-Saved x _ (save_current-current api disk x.editor_text s)))

  -- No save reaches the file while another tab is shown.
  save_editor_content-other :
      (x : MainWindow) → 0 < x.active_tab_index → (save_editor_content api disk s x).0 ≡ s
  unfolding save_editor_content
  save_editor_content-other x other =
      if_cases (λ (r : Storage × MainWindow). r.0 ≡ s) (not x.dirty) _ _ (λ e. refl)
        (λ e.
          if_cases (λ (r : Storage × MainWindow). r.0 ≡ s) (ltb 0 x.active_tab_index) _ _
            (λ f. refl) (λ f. absurd (ground arith)))

module _ (shown : Text → Text) where
  get_elem?-append_last :
      (tabs : List TabState) (tab : TabState)
      → get_elem? (tabs ++ tab ∷ []) (length tabs) ≡ some tab
  get_elem?-append_last [] tab = refl
  get_elem?-append_last (t ∷ tabs) tab = get_elem?-append_last tabs tab

  Holds-append :
      (tabs more : List TabState) (index : ℕ) (content : Text) (dirty : Bool)
      → Holds content dirty (get_elem? tabs index)
      → Holds content dirty (get_elem? (tabs ++ more) index)
  Holds-append [] more index content dirty h = absurd h
  Holds-append (tab ∷ tabs) more zero content dirty h = h
  Holds-append (tab ∷ tabs) more (suc index) content dirty h =
      Holds-append tabs more index content dirty h

  -- `HandleNewTab` shows an empty tab behind the others, and the tab that was shown keeps what was
  -- typed.
  pub handle_new_tab-ShowsTab :
      (x : MainWindow)
      → is_offline x.sync_role ≡ true
      → length x.tabs < max_tabs
      → x.active_tab_index < length x.tabs
      → let y = handle_new_tab shown x in
        (y.editor_text ≡ shown [])
        × (y.active_tab_index ≡ length x.tabs)
        × Holds x.editor_text x.dirty (get_elem? y.tabs x.active_tab_index)
  unfolding handle_new_tab push_tab sync_active_tab_from_editor
  handle_new_tab-ShowsTab x off few inside =
      let test : leb max_tabs (length x.tabs) ≡ false = ground arith in
      let pushed = push_tab (sync_active_tab_from_editor x) in
      let left = write_tab x.tabs x.active_tab_index x.editor_text x.dirty in
      let tab : TabState = record {
        title = codes "새 탭 " ++ format_unsigned (length left);
        content = [];
        dirty = false;
      } in
      let size = length-write_tab x.tabs x.active_tab_index x.editor_text x.dirty in
      let new : Holds [] false (get_elem? pushed.tabs (length x.tabs)) =
        subst (λ i. Holds [] false (get_elem? pushed.tabs i)) size
          (subst (Holds [] false) (sym (get_elem?-append_last left tab)) (refl, refl)) in
      let room : length pushed.tabs ≡ length left + 1 = length-append left (tab ∷ []) in
      let there =
        Holds-write_tab pushed.tabs x.active_tab_index (length x.tabs) [] x.editor_text false
          x.dirty new (λ e. absurd (omega (arith, e))) in
      let h =
        switch_to_tab-ShowsTab shown (length x.tabs) pushed [] false off (omega arith) there in
      rw (off, test, handle_new_tab)
        (
          h.editor,
          h.active,
          subst (λ tabs. Holds x.editor_text x.dirty (get_elem? tabs x.active_tab_index))
              (sym h.kept)
              (get_elem?-write_tab_self pushed.tabs x.active_tab_index x.editor_text x.dirty
                (omega arith)),
        )

  -- What was typed in the first tab and is not saved yet when another tab is opened is not written to
  -- the file: neither by the timer of the autosave nor by the save when the window is closed, whatever
  -- is typed in the new tab. It stays in the tab, with its mark. The window shares nothing and may open
  -- a tab; what the editor control makes of a text that it is set to, is open.
  pub handle_new_tab-unsaved :
      (api : TextApi) (disk : Disk) (s : Storage) (x : MainWindow) (text : Text) (dirty : Bool)
      → is_offline x.sync_role ≡ true
      → x.active_tab_index ≡ 0
      → 0 < length x.tabs
      → length x.tabs < max_tabs
      → let y = record (handle_new_tab shown x) { editor_text = text; dirty = dirty } in
        (((save_editor_content api disk s y).0 ≡ s) × ((handle_autosave_timer api disk s y).0 ≡ s))
        × Holds x.editor_text x.dirty (get_elem? y.tabs 0)
  unfolding handle_autosave_timer
  handle_new_tab-unsaved api disk s x text dirty off first some_tab few =
      let (_, active, held) = handle_new_tab-ShowsTab x off few (omega arith) in
      let y : MainWindow = record (handle_new_tab shown x) { editor_text = text; dirty = dirty } in
      (
        (
          save_editor_content-other api disk s y (omega arith),
          save_editor_content-other api disk s (record y { autosave_timer = false }) (omega arith),
        ),
        subst (λ i. Holds x.editor_text x.dirty (get_elem? (handle_new_tab shown x).tabs i)) first
            held,
      )
