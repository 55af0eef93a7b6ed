-- ===== src/Main/Tabs/Switching.antt =====
-- Leaving a tab and coming back.
use mathlib.Core.Path.{subst}
use share_note_pad.Base.{
  ℕ, zero, suc, ◌<◌, ◌≡◌, ◌≢◌, refl, sym, ap, ◌∙◌, Bool, true, false, Option, some, none, List, [],
  ◌∷◌, length, get_elem?, Text, arith, leb, if_cases,
}
use share_note_pad.Main.State.{
  MainWindow, TabState, write_tab, update_markdown_preview, replace_editor_text,
}
use share_note_pad.Main.Tabs.{is_offline, sync_active_tab_from_editor, show_tab, switch_to_tab}

pub length-write_tab :
    (tabs : List TabState) (index : ℕ) (content : Text) (dirty : Bool)
    → length (write_tab tabs index content dirty) ≡ length tabs
unfolding write_tab
length-write_tab [] index content dirty = refl
length-write_tab (tab ∷ tabs) zero content dirty = refl
length-write_tab (tab ∷ tabs) (suc index) content dirty =
    ap suc (length-write_tab tabs index content dirty)

-- The tab has the content and the mark.
abbrev pub Holds : Text → Bool → Option TabState → Type 0
Holds content dirty none = ⊥
Holds content dirty (some tab) = (tab.content ≡ content) × (tab.dirty ≡ dirty)

pub get_elem?-write_tab_self :
    (tabs : List TabState) (index : ℕ) (content : Text) (dirty : Bool)
    → index < length tabs
    → Holds content dirty (get_elem? (write_tab tabs index content dirty) index)
unfolding write_tab
get_elem?-write_tab_self [] index content dirty h = absurd (omega arith)
get_elem?-write_tab_self (tab ∷ tabs) zero content dirty h = (refl, refl)
get_elem?-write_tab_self (tab ∷ tabs) (suc index) content dirty h =
    get_elem?-write_tab_self tabs index content dirty (omega arith)

-- Writing back what a tab holds, or writing another tab, keeps what it holds.
pub Holds-write_tab :
    (tabs : List TabState) (i j : ℕ) (content other : Text) (dirty dirty' : Bool)
    → Holds content dirty (get_elem? tabs j)
    → (i ≡ j → Holds other dirty' (get_elem? tabs j))
    → Holds content dirty (get_elem? (write_tab tabs i other dirty') j)
unfolding write_tab
Holds-write_tab [] i j content other dirty dirty' h same = h
Holds-write_tab (tab ∷ tabs) zero zero content other dirty dirty' h same =
    let (c, d) = same refl in (sym c ∙ h.0, sym d ∙ h.1)
Holds-write_tab (tab ∷ tabs) zero (suc j) content other dirty dirty' h same = h
Holds-write_tab (tab ∷ tabs) (suc i) zero content other dirty dirty' h same = h
Holds-write_tab (tab ∷ tabs) (suc i) (suc j) content other dirty dirty' h same =
    Holds-write_tab tabs i j content other dirty dirty' h (λ e. same (ap suc e))

-- The window shows a tab with the content and the mark; `shown` is the text that the editor control
-- gives back for a text that it is set to.
pub record ShowsTab (shown : Text → Text) (x y : MainWindow) (index : ℕ) (content : Text)
    (dirty : Bool) : Type 0 where
  pub editor : y.editor_text ≡ shown content
  pub known : y.last_known_text ≡ content
  pub marked : y.dirty ≡ dirty
  pub active : y.active_tab_index ≡ index
  pub kept : y.tabs ≡ x.tabs
  pub role : y.sync_role ≡ x.sync_role

preview-ShowsTab :
    (shown : Text → Text) (x y : MainWindow) (index : ℕ) (content : Text) (dirty : Bool)
    → ShowsTab shown x y index content dirty
    → ShowsTab shown x (update_markdown_preview y) index content dirty
unfolding update_markdown_preview
preview-ShowsTab shown x y index content dirty h =
    if_cases (λ z. ShowsTab shown x z index content dirty) y.markdown_preview_visible _ y
      (λ _. record {
        editor = h.editor;
        known = h.known;
        marked = h.marked;
        active = h.active;
        kept = h.kept;
        role = h.role;
      })
      (λ _. h)

module _ (shown : Text → Text) where
  show_tab-ShowsTab :
      (index : ℕ) (tab : Option TabState) (x : MainWindow) (content : Text) (dirty : Bool)
      → Holds content dirty tab
      → ShowsTab shown x (show_tab shown index tab x) index content dirty
  unfolding show_tab replace_editor_text
  show_tab-ShowsTab index none x content dirty h = absurd h
  show_tab-ShowsTab index (some tab) x content dirty (c, d) =
      preview-ShowsTab shown x _ index content dirty (record {
        editor = ap shown c;
        known = c;
        marked = d;
        active = refl;
        kept = refl;
        role = refl;
      })

  pub switch_to_tab-ShowsTab :
      (index : ℕ) (x : MainWindow) (content : Text) (dirty : Bool)
      → is_offline x.sync_role ≡ true
      → index < length x.tabs
      → Holds content dirty (get_elem? (sync_active_tab_from_editor x).tabs index)
      → ShowsTab shown
          (sync_active_tab_from_editor x)
          (switch_to_tab shown index x)
          index
          content
          dirty
  unfolding switch_to_tab
  switch_to_tab-ShowsTab index x content dirty off inside h =
      let test : leb (length x.tabs) index ≡ false = ground arith in
      rw (test, off, switch_to_tab)
        (show_tab-ShowsTab index (get_elem? (sync_active_tab_from_editor x).tabs index)
          (sync_active_tab_from_editor x) content dirty h)

  -- Coming back to the tab that was left.
  back :
      (x y : MainWindow) (index : ℕ) (content : Text) (dirty : Bool)
      → is_offline x.sync_role ≡ true
      → x.active_tab_index < length x.tabs
      → index ≢ x.active_tab_index
      → ShowsTab shown (sync_active_tab_from_editor x) y index content dirty
      → ShowsTab shown
          (sync_active_tab_from_editor y)
          (switch_to_tab shown x.active_tab_index y)
          x.active_tab_index
          x.editor_text
          x.dirty
  unfolding sync_active_tab_from_editor
  back x y index content dirty off inside other h =
      let written = write_tab x.tabs x.active_tab_index x.editor_text x.dirty in
      let left : write_tab y.tabs y.active_tab_index y.editor_text y.dirty
          ≡ write_tab written index (shown content) dirty =
        cc in
      switch_to_tab-ShowsTab x.active_tab_index y x.editor_text x.dirty (ap is_offline h.role ∙ off)
        (omega (
          arith,
          length-write_tab x.tabs x.active_tab_index x.editor_text x.dirty,
          ap (λ (tabs : List TabState). length tabs) h.kept,
        ))
        (subst (λ tabs. Holds x.editor_text x.dirty (get_elem? tabs x.active_tab_index)) (sym left)
          (Holds-write_tab written index x.active_tab_index x.editor_text (shown content) x.dirty
            dirty (get_elem?-write_tab_self x.tabs x.active_tab_index x.editor_text x.dirty inside)
            (λ e. absurd (other e))))

  pub Holds-some :
      (tabs : List TabState) (index : ℕ)
      → index < length tabs
      → (content : Text) × (dirty : Bool) × Holds content dirty (get_elem? tabs index)
  Holds-some [] index h = absurd (omega arith)
  Holds-some (tab ∷ tabs) zero h = (tab.content, tab.dirty, (refl, refl))
  Holds-some (tab ∷ tabs) (suc index) h = Holds-some tabs index (omega arith)

  -- Nothing that was typed is lost when the user goes to another tab and comes back: the window knows
  -- the text that was left, the editor is set to it, and the mark of unsaved changes is the same. What
  -- the editor control makes of a text that it is set to, is open: it may change line breaks. The
  -- window shares nothing, and both tabs exist.
  pub switch_to_tab-back :
      (x : MainWindow) (index : ℕ)
      → is_offline x.sync_role ≡ true
      → x.active_tab_index < length x.tabs
      → index < length x.tabs
      → index ≢ x.active_tab_index
      → let y = switch_to_tab shown x.active_tab_index (switch_to_tab shown index x) in
        (y.editor_text ≡ shown x.editor_text)
        × (y.last_known_text ≡ x.editor_text)
        × (y.dirty ≡ x.dirty)
        × (y.active_tab_index ≡ x.active_tab_index)
  unfolding sync_active_tab_from_editor
  switch_to_tab-back x index off inside exists other =
      let (content, dirty, there) =
        Holds-some (sync_active_tab_from_editor x).tabs index
          (omega (arith, length-write_tab x.tabs x.active_tab_index x.editor_text x.dirty)) in
      let h =
        back x (switch_to_tab shown index x) index content dirty off inside other
          (switch_to_tab-ShowsTab index x content dirty off exists there) in
      (h.editor, h.known, h.marked, h.active)
