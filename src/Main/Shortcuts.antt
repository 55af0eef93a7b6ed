-- ===== src/Main/Shortcuts.antt =====
-- `ApplyMarkdownShortcutIfNeeded` and `DeleteMarkdownMarker` of client/window.cpp. The styles that
-- the shortcuts give to what is typed next are not kept.
use share_note_pad.Base.{
  ℕ, zero, suc, ◌+◌, Bool, false, not, ◌||◌, Option, some, none, [], ◌∷◌, ltb, ◌==◌, if◌then◌else◌,
  length, take, drop, get_elem?, Text, codes, text_eq,
}
use share_note_pad.Document.Model.{erase_at}
use share_note_pad.Main.State.{MainWindow}

-- `rfind` of one code unit.
unfoldable pub rfind : ℕ → Text → Option ℕ
rfind ch [] = none
rfind ch (c ∷ text) = elim (rfind ch text) [
  | some k ↦ some (k + 1)
  | none ↦ if c == ch then some 0 else none
]

after_newline : Option ℕ → ℕ
after_newline none = 0
after_newline (some previous_newline) = previous_newline + 1

-- Where the line of the caret begins.
unfoldable pub line_start_of : Text → ℕ → ℕ
unfolding after_newline
line_start_of text caret = after_newline (rfind b'\n' (take caret text))

skip_carriage_return : Text → Text
skip_carriage_return [] = []
skip_carriage_return (c ∷ line) = if c == b'\r' then line else c ∷ line

-- The length of the marker that the line consists of; `none` is no shortcut.
unfoldable pub marker_length : Text → Option ℕ
marker_length line =
    if text_eq line (codes "# ")
    then some 2
    else if text_eq line (codes "## ")
    then some 3
    else if text_eq line (codes "### ")
    then some 4
    else if text_eq line (codes "- ") || text_eq line (codes "* ")
    then some 2
    else if text_eq line (codes "> ")
    then some 2
    else if text_eq line (codes "``` ")
    then some 4
    else none

-- `DeleteMarkdownMarker`; the control reports a change, which the flag of the shortcuts hides.
unfoldable pub delete_markdown_marker : ℕ → ℕ → MainWindow → MainWindow
delete_markdown_marker line_start count x = record x {
  editor_text = erase_at line_start count x.editor_text;
  selection = record { first = line_start; last = line_start };
  markdown_shortcut_applying = false;
}

unfoldable pub apply_shortcut : ℕ → Option ℕ → MainWindow → MainWindow
apply_shortcut line_start none x = x
apply_shortcut line_start (some count) x = delete_markdown_marker line_start count x

unfoldable pub is_space_before : Text → ℕ → Bool
is_space_before text zero = false
is_space_before text (suc before) = elim (get_elem? text before) [
  | none ↦ false
  | some c ↦ c == b' '
]

-- What stands between the start of the line and the caret.
unfoldable pub typed_line : Text → ℕ → Text
unfolding skip_carriage_return line_start_of
typed_line text caret = skip_carriage_return (drop (line_start_of text caret) (take caret text))

unfoldable pub apply_markdown_shortcut_if_needed : MainWindow → MainWindow
unfolding apply_shortcut is_space_before
apply_markdown_shortcut_if_needed x =
    let caret = x.selection.last in
    if not (x.selection.first == x.selection.last) || caret == 0
    then x
    else if ltb (length x.editor_text) caret || not (is_space_before x.editor_text caret)
    then x
    else apply_shortcut (line_start_of x.editor_text caret)
        (marker_length (typed_line x.editor_text caret)) x
