-- ===== src/Main/Selection.antt =====
-- The selection of the editor in client/window.cpp: `EditorSelection`, `ClampToDword` and the
-- functions that move a selection when the other side edits.
pub mod Units
pub mod Caret
use share_note_pad.Base.{ℕ, ◌+◌, ◌-◌, ◌^◌, min, ltb, leb, if◌then◌else◌}

-- `start` and `end`.
pub record EditorSelection : Type 0 where
  pub first : ℕ
  pub last : ℕ

-- MAXDWORD.
abbrev pub max_dword : ℕ
max_dword = 4294967295

unfoldable pub clamp_to_dword : ℕ → ℕ
clamp_to_dword value = if ltb max_dword value then max_dword else value

unfoldable pub adjust_index_for_insert : ℕ → ℕ → ℕ → ℕ
unfolding clamp_to_dword
adjust_index_for_insert index position count =
    if ltb index position then index else clamp_to_dword (index + count)

unfoldable pub adjust_index_for_delete : ℕ → ℕ → ℕ → ℕ
unfolding clamp_to_dword
adjust_index_for_delete index position count =
    if leb index position
    then index
    else if leb index (position + count)
    then clamp_to_dword position
    else clamp_to_dword (index - count)

unfoldable pub adjust_selection_for_insert : EditorSelection → ℕ → ℕ → EditorSelection
unfolding adjust_index_for_insert
adjust_selection_for_insert selection position count = record {
  first = adjust_index_for_insert selection.first position count;
  last = adjust_index_for_insert selection.last position count;
}

unfoldable pub adjust_selection_for_delete : EditorSelection → ℕ → ℕ → EditorSelection
unfolding adjust_index_for_delete
adjust_selection_for_delete selection position count = record {
  first = adjust_index_for_delete selection.first position count;
  last = adjust_index_for_delete selection.last position count;
}

unfoldable pub clamp_selection_to_text : EditorSelection → ℕ → EditorSelection
unfolding clamp_to_dword
clamp_selection_to_text selection text_length = record {
  first = min selection.first (clamp_to_dword text_length);
  last = min selection.last (clamp_to_dword text_length);
}
