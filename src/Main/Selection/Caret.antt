-- ===== src/Main/Selection/Caret.antt =====
-- Where the selection stands after an edit of the other side.
use share_note_pad.Base.{
  ℕ, ◌+◌, ◌-◌, ◌≤◌, ◌<◌, ◌≡◌, sym, ap, ◌∙◌, length, get_elem?, Text, arith, if_cases, Bool-cases,
  inl, inr, ltb→lt, ltb, if◌then◌else◌,
}
use share_note_pad.Document.Laws.{length-insert_at, length-erase_at}
use share_note_pad.Document.Model.{insert_at, erase_at}
use share_note_pad.Main.Selection.{
  EditorSelection, max_dword, clamp_to_dword, adjust_index_for_insert, adjust_index_for_delete,
  adjust_selection_for_insert, adjust_selection_for_delete,
}
use share_note_pad.Main.Selection.Units.{
  get_elem?-insert_at-lt, get_elem?-insert_at-ge, get_elem?-erase_at-lt, get_elem?-erase_at-ge,
}

clamp_small : (value : ℕ) → value ≤ max_dword → clamp_to_dword value ≡ value
unfolding clamp_to_dword
clamp_small value h = ground arith

-- The text has the same unit, or the same end, at both ends of the selections.
pub record SameEnds (before after : Text) (selection selection' : EditorSelection) : Type 0 where
  pub first : get_elem? after selection'.first ≡ get_elem? before selection.first
  pub last : get_elem? after selection'.last ≡ get_elem? before selection.last
  pub ordered : selection'.first ≤ selection'.last
  pub inside : selection'.last ≤ length after

module _ (content text : Text) (position : ℕ) (inside : position ≤ length content)
    (small : length content + length text ≤ max_dword) where
  insert_index :
      (i : ℕ)
      → i ≤ length content
      → get_elem?
          (insert_at position text content)
          (adjust_index_for_insert i position (length text))
        ≡ get_elem? content i
  unfolding adjust_index_for_insert
  insert_index i h =
      if_cases (λ k. get_elem? (insert_at position text content) k ≡ get_elem? content i)
        (ltb i position) _ _
        (λ e. get_elem?-insert_at-lt content position inside text i (ltb→lt i position e))
        (λ e.
          ap (get_elem? (insert_at position text content))
            (clamp_small (i + length text) (omega arith))
          ∙ get_elem?-insert_at-ge content position inside text i (ground arith))

  adjust_selection_for_insert-SameEnds :
      (selection : EditorSelection)
      → selection.first ≤ selection.last
      → selection.last ≤ length content
      → SameEnds content
          (insert_at position text content)
          selection
          (adjust_selection_for_insert selection position (length text))
  unfolding adjust_selection_for_insert adjust_index_for_insert
  adjust_selection_for_insert-SameEnds selection o h = record {
    first = insert_index selection.first (omega arith);
    last = insert_index selection.last h;
    ordered = ground arith;
    inside = grind (arith, length-insert_at position text content);
  }

-- Where an index goes that a deletion does not keep: behind what is deleted.
abbrev pub kept_index : ℕ → ℕ → ℕ → ℕ
kept_index position count i =
    if ltb i position then i else if ltb i (position + count) then position + count else i

abbrev pub kept_selection : ℕ → ℕ → EditorSelection → EditorSelection
kept_selection position count selection = record {
  first = kept_index position count selection.first;
  last = kept_index position count selection.last;
}

module _ (content : Text) (position count : ℕ) (inside : position + count ≤ length content)
    (small : length content ≤ max_dword) where
  adjusted-lt : (i : ℕ) → i < position → adjust_index_for_delete i position count ≡ i
  unfolding adjust_index_for_delete
  adjusted-lt i h = ground arith

  adjusted-in :
      (i : ℕ)
      → position ≤ i
      → i ≤ position + count
      → adjust_index_for_delete i position count ≡ position
  unfolding adjust_index_for_delete
  adjusted-in i h k = ground arith

  adjusted-gt :
      (i : ℕ)
      → position + count < i
      → i ≤ length content
      → adjust_index_for_delete i position count ≡ i - count
  unfolding adjust_index_for_delete
  adjusted-gt i h k = ground arith

  kept-lt : (i : ℕ) → i < position → kept_index position count i ≡ i
  kept-lt i h = ground arith

  kept-in :
      (i : ℕ) → position ≤ i → i ≤ position + count → kept_index position count i ≡ position + count
  kept-in i h k = ground arith

  kept-gt : (i : ℕ) → position + count < i → kept_index position count i ≡ i
  kept-gt i h = ground arith

  delete_index :
      (i : ℕ)
      → i ≤ length content
      → get_elem? (erase_at position count content) (adjust_index_for_delete i position count)
        ≡ get_elem? content (kept_index position count i)
  delete_index i h = elim (Bool-cases (ltb i position)) [
    | inl e ↦
        let before : i < position = ground arith in
        moved i i (adjusted-lt i before) (kept-lt i before)
          (get_elem?-erase_at-lt content position (omega arith) count i before)
    | inr e ↦ elim (Bool-cases (ltb (position + count) i)) [
      | inl l ↦
          let behind : position + count < i = ground arith in
          moved (i - count) i (adjusted-gt i behind h) (kept-gt i behind)
            (get_elem?-erase_at-ge content position (omega arith) count i (omega arith))
      | inr l ↦
          moved position (position + count) (adjusted-in i (ground arith) (ground arith))
            (kept-in i (ground arith) (ground arith))
            (ap (get_elem? (erase_at position count content)) (omega arith)
              ∙ get_elem?-erase_at-ge content position (omega arith) count (position + count)
                  (omega arith))
    ]
  ]
    where
      moved :
          (a k : ℕ)
          → adjust_index_for_delete i position count ≡ a
          → kept_index position count i ≡ k
          → get_elem? (erase_at position count content) a ≡ get_elem? content k
          → get_elem? (erase_at position count content) (adjust_index_for_delete i position count)
            ≡ get_elem? content (kept_index position count i)
      moved a k p q e =
          ap (get_elem? (erase_at position count content)) p ∙ e ∙ sym (ap (get_elem? content) q)

  adjust_selection_for_delete-SameEnds :
      (selection : EditorSelection)
      → selection.first ≤ selection.last
      → selection.last ≤ length content
      → SameEnds content
          (erase_at position count content)
          (kept_selection position count selection)
          (adjust_selection_for_delete selection position count)
  unfolding adjust_selection_for_delete adjust_index_for_delete
  adjust_selection_for_delete-SameEnds selection o h = record {
    first = delete_index selection.first (omega arith);
    last = delete_index selection.last h;
    ordered = ground arith;
    inside = grind (arith, length-erase_at position count content inside);
  }

-- The caret stays where it was in the text when the other side edits: after an insertion and after a
-- deletion the same unit, or the end of the text, stands at both ends of the selection as before; an
-- end inside what is deleted goes behind it. The ends keep their order and stay inside the new text.
-- The edits fit the text, the selection lies in it, and the lengths fit 32 bits.
pub adjust_selection-SameEnds :
    (content text : Text) (position count : ℕ) (selection : EditorSelection)
    → position + count ≤ length content
    → length content + length text ≤ max_dword
    → selection.first ≤ selection.last
    → selection.last ≤ length content
    → SameEnds content
        (insert_at position text content)
        selection
        (adjust_selection_for_insert selection position (length text))
      × SameEnds content
          (erase_at position count content)
          (kept_selection position count selection)
          (adjust_selection_for_delete selection position count)
adjust_selection-SameEnds content text position count selection fits small ordered inside = (
  adjust_selection_for_insert-SameEnds content text position (omega arith) small selection ordered
      inside,
  adjust_selection_for_delete-SameEnds content position count fits (omega arith) selection ordered
      inside,
)
