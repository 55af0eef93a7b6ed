-- ===== src/Document/Tests.antt =====
-- Runs of the document model and of the difference, and their theorems at concrete texts.
use share_note_pad.Base.{
  ◌≡◌, refl, true, false, not, some, [], ◌∷◌, leb, length, Text, codes, text_eq,
}
use share_note_pad.Document.Diff.{
  insert_text, delete_range, same_unit, scan_prefix, scan_suffix, diff_operations,
  compute_editor_diff,
}
use share_note_pad.Document.Diffing.{replay, compute_editor_diff_correct}
use share_note_pad.Document.Laws.{apply_delete-apply_insert}
use share_note_pad.Document.Model.{
  applied, apply_insert_to_content, apply_delete_to_content, max_document_chars,
}

abbrev old_text : Text
old_text = codes "the cat sat"

abbrev new_text : Text
new_text = codes "the dog sat"

diff_example :
    (compute_editor_diff old_text new_text).operations
    ≡ delete_range 4 3 ∷ insert_text 4 (codes "dog") ∷ []
unfolding compute_editor_diff diff_operations scan_prefix scan_suffix same_unit text_eq
diff_example = refl

compute_editor_diff_correct_example :
    let d = compute_editor_diff old_text new_text in
    (d.valid ≡ leb (length new_text) max_document_chars)
    × (d.valid ≡ not d.document_too_large)
    × (d.valid ≡ true → replay old_text d.operations ≡ some new_text)
    × (d.valid ≡ true → d.changed ≡ not (text_eq old_text new_text))
    × (d.valid ≡ false → d.operations ≡ [])
compute_editor_diff_correct_example = compute_editor_diff_correct old_text new_text

cat_inserted :
    apply_insert_to_content (some (codes "the sat")) 4 (codes "cat ") ≡ (applied, some old_text)
unfolding apply_insert_to_content
cat_inserted = refl

apply_delete-apply_insert_example :
    apply_delete_to_content (some old_text) 4 4 ≡ (applied, some (codes "the sat"))
apply_delete-apply_insert_example =
    apply_delete-apply_insert (codes "the sat") (codes "cat ") old_text 4 cat_inserted
