-- ===== src/Document/Diffing.antt =====
-- `ComputeEditorDiff` of client/editor_diff.cpp: the operations turn the old text into the new one.
use share_note_pad.Base.{
  ℕ, ◌+◌, ◌-◌, ◌≤◌, ◌<◌, ◌≡◌, ◌≢◌, refl, sym, ap, ◌∙◌, min, true, false, Option, none, some, List,
  [], ◌∷◌, ◌++◌, not, leb, ltb, ltb→lt, if◌then◌else◌, length, take, drop, Text, text_eq, arith,
  length-take, length-drop, take-append-drop, Bool-cases, inl, inr, length-take_le, drop-drop,
  drop-all, text_eq_iff, take-append_of, drop-append_of,
}
use share_note_pad.Document.Diff.{
  EditorOperation, insert_text, delete_range, scan_prefix, scan_suffix, range_operations,
  diff_operations, compute_editor_diff,
}
use share_note_pad.Document.Laws.{apply_insert-applied, apply_delete-applied, length-erase_at}
use share_note_pad.Document.Model.{
  max_document_chars, Status, applied, is_empty, insert_at, erase_at, apply_insert_to_content,
  apply_delete_to_content,
}
use share_note_pad.Document.Scan.{
  CommonPrefix, CommonSuffix, scan_prefix-CommonPrefix, scan_suffix-CommonSuffix,
}

-- One operation on a text, as the server and the replicas make it; `none` if it is refused.
abbrev pub applied_text : Status × Option Text → Option Text
applied_text (applied, content) = content
applied_text _ = none

unfoldable pub apply_operation : Text → EditorOperation → Option Text
apply_operation content (insert_text position text) =
    applied_text (apply_insert_to_content (some content) position text)
apply_operation content (delete_range position count) =
    applied_text (apply_delete_to_content (some content) position count)

unfoldable pub replay : Text → List EditorOperation → Option Text
replay content [] = some content
replay content (op ∷ ops) = elim (apply_operation content op) [
  | none ↦ none
  | some content' ↦ replay content' ops
]

replay-delete :
    (content : Text) (k d : ℕ) (ops : List EditorOperation)
    → 0 < d
    → k + d ≤ length content
    → replay content (delete_range k d ∷ ops) ≡ replay (erase_at k d content) ops
unfolding replay apply_operation
replay-delete content k d ops pos inside =
    rw (apply_delete-applied content k d pos inside, replay) refl

replay-insert :
    (content text : Text) (k : ℕ) (ops : List EditorOperation)
    → text ≢ []
    → k ≤ length content
    → length content + length text ≤ max_document_chars
    → replay content (insert_text k text ∷ ops) ≡ replay (insert_at k text content) ops
unfolding replay apply_operation
replay-insert content text k ops ne inside fits =
    rw (apply_insert-applied content text k ne inside fits, replay) refl

-- The four shapes of the operations for a range.
range_operations-delete :
    (k d : ℕ) (text : Text)
    → 0 < d
    → range_operations k d text
      ≡ delete_range k d ∷ (if is_empty text then [] else insert_text k text ∷ [])
unfolding range_operations
range_operations-delete k d text h = ground arith

range_operations-keep :
    (k d : ℕ) (text : Text)
    → d ≡ 0
    → range_operations k d text ≡ (if is_empty text then [] else insert_text k text ∷ [])
unfolding range_operations
range_operations-keep k d text h = ground arith

replay-insertion :
    (content text : Text) (k : ℕ)
    → k ≤ length content
    → length content + length text ≤ max_document_chars
    → replay content (if is_empty text then [] else insert_text k text ∷ [])
      ≡ some (insert_at k text content)
unfolding replay
replay-insertion content [] k inside fits = ap some (sym (take-append-drop k content))
replay-insertion content (c ∷ text) k inside fits =
    replay-insert content (c ∷ text) k [] (λ e. cc) inside fits

-- Deleting and inserting at one place, in the text around it.
insert_at-erase :
    (content text : Text) (k d : ℕ)
    → k + d ≤ length content
    → insert_at k text (erase_at k d content) ≡ take k content ++ (text ++ drop (k + d) content)
insert_at-erase content text k d inside =
    let size : length (take k content) ≡ k = length-take_le k content (omega arith) in
    rw (
      take-append_of k (take k content) (drop (k + d) content) size,
      drop-append_of k 0 (take k content) (drop (k + d) content) (omega arith),
    )

-- The operations for a range replace it by the inserted text.
replay-range :
    (content text : Text) (k d : ℕ)
    → k + d ≤ length content
    → length content - d + length text ≤ max_document_chars
    → replay content (range_operations k d text)
      ≡ some (take k content ++ (text ++ drop (k + d) content))
replay-range content text k d inside fits = elim (Bool-cases (ltb 0 d)) [
  | inl some_units ↦
      let pos = ltb→lt 0 d some_units in
      rw (range_operations-delete k d text pos) (
        replay-delete content k d _ pos inside
        ∙ replay-insertion (erase_at k d content) text k
            (omega (arith, length-erase_at k d content inside))
            (omega (arith, length-erase_at k d content inside))
        ∙ ap some (insert_at-erase content text k d inside))
  | inr no_units ↦
      let none_erased : d ≡ 0 = ground arith in
      let same : k + d ≡ k = omega arith in
      rw (range_operations-keep k d text none_erased, same)
        (replay-insertion content text k (omega arith) (omega arith))
]

-- The new text is cut at the indices that the loops found.
new_parts :
    (k n : ℕ) (new : Text) → k ≤ n → take k new ++ (take (n - k) (drop k new) ++ drop n new) ≡ new
new_parts k n new h =
    let e : k + (n - k) ≡ n = omega arith in
    let behind : drop (n - k) (drop k new) ≡ drop n new =
      drop-drop (n - k) k new ∙ ap (λ i. drop i new) e in
    rw (← behind, take-append-drop (n - k) (drop k new)) (take-append-drop k new)

-- What the two loops find together.
found-CommonPrefix :
    (old new : Text) → CommonPrefix old new (scan_prefix (min (length old) (length new)) old new 0)
found-CommonPrefix old new =
    scan_prefix-CommonPrefix (min (length old) (length new)) old new 0
      (record { in_old = omega arith; in_new = omega arith; agrees = refl })

found-CommonSuffix :
    (old new : Text) (k : ℕ)
    → CommonPrefix old new k
    → let (o, n) = scan_suffix old new k (length old) (length new) in CommonSuffix old new k o n
found-CommonSuffix old new k c =
    scan_suffix-CommonSuffix old new k (length old) (length new) (record {
      old_from = c.in_old;
      new_from = c.in_new;
      in_old = omega arith;
      in_new = omega arith;
      agrees =
          drop-all (length old) old (omega arith) ∙ sym (drop-all (length new) new (omega arith));
    })

replay-cut :
    (old new : Text) (k o n : ℕ)
    → length new ≤ max_document_chars
    → CommonPrefix old new k
    → CommonSuffix old new k o n
    → replay old (range_operations k (o - k) (take (n - k) (drop k new))) ≡ some new
replay-cut old new k o n fits c s =
    let e : k + (o - k) ≡ o = omega (arith, s.old_from) in
    let parts : length old - o ≡ length new - n =
      omega (arith, ap length s.agrees, length-drop o old, length-drop n new) in
    replay-range old (take (n - k) (drop k new)) k (o - k) (omega (arith, s.in_old, e)) (
      omega (
        arith,
        parts,
        s.in_old,
        s.in_new,
        s.old_from,
        s.new_from,
        c.in_new,
        length-take (n - k) (drop k new),
        length-drop k new,
      ))
    ∙ ap some (rw (e, c.agrees, s.agrees) (new_parts k n new s.new_from))

diff_operations-replay :
    (old new : Text)
    → length new ≤ max_document_chars
    → replay old (diff_operations old new) ≡ some new
unfolding diff_operations
diff_operations-replay old new fits =
    let k = scan_prefix (min (length old) (length new)) old new 0 in
    let c = found-CommonPrefix old new in
    replay-cut old new k _ _ fits c (found-CommonSuffix old new k c)

-- For a new text within the limit the difference is valid, and its operations, made one after the
-- other by the document model, are all accepted and turn the old text into the new one; the flag
-- `changed` is false exactly if the two texts are equal. A longer new text gives no operations.
pub compute_editor_diff_correct :
    (old new : Text)
    → let d = compute_editor_diff old new in
      (d.valid ≡ leb (length new) max_document_chars)
      × (d.valid ≡ not d.document_too_large)
      × (d.valid ≡ true → replay old d.operations ≡ some new)
      × (d.valid ≡ true → d.changed ≡ not (text_eq old new))
      × (d.valid ≡ false → d.operations ≡ [])
unfolding compute_editor_diff replay
compute_editor_diff_correct old new = (
  ground arith,
  ground arith,
  λ h. ground (arith, diff_operations-replay old new, text_eq_iff old new),
  λ h. ground arith,
  λ h. ground arith,
)
