-- ===== src/Document/Diff.antt =====
-- client/editor_diff.cpp.
use share_note_pad.Base.{
  ℕ, zero, suc, ◌+◌, ◌-◌, min, Bool, true, false, ◌&&◌, Option, some, List, [], ◌∷◌, ◌++◌, ltb,
  ◌==◌, if◌then◌else◌, length, get_elem?, take, drop, Text, text_eq,
}
use share_note_pad.Document.Model.{max_document_chars, is_empty}

-- EditorOperation: `position`, and `text` (its size is `length`) or `length`.
pub data EditorOperation : Type 0 where
  insert_text : ℕ → Text → EditorOperation
  delete_range : ℕ → ℕ → EditorOperation

pub record EditorDiffResult : Type 0 where
  pub valid : Bool
  pub changed : Bool
  pub document_too_large : Bool
  pub operations : List EditorOperation

-- `old_text[i] == new_text[j]`; the loops only read inside the texts.
unfoldable pub same_unit : Option ℕ → Option ℕ → Bool
same_unit (some a) (some b) = a == b
same_unit _ _ = false

-- The first loop, with at most `rounds` more rounds: `min_size - prefix` of them.
unfoldable pub scan_prefix : ℕ → Text → Text → ℕ → ℕ
scan_prefix zero old new prefix = prefix
scan_prefix (suc rounds) old new prefix =
    let more = scan_prefix rounds old new (prefix + 1) in
    if same_unit (get_elem? old prefix) (get_elem? new prefix) then more else prefix

-- The second loop, from `old_suffix` and `new_suffix`.
unfoldable pub scan_suffix : Text → Text → ℕ → ℕ → ℕ → ℕ × ℕ
scan_suffix old new prefix zero new_suffix = (zero, new_suffix)
scan_suffix old new prefix (suc o) zero = (suc o, zero)
scan_suffix old new prefix (suc o) (suc n) =
    let more = scan_suffix old new prefix o n in
    if ltb prefix (suc o) && (ltb prefix (suc n) && same_unit (get_elem? old o) (get_elem? new n))
    then more
    else (suc o, suc n)

-- The operations for a changed range.
unfoldable pub range_operations : ℕ → ℕ → Text → List EditorOperation
range_operations prefix deleted_length inserted_text =
    (if ltb 0 deleted_length then delete_range prefix deleted_length ∷ [] else [])
    ++ (if is_empty inserted_text then [] else insert_text prefix inserted_text ∷ [])

unfoldable pub diff_operations : Text → Text → List EditorOperation
unfolding range_operations
diff_operations old new =
    let prefix = scan_prefix (min (length old) (length new)) old new 0 in
    let (old_suffix, new_suffix) = scan_suffix old new prefix (length old) (length new) in
    range_operations prefix (old_suffix - prefix) (take (new_suffix - prefix) (drop prefix new))

unfoldable pub compute_editor_diff : Text → Text → EditorDiffResult
compute_editor_diff old new =
    if ltb max_document_chars (length new)
    then record { valid = false; changed = false; document_too_large = true; operations = [] }
    else if text_eq old new
    then record { valid = true; changed = false; document_too_large = false; operations = [] }
    else record {
      valid = true;
      changed = true;
      document_too_large = false;
      operations = diff_operations old new;
    }
