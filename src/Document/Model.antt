-- ===== src/Document/Model.antt =====
-- client/document_model.cpp.
use share_note_pad.Base.{
  ℕ, ◌+◌, ◌-◌, ◌*◌, Bool, ◌||◌, Option, none, some, [], ◌∷◌, ◌++◌, ltb, ◌==◌, if◌then◌else◌, length,
  take, drop, Text, codes,
}

-- kMaxDocumentChars of editor_diff.h.
abbrev pub max_document_chars : ℕ
max_document_chars = 5 * 1024 * 1024

-- DocumentApplyStatus.
pub data Status : Type 0 where
  applied invalid_operation invalid_position insert_too_large document_too_large : Status

-- `content->insert(position, text)`.
abbrev pub insert_at : ℕ → Text → Text → Text
insert_at position text content = take position content ++ (text ++ drop position content)

-- `content->erase(position, length)`.
abbrev pub erase_at : ℕ → ℕ → Text → Text
erase_at position count content = take position content ++ drop (position + count) content

abbrev pub is_empty : Text → Bool
is_empty [] = Bool.true
is_empty (_ ∷ _) = Bool.false

-- The status and the content behind the pointer; `none` is the null pointer.
unfoldable pub apply_insert_to_content : Option Text → ℕ → Text → Status × Option Text
apply_insert_to_content none position text = (invalid_operation, none)
apply_insert_to_content (some content) position text =
    if is_empty text
    then (invalid_operation, some content)
    else if ltb (length content) position
    then (invalid_position, some content)
    else if ltb max_document_chars (length content + length text)
    then (document_too_large, some content)
    else (applied, some (insert_at position text content))

unfoldable pub apply_delete_to_content : Option Text → ℕ → ℕ → Status × Option Text
apply_delete_to_content none position count = (invalid_operation, none)
apply_delete_to_content (some content) position count =
    if count == 0
    then (invalid_operation, some content)
    else if ltb (length content) position || ltb (length content - position) count
    then (invalid_position, some content)
    else (applied, some (erase_at position count content))

unfoldable pub document_apply_status_to_string : Status → Text
document_apply_status_to_string applied = codes "applied"
document_apply_status_to_string invalid_operation = codes "invalid_operation"
document_apply_status_to_string invalid_position = codes "invalid_position"
document_apply_status_to_string insert_too_large = codes "insert_too_large"
document_apply_status_to_string document_too_large = codes "document_too_large"
