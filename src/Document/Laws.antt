-- ===== src/Document/Laws.antt =====
-- What the two operations of client/document_model.cpp do, branch by branch, and their inverses.
use share_note_pad.Base.{
  ◌∙◌, ◌∷◌, ap, ℕ, ◌+◌, ◌≤◌, ◌<◌, ◌≡◌, ◌≢◌, some, [], ◌++◌, arith, length, take, drop, Text,
  length-append, length-take, length-drop, take-append-drop, drop-append, drop-drop, take-append_of,
  drop-append_of, length-take_le,
}
use share_note_pad.Document.Model.{
  max_document_chars, applied, insert_at, erase_at, apply_insert_to_content,
  apply_delete_to_content,
}

pub length-insert_at :
    (position : ℕ) (text content : Text)
    → length (insert_at position text content) ≡ length content + length text
length-insert_at position text content = omega (
  arith,
  length-append (take position content) (text ++ drop position content),
  length-append text (drop position content),
  length-take position content,
  length-drop position content,
)

pub length-erase_at :
    (position count : ℕ) (content : Text)
    → position + count ≤ length content
    → length (erase_at position count content) + count ≡ length content
length-erase_at position count content h = omega (
  arith,
  length-append (take position content) (drop (position + count) content),
  length-take position content,
  length-drop (position + count) content,
)

-- The insertion is made exactly when it is not empty, lies in the text and fits.
pub apply_insert-applied :
    (content text : Text) (position : ℕ)
    → text ≢ []
    → position ≤ length content
    → length content + length text ≤ max_document_chars
    → apply_insert_to_content (some content) position text
      ≡ (applied, some (insert_at position text content))
unfolding apply_insert_to_content
apply_insert-applied content text position ne inside fits = ground arith

pub apply_delete-applied :
    (content : Text) (position count : ℕ)
    → 0 < count
    → position + count ≤ length content
    → apply_delete_to_content (some content) position count
      ≡ (applied, some (erase_at position count content))
unfolding apply_delete_to_content
apply_delete-applied content position count some_units inside = ground arith

-- Erasing what was inserted gives the text before.
pub erase_at-insert_at :
    (position : ℕ) (text content : Text)
    → position ≤ length content
    → erase_at position (length text) (insert_at position text content) ≡ content
erase_at-insert_at position text content h =
    let size : length (take position content) ≡ position = length-take_le position content h in
    let front =
      take-append_of position (take position content) (text ++ drop position content) size in
    let behind =
      drop-append_of (position + length text) (length text) (take position content)
        (text ++ drop position content) (omega arith) in
    rw (front, behind) (rw drop-append (take-append-drop position content))

-- Inserting what was erased gives the text before.
pub insert_at-erase_at :
    (position count : ℕ) (content : Text)
    → position + count ≤ length content
    → insert_at position (take count (drop position content)) (erase_at position count content)
      ≡ content
insert_at-erase_at position count content h =
    let size : length (take position content) ≡ position =
      length-take_le position content (omega arith) in
    let tail = drop (position + count) content in
    let front = take-append_of position (take position content) tail size in
    let behind = drop-append_of position 0 (take position content) tail (omega arith) in
    rw (front, behind, ← drop-drop count position content)
      (rw (take-append-drop count (drop position content)) (take-append-drop position content))

applied_insertion :
    (content text after : Text) (position : ℕ)
    → apply_insert_to_content (some content) position text ≡ (applied, some after)
    → (after ≡ insert_at position text content) × (position ≤ length content) × (0 < length text)
unfolding apply_insert_to_content
applied_insertion content [] after position h = absurd (ground arith)
applied_insertion content (c ∷ text) after position h = (ground arith, ground arith, omega arith)

-- A deletion undoes an insertion: if `ApplyInsertToContent` made an insertion, then
-- `ApplyDeleteToContent` at its place and of its length is made too, and gives the old text back.
pub apply_delete-apply_insert :
    (content text after : Text) (position : ℕ)
    → apply_insert_to_content (some content) position text ≡ (applied, some after)
    → apply_delete_to_content (some after) position (length text) ≡ (applied, some content)
apply_delete-apply_insert content text after position h =
    let (made, inside, some_units) = applied_insertion content text after position h in
    apply_delete-applied after position (length text) some_units
      (omega (arith, ap length made, length-insert_at position text content))
    ∙ ap (λ t. (applied, some (erase_at position (length text) t))) made
    ∙ ap (λ t. (applied, some t)) (erase_at-insert_at position text content inside)
