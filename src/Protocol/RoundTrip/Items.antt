-- ===== src/Protocol/RoundTrip/Items.antt =====
-- The fields of a printed message, their text, and what reading them sets.
use share_note_pad.Base.{ℕ, ◌≤◌, List, [], ◌∷◌, ◌++◌, Text}
use share_note_pad.Protocol.Json.{max_u64, escape_json_string, format_unsigned}
use share_note_pad.Protocol.Message.{ProtocolMessage, set_string, set_number}

-- One field of the printed object.
pub data Item : Type 0 where
  text_item : Text → Text → Item
  number_item : Text → ℕ → Item

-- The field with what stands behind it.
unfoldable pub item_text : Item → Text → Text
item_text (text_item k v) rest =
    b'"' ∷ (escape_json_string k ++ (b'"' ∷ b':' ∷ b'"' ∷ (escape_json_string v ++ (b'"' ∷ rest))))
item_text (number_item k n) rest =
    b'"' ∷ (escape_json_string k ++ (b'"' ∷ b':' ∷ (format_unsigned n ++ rest)))

-- The fields behind the first one, and the closing brace.
unfoldable pub tail_text : List Item → Text
tail_text [] = b'}' ∷ []
tail_text (i ∷ items) = b',' ∷ item_text i (tail_text items)

unfoldable pub set_item : ProtocolMessage → Item → ProtocolMessage
set_item m (text_item k v) = set_string k v m
set_item m (number_item k n) = set_number k n m

unfoldable pub set_items : ProtocolMessage → List Item → ProtocolMessage
set_items m [] = m
set_items m (i ∷ items) = set_items (set_item m i) items

-- Every number of the items fits into 64 bits.
abbrev pub Fits : List Item → Type 0
Fits [] = Unit
Fits (text_item _ _ ∷ items) = Fits items
Fits (number_item _ n ∷ items) = (n ≤ max_u64) × Fits items
