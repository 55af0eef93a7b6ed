-- ===== src/Protocol/RoundTrip/Printed.antt =====
-- The text that `SerializeMessage` prints, as the list of its fields.
use share_note_pad.Base.{
  ℕ, ◌≡◌, refl, sym, ap, ◌∙◌, true, false, List, [], ◌∷◌, ◌++◌, append_assoc, append-nil, Text,
  codes, if◌then◌else◌, Bool-cases, inl, inr,
}
use share_note_pad.Protocol.Codec.{
  is_common_field, append_json_string_field, append_json_number_field, append_strings,
  append_numbers, message_text,
}
use share_note_pad.Protocol.Fields.{Fields}
use share_note_pad.Protocol.Message.{ProtocolMessage, message_type_to_string}
use share_note_pad.Protocol.RoundTrip.Items.{Item, text_item, number_item, item_text, tail_text}

-- The fields of the map that are printed: the common ones stand in front.
unfoldable pub string_items : Fields Text → List Item
string_items [] = []
string_items ((key, value) ∷ fields) =
    if is_common_field key then string_items fields else text_item key value ∷ string_items fields

unfoldable pub number_items : Fields ℕ → List Item
number_items [] = []
number_items ((key, value) ∷ fields) = number_item key value ∷ number_items fields

-- The fields of a message behind its type.
unfoldable pub rest_items : ProtocolMessage → List Item
rest_items m =
    text_item (codes "session") m.session
    ∷ text_item (codes "client") m.client
    ∷ (string_items m.strings ++ number_items m.numbers)

body_text : List Item → Text
body_text [] = []
body_text (i ∷ items) = b',' ∷ (item_text i [] ++ body_text items)

item_text-append : (i : Item) (rest : Text) → item_text i rest ≡ item_text i [] ++ rest
unfolding item_text
item_text-append (text_item k v) rest = simp append_assoc
item_text-append (number_item k n) rest = simp (append_assoc, append-nil)

tail_text-body : (items : List Item) → tail_text items ≡ body_text items ++ (b'}' ∷ [])
unfolding tail_text body_text
tail_text-body [] = refl
tail_text-body (i ∷ items) = ap (◌∷◌ b',') (
    item_text-append i (tail_text items)
    ∙ rw (tail_text-body items) (sym (append_assoc (item_text i []) (body_text items) _)))

append_string-item :
    (out k v : Text)
    → append_json_string_field (out, false) k v
      ≡ (out ++ (b',' ∷ item_text (text_item k v) []), false)
unfolding append_json_string_field item_text
append_string-item out k v = refl

append_number-item :
    (out k : Text) (n : ℕ)
    → append_json_number_field (out, false) k n
      ≡ (out ++ (b',' ∷ item_text (number_item k n) []), false)
unfolding append_json_number_field item_text
append_number-item out k n = simp append-nil

append_strings-body :
    (fs : Fields Text) (out : Text)
    → append_strings (out, false) fs ≡ (out ++ body_text (string_items fs), false)
unfolding append_strings string_items body_text
append_strings-body [] out = simp append-nil
append_strings-body ((k, v) ∷ fs) out = elim (Bool-cases (is_common_field k)) [
  | inl common ↦ rw common (append_strings-body fs out)
  | inr other ↦ rw (other, append_string-item) (append_strings-body fs _ ∙ rw append_assoc refl)
]

append_numbers-body :
    (fs : Fields ℕ) (out : Text)
    → append_numbers (out, false) fs ≡ (out ++ body_text (number_items fs), false)
unfolding append_numbers number_items body_text
append_numbers-body [] out = simp append-nil
append_numbers-body ((k, v) ∷ fs) out =
    rw append_number-item (append_numbers-body fs _ ∙ rw append_assoc refl)

body_text-append : (xs ys : List Item) → body_text (xs ++ ys) ≡ body_text xs ++ body_text ys
unfolding body_text
body_text-append [] ys = refl
body_text-append (i ∷ xs) ys = rw (body_text-append xs ys) (simp append_assoc)

append_string-first :
    (k v : Text)
    → append_json_string_field (codes "{", true) k v ≡ (b'{' ∷ item_text (text_item k v) [], false)
unfolding append_json_string_field item_text
append_string-first k v = refl

rest_items-body :
    (m : ProtocolMessage)
    → tail_text (rest_items m)
      ≡ b','
        ∷ (item_text (text_item (codes "session") m.session) []
            ++ (b','
                ∷ (item_text (text_item (codes "client") m.client) []
                    ++ (body_text (string_items m.strings)
                        ++ (body_text (number_items m.numbers) ++ (b'}' ∷ []))))))
unfolding rest_items body_text
rest_items-body m =
    tail_text-body (rest_items m)
    ∙ rw (body_text-append (string_items m.strings) (number_items m.numbers)) (simp append_assoc)

-- The printed message: its type, the other fields, and the closing brace.
pub message_text-items :
    (m : ProtocolMessage)
    → message_text m
      ≡ b'{'
        ∷ item_text
            (text_item (codes "type") (message_type_to_string m.type))
            (tail_text (rest_items m))
unfolding message_text rest_items
message_text-items m =
    rw
      (
        append_string-first,
        append_string-item _ (codes "session"),
        append_string-item _ (codes "client"),
        append_strings-body m.strings,
        append_numbers-body m.numbers,
      )
      (rw
        (
          item_text-append (text_item (codes "type") _) (tail_text (rest_items m)),
          rest_items-body m,
        )
        (simp append_assoc))
