-- ===== src/Protocol/RoundTrip/Parsed.antt =====
-- The loop of `DeserializeMessage` on a printed list of fields.
use share_note_pad.Base.{
  ℕ, zero, suc, ◌+◌, ◌≤◌, ◌<◌, ◌≡◌, refl, ◌∙◌, some, List, [], ◌∷◌, ◌++◌, arith, length, Text,
}
use share_note_pad.Protocol.Codec.{
  parse_value, parse_colon, parse_field, closes, continues, broken, refused, next_field, fields,
  parse_fields,
}
use share_note_pad.Protocol.Json.{
  max_u64, is_digit, skip_whitespace, format_unsigned, parse_json_string, parse_unsigned,
}
use share_note_pad.Protocol.Message.{ProtocolMessage, set_string, set_number}
use share_note_pad.Protocol.Numbers.{NoDigit, format_unsigned-head, parse_unsigned-format}
use share_note_pad.Protocol.Strings.{parse_json_string-escape}
use share_note_pad.Protocol.RoundTrip.Items.{
  Item, text_item, number_item, item_text, tail_text, set_item, set_items, Fits,
}

-- Whitespace is not skipped in front of what the printer puts there.
skip_whitespace-digit :
    (d : ℕ) (text : Text) → d < 10 → skip_whitespace ((b'0' + d) ∷ text) ≡ (b'0' + d) ∷ text
unfolding skip_whitespace
skip_whitespace-digit d text h = ground arith

parse_value-digit :
    (k : Text) (d n : ℕ) (text rest : Text) (m : ProtocolMessage)
    → d < 10
    → parse_unsigned ((b'0' + d) ∷ text) ≡ some (n, rest)
    → parse_value k ((b'0' + d) ∷ text) m ≡ some (set_number k n m, rest)
unfolding parse_value
parse_value-digit k d n text rest m h e = ground arith

parse_value-number :
    (k : Text) (n : ℕ) (rest : Text) (m : ProtocolMessage)
    → n ≤ max_u64
    → NoDigit rest
    → parse_value k (skip_whitespace (format_unsigned n ++ rest)) m ≡ some (set_number k n m, rest)
parse_value-number k n rest m fits stop =
    let (d, t, h, e) = format_unsigned-head n in
    let read = rw e at (parse_unsigned-format n rest fits stop) in
    rw e (
      rw (skip_whitespace-digit d (t ++ rest) h)
        (parse_value-digit k d n (t ++ rest) rest m h read))

parse_field-key :
    (k text rest : Text) (m : ProtocolMessage)
    → parse_json_string text ≡ some (k, b':' ∷ rest)
    → parse_field text m ≡ parse_value k (skip_whitespace rest) m
unfolding parse_field parse_colon
parse_field-key k text rest m e = rw (e, parse_field) (unfold skip_whitespace in refl)

parse_value-text :
    (k v text rest : Text) (m : ProtocolMessage)
    → parse_json_string (b'"' ∷ text) ≡ some (v, rest)
    → parse_value k (skip_whitespace (b'"' ∷ text)) m ≡ some (set_string k v m, rest)
unfolding parse_value skip_whitespace
parse_value-text k v text rest m e = rw (e, parse_value) refl

tail_text-NoDigit : (items : List Item) → NoDigit (tail_text items)
unfolding tail_text is_digit
tail_text-NoDigit [] = refl
tail_text-NoDigit (i ∷ items) = refl

-- The parser reads one field back, and sets it.
parse_field-item :
    (i : Item) (items : List Item) (m : ProtocolMessage)
    → Fits (i ∷ items)
    → parse_field (item_text i (tail_text items)) m ≡ some (set_item m i, tail_text items)
unfolding item_text set_item
parse_field-item (text_item k v) items m fits =
    parse_field-key k _ _ m (parse_json_string-escape k _)
    ∙ parse_value-text k v _ _ m (parse_json_string-escape v (tail_text items))
parse_field-item (number_item k n) items m fits =
    parse_field-key k _ _ m (parse_json_string-escape k _)
    ∙ parse_value-number k n (tail_text items) m fits.0 (tail_text-NoDigit items)

next_field-close : next_field (skip_whitespace (tail_text [])) ≡ closes []
unfolding next_field skip_whitespace tail_text
next_field-close = refl

next_field-comma :
    (i : Item) (items : List Item)
    → next_field (skip_whitespace (tail_text (i ∷ items)))
      ≡ continues (item_text i (tail_text items))
unfolding next_field skip_whitespace tail_text item_text
next_field-comma (text_item k v) items = refl
next_field-comma (number_item k n) items = refl

Fits-tail : (i : Item) (items : List Item) → Fits (i ∷ items) → Fits items
Fits-tail (text_item k v) items h = h
Fits-tail (number_item k n) items h = h.1

parse_fields-step :
    (fuel : ℕ) (text rest : Text) (m m' : ProtocolMessage)
    → parse_field text m ≡ some (m', rest)
    → parse_fields (suc fuel) text m ≡ (elim (next_field (skip_whitespace rest)) [
      | closes behind ↦ fields m' behind
      | continues more ↦ parse_fields fuel more m'
      | broken ↦ refused
    ])
unfolding parse_fields parse_field parse_json_string
parse_fields-step fuel [] rest m m' e = cc
parse_fields-step fuel (c ∷ text) rest m m' e = rw (e, parse_fields) refl

pub parse_fields-items :
    (items : List Item) (fuel : ℕ) (i : Item) (m : ProtocolMessage)
    → Fits (i ∷ items)
    → length items < fuel
    → parse_fields fuel (item_text i (tail_text items)) m ≡ fields (set_items m (i ∷ items)) []
unfolding set_items
parse_fields-items items zero i m fits h = elim h [ ]
parse_fields-items [] (suc fuel) i m fits h =
    parse_fields-step fuel _ _ m _ (parse_field-item i [] m fits) ∙ rw next_field-close
parse_fields-items (j ∷ items) (suc fuel) i m fits h =
    parse_fields-step fuel _ _ m _ (parse_field-item i (j ∷ items) m fits)
    ∙ rw (next_field-comma j items) (
        parse_fields-items items fuel j (set_item m i) (Fits-tail i (j ∷ items) fits) (omega arith))
