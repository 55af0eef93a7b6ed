-- ===== src/Protocol/Codec.antt =====
-- `SerializeMessage` and `DeserializeMessage` of client/protocol.cpp, and the conversions of
-- client/text_encoding.cpp over the Windows calls that they make.
use share_note_pad.Base.{
  ℕ, zero, suc, ◌*◌, ◌≡◌, refl, ◌⊎◌, inl, inr, Bool, true, false, ◌||◌, Option, none, some, [], ◌∷◌,
  ◌++◌, ltb, ◌==◌, if◌then◌else◌, length, Text, Bytes, codes, text_eq,
}
use share_note_pad.Protocol.Fields.{Fields}
use share_note_pad.Protocol.Json.{
  skip_whitespace, parse_json_string, parse_unsigned, escape_json_string, format_unsigned,
}
use share_note_pad.Protocol.Message.{
  MessageType, unknown, ProtocolError, frame_too_large, invalid_utf8, invalid_json,
  missing_required_field, invalid_message_type, ProtocolMessage, empty_message,
  message_type_to_string, set_string, set_number,
}

-- What the functions with a `ProtocolError*` give: the value that they store, or the error.
pub data Result {ℓ} (A : Type ℓ) : Type ℓ where
  ok : A → Result A
  err : ProtocolError → Result A

pub Result-cases {ℓ} :
    {A : Type ℓ} (r : Result A) → ((a : A) × (r ≡ ok a)) ⊎ ((e : ProtocolError) × (r ≡ err e))
Result-cases (ok a) = inl (a, refl)
Result-cases (err e) = inr (e, refl)

-- `WideCharToMultiByte` and `MultiByteToWideChar` for UTF-8 with invalid characters refused; `none`
-- is a result of zero. What was converted is converted back.
pub record TextApi : Type 0 where
  pub wide_to_multi_byte : Text → Option Bytes
  pub multi_byte_to_wide : Bytes → Option Text
  pub converts_back :
      (text : Text) (bytes : Bytes)
      → wide_to_multi_byte text ≡ some bytes
      → multi_byte_to_wide bytes ≡ some text

-- kMaxFramePayloadBytes.
abbrev pub max_frame_payload_bytes : ℕ
max_frame_payload_bytes = 64 * 1024

abbrev pub is_empty : Text → Bool
is_empty [] = true
is_empty (_ ∷ _) = false

abbrev pub is_unknown : MessageType → Bool
is_unknown unknown = true
is_unknown _ = false

-- What is printed so far, and the flag `first`.
abbrev pub Builder : Type 0
Builder = Text × Bool

comma : Bool → Text
comma true = []
comma false = b',' ∷ []

unfoldable pub append_json_string_field : Builder → Text → Text → Builder
unfolding comma
append_json_string_field (out, first) key value = (
  out
      ++ (comma first
          ++ (b'"'
              ∷ (escape_json_string key
                  ++ (codes "\":\"" ++ (escape_json_string value ++ (b'"' ∷ [])))))),
  false,
)

unfoldable pub append_json_number_field : Builder → Text → ℕ → Builder
unfolding comma
append_json_number_field (out, first) key value = (
  out
      ++ (comma first
          ++ (b'"' ∷ (escape_json_string key ++ (codes "\":" ++ format_unsigned value)))),
  false,
)

unfoldable pub is_common_field : Text → Bool
is_common_field key =
    text_eq key (codes "type") || text_eq key (codes "session") || text_eq key (codes "client")

-- The loop over `message.strings`.
unfoldable pub append_strings : Builder → Fields Text → Builder
append_strings builder [] = builder
append_strings builder ((key, value) ∷ fields) =
    append_strings
      (if is_common_field key then builder else append_json_string_field builder key value) fields

-- The loop over `message.numbers`.
unfoldable pub append_numbers : Builder → Fields ℕ → Builder
append_numbers builder [] = builder
append_numbers builder ((key, value) ∷ fields) =
    append_numbers (append_json_number_field builder key value) fields

-- `builder.str()` at the end.
unfoldable pub message_text : ProtocolMessage → Text
message_text m =
    let opened : Builder = (codes "{", true) in
    let typed = append_json_string_field opened (codes "type") (message_type_to_string m.type) in
    let named = append_json_string_field typed (codes "session") m.session in
    let owned = append_json_string_field named (codes "client") m.client in
    let texts = append_strings owned m.strings in (append_numbers texts m.numbers).0 ++ codes "}"

-- One field of the object, set in the message; `none` is the error `InvalidJson`.
unfoldable pub parse_value : Text → Text → ProtocolMessage → Option (ProtocolMessage × Text)
parse_value key [] m = none
parse_value key (ch ∷ text) m =
    if ch == b'"'
    then elim (parse_json_string (ch ∷ text)) [
      | none ↦ none
      | some (value, rest) ↦ some (set_string key value m, rest)
    ]
    else elim (parse_unsigned (ch ∷ text)) [
      | none ↦ none
      | some (value, rest) ↦ some (set_number key value m, rest)
    ]

-- Behind a key: a colon and a value.
unfoldable pub parse_colon : Text → Text → ProtocolMessage → Option (ProtocolMessage × Text)
parse_colon key [] m = none
parse_colon key (ch ∷ text) m =
    if ch == b':' then parse_value key (skip_whitespace text) m else none

unfoldable pub parse_field : Text → ProtocolMessage → Option (ProtocolMessage × Text)
parse_field text m = elim (parse_json_string text) [
  | none ↦ none
  | some (key, rest) ↦ parse_colon key (skip_whitespace rest) m
]

-- What stands behind a field: the end of the object, the next field, or what is no JSON.
pub data Next : Type 0 where
  closes : Text → Next
  continues : Text → Next
  broken : Next

pub Next-cases :
    (n : Next)
    → ((rest : Text) × (n ≡ closes rest)) ⊎ ((rest : Text) × (n ≡ continues rest)) ⊎ (n ≡ broken)
Next-cases (closes rest) = inl (rest, refl)
Next-cases (continues rest) = inr (inl (rest, refl))
Next-cases broken = inr (inr refl)

after_comma : Text → Next
after_comma [] = broken
after_comma (ch ∷ text) = if ch == b'}' then broken else continues (ch ∷ text)

unfoldable pub next_field : Text → Next
unfolding after_comma
next_field [] = broken
next_field (ch ∷ text) =
    if ch == b'}'
    then closes text
    else if ch == b','
    then after_comma (skip_whitespace text)
    else broken

-- How the loop over the fields ends. `no_fuel` is not an outcome of the code.
pub data Loop : Type 0 where
  fields : ProtocolMessage → Text → Loop
  refused : Loop
  no_fuel : Loop

-- `while (index < text.size())`.
unfoldable pub parse_fields : ℕ → Text → ProtocolMessage → Loop
parse_fields zero text m = no_fuel
parse_fields (suc fuel) [] m = fields m []
parse_fields (suc fuel) (ch ∷ text) m = elim (parse_field (ch ∷ text) m) [
  | none ↦ refused
  | some (m', rest) ↦ elim (next_field (skip_whitespace rest)) [
    | closes behind ↦ fields m' behind
    | continues more ↦ parse_fields fuel more m'
    | broken ↦ refused
  ]
]

-- The checks behind the loop.
unfoldable pub finish_message : ProtocolMessage → Text → Result ProtocolMessage
finish_message m rest =
    if is_empty (skip_whitespace rest)
    then if is_unknown m.type
      then err invalid_message_type
      else if is_empty m.session || is_empty m.client
      then err missing_required_field
      else ok m
    else err invalid_json

finish_loop : Loop → Result ProtocolMessage
finish_loop (fields m rest) = finish_message m rest
finish_loop refused = err invalid_json
finish_loop no_fuel = err invalid_json

-- Behind the opening brace and the whitespace there.
parse_object : Text → Result ProtocolMessage
parse_object [] = finish_loop (parse_fields 1 [] empty_message)
parse_object (ch ∷ text) =
    if ch == b'}'
    then err missing_required_field
    else finish_loop (parse_fields (suc (length (ch ∷ text))) (ch ∷ text) empty_message)

parse_brace : Text → Result ProtocolMessage
parse_brace [] = err invalid_json
parse_brace (ch ∷ text) =
    if ch == b'{' then parse_object (skip_whitespace text) else err invalid_json

unfoldable pub parse_message : Text → Result ProtocolMessage
unfolding parse_brace parse_object finish_loop
parse_message text = parse_brace (skip_whitespace text)

-- A text that opens with a field is read by the loop and the checks behind it.
pub parse_message-object :
    (text : Text) (m : ProtocolMessage)
    → parse_fields (suc (length (b'"' ∷ text))) (b'"' ∷ text) empty_message ≡ fields m []
    → parse_message (b'{' ∷ b'"' ∷ text) ≡ finish_message m []
unfolding parse_message skip_whitespace
parse_message-object text m e = rw e refl

module _ (api : TextApi) where
  -- `WideToUtf8`: empty on failure.
  unfoldable pub wide_to_utf8 : Text → Bytes
  wide_to_utf8 [] = []
  wide_to_utf8 (ch ∷ value) = elim (api.wide_to_multi_byte (ch ∷ value)) [
    | none ↦ []
    | some bytes ↦ bytes
  ]

  unfoldable pub utf8_to_wide : Bytes → Option Text
  utf8_to_wide [] = some []
  utf8_to_wide (byte ∷ value) = api.multi_byte_to_wide (byte ∷ value)

  -- The size checks behind the conversion.
  check_size : Bytes → Result Bytes
  check_size bytes =
      if is_empty bytes
      then err invalid_utf8
      else if ltb max_frame_payload_bytes (length bytes)
      then err frame_too_large
      else ok bytes

  unfoldable pub serialize_message : ProtocolMessage → Result Bytes
  unfolding check_size
  serialize_message m =
      if is_unknown m.type
      then err invalid_message_type
      else if is_empty m.session || is_empty m.client
      then err missing_required_field
      else check_size (wide_to_utf8 (message_text m))

  unfoldable pub deserialize_message : Bytes → Result ProtocolMessage
  deserialize_message bytes =
      if ltb max_frame_payload_bytes (length bytes)
      then err frame_too_large
      else elim (utf8_to_wide bytes) [ none ↦ err invalid_utf8 | some text ↦ parse_message text ]
