-- ===== src/Protocol/Json.antt =====
-- The JSON scanner and printer of client/protocol.cpp. An index into the text is the rest of the
-- text behind it; a parser returns `none` where the code returns false.
use share_note_pad.Base.{
  ℕ, zero, suc, ◌+◌, ◌-◌, ◌*◌, ◌/◌, ◌%◌, ◌^◌, Bool, ◌&&◌, ◌||◌, Option, none, some, [], ◌∷◌, ◌++◌,
  ltb, leb, ◌==◌, if◌then◌else◌, Text,
}

unfoldable pub is_whitespace : ℕ → Bool
is_whitespace ch = ch == b' ' || ch == b'\t' || ch == b'\r' || ch == b'\n'

unfoldable pub skip_whitespace : Text → Text
unfolding is_whitespace
skip_whitespace [] = []
skip_whitespace (ch ∷ text) = if is_whitespace ch then skip_whitespace text else ch ∷ text

-- The `switch` on the character behind a backslash.
unfoldable pub unescape : ℕ → Option ℕ
unescape escaped =
    if escaped == b'"' || escaped == b'\\' || escaped == b'/'
    then some escaped
    else if escaped == b'b'
    then some 8
    else if escaped == b'f'
    then some 12
    else if escaped == b'n'
    then some 10
    else if escaped == b'r'
    then some 13
    else if escaped == b't'
    then some 9
    else none

-- The loop behind the opening quote, with the value that is read so far.
unfoldable pub parse_json_body : Text → Text → Option (Text × Text)
parse_json_body value [] = none
parse_json_body value (ch ∷ []) = if ch == b'"' then some (value, []) else none
parse_json_body value (ch ∷ escaped ∷ text) =
    let plain = parse_json_body (value ++ ch ∷ []) (escaped ∷ text) in
    let read : Option (Text × Text) = elim (unescape escaped) [
      | none ↦ none
      | some unit ↦ parse_json_body (value ++ unit ∷ []) text
    ] in
    if ch == b'"' then some (value, escaped ∷ text) else if ch == b'\\' then read else plain

-- The value and the text behind the closing quote.
unfoldable pub parse_json_string : Text → Option (Text × Text)
parse_json_string [] = none
parse_json_string (ch ∷ text) = if ch == b'"' then parse_json_body [] text else none

-- `UINT64_MAX`.
abbrev pub max_u64 : ℕ
max_u64 = 2 ^ 64 - 1

-- `iswdigit`.
unfoldable pub is_digit : ℕ → Bool
is_digit ch = leb b'0' ch && leb ch b'9'

unfoldable pub scan_digits : ℕ → Text → Option (ℕ × Text)
unfolding is_digit
scan_digits result [] = some (result, [])
scan_digits result (ch ∷ text) =
    let digit = ch - b'0' in
    let rest = scan_digits (result * 10 + digit) text in
    if is_digit ch
    then (if ltb ((max_u64 - digit) / 10) result then none else rest)
    else some (result, ch ∷ text)

unfoldable pub parse_unsigned : Text → Option (ℕ × Text)
unfolding is_digit scan_digits
parse_unsigned [] = none
parse_unsigned (ch ∷ text) = if is_digit ch then scan_digits 0 (ch ∷ text) else none

-- One round of the loop of `EscapeJsonString`.
unfoldable pub escape_unit : ℕ → Text
escape_unit ch =
    if ch == b'"'
    then b'\\' ∷ b'"' ∷ []
    else if ch == b'\\'
    then b'\\' ∷ b'\\' ∷ []
    else if ch == 8
    then b'\\' ∷ b'b' ∷ []
    else if ch == 12
    then b'\\' ∷ b'f' ∷ []
    else if ch == 10
    then b'\\' ∷ b'n' ∷ []
    else if ch == 13
    then b'\\' ∷ b'r' ∷ []
    else if ch == 9
    then b'\\' ∷ b't' ∷ []
    else ch ∷ []

unfoldable pub escape_json_string : Text → Text
unfolding escape_unit
escape_json_string [] = []
escape_json_string (ch ∷ value) = escape_unit ch ++ escape_json_string value

-- What `<<` writes for an unsigned number: its decimal digits. A number has fewer digits than
-- `suc value`, the rounds that `format_unsigned` allows.
unfoldable pub digits_onto : ℕ → ℕ → Text → Text
digits_onto zero value out = out
digits_onto (suc rounds) value out =
    let more = digits_onto rounds (value / 10) ((b'0' + value % 10) ∷ out) in
    if ltb value 10 then (b'0' + value) ∷ out else more

unfoldable pub format_unsigned : ℕ → Text
unfolding digits_onto
format_unsigned value = digits_onto (suc value) value []
