-- ===== src/Protocol/Strings.antt =====
-- The JSON strings of client/protocol.cpp: what `EscapeJsonString` writes, `ParseJsonString` reads.
use share_note_pad.Base.{
  ℕ, ◌≤◌, ◌<◌, ◌≡◌, refl, ap, ◌∙◌, some, Option-cases, inl, inr, [], ◌∷◌, ◌++◌, append-nil,
  append_assoc, arith, length, Text,
}
use share_note_pad.Protocol.Json.{
  skip_whitespace, parse_json_body, parse_json_string, unescape, escape_unit, escape_json_string,
}

-- The parser takes one escaped character back.
parse_json_body-escape_unit :
    (c : ℕ) (value rest : Text)
    → parse_json_body value (escape_unit c ++ rest) ≡ parse_json_body (value ++ c ∷ []) rest
unfolding parse_json_body unescape escape_unit
parse_json_body-escape_unit c value [] = ground arith
parse_json_body-escape_unit c value (d ∷ rest) = ground arith

pub parse_json_body-escape :
    (v value rest : Text)
    → parse_json_body value (escape_json_string v ++ (b'"' ∷ rest)) ≡ some (value ++ v, rest)
unfolding escape_json_string
parse_json_body-escape [] value [] = unfold parse_json_body in rw append-nil refl
parse_json_body-escape [] value (d ∷ rest) = unfold parse_json_body in rw append-nil refl
parse_json_body-escape (c ∷ v) value rest = rw append_assoc (
    parse_json_body-escape_unit c value _
    ∙ parse_json_body-escape v (value ++ c ∷ []) rest
    ∙ ap (λ (t : Text). some (t, rest)) (append_assoc value (c ∷ []) v))

-- `ParseJsonString` gives every text back from its escaped form in quotes, together with whatever
-- stands behind the closing quote.
pub parse_json_string-escape :
    (v rest : Text)
    → parse_json_string (b'"' ∷ (escape_json_string v ++ (b'"' ∷ rest))) ≡ some (v, rest)
unfolding parse_json_string
parse_json_string-escape v rest = parse_json_body-escape v [] rest

-- What the scanners leave is no longer than what they were given.
pub length-skip_whitespace : (text : Text) → length (skip_whitespace text) ≤ length text
unfolding skip_whitespace
length-skip_whitespace [] = omega arith
length-skip_whitespace (c ∷ text) = ground (arith, length-skip_whitespace text)

module _ {v rest : Text} where
  length-parse_json_body :
      (text value : Text) → parse_json_body value text ≡ some (v, rest) → length rest < length text
  unfolding parse_json_body
  length-parse_json_body [] value h = cc
  length-parse_json_body (c ∷ []) value h = ground arith
  length-parse_json_body (c ∷ d ∷ text) value h = elim (Option-cases (unescape d)) [
    | inl e ↦ ground (arith, length-parse_json_body (d ∷ text) (value ++ c ∷ []))
    | inr (u, e) ↦ ground (
      arith,
      length-parse_json_body (d ∷ text) (value ++ c ∷ []),
      length-parse_json_body text (value ++ u ∷ []),
    )
  ]

pub length-parse_json_string :
    (text : Text) {v rest : Text}
    → parse_json_string text ≡ some (v, rest)
    → length rest < length text
unfolding parse_json_string
length-parse_json_string [] h = cc
length-parse_json_string (c ∷ text) {v} {rest} h =
    ground (arith, length-parse_json_body {v = v} {rest = rest} text [])
