-- ===== src/Protocol/Progress.antt =====
-- The loop of `DeserializeMessage` ends: each round takes at least one character.
use share_note_pad.Base.{
  ℕ, zero, suc, ◌<◌, ◌≡◌, ◌≢◌, some, Option-cases, inl, inr, [], ◌∷◌, arith, length, Text,
}
use share_note_pad.Protocol.Codec.{
  parse_value, parse_colon, parse_field, Next-cases, continues, next_field, no_fuel, parse_fields,
}
use share_note_pad.Protocol.Json.{skip_whitespace, parse_json_string, parse_unsigned}
use share_note_pad.Protocol.Message.{ProtocolMessage}
use share_note_pad.Protocol.Numbers.{length-parse_unsigned}
use share_note_pad.Protocol.Strings.{length-skip_whitespace, length-parse_json_string}

module _ {m' : ProtocolMessage} {rest : Text} where
  length-parse_value :
      (key text : Text) (m : ProtocolMessage)
      → parse_value key text m ≡ some (m', rest)
      → length rest < length text
  unfolding parse_value
  length-parse_value key [] m h = cc
  length-parse_value key (c ∷ text) m h = elim (Option-cases (parse_json_string (c ∷ text))) [
    | inl e ↦ elim (Option-cases (parse_unsigned (c ∷ text))) [
      | inl f ↦ ground arith
      | inr ((v, r), f) ↦ ground (arith, length-parse_unsigned (c ∷ text) f)
    ]
    | inr ((s, q), e) ↦ elim (Option-cases (parse_unsigned (c ∷ text))) [
      | inl f ↦ ground (arith, length-parse_json_string (c ∷ text) e)
      | inr ((v, r), f) ↦
          ground (arith, length-parse_json_string (c ∷ text) e, length-parse_unsigned (c ∷ text) f)
    ]
  ]

  length-parse_colon :
      (key text : Text) (m : ProtocolMessage)
      → parse_colon key text m ≡ some (m', rest)
      → length rest < length text
  unfolding parse_colon
  length-parse_colon key [] m h = cc
  length-parse_colon key (c ∷ text) m h =
      ground (arith, length-parse_value key (skip_whitespace text) m, length-skip_whitespace text)

  length-parse_field :
      (text : Text) (m : ProtocolMessage)
      → parse_field text m ≡ some (m', rest)
      → length rest < length text
  unfolding parse_field
  length-parse_field text m h = elim (Option-cases (parse_json_string text)) [
    | inl e ↦ ground arith
    | inr ((key, behind), e) ↦ ground (
      arith,
      length-parse_json_string text e,
      length-parse_colon key (skip_whitespace behind) m,
      length-skip_whitespace behind,
    )
  ]

length-next_field :
    (text : Text) {more : Text} → next_field text ≡ continues more → length more < length text
unfolding next_field
length-next_field [] h = cc
length-next_field (c ∷ text) {more} h = ground (arith, length-skip_whitespace text)

-- With more fuel than the text has characters the loop of `DeserializeMessage` ends by itself: it
-- never runs out of fuel.
pub parse_fields-ends :
    (fuel : ℕ) (text : Text) (m : ProtocolMessage)
    → length text < fuel
    → parse_fields fuel text m ≢ no_fuel
unfolding parse_fields
parse_fields-ends zero text m h = elim h [ ]
parse_fields-ends (suc fuel) [] m h = λ e. cc
parse_fields-ends (suc fuel) (c ∷ text) m h = elim (Option-cases (parse_field (c ∷ text) m)) [
  | inl e ↦ rw (e, parse_fields) (λ x. cc)
  | inr ((m', rest), e) ↦ elim (Next-cases (next_field (skip_whitespace rest))) [
    | inl (behind, n) ↦ rw (e, parse_fields, n) (λ x. cc)
    | inr (inl (more, n)) ↦
        rw (e, parse_fields, n)
          (parse_fields-ends fuel more m' (
            omega (
              arith,
              length-parse_field (c ∷ text) m e,
              length-skip_whitespace rest,
              length-next_field (skip_whitespace rest) n,
            )))
    | inr (inr n) ↦ rw (e, parse_fields, n) (λ x. cc)
  ]
]
