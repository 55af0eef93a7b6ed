-- ===== src/Protocol/Tests.antt =====
-- Runs of the protocol on concrete inputs, and its theorems at them.
use share_note_pad.Base.{
  ℕ, ◌≡◌, ◌≢◌, refl, Bool, true, false, ◌&&◌, Option, some, none, [], ◌∷◌, ◌++◌, ltb, if◌then◌else◌,
  length, replicate, Text, Bytes, codes, text_eq, text_lt, arith, leb, length-replicate,
}
use share_note_pad.Protocol.Codec.{
  ok, err, TextApi, parse_message, serialize_message, deserialize_message, is_common_field,
  append_strings, append_numbers, append_json_string_field, append_json_number_field, message_text,
  parse_value, parse_colon, parse_field, next_field, parse_fields, finish_message, wide_to_utf8,
  no_fuel, max_frame_payload_bytes,
}
use share_note_pad.Protocol.Fields.{insert}
use share_note_pad.Protocol.Frame.{encode_frame, length_bytes, try_read_frame, append, clear}
use share_note_pad.Protocol.Framing.{try_read_frame-encode_frame, append_refuses_coalesced}
use share_note_pad.Protocol.Json.{
  max_u64, is_digit, skip_whitespace, parse_json_body, parse_json_string, unescape, parse_unsigned,
  escape_json_string, format_unsigned,
}
use share_note_pad.Protocol.Message.{
  ProtocolMessage, empty_message, insert_edit, no_error, frame_too_large, invalid_json,
  invalid_message_type, missing_required_field, message_type_to_string, message_type_from_string,
  set_string, set_number,
}
use share_note_pad.Protocol.Numbers.{parse_unsigned_exact, value_of}
use share_note_pad.Protocol.Progress.{parse_fields-ends}
use share_note_pad.Protocol.RoundTrip.Messages.{IsMessage, Received, deserialize-serialize}

-- Conversions that know the ASCII characters, whose bytes are the characters.
abbrev is_ascii : Text → Bool
is_ascii [] = true
is_ascii (c ∷ text) = ltb c 128 && is_ascii text

abbrev ascii : Text → Option Bytes
ascii text = if is_ascii text then some text else none

pub ascii_back : (text : Text) (bytes : Bytes) → ascii text ≡ some bytes → ascii bytes ≡ some text
ascii_back text bytes h = ground arith

abbrev pub ascii_api : TextApi
ascii_api = record {
  wide_to_multi_byte = ascii;
  multi_byte_to_wide = ascii;
  converts_back = ascii_back;
}

-- An INSERT of two lines.
abbrev pub insert_message : ProtocolMessage
insert_message = record {
  type = insert_edit;
  session = codes "482913";
  client = codes "B";
  strings = (codes "text", codes "a\n\"b\"") ∷ [];
  numbers = (codes "base_rev", 104) ∷ (codes "pos", 12) ∷ [];
}

abbrev pub insert_json : Bytes
insert_json =
    codes
      "{\"type\":\"INSERT\",\"session\":\"482913\",\"client\":\"B\",\"text\":\"a\\n\\\"b\\\"\",\"base_rev\":104,\"pos\":12}"

pub insert_serialized : serialize_message ascii_api insert_message ≡ ok insert_json
unfolding serialize_message wide_to_utf8 message_text append_json_string_field
    append_json_number_field append_strings append_numbers is_common_field escape_json_string
    format_unsigned message_type_to_string text_eq
insert_serialized = refl

pub insert_message-IsMessage : IsMessage insert_message
unfolding text_lt
insert_message-IsMessage = record {
  strings_sorted = (tt, tt);
  numbers_sorted = ((refl, tt), (tt, tt));
  numbers_fit = (omega arith, (omega arith, tt));
}

deserialize-serialize_example :
    (m' : ProtocolMessage) × (deserialize_message ascii_api insert_json ≡ ok m')
    × Received insert_message m'
deserialize-serialize_example =
    deserialize-serialize ascii_api insert_message insert_json insert_message-IsMessage
      insert_serialized

-- The greatest number is read, and the next one is refused.
max_number : parse_unsigned (codes "18446744073709551615,") ≡ some (max_u64, codes ",")
unfolding parse_unsigned
max_number = refl

parse_unsigned_exact_example : parse_unsigned (codes "18446744073709551616}") ≡ (
    if leb (value_of 0 (codes "18446744073709551616")) max_u64
    then some (value_of 0 (codes "18446744073709551616"), codes "}")
    else none)
unfolding is_digit
parse_unsigned_exact_example =
    parse_unsigned_exact b'1' (codes "8446744073709551616") (codes "}")
      (
        refl,
        (
          refl,
          (
            refl,
            (
              refl,
              (
                refl,
                (
                  refl,
                  (
                    refl,
                    (
                      refl,
                      (
                        refl,
                        (
                          refl,
                          (
                            refl,
                            (
                              refl,
                              (refl, (refl, (refl, (refl, (refl, (refl, (refl, (refl, tt)))))))),
                            ),
                          ),
                        ),
                      ),
                    ),
                  ),
                ),
              ),
            ),
          ),
        ),
      )
      refl

parse_fields-ends_example : parse_fields 8 (codes "\"a\":1}") empty_message ≢ no_fuel
parse_fields-ends_example = parse_fields-ends 8 (codes "\"a\":1}") empty_message (omega arith)

-- What is no message, by the kind of its error.
refusals :
    (parse_message (codes " { \"a\" : 1 , } ") ≡ err invalid_json)
    × (parse_message (codes "{\"a\":1}") ≡ err invalid_message_type)
    × (parse_message (codes "{\"type\":\"PING\",\"session\":\"\"}") ≡ err missing_required_field)
    × (parse_message (codes "{}") ≡ err missing_required_field)
unfolding parse_message parse_fields parse_field parse_colon parse_value next_field finish_message
    skip_whitespace parse_json_string parse_json_body unescape parse_unsigned set_string set_number
    message_type_from_string text_eq insert text_lt
refusals = (refl, refl, refl, refl)

try_read_frame-encode_frame_example :
    try_read_frame (record { buffer = encode_frame (codes "ab") ++ codes "c" })
    ≡ (record { buffer = codes "c" }, some (codes "ab"), no_error)
try_read_frame-encode_frame_example =
    try_read_frame-encode_frame (codes "ab") (codes "c") (omega arith)

-- A frame of the greatest size, cut behind its length, with the next frame behind it.
payload : Bytes
payload = replicate max_frame_payload_bytes b' '

length-payload : length payload ≡ max_frame_payload_bytes
unfolding payload
length-payload = length-replicate {A = ℕ} max_frame_payload_bytes b' '

payload_split : encode_frame payload ≡ length_bytes (length payload) ++ payload
unfolding encode_frame
payload_split = refl

append_refuses_coalesced_example :
    (append (record { buffer = length_bytes (length payload) }) (payload ++ codes "x")
      ≡ (clear, false, frame_too_large))
    × (append (record { buffer = length_bytes (length payload) }) payload
        ≡ (record { buffer = encode_frame payload }, true, no_error))
    × (try_read_frame (record { buffer = encode_frame payload }) ≡ (clear, some payload, no_error))
append_refuses_coalesced_example =
    append_refuses_coalesced payload (length_bytes (length payload)) payload (codes "x")
      (omega (arith, length-payload)) payload_split (omega (arith, length-payload))
