-- ===== src/Protocol/Message.antt =====
-- `MessageType`, `ProtocolError` and `ProtocolMessage` of client/protocol.h, with the methods of
-- `ProtocolMessage` and the names of the message types. `type`, `session` and `client` have a copy
-- in `strings` if they were set through `SetString`, as the parser does.
use share_note_pad.Base.{ℕ, ◌≡◌, refl, Option, some, [], arith, if◌then◌else◌, Text, codes, text_eq}
use share_note_pad.Protocol.Fields.{Fields, lookup, insert, lookup-insert}

pub data MessageType : Type 0 where
  hello join join_ok join_fail insert_edit delete_edit apply : MessageType
  sync_request sync_response ping pong error unknown : MessageType

pub data ProtocolError : Type 0 where
  no_error frame_too_large invalid_utf8 invalid_json : ProtocolError
  missing_required_field invalid_message_type : ProtocolError

pub record ProtocolMessage : Type 0 where
  pub type : MessageType
  pub session : Text
  pub client : Text
  pub strings : Fields Text
  pub numbers : Fields ℕ

-- The value of `ProtocolMessage message;`.
abbrev pub empty_message : ProtocolMessage
empty_message = record { type = unknown; session = []; client = []; strings = []; numbers = [] }

unfoldable pub message_type_to_string : MessageType → Text
message_type_to_string hello = codes "HELLO"
message_type_to_string join = codes "JOIN"
message_type_to_string join_ok = codes "JOIN_OK"
message_type_to_string join_fail = codes "JOIN_FAIL"
message_type_to_string insert_edit = codes "INSERT"
message_type_to_string delete_edit = codes "DELETE"
message_type_to_string apply = codes "APPLY"
message_type_to_string sync_request = codes "SYNC_REQUEST"
message_type_to_string sync_response = codes "SYNC_RESPONSE"
message_type_to_string ping = codes "PING"
message_type_to_string pong = codes "PONG"
message_type_to_string error = codes "ERROR"
message_type_to_string unknown = codes "UNKNOWN"

unfoldable pub message_type_from_string : Text → MessageType
message_type_from_string value =
    if text_eq value (codes "HELLO")
    then hello
    else if text_eq value (codes "JOIN")
    then join
    else if text_eq value (codes "JOIN_OK")
    then join_ok
    else if text_eq value (codes "JOIN_FAIL")
    then join_fail
    else if text_eq value (codes "INSERT")
    then insert_edit
    else if text_eq value (codes "DELETE")
    then delete_edit
    else if text_eq value (codes "APPLY")
    then apply
    else if text_eq value (codes "SYNC_REQUEST")
    then sync_request
    else if text_eq value (codes "SYNC_RESPONSE")
    then sync_response
    else if text_eq value (codes "PING")
    then ping
    else if text_eq value (codes "PONG")
    then pong
    else if text_eq value (codes "ERROR")
    then error
    else unknown

unfoldable pub protocol_error_to_string : ProtocolError → Text
protocol_error_to_string no_error = codes "none"
protocol_error_to_string frame_too_large = codes "frame_too_large"
protocol_error_to_string invalid_utf8 = codes "invalid_utf8"
protocol_error_to_string invalid_json = codes "invalid_json"
protocol_error_to_string missing_required_field = codes "missing_required_field"
protocol_error_to_string invalid_message_type = codes "invalid_message_type"

-- The assignment to a member that stands before the map is written.
set_common : Text → Text → ProtocolMessage → ProtocolMessage
set_common key value m =
    if text_eq key (codes "type")
    then record m { type = message_type_from_string value }
    else if text_eq key (codes "session")
    then record m { session = value }
    else if text_eq key (codes "client")
    then record m { client = value }
    else m

unfoldable pub set_string : Text → Text → ProtocolMessage → ProtocolMessage
unfolding set_common
set_string key value m = record (set_common key value m) { strings = insert key value m.strings }

unfoldable pub set_number : Text → ℕ → ProtocolMessage → ProtocolMessage
set_number key value m = record m { numbers = insert key value m.numbers }

unfoldable pub get_string : Text → ProtocolMessage → Option Text
get_string key m = lookup key m.strings

unfoldable pub get_number : Text → ProtocolMessage → Option ℕ
get_number key m = lookup key m.numbers

-- The name of a type is read back as that type, `UNKNOWN` included.
pub message_type_from_string-to_string :
    (t : MessageType) → message_type_from_string (message_type_to_string t) ≡ t
unfolding message_type_from_string message_type_to_string text_eq
message_type_from_string-to_string hello = refl
message_type_from_string-to_string _ = refl

pub get_string-set_string :
    (k j v : Text) (m : ProtocolMessage)
    → get_string j (set_string k v m) ≡ (if text_eq k j then some v else get_string j m)
unfolding get_string set_string
get_string-set_string k j v m = lookup-insert k j v m.strings

pub get_number-set_number :
    (k j : Text) (v : ℕ) (m : ProtocolMessage)
    → get_number j (set_number k v m) ≡ (if text_eq k j then some v else get_number j m)
unfolding get_number set_number
get_number-set_number k j v m = lookup-insert k j v m.numbers

pub get_number-set_string :
    (k j v : Text) (m : ProtocolMessage) → get_number j (set_string k v m) ≡ get_number j m
unfolding get_number set_string
get_number-set_string k j v m = ground arith

pub get_string-set_number :
    (k j : Text) (v : ℕ) (m : ProtocolMessage) → get_string j (set_number k v m) ≡ get_string j m
unfolding get_string set_number
get_string-set_number k j v m = refl
