-- ===== src/Sync/Tests.antt =====
-- Runs of the host on concrete rooms, and its theorems at them.
use share_note_pad.Base.{
  ◌++◌, ℕ, ◌≤◌, ◌≡◌, refl, true, false, some, List, [], ◌∷◌, min, length, take, drop, Bytes, codes,
  text_eq, arith,
}
use share_note_pad.Document.Model.{apply_insert_to_content}
use share_note_pad.Protocol.Codec.{
  serialize_message, message_text, wide_to_utf8, append_json_string_field, append_json_number_field,
  append_strings, append_numbers, is_common_field,
}
use share_note_pad.Protocol.Fields.{lookup}
use share_note_pad.Protocol.Frame.{encode_frame, length_bytes}
use share_note_pad.Protocol.Json.{escape_json_string, format_unsigned}
use share_note_pad.Protocol.Message.{
  ProtocolMessage, insert_edit, get_string, get_number, message_type_to_string,
}
use share_note_pad.Protocol.RoundTrip.Messages.{Received}
use share_note_pad.Protocol.Tests.{
  insert_serialized, ascii_api, insert_message, insert_json, insert_message-IsMessage,
}
use share_note_pad.Sync.Arrival.{joined, arrivals, receive-send}
use share_note_pad.Sync.Client.{Client, enqueue_message, send_round, send_next, send_frame}
use share_note_pad.Sync.Queue.{Run, idle, sends, queues, pending, concat, Run-pending}
use share_note_pad.Sync.Receive.{times_out, message, receive_protocol_message}
use share_note_pad.Sync.Sending.{Sent, send_all-Sent}
use share_note_pad.Sync.Server.{
  Server, edited, change_document, apply_message, apply_message_to_document,
}
use share_note_pad.Sync.Transport.{Wire, Net, stream, send_rounds, send_all, send_protocol_message}

pub min_le : (b : Bytes) → min 40 (length b) ≤ length b
min_le b = omega arith

-- Sockets that take forty bytes at a time.
abbrev pub slow_net : Net
slow_net = record {
  send = λ wire socket bytes. min 40 (length bytes);
  send_le = λ wire socket bytes. min_le bytes;
}

abbrev pub room : Server
room = record {
  session_code = codes "482913";
  document = codes "ab";
  revision = 3;
  peer_socket = some 7;
  running = true;
  stopping = false;
  peer_joined = true;
  failed_join_count = 0;
  event_queue = [];
  last_error = [];
  log = [];
  wire = [];
  closed = [];
}

-- An insertion of `X` at 1 by the host.
abbrev pub host_insert : ProtocolMessage
host_insert = record {
  type = insert_edit;
  session = codes "482913";
  client = codes "A";
  strings = (codes "text", codes "X") ∷ [];
  numbers = (codes "base_rev", 3) ∷ (codes "pos", 1) ∷ [];
}

pub room_insert : apply_message_to_document room host_insert ≡ (
  (apply_message_to_document room host_insert).0,
  edited (apply_message (codes "482913") 4 1 host_insert),
)
unfolding apply_message_to_document change_document apply_insert_to_content get_string get_number
    lookup text_eq
room_insert = refl

room_document : (apply_message_to_document room host_insert).0.document ≡ codes "aXb"
unfolding apply_message_to_document change_document apply_insert_to_content get_string get_number
    lookup text_eq
room_document = refl

send_all-Sent_example : Sent [] 7 (codes "frame") (send_all slow_net [] 7 (codes "frame"))
send_all-Sent_example = send_all-Sent slow_net [] 7 (codes "frame")

-- The frame of the INSERT message, and how it arrives: in two pieces, before a timeout.
insert_frame : Bytes
insert_frame = encode_frame insert_json

pieces : List (Bytes × ℕ)
pieces = (take 50 insert_frame, 10) ∷ (drop 50 insert_frame, 20) ∷ []

sent_wire : Wire
sent_wire = (send_protocol_message slow_net ascii_api [] 7 insert_message).0

insert_sent : send_protocol_message slow_net ascii_api [] 7 insert_message ≡ (sent_wire, true)
unfolding sent_wire send_protocol_message send_all send_rounds encode_frame length_bytes
    serialize_message wide_to_utf8 message_text append_json_string_field append_json_number_field
    append_strings append_numbers is_common_field escape_json_string format_unsigned
    message_type_to_string text_eq
insert_sent = refl

joined-pieces :
    joined pieces ≡ drop (length (stream 7 (let e : Wire = [] in e))) (stream 7 sent_wire)
unfolding joined pieces insert_frame stream sent_wire send_protocol_message send_all send_rounds
    encode_frame length_bytes serialize_message wide_to_utf8 message_text append_json_string_field
    append_json_number_field append_strings append_numbers is_common_field escape_json_string
    format_unsigned message_type_to_string text_eq
joined-pieces = refl

receive-send_example :
    let (result, c) = receive_protocol_message ascii_api (record {
      decoder = record { buffer = [] };
      inputs = arrivals pieces ((times_out, 30) ∷ []);
      now = 0;
    }) in
    (m' : ProtocolMessage) × (result ≡ message m')
    × Received insert_message m'
    × (c.decoder.buffer ≡ [])
    × (c.inputs ≡ (times_out, 30) ∷ [])
unfolding pieces insert_frame encode_frame length_bytes
receive-send_example =
    receive-send ascii_api slow_net [] sent_wire 7 insert_message pieces ((times_out, 30) ∷ []) 0
      insert_message-IsMessage insert_sent ((λ e. cc), ((λ e. cc), tt)) joined-pieces

-- A client on socket 7 that queues the INSERT message and sends it.
abbrev pub joined_client : Client
joined_client = record {
  socket = some 7;
  connected = true;
  stopping = false;
  pong_count = 0;
  last_pong_tick_ms = 0;
  last_ping_tick_ms = 0;
  send_queue = [];
  event_queue = [];
  session_code = codes "482913";
  assigned_client = codes "B";
  reconnect_token = [];
  join_fail_reason = [];
  last_error = [];
  wire = [];
  closed_sockets = [];
}

queued_client : Client
queued_client = (enqueue_message ascii_api joined_client insert_message).0

sending_client : Client
sending_client = (send_round ascii_api slow_net queued_client).0

message_queued : enqueue_message ascii_api joined_client insert_message ≡ (queued_client, true)
unfolding queued_client enqueue_message send_protocol_message send_all send_rounds encode_frame
    length_bytes serialize_message wide_to_utf8 message_text append_json_string_field
    append_json_number_field append_strings append_numbers is_common_field escape_json_string
    format_unsigned message_type_to_string text_eq
message_queued = refl

queued-send_round : send_round ascii_api slow_net queued_client ≡ (sending_client, true)
unfolding queued_client sending_client send_round send_next send_frame enqueue_message
    send_protocol_message send_all send_rounds encode_frame length_bytes serialize_message
    wide_to_utf8 message_text append_json_string_field append_json_number_field append_strings
    append_numbers is_common_field escape_json_string format_unsigned message_type_to_string text_eq
queued-send_round = refl

insert-Run : Run ascii_api slow_net joined_client (encode_frame insert_json ∷ []) sending_client
insert-Run =
    queues joined_client queued_client sending_client [] insert_message insert_json
      insert_serialized message_queued
      (sends queued_client sending_client sending_client [] queued-send_round (idle sending_client))

Run-pending_example :
    pending 7 sending_client ≡ pending 7 joined_client ++ concat (encode_frame insert_json ∷ [])
Run-pending_example =
    Run-pending ascii_api slow_net 7 joined_client sending_client (encode_frame insert_json ∷ [])
      insert-Run refl
