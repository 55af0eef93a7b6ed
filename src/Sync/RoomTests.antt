-- ===== src/Sync/RoomTests.antt =====
-- Runs of a room, and its theorems at them.
use share_note_pad.Base.{
  some, false, ◌-◌, ◌++◌, ◌≤◌, ◌↔◌, true, ℕ, ◌+◌, ◌<◌, ◌≡◌, refl, ltb, false, none, [], ◌∷◌,
  if◌then◌else◌, codes, text_eq, text_lt, arith,
}
use share_note_pad.Document.Diff.{insert_text}
use share_note_pad.Protocol.Codec.{
  serialize_message, wide_to_utf8, message_text, append_json_string_field, append_json_number_field,
  append_strings, append_numbers, is_common_field,
}
use share_note_pad.Protocol.Fields.{lookup, insert}
use share_note_pad.Protocol.Frame.{encode_frame, length_bytes}
use share_note_pad.Protocol.Json.{escape_json_string, format_unsigned}
use share_note_pad.Protocol.Message.{
  ProtocolMessage, join, join_ok, set_string, set_number, get_string, message_type_to_string,
}
use share_note_pad.Protocol.Tests.{ascii_api}
use share_note_pad.Sync.Admission.{Admitted, admit-Admitted}
use share_note_pad.Sync.Client.{
  heartbeat, heartbeat_timeout_ms, Client, opened, connect, disconnect, close_opened,
  close_client_socket, after_request, send_hello_and_join, send_join, read_join_response, joined_as,
  renewed, send_sync_request, enqueue_message,
}
use share_note_pad.Sync.Heartbeat.{event, heartbeat_outcome}
use share_note_pad.Sync.Joining.{Joined, connect-Joined}
use share_note_pad.Sync.Receive.{message}
use share_note_pad.Sync.Listening.{FirstFree, bind_listen_socket-FirstFree}
use share_note_pad.Sync.Reach.{joins, edits, stops, Reach, here, next, Reach-WellFormed}
use share_note_pad.Sync.Room.{WellFormed}
use share_note_pad.Sync.Server.{Server, apply_local_operation, is_join_blocked, send, send_join_ok}
use share_note_pad.Sync.Session.{
  Probe, taken, bound, listening, bind_rounds, bind_listen_socket, serves, server_of, stop, admit,
  welcome, string_or_empty,
}
use share_note_pad.Sync.Tests.{slow_net, room, joined_client}
use share_note_pad.Sync.Transport.{send_rounds, send_all, send_protocol_message}

abbrev vacant_room : Server
vacant_room = record room { peer_socket = none; peer_joined = false; failed_join_count = 4 }

vacant_room-WellFormed : WellFormed vacant_room
vacant_room-WellFormed = record {
  bounded = omega arith;
  joined = λ _. refl;
  taken = λ e. cc;
  revision_fits = omega arith;
}

abbrev join_message : ProtocolMessage
join_message = record {
  type = join;
  session = codes "482913";
  client = codes "B";
  strings = (codes "join_code", codes "482913") ∷ (codes "reconnect_token", []) ∷ [];
  numbers = [];
}

joined_room : Server
joined_room = server_of (admit ascii_api slow_net (codes "00ff") vacant_room 9 join_message)

admitted : admit ascii_api slow_net (codes "00ff") vacant_room 9 join_message ≡ serves joined_room
unfolding joined_room admit is_join_blocked welcome send_join_ok send string_or_empty get_string
    lookup set_string set_number insert text_lt text_eq send_protocol_message send_all send_rounds
    encode_frame length_bytes serialize_message wide_to_utf8 message_text append_json_string_field
    append_json_number_field append_strings append_numbers is_common_field escape_json_string
    format_unsigned message_type_to_string
admitted = refl

admit-Admitted_example : Admitted vacant_room 9 join_message joined_room
admit-Admitted_example =
    admit-Admitted ascii_api slow_net (codes "00ff") vacant_room joined_room 9 join_message admitted

-- A peer joins, the host types, and the room is closed.
edited_room : Server
edited_room =
    (apply_local_operation ascii_api slow_net
      (server_of (admit ascii_api slow_net (codes "00ff") vacant_room 9 join_message))
      (insert_text 0 (codes "x")) (codes "A")).0

room-Reach : Reach ascii_api slow_net vacant_room (stop edited_room)
unfolding edited_room
room-Reach =
    next _ _
      (next _ _ (next _ _ here (joins (codes "00ff") vacant_room 9 join_message))
        (edits _ (insert_text 0 (codes "x")) (codes "A")))
      (stops _)

Reach-WellFormed_example : WellFormed (stop edited_room)
Reach-WellFormed_example =
    Reach-WellFormed ascii_api slow_net vacant_room (stop edited_room) room-Reach
      vacant_room-WellFormed

-- The first two ports are taken.
ports : ℕ → Probe
ports candidate = if ltb candidate 7779 then taken else bound

bind_listen_socket-FirstFree_example :
    (bind_listen_socket ports 7777 ≡ listening 7779)
    ↔ (FirstFree ports 7777 7779 × (7779 < 7777 + 23))
bind_listen_socket-FirstFree_example = bind_listen_socket-FirstFree ports 7777 7779

bound_third : FirstFree ports 7777 7779 × (7779 < 7777 + 23)
unfolding bind_listen_socket bind_rounds ports
bound_third = (bind_listen_socket-FirstFree ports 7777 7779).0 refl

abbrev welcome_message : ProtocolMessage
welcome_message = record {
  type = join_ok;
  session = codes "482913";
  client = codes "server";
  strings = (codes "assigned_client", codes "B") ∷ (codes "reconnect_token", codes "00ff") ∷ [];
  numbers = (codes "current_rev", 0) ∷ [];
}

connected_client : Client
connected_client =
    (connect ascii_api slow_net joined_client (opened 5) (codes "482913") (codes "device")
      (codes "User") 1000 (message welcome_message)).0

client_connected :
    connect ascii_api slow_net joined_client
      (opened 5)
      (codes "482913")
      (codes "device")
      (codes "User")
      1000
      (message welcome_message)
    ≡ (connected_client, true)
unfolding connected_client connect disconnect close_client_socket close_opened after_request
    send_hello_and_join send_join read_join_response joined_as renewed send_sync_request
    enqueue_message get_string lookup set_string set_number insert text_lt text_eq
    send_protocol_message send_all send_rounds encode_frame length_bytes serialize_message
    wide_to_utf8 message_text append_json_string_field append_json_number_field append_strings
    append_numbers is_common_field escape_json_string format_unsigned message_type_to_string
client_connected = refl

connect-Joined_example :
    Joined (opened 5) (codes "482913") (message welcome_message) connected_client
connect-Joined_example =
    connect-Joined ascii_api slow_net joined_client connected_client (opened 5) (codes "482913")
      (codes "device") (codes "User") 1000 (message welcome_message) client_connected

-- Twenty seconds without a PONG.
heartbeat_outcome_example :
    let (d, stays) = heartbeat ascii_api joined_client 20000 in
    (20000 - 0 ≤ heartbeat_timeout_ms → (stays ≡ true) × (d.connected ≡ true) × (d.socket ≡ some 7))
    × (heartbeat_timeout_ms < 20000 - 0
        → (stays ≡ false)
          × (d.connected ≡ false)
          × (d.socket ≡ none)
          × (d.event_queue ≡ [] ++ event (codes "heartbeat timeout") ∷ []))
heartbeat_outcome_example =
    heartbeat_outcome ascii_api slow_net joined_client 20000 refl refl (omega arith) (omega arith)
      (omega arith)
