-- ===== src/Sync/Client.antt =====
-- The class `SyncClient` of client/sync_client.h and client/sync_client.cpp: its members, what it
-- sends, and the rounds of its three threads. A section under a lock is one step of the state. The
-- sockets are parameters; a thread that is told to wake up or to end is not modelled.
use share_note_pad.Base.{
  ℕ, ◌+◌, ◌-◌, ◌^◌, ◌%◌, Bool, true, false, not, ◌||◌, Option, some, none, List, [], ◌∷◌, ◌++◌, ltb,
  leb, ◌==◌, if◌then◌else◌, Text, Bytes, codes, text_eq,
}
use share_note_pad.Protocol.Codec.{ok, err, TextApi, is_empty, serialize_message}
use share_note_pad.Protocol.Frame.{encode_frame}
use share_note_pad.Protocol.Message.{
  MessageType, hello, join, join_ok, join_fail, insert_edit, delete_edit, apply, sync_request,
  sync_response, ping, pong, error, ProtocolMessage, empty_message, set_string, set_number,
  get_string,
}
use share_note_pad.Sync.Receive.{ReceiveResult, message, timeout, closed, waiting}
use share_note_pad.Sync.Server.{
  SyncEvent, apply_event, sync_response_event, error_event, disconnected_event,
}
use share_note_pad.Sync.Transport.{Wire, Net, send_all, send_protocol_message}

-- kHeartbeatIntervalMs and kHeartbeatTimeoutMs.
abbrev pub heartbeat_interval_ms : ℕ
heartbeat_interval_ms = 5000

abbrev pub heartbeat_timeout_ms : ℕ
heartbeat_timeout_ms = 15000

pub record Client : Type 0 where
  pub socket : Option ℕ
  pub connected : Bool
  pub stopping : Bool
  pub pong_count : ℕ
  pub last_pong_tick_ms : ℕ
  pub last_ping_tick_ms : ℕ
  pub send_queue : List Bytes
  pub event_queue : List SyncEvent
  pub session_code : Text
  pub assigned_client : Text
  pub reconnect_token : Text
  pub join_fail_reason : Text
  pub last_error : Text
  pub wire : Wire
  pub closed_sockets : List ℕ

-- `CloseSocket`.
unfoldable pub close_opened : Option ℕ → Client → Client
close_opened none c = c
close_opened (some socket) c = record c {
  socket = none;
  closed_sockets = socket ∷ c.closed_sockets;
}

unfoldable pub close_client_socket : Client → Client
unfolding close_opened
close_client_socket c = close_opened c.socket c

-- `StopWorkers` after the threads have ended, and `Disconnect`.
abbrev pub stop_workers : Client → Client
stop_workers c = record c { send_queue = [] }

unfoldable pub disconnect : Client → Client
disconnect c = close_client_socket (stop_workers (record c { connected = false; stopping = true }))

-- `PushEvent`, without the callback.
abbrev pub push_client_event : SyncEvent → Client → Client
push_client_event event c = record c { event_queue = c.event_queue ++ event ∷ [] }

or_default : Text → Text → Text
or_default default [] = default
or_default default (c ∷ text) = c ∷ text

-- A message of the client with its session and its name.
client_message : MessageType → Client → ProtocolMessage
unfolding or_default
client_message type c = record empty_message {
  type = type;
  session = c.session_code;
  client = or_default (codes "B") c.assigned_client;
}

unfoldable pub insert_request : Client → ℕ → ℕ → Text → ProtocolMessage
unfolding client_message
insert_request c base_revision position text = set_string (codes "text") text (
    set_number (codes "pos") position
      (set_number (codes "base_rev") base_revision (client_message insert_edit c)))

unfoldable pub delete_request : Client → ℕ → ℕ → ℕ → ProtocolMessage
unfolding client_message
delete_request c base_revision position count = set_number (codes "len") count (
    set_number (codes "pos") position
      (set_number (codes "base_rev") base_revision (client_message delete_edit c)))

module _ (api : TextApi) where
  unfoldable pub enqueue_message : Client → ProtocolMessage → Client × Bool
  enqueue_message c m = elim (serialize_message api m) [
    | err _ ↦ (record c { last_error = codes "message serialize failed" }, false)
    | ok json ↦
        if not c.connected || c.stopping
        then (record c { last_error = codes "client is not connected" }, false)
        else (record c { send_queue = c.send_queue ++ encode_frame json ∷ [] }, true)
  ]

  unfoldable pub send_ping : Client → ℕ → Client × Bool
  unfolding client_message or_default
  send_ping c timestamp = enqueue_message c (
      set_number (codes "time") timestamp (record (client_message ping c) {
        session = or_default (codes "connected") c.session_code;
      }))

  unfoldable pub send_insert : Client → ℕ → ℕ → Text → Client × Bool
  send_insert c base_revision position text =
      if is_empty text
      then (record c { last_error = codes "empty insert" }, false)
      else enqueue_message c (insert_request c base_revision position text)

  unfoldable pub send_delete : Client → ℕ → ℕ → ℕ → Client × Bool
  send_delete c base_revision position count =
      if count == 0
      then (record c { last_error = codes "empty delete" }, false)
      else enqueue_message c (delete_request c base_revision position count)

  unfoldable pub send_sync_request : Client → ℕ → Client × Bool
  unfolding client_message
  send_sync_request c current_revision =
      enqueue_message c
        (set_number (codes "current_rev") current_revision (client_message sync_request c))

  -- A round of `HeartbeatLoop` at the tick `now`; the result is false where the code leaves the loop.
  -- The difference of the ticks is one of `uint64_t`.
  unfoldable pub heartbeat : Client → ℕ → Client × Bool
  heartbeat c now =
      let since_pong = (now + 2 ^ 64 - c.last_pong_tick_ms) % 2 ^ 64 in
      let since_ping = (now + 2 ^ 64 - c.last_ping_tick_ms) % 2 ^ 64 in
      let lost =
        close_client_socket
          (record c { last_error = codes "heartbeat timeout"; connected = false }) in
      let gone : SyncEvent = record {
        type = disconnected_event;
        message = empty_message;
        detail = lost.last_error;
      } in
      if c.stopping || not c.connected
      then (c, not c.stopping)
      else if ltb heartbeat_timeout_ms since_pong
      then (push_client_event gone lost, false)
      else if leb heartbeat_interval_ms since_ping
      then ((send_ping (record c { last_ping_tick_ms = now }) now).0, true)
      else (c, true)

-- A message in `ReceiveLoop`, at the tick `now`.
unfoldable pub take_message : Client → ProtocolMessage → MessageType → ℕ → Client
take_message c m pong now = record c {
  pong_count = (c.pong_count + 1) % 2 ^ 64;
  last_pong_tick_ms = now;
}
take_message c m apply now =
    push_client_event (record { type = apply_event; message = m; detail = [] }) c
take_message c m sync_response now =
    push_client_event (record { type = sync_response_event; message = m; detail = [] }) c
take_message c m error now =
    push_client_event
      (record {
        type = error_event;
        message = m;
        detail = elim (get_string (codes "reason") m) [ none ↦ [] | some reason ↦ reason ];
      })
      c
take_message c m _ now = c

-- The end of `ReceiveLoop`, with the text of the failure.
unfoldable pub lose_connection : Client → Text → Client
lose_connection c reason =
    let told = if c.stopping then c else record c { last_error = reason } in
    let lost = close_client_socket (record told { connected = false }) in
    if c.stopping
    then lost
    else push_client_event
        (record { type = disconnected_event; message = empty_message; detail = lost.last_error })
        lost

-- What `ReceiveLoop` does with a result of `ReceiveProtocolMessage`; false where it is left.
receive_result : Client → ReceiveResult → ℕ → Client × Bool
receive_result c (message m) now = (take_message c m m.type now, true)
receive_result c timeout now = (c, true)
receive_result c waiting now = (c, true)
receive_result c closed now = (lose_connection c (codes "connection closed"), false)
receive_result c _ now = (lose_connection c (codes "receive failed"), false)

-- A round of `ReceiveLoop`.
unfoldable pub receive_round : Client → ReceiveResult → ℕ → Client × Bool
unfolding receive_result
receive_round c result now = elim c.socket [
  | none ↦ (record c { connected = false }, false)
  | some socket ↦ receive_result c result now
]

module _ (api : TextApi) (net : Net) where
  -- The frame that `SendLoop` took from the queue.
  send_failed : Client → Client
  send_failed c =
      close_client_socket (record c { last_error = codes "send failed"; connected = false })

  unfoldable pub send_frame : Option ℕ → Client → Bytes → Client × Bool
  unfolding send_failed
  send_frame none c frame = (send_failed c, false)
  send_frame (some socket) c frame =
      let (wire, sent) = send_all net c.wire socket frame in
      let d = record c { wire = wire } in if sent then (d, true) else (send_failed d, false)

  unfoldable pub send_next : Client → List Bytes → Client × Bool
  send_next c [] = (c, true)
  send_next c (frame ∷ frames) = send_frame c.socket (record c { send_queue = frames }) frame

  -- A round of `SendLoop`; with an empty queue the thread waits.
  unfoldable pub send_round : Client → Client × Bool
  unfolding send_frame send_next
  send_round c = if c.stopping then (c, false) else send_next c c.send_queue

  -- The JOIN message, which is sent only if the HELLO message was.
  unfoldable pub send_join : Client → ℕ → ProtocolMessage → Wire × Bool → Client × Bool
  send_join c socket request (greeted, false) = (record c { wire = greeted }, false)
  send_join c socket request (greeted, true) =
      let (joined, sent) = send_protocol_message net api greeted socket request in
      (record c { wire = joined }, sent)

  unfoldable pub send_hello_and_join : Client → ℕ → Text → Text → Text → Client × Bool
  unfolding send_join
  send_hello_and_join c socket session_code device_id nickname =
      let greeting = set_string (codes "nickname") nickname (
        set_string (codes "device_id") device_id (
          set_number (codes "protocol") 1
            (record empty_message { type = hello; session = session_code; client = codes "B" }))) in
      let request = set_string (codes "reconnect_token") c.reconnect_token (
        set_string (codes "join_code") session_code
          (record empty_message { type = join; session = session_code; client = codes "B" })) in
      send_join c socket request (send_protocol_message net api c.wire socket greeting)

-- A text that a message may give anew.
unfoldable pub renewed : Text → Text → ProtocolMessage → Text
renewed key value m = elim (get_string key m) [ none ↦ value | some given ↦ given ]

-- `ReadJoinResponse`, for what `ReceiveProtocolMessageWithin` gives.
unfoldable pub joined_as : Client → ProtocolMessage → MessageType → Client × Bool
unfolding renewed
joined_as c m join_ok = (
  record c {
    assigned_client = renewed (codes "assigned_client") c.assigned_client m;
    reconnect_token = renewed (codes "reconnect_token") c.reconnect_token m;
    connected = true;
  },
  true,
)
joined_as c m join_fail = (
  close_client_socket (record c {
    join_fail_reason = renewed (codes "reason") c.join_fail_reason m;
    connected = false;
  }),
  false,
)
joined_as c m _ =
    (close_client_socket (record c { last_error = codes "unexpected join response" }), false)

unfoldable pub read_join_response : Client → ReceiveResult → Client × Bool
unfolding joined_as
read_join_response c (message m) = joined_as c m m.type
read_join_response c _ =
    (close_client_socket (record c { last_error = codes "join response failed" }), false)

-- What `socket`, `InetPtonW` and `ConnectWithTimeout` give.
pub data Opening : Type 0 where
  no_socket : Opening
  bad_address connect_timeout connect_failed opened : ℕ → Opening

module _ (api : TextApi) (net : Net) where
  -- After `SendHelloAndJoin`.
  unfoldable pub after_request : Client × Bool → ReceiveResult → Client × Bool
  after_request (c, false) response =
      let (d, _) = read_join_response c response in
      if is_empty d.join_fail_reason
      then (close_client_socket (record d { last_error = codes "join request failed" }), false)
      else (d, false)
  after_request (c, true) response =
      let (d, joined) = read_join_response c response in
      if joined then ((send_sync_request api d 0).0, true) else (d, false)

  -- `Connect` at the tick `now`, for the answer to the JOIN message.
  unfoldable pub connect : Client → Opening → Text → Text → Text → ℕ → ReceiveResult → Client × Bool
  unfolding after_request
  connect c opening session_code device_id nickname now response =
      let fresh = record (disconnect c) {
        join_fail_reason = [];
        last_error = [];
        assigned_client = [];
        reconnect_token = if text_eq c.session_code session_code then c.reconnect_token else [];
        session_code = session_code;
        pong_count = 0;
        last_pong_tick_ms = now;
        last_ping_tick_ms = now;
        stopping = false;
      } in
      elim opening [
        | no_socket ↦ (record fresh { last_error = codes "socket creation failed" }, false)
        | bad_address socket ↦ (
          close_client_socket
              (record fresh { socket = some socket; last_error = codes "invalid host address" }),
          false,
        )
        | connect_timeout socket ↦ (
          close_client_socket
              (record fresh { socket = some socket; last_error = codes "connect timeout" }),
          false,
        )
        | connect_failed socket ↦ (
          close_client_socket
              (record fresh { socket = some socket; last_error = codes "connect failed" }),
          false,
        )
        | opened socket ↦
            after_request
              (send_hello_and_join api net (record fresh { socket = some socket }) socket
                session_code device_id nickname)
              response
      ]
