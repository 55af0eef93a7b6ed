-- ===== src/Sync/Session.antt =====
-- `Start`, `Stop` and `HandleClient` of client/sync_server.cpp: the life of a room and the thread
-- of a connection. Threads, and the sockets' options, are not modelled.
use share_note_pad.Base.{
  ℕ, zero, suc, ◌+◌, Bool, true, false, not, Option, some, none, List, [], ◌∷◌, leb, ◌==◌,
  if◌then◌else◌, Text, codes, text_eq,
}
use share_note_pad.Protocol.Codec.{TextApi, is_empty}
use share_note_pad.Protocol.Message.{
  MessageType, hello, join, insert_edit, delete_edit, sync_request, ping, pong, ProtocolMessage,
  empty_message, set_number, get_string, get_number,
}
use share_note_pad.Sync.Receive.{ReceiveResult, message, timeout, waiting}
use share_note_pad.Sync.Server.{
  Server, start_entry, stop_entry, append_session_log, disconnected_event, push_event,
  register_join_failure, is_join_blocked, close_socket, close_peer, send, send_join_ok,
  send_join_fail, send_error, send_sync_response, handle_edit_message,
}
use share_note_pad.Sync.Transport.{Net}

-- What creating, binding and listening on a port give.
pub data Probe : Type 0 where
  no_socket taken bound : Probe

pub data Listen : Type 0 where
  listening : ℕ → Listen
  no_listener : Text → Listen

-- The loop of `BindListenSocket`, with at most `rounds` more candidates.
unfoldable pub bind_rounds : (ℕ → Probe) → ℕ → ℕ → Listen
bind_rounds probe zero candidate = no_listener (codes "no available port")
bind_rounds probe (suc rounds) candidate =
    let next = bind_rounds probe rounds (candidate + 1) in
    let tried : Listen = elim (probe candidate) [
      | no_socket ↦ no_listener (codes "socket creation failed")
      | taken ↦ next
      | bound ↦ listening candidate
    ] in
    if leb candidate 7799 then tried else no_listener (codes "no available port")

-- `candidate < preferred_port + 23`.
unfoldable pub bind_listen_socket : (ℕ → Probe) → ℕ → Listen
bind_listen_socket probe preferred_port = bind_rounds probe 23 preferred_port

-- `Stop`, without the threads that it joins.
unfoldable pub stop : Server → Server
stop s =
    let logged = if s.running then append_session_log (stop_entry s.session_code) s else s in
    record (close_peer (record logged { stopping = true; running = false })) { peer_joined = false }

-- The rest of `Start`, with what `BindListenSocket` gave.
unfoldable pub start_on : Server → Listen → Server × Listen
start_on s (no_listener reason) = (record s { last_error = reason }, no_listener reason)
start_on s (listening port) = (
  append_session_log (start_entry s.session_code) (record s { running = true; last_error = [] }),
  listening port,
)

-- `Start`, with the port or the failure.
unfoldable pub start : (ℕ → Probe) → Server → Text → ℕ → Server × Listen
unfolding start_on
start probe s session_code preferred_port =
    start_on
      (record (stop s) {
        session_code = session_code;
        stopping = false;
        peer_joined = false;
        failed_join_count = 0;
      })
      (bind_listen_socket probe preferred_port)

-- How the handling of a connection goes on: it is over, or the thread waits for more.
pub data Thread : Type 0 where
  over : Server → Thread
  serves : Server → Thread

abbrev pub server_of : Thread → Server
server_of (over s) = s
server_of (serves s) = s

-- The text under a key, and the empty text if there is none.
unfoldable pub string_or_empty : Text → ProtocolMessage → Text
string_or_empty key m = elim (get_string key m) [ none ↦ [] | some value ↦ value ]

module _ (api : TextApi) (net : Net) where
  unfoldable pub turn_away : Server → ℕ → Text → Server
  turn_away s socket reason = close_socket socket (send_join_fail api net s socket reason).0

  -- A connection that does not begin with HELLO and JOIN.
  unfoldable pub refuse_protocol : Server → ℕ → Server
  unfolding turn_away
  refuse_protocol s socket =
      turn_away (register_join_failure s).0 socket (codes "protocol_mismatch")

  unfoldable pub refuse_code : Server → ℕ → Server
  refuse_code s socket =
      let (s', blocked) = register_join_failure s in
      turn_away s' socket (if blocked then codes "blocked" else codes "invalid_code")

  -- The peer whose JOIN_OK was sent, or could not be sent.
  unfoldable pub welcome : Text → Server → ℕ → ProtocolMessage → Thread
  welcome token s socket m =
      let reconnecting = not (is_empty (string_or_empty (codes "reconnect_token") m)) in
      let (s', sent) = send_join_ok api net token s socket reconnecting in
      if sent then serves s' else over (record (close_peer s') { peer_joined = false })

  -- From the JOIN message on. `token` is the reconnect token that is generated.
  unfoldable pub admit : Text → Server → ℕ → ProtocolMessage → Thread
  unfolding turn_away refuse_code welcome string_or_empty
  admit token s socket m =
      if is_join_blocked s
      then over (turn_away s socket (codes "blocked"))
      else if not (text_eq (string_or_empty (codes "join_code") m) s.session_code)
      then over (refuse_code s socket)
      else if s.peer_joined
      then over (turn_away s socket (codes "room_full"))
      else welcome token (record s { peer_joined = true; peer_socket = some socket }) socket m

  unfoldable pub pong_message : Server → Text → ProtocolMessage → ProtocolMessage
  pong_message s peer_session m =
      let started : ProtocolMessage = record empty_message {
        type = pong;
        session = if is_empty peer_session then s.session_code else peer_session;
        client = codes "server";
      } in
      elim (get_number (codes "time") m) [
        | none ↦ started
        | some time ↦ set_number (codes "time") time started
      ]

  -- One message of a peer; the result is false where the code leaves the loop.
  unfoldable pub dispatch : MessageType → Text → Server → ℕ → ProtocolMessage → Server × Bool
  dispatch ping peer_session s socket m = send api net s socket (pong_message s peer_session m)
  dispatch insert_edit peer_session s socket m = handle_edit_message api net s socket m
  dispatch delete_edit peer_session s socket m = handle_edit_message api net s socket m
  dispatch sync_request peer_session s socket m = send_sync_response api net s socket
  dispatch _ peer_session s socket m =
      ((send_error api net s socket (codes "unsupported_message")).0, true)

  unfoldable pub serve_message : Text → Server → ℕ → ProtocolMessage → Server × Bool
  unfolding dispatch pong_message
  serve_message peer_session s socket m =
      if not (text_eq m.session s.session_code)
      then ((send_error api net s socket (codes "invalid_session")).0, true)
      else dispatch m.type peer_session s socket m

  is_peer : Option ℕ → ℕ → Bool
  is_peer none socket = false
  is_peer (some peer) socket = peer == socket

  -- Behind the loop: the socket is closed if it is the one of the peer.
  unfoldable pub drop_peer : Server → ℕ → Server
  unfolding is_peer
  drop_peer s socket =
      if is_peer s.peer_socket socket
      then close_socket socket (record s { peer_socket = none; peer_joined = false })
      else s

  unfoldable pub leave : Server → ℕ → Server
  leave s socket =
      let gone = drop_peer s socket in
      if s.stopping
      then gone
      else push_event
          (record {
            type = disconnected_event;
            message = empty_message;
            detail = codes "peer disconnected";
          })
          gone

  -- The loop of `HandleClient`, over the results of `ReceiveProtocolMessage`.
  unfoldable pub client_loop : Text → Server → ℕ → List ReceiveResult → Thread
  client_loop peer_session s socket [] = if s.stopping then over (leave s socket) else serves s
  client_loop peer_session s socket (timeout ∷ results) =
      let more = client_loop peer_session s socket results in
      if s.stopping then over (leave s socket) else more
  client_loop peer_session s socket (message m ∷ results) =
      let (s', stays) = serve_message peer_session s socket m in
      let more = client_loop peer_session s' socket results in
      if s.stopping then over (leave s socket) else if stays then more else over (leave s' socket)
  client_loop peer_session s socket (waiting ∷ results) =
      if s.stopping then over (leave s socket) else serves s
  client_loop peer_session s socket (_ ∷ results) = over (leave s socket)

  after_join : Text → Text → ℕ → List ReceiveResult → Thread → Thread
  after_join token peer_session socket results (over s) = over s
  after_join token peer_session socket results (serves s) =
      client_loop peer_session s socket results

  after_hello : Text → Server → ℕ → ReceiveResult → List ReceiveResult → Thread
  after_hello token s socket (message m) results =
      let joined = after_join token m.session socket results (admit token s socket m) in
      elim m.type [ join ↦ joined | _ ↦ over (refuse_protocol s socket) ]
  after_hello token s socket waiting results = serves s
  after_hello token s socket _ results = over (refuse_protocol s socket)

  -- `HandleClient`: the results of the two handshake reads, then those of the loop.
  unfoldable pub handle_client :
      Text → Server → ℕ → ReceiveResult → ReceiveResult → List ReceiveResult → Thread
  unfolding after_hello after_join
  handle_client token s socket (message m) second results =
      let greeted = after_hello token s socket second results in
      elim m.type [ hello ↦ greeted | _ ↦ over (refuse_protocol s socket) ]
  handle_client token s socket waiting second results = serves s
  handle_client token s socket _ second results = over (refuse_protocol s socket)
