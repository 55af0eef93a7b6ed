-- ===== src/Sync/Joining.antt =====
-- When `Connect` of client/sync_client.cpp succeeds.
use share_note_pad.Base.{
  ℕ, ◌≡◌, ◌≢◌, refl, sym, ap, ◌∙◌, Bool, true, false, not, ◌||◌, some, [], if◌then◌else◌, Text,
  text_eq, Bool-cases, inl, inr,
}
use share_note_pad.Protocol.Codec.{Result-cases, TextApi, is_empty, serialize_message}
use share_note_pad.Protocol.Message.{MessageType, join_ok, join_fail, ProtocolMessage}
use share_note_pad.Sync.Client.{
  Client, Opening, no_socket, bad_address, connect_timeout, connect_failed, opened, enqueue_message,
  send_sync_request, send_join, send_hello_and_join, joined_as, read_join_response, after_request,
  disconnect, connect,
}
use share_note_pad.Sync.Receive.{ReceiveResult, message}
use share_note_pad.Sync.Transport.{Wire, Net}

-- A client that has joined a room.
pub record Joined (opening : Opening) (code : Text) (response : ReceiveResult) (c : Client)
    : Type 0 where
  pub socket : ℕ
  pub on_socket : opening ≡ opened socket
  pub answer : ProtocolMessage
  pub answered : response ≡ message answer
  pub accepted : answer.type ≡ join_ok
  pub connected : c.connected ≡ true
  pub running : c.stopping ≡ false
  pub current : c.socket ≡ some socket
  pub session : c.session_code ≡ code

-- Two clients with the same connection.
abbrev pub SameConnection : Client → Client → Type 0
SameConnection c d =
    (d.connected ≡ c.connected)
    × (d.stopping ≡ c.stopping)
    × (d.socket ≡ c.socket)
    × (d.session_code ≡ c.session_code)

not_true : false ≢ true
not_true e = cc

-- What an answer that lets the client in makes of it.
entered : Client → ProtocolMessage → Client
entered c m = (joined_as c m join_ok).0

module _ (c c' : Client) (m : ProtocolMessage) where
  joined_as-ok :
      (type : MessageType) → joined_as c m type ≡ (c', true) → (type ≡ join_ok) × (c' ≡ entered c m)
  unfolding joined_as entered
  joined_as-ok join_ok h = (refl, sym (ap (λ r. r.0) h))
  joined_as-ok join_fail h = absurd (not_true (ap (λ r. r.1) h))
  joined_as-ok _ h = absurd (not_true (ap (λ r. r.1) h))

read_join_response-ok :
    (c c' : Client) (response : ReceiveResult)
    → read_join_response c response ≡ (c', true)
    → (m : ProtocolMessage) × (response ≡ message m) × (m.type ≡ join_ok) × (c' ≡ entered c m)
unfolding read_join_response
read_join_response-ok c c' (message m) h =
    let (t, e) = joined_as-ok c c' m m.type h in (m, refl, t, e)
read_join_response-ok c c' _ h = absurd (not_true (ap (λ r. r.1) h))

module _ (api : TextApi) (net : Net) where
  pub enqueue_message-same :
      (c : Client) (m : ProtocolMessage) → SameConnection c (enqueue_message api c m).0
  unfolding enqueue_message
  enqueue_message-same c m = elim (Result-cases (serialize_message api m)) [
    | inr (reason, e) ↦ rw (e, enqueue_message) (refl, refl, refl, refl)
    | inl (json, e) ↦ elim (Bool-cases (not c.connected || c.stopping)) [
      | inl off ↦ rw (e, enqueue_message, off) (refl, refl, refl, refl)
      | inr on ↦ rw (e, enqueue_message, on) (refl, refl, refl, refl)
    ]
  ]

  after_request-ok :
      (c c' : Client) (sent : Bool) (response : ReceiveResult)
      → after_request api net (c, sent) response ≡ (c', true)
      → (m : ProtocolMessage) × (response ≡ message m)
        × (m.type ≡ join_ok)
        × (c' ≡ (send_sync_request api (entered c m) 0).0)
  unfolding after_request
  after_request-ok c c' false response h =
      elim (Bool-cases (is_empty (read_join_response c response).0.join_fail_reason)) [
        | inl e ↦ absurd (not_true (ap (λ r. r.1) (rw (e, after_request) at h)))
        | inr e ↦ absurd (not_true (ap (λ r. r.1) (rw (e, after_request) at h)))
      ]
  after_request-ok c c' true response h =
      let d = (read_join_response c response).0 in
      elim (Bool-cases (read_join_response c response).1) [
        | inr e ↦ absurd (not_true (ap (λ r. r.1) (rw (e, after_request) at h)))
        | inl e ↦
            let read : read_join_response c response ≡ (d, true) = ap (λ b. (d, b)) e in
            let (m, answer, type, same) = read_join_response-ok c d response read in
            let requested = ap (λ r. r.0) (rw (e, after_request) at h) in
            (
              m,
              answer,
              type,
              sym requested ∙ ap (λ (k : Client). (send_sync_request api k 0).0) same,
            )
      ]

  send_join-same :
      (c : Client) (socket : ℕ) (request : ProtocolMessage) (r : Wire × Bool)
      → SameConnection c (send_join api net c socket request r).0
  unfolding send_join
  send_join-same c socket request (greeted, false) = (refl, refl, refl, refl)
  send_join-same c socket request (greeted, true) = (refl, refl, refl, refl)

  send_sync_request-same :
      (c : Client) (revision : ℕ) → SameConnection c (send_sync_request api c revision).0
  unfolding send_sync_request
  send_sync_request-same c revision = enqueue_message-same c _

  hello-same :
      (c : Client) (socket : ℕ) (code device_id nickname : Text)
      → SameConnection c (send_hello_and_join api net c socket code device_id nickname).0
  unfolding send_hello_and_join
  hello-same c socket code device_id nickname = send_join-same c socket _ _

  -- `Connect` succeeds only on a socket that was opened and after a JOIN_OK, and then the client is
  -- connected on that socket, is not stopping, and has the session that was asked for.
  pub connect-Joined :
      (c c' : Client) (opening : Opening) (code device_id nickname : Text) (now : ℕ)
      (response : ReceiveResult)
      → connect api net c opening code device_id nickname now response ≡ (c', true)
      → Joined opening code response c'
  unfolding connect entered joined_as
  connect-Joined c c' no_socket code device_id nickname now response h =
      absurd (not_true (ap (λ r. r.1) h))
  connect-Joined c c' (bad_address s) code device_id nickname now response h =
      absurd (not_true (ap (λ r. r.1) h))
  connect-Joined c c' (connect_timeout s) code device_id nickname now response h =
      absurd (not_true (ap (λ r. r.1) h))
  connect-Joined c c' (connect_failed s) code device_id nickname now response h =
      absurd (not_true (ap (λ r. r.1) h))
  connect-Joined c c' (opened s) code device_id nickname now response h =
      let fresh : Client = record (disconnect c) {
        socket = some s;
        join_fail_reason = [];
        last_error = [];
        assigned_client = [];
        reconnect_token = if text_eq c.session_code code then c.reconnect_token else [];
        session_code = code;
        pong_count = 0;
        last_pong_tick_ms = now;
        last_ping_tick_ms = now;
        stopping = false;
      } in
      let (sent, ok_sent) = send_hello_and_join api net fresh s code device_id nickname in
      let (_, running, current, session) = hello-same fresh s code device_id nickname in
      let (m, answered, accepted, same) = after_request-ok sent c' ok_sent response h in
      let (on, stop, sock, name) = send_sync_request-same (entered sent m) 0 in
      record {
        socket = s;
        on_socket = refl;
        answer = m;
        answered = answered;
        accepted = accepted;
        connected = ap (λ (k : Client). k.connected) same ∙ on;
        running = ap (λ (k : Client). k.stopping) same ∙ stop ∙ running;
        current = ap (λ (k : Client). k.socket) same ∙ sock ∙ current;
        session = ap (λ (k : Client). k.session_code) same ∙ name ∙ session;
      }
