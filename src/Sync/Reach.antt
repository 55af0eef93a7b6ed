-- ===== src/Sync/Reach.antt =====
-- The room of client/sync_server.cpp as a state machine: its steps, and what holds of every room
-- that can be reached.
use share_note_pad.Base.{
  ℕ, ◌^◌, ◌<◌, ◌≤◌, ◌≡◌, refl, true, false, not, Option, some, none, List, [], ◌∷◌, if◌then◌else◌,
  length, Text, codes, text_eq,
}
use share_note_pad.Document.Diff.{EditorOperation}
use share_note_pad.Document.Model.{max_document_chars}
use share_note_pad.Protocol.Codec.{TextApi, is_empty}
use share_note_pad.Protocol.Message.{ProtocolMessage}
use share_note_pad.Sync.Edits.{EditOutcome, apply_message_outcome}
use share_note_pad.Sync.Server.{
  Server, SyncEvent, stop_entry, Edit, edited, refused, append_session_log, push_event,
  close_socket, pop_front, apply_message_to_document, send, send_join_ok, send_join_fail,
  broadcast_to, broadcast_apply, local_result, apply_local_operation, operation_request,
  try_pop_event, set_document, register_join_failure, is_join_blocked,
}
use share_note_pad.Sync.Session.{
  Probe, Listen, listening, no_listener, start_on, bind_listen_socket, stop, start, Thread, over,
  serves, server_of, refuse_protocol, admit, turn_away, refuse_code, welcome, string_or_empty,
  serve_message, drop_peer, leave,
}
use share_note_pad.Sync.Transport.{Net}
use share_note_pad.Sync.Room.{
  WellFormed, SameRoom, WellFormed-SameRoom, WellFormed-close_peer, WellFormed-edit,
  WellFormed-serve_message, close_peer-kept, if-holds,
}

module _ (api : TextApi) (net : Net) where
  turn_away-SameRoom :
      (s : Server) (socket : ℕ) (reason : Text) → SameRoom s (turn_away api net s socket reason)
  unfolding turn_away send_join_fail send
  turn_away-SameRoom s socket reason = (refl, refl, refl, refl)

  register-turn_away :
      (s : Server) (socket : ℕ) (reason : Text)
      → SameRoom s (turn_away api net (register_join_failure s).0 socket reason)
  unfolding register_join_failure turn_away send_join_fail send
  register-turn_away s socket reason = (refl, refl, refl, refl)

  WellFormed-welcome :
      (token : Text) (s : Server) (socket : ℕ) (m : ProtocolMessage)
      → WellFormed s
      → WellFormed (server_of (welcome api net token s socket m))
  unfolding welcome
  WellFormed-welcome token s socket m w =
      let reconnecting = not (is_empty (string_or_empty (codes "reconnect_token") m)) in
      let (s', sent) = send_join_ok api net token s socket reconnecting in
      let kept : WellFormed s' =
        unfold send_join_ok send in WellFormed-SameRoom s s' (refl, refl, refl, refl) w in
      if-holds (λ (t : Thread). WellFormed (server_of t)) sent (serves s') (over _) kept
        (WellFormed-close_peer s' kept)

  WellFormed-admit :
      (token : Text) (s : Server) (socket : ℕ) (m : ProtocolMessage)
      → WellFormed s
      → WellFormed (server_of (admit api net token s socket m))
  unfolding admit refuse_code
  WellFormed-admit token s socket m w =
      let P = λ (t : Thread). WellFormed (server_of t) in
      let welcomed =
        welcome api net token (record s { peer_joined = true; peer_socket = some socket }) socket
          m in
      let last : P (
          if s.peer_joined
          then over (turn_away api net s socket (codes "room_full"))
          else welcomed) =
        if-holds P s.peer_joined _ welcomed
          (WellFormed-SameRoom s _ (turn_away-SameRoom s socket (codes "room_full")) w)
          (WellFormed-welcome token _ socket m (record {
            bounded = w.bounded;
            joined = λ e. cc;
            taken = λ _ e. cc;
            revision_fits = w.revision_fits;
          })) in
      if-holds P (is_join_blocked s) _ _
        (WellFormed-SameRoom s _ (turn_away-SameRoom s socket (codes "blocked")) w)
        (if-holds P (not (text_eq (string_or_empty (codes "join_code") m) s.session_code)) _ _
          (WellFormed-SameRoom s _ (register-turn_away s socket _) w) last)

  WellFormed-drop_peer :
      (s : Server) (socket : ℕ) → WellFormed s → WellFormed (drop_peer api net s socket)
  unfolding drop_peer
  WellFormed-drop_peer s socket w =
      let empty = close_socket socket (record s { peer_socket = none; peer_joined = false }) in
      let gone : WellFormed empty = record {
        bounded = w.bounded;
        joined = λ _. refl;
        taken = λ e. cc;
        revision_fits = w.revision_fits;
      } in
      if-holds WellFormed _ empty s gone w

  WellFormed-leave : (s : Server) (socket : ℕ) → WellFormed s → WellFormed (leave api net s socket)
  unfolding leave push_event
  WellFormed-leave s socket w =
      let gone = WellFormed-drop_peer s socket w in
      if-holds WellFormed s.stopping _ _ gone
        (WellFormed-SameRoom (drop_peer api net s socket) _ (refl, refl, refl, refl) gone)

  broadcast-SameRoom :
      (peer : Option ℕ) (s : Server) (m : ProtocolMessage)
      → SameRoom s (broadcast_to api net peer s m).0
  unfolding broadcast_to send
  broadcast-SameRoom none s m = (refl, refl, refl, refl)
  broadcast-SameRoom (some socket) s m = (refl, refl, refl, refl)

  WellFormed-local :
      (s : Server) (m : ProtocolMessage) (r : Server × Edit)
      → EditOutcome s m r
      → WellFormed s
      → WellFormed (local_result api net r).0
  unfolding local_result broadcast_apply
  WellFormed-local s m (s', refused reason) h w =
      WellFormed-SameRoom s' _ (refl, refl, refl, refl)
        (WellFormed-edit api net s m (s', refused reason) h w)
  WellFormed-local s m (s', edited a) h w =
      WellFormed-SameRoom s' _ (broadcast-SameRoom s'.peer_socket s' a)
        (WellFormed-edit api net s m (s', edited a) h w)

WellFormed-stop : (s : Server) → WellFormed s → WellFormed (stop s)
unfolding stop
WellFormed-stop s w =
    let logged = if s.running then append_session_log (stop_entry s.session_code) s else s in
    let kept : WellFormed logged =
      if-holds WellFormed s.running _ s (WellFormed-SameRoom s _ (refl, refl, refl, refl) w) w in
    WellFormed-close_peer (record logged { stopping = true; running = false })
      (WellFormed-SameRoom logged _ (refl, refl, refl, refl) kept)

stop-empty : (s : Server) → (stop s).peer_socket ≡ none
unfolding stop
stop-empty s =
    let logged = if s.running then append_session_log (stop_entry s.session_code) s else s in
    let (_, _, p) = close_peer-kept (record logged { stopping = true; running = false }) in p

WellFormed-pop :
    (s : Server) (events : List SyncEvent) → WellFormed s → WellFormed (pop_front s events).0
unfolding pop_front
WellFormed-pop s [] w = w
WellFormed-pop s (event ∷ events) w = WellFormed-SameRoom s _ (refl, refl, refl, refl) w

WellFormed-start_on :
    (s : Server) (listen : Listen) → WellFormed s → WellFormed (start_on s listen).0
unfolding start_on
WellFormed-start_on s (no_listener reason) w = WellFormed-SameRoom s _ (refl, refl, refl, refl) w
WellFormed-start_on s (listening port) w = WellFormed-SameRoom s _ (refl, refl, refl, refl) w

-- The steps of a room: what its connections, its owner and its start and stop do. Each is what the
-- program does under its locks, with the sending that follows.
pub data Step (api : TextApi) (net : Net) : Server → Server → Type 0 where
  joins :
      (token : Text) (s : Server) (socket : ℕ) (m : ProtocolMessage)
      → Step api net s (server_of (admit api net token s socket m))
  mismatches : (s : Server) (socket : ℕ) → Step api net s (refuse_protocol api net s socket)
  handles :
      (session : Text) (s : Server) (socket : ℕ) (m : ProtocolMessage)
      → Step api net s (serve_message api net session s socket m).0
  leaves : (s : Server) (socket : ℕ) → Step api net s (leave api net s socket)
  edits :
      (s : Server) (operation : EditorOperation) (client : Text)
      → Step api net s (apply_local_operation api net s operation client).0
  pops : (s : Server) → Step api net s (try_pop_event s).0
  sets :
      (s : Server) (content : Text) (revision : ℕ)
      → length content ≤ max_document_chars
      → revision < 2 ^ 64
      → Step api net s (set_document content revision s)
  starts :
      (probe : ℕ → Probe) (s : Server) (code : Text) (port : ℕ)
      → Step api net s (start probe s code port).0
  stops : (s : Server) → Step api net s (stop s)

pub data Reach (api : TextApi) (net : Net) (s : Server) : Server → Type 0 where
  here : Reach api net s s
  next : (t u : Server) → Reach api net s t → Step api net t u → Reach api net s u

module _ (api : TextApi) (net : Net) where
  Step-WellFormed : (s t : Server) → Step api net s t → WellFormed s → WellFormed t
  unfolding try_pop_event set_document start apply_local_operation refuse_protocol
  Step-WellFormed s t (joins token _ socket m) w = WellFormed-admit api net token s socket m w
  Step-WellFormed s t (mismatches _ socket) w =
      WellFormed-SameRoom s _ (register-turn_away api net s socket (codes "protocol_mismatch")) w
  Step-WellFormed s t (handles session _ socket m) w =
      WellFormed-serve_message api net session s socket m w
  Step-WellFormed s t (leaves _ socket) w = WellFormed-leave api net s socket w
  Step-WellFormed s t (edits _ operation client) w =
      let m = operation_request s operation client in
      WellFormed-local api net s m (apply_message_to_document s m) (apply_message_outcome s m) w
  Step-WellFormed s t (pops _) w = WellFormed-pop s s.event_queue w
  Step-WellFormed s t (sets _ content revision bounded fits) w = record {
    bounded = bounded;
    joined = w.joined;
    taken = w.taken;
    revision_fits = fits;
  }
  Step-WellFormed s t (starts probe _ code port) w =
      let v = WellFormed-stop s w in
      let opened = record (stop s) {
        session_code = code;
        stopping = false;
        peer_joined = false;
        failed_join_count = 0;
      } in
      WellFormed-start_on opened (bind_listen_socket probe port) (record {
        bounded = v.bounded;
        joined = λ _. stop-empty s;
        taken = λ e. cc;
        revision_fits = v.revision_fits;
      })
  Step-WellFormed s t (stops _) w = WellFormed-stop s w

  -- Every room that can be reached from a well-formed one, by any sequence of joins, refused
  -- handshakes, messages, departures, local edits, starts and stops, is well-formed: its document is
  -- within the limit, its revision fits into 64 bits, and it holds a peer socket exactly if a peer
  -- has joined.
  pub Reach-WellFormed : (s t : Server) → Reach api net s t → WellFormed s → WellFormed t
  Reach-WellFormed s t here w = w
  Reach-WellFormed s t (next u _ before step) w =
      Step-WellFormed u t step (Reach-WellFormed s u before w)
