-- ===== src/Sync/Room.antt =====
-- What holds of every room of client/sync_server.cpp, and that edits and messages keep it.
use share_note_pad.Base.{
  ℕ, zero, suc, ◌+◌, ◌^◌, ◌<◌, ◌≤◌, ◌≡◌, ap, ◌≢◌, refl, sym, ◌∙◌, Bool, true, false, not, Option,
  some, none, arith, if◌then◌else◌, length, Text, codes, text_eq,
}
use share_note_pad.Document.Model.{max_document_chars}
use share_note_pad.Protocol.Codec.{TextApi}
use share_note_pad.Protocol.Message.{
  MessageType, ping, insert_edit, delete_edit, sync_request, ProtocolMessage,
}
use share_note_pad.Sync.Edits.{EditOutcome, apply_message_outcome, change_document-bounded}
use share_note_pad.Sync.Server.{
  Server, Edit, edited, refused, push_event, close_peer_socket, close_peer, after_edit, sync_chunk,
  apply_message_to_document, send, send_error, send_chunks, send_sync_response, handle_edit_message,
}
use share_note_pad.Sync.Session.{dispatch, pong_message, serve_message}
use share_note_pad.Sync.Transport.{Net}

-- The document is within its limit, and the room has a peer exactly if somebody has joined.
pub record WellFormed (s : Server) : Type 0 where
  pub bounded : length s.document ≤ max_document_chars
  pub joined : s.peer_joined ≡ false → s.peer_socket ≡ none
  pub taken : s.peer_joined ≡ true → s.peer_socket ≢ none
  pub revision_fits : s.revision < 2 ^ 64

-- Two servers that agree on what `WellFormed` is about.
abbrev pub SameRoom : Server → Server → Type 0
SameRoom s s' =
    (s'.document ≡ s.document)
    × (s'.revision ≡ s.revision)
    × (s'.peer_socket ≡ s.peer_socket)
    × (s'.peer_joined ≡ s.peer_joined)

pub WellFormed-SameRoom : (s s' : Server) → SameRoom s s' → WellFormed s → WellFormed s'
WellFormed-SameRoom s s' (d, r, p, j) w = record {
  bounded = rw d w.bounded;
  joined = rw (p, j) w.joined;
  taken = rw (p, j) w.taken;
  revision_fits = rw r w.revision_fits;
}

pub if-holds {ℓ} :
    {A : Type ℓ} (P : A → Type 0) (b : Bool) (x y : A) → P x → P y → P (if b then x else y)
if-holds P true x y px py = px
if-holds P false x y px py = py

SameRoom-trans : (s t u : Server) → SameRoom s t → SameRoom t u → SameRoom s u
SameRoom-trans s t u (d, r, p, j) (d', r', p', j') = (d' ∙ d, r' ∙ r, p' ∙ p, j' ∙ j)

-- A room that nobody is in.
pub close_peer-kept :
    (s : Server)
    → ((close_peer s).document ≡ s.document)
      × ((close_peer s).revision ≡ s.revision)
      × ((close_peer s).peer_socket ≡ none)
unfolding close_peer close_peer_socket
close_peer-kept s = closed s.peer_socket refl
  where
    closed :
        (peer : Option ℕ)
        → peer ≡ s.peer_socket
        → ((close_peer_socket peer s).document ≡ s.document)
          × ((close_peer_socket peer s).revision ≡ s.revision)
          × ((close_peer_socket peer s).peer_socket ≡ none)
    closed none e = (refl, refl, sym e)
    closed (some socket) e = (refl, refl, refl)

pub WellFormed-close_peer :
    (s : Server)
    → WellFormed s
    → WellFormed (let v : Server = record (close_peer s) { peer_joined = false } in v)
WellFormed-close_peer s w =
    let (d, r, p) = close_peer-kept s in
    record {
      bounded = rw d w.bounded;
      joined = λ _. p;
      taken = λ e. cc;
      revision_fits = rw r w.revision_fits;
    }

module _ (api : TextApi) (net : Net) where
  send-SameRoom :
      (s : Server) (socket : ℕ) (m : ProtocolMessage) → SameRoom s (send api net s socket m).0
  unfolding send
  send-SameRoom s socket m = (refl, refl, refl, refl)

  send_error-SameRoom :
      (s : Server) (socket : ℕ) (reason : Text) → SameRoom s (send_error api net s socket reason).0
  unfolding send_error send
  send_error-SameRoom s socket reason = (refl, refl, refl, refl)

  send_chunks-SameRoom :
      (rounds index : ℕ) (document : Text) (revision count : ℕ) (s : Server) (socket : ℕ)
      → SameRoom s (send_chunks api net rounds index document revision count s socket).0
  unfolding send_chunks
  send_chunks-SameRoom zero index document revision count s socket = (refl, refl, refl, refl)
  send_chunks-SameRoom (suc rounds) index document revision count s socket =
      let (s', sent) =
        send api net s socket (sync_chunk s.session_code document revision count index) in
      let first =
        send-SameRoom s socket (sync_chunk s.session_code document revision count index) in
      let more = send_chunks api net rounds (index + 1) document revision count s' socket in
      if-holds (λ (r : Server × Bool). SameRoom s r.0) sent more (s', false)
        (SameRoom-trans s s' more.0 first
          (send_chunks-SameRoom rounds (index + 1) document revision count s' socket))
        first

  pub WellFormed-edit :
      (s : Server) (m : ProtocolMessage) (r : Server × Edit)
      → EditOutcome s m r
      → WellFormed s
      → WellFormed r.0
  WellFormed-edit s m (s', refused reason) h w = rw h w
  WellFormed-edit s m (s', edited a) h w =
      let p = ap (λ (r : Server). r.peer_socket) h.rest in
      let j = ap (λ (r : Server). r.peer_joined) h.rest in
      record {
        bounded = change_document-bounded s.document h.position m h.changed w.bounded;
        joined = rw (p, j) w.joined;
        taken = rw (p, j) w.taken;
        revision_fits = omega (arith, h.revision);
      }

  WellFormed-after_edit :
      (s : Server) (socket : ℕ) (edit : Edit)
      → WellFormed s
      → WellFormed (after_edit api net s socket edit).0
  unfolding after_edit send_error send push_event
  WellFormed-after_edit s socket (refused reason) w =
      WellFormed-SameRoom s _ (refl, refl, refl, refl) w
  WellFormed-after_edit s socket (edited m) w = WellFormed-SameRoom s _ (refl, refl, refl, refl) w

  WellFormed-handle_edit_message :
      (s : Server) (socket : ℕ) (m : ProtocolMessage)
      → WellFormed s
      → WellFormed (handle_edit_message api net s socket m).0
  unfolding handle_edit_message
  WellFormed-handle_edit_message s socket m w =
      let (s', edit) = apply_message_to_document s m in
      if-holds (λ (r : Server × Bool). WellFormed r.0) (not (text_eq m.client (codes "B"))) _
        (after_edit api net s' socket edit)
        (unfold send_error send in WellFormed-SameRoom s _ (refl, refl, refl, refl) w)
        (WellFormed-after_edit s' socket edit
          (WellFormed-edit s m (s', edit) (apply_message_outcome s m) w))

  WellFormed-dispatch :
      (type : MessageType) (session : Text) (s : Server) (socket : ℕ) (m : ProtocolMessage)
      → WellFormed s
      → WellFormed (dispatch api net type session s socket m).0
  unfolding dispatch
  WellFormed-dispatch ping session s socket m w =
      WellFormed-SameRoom s _ (send-SameRoom s socket (pong_message api net s session m)) w
  WellFormed-dispatch insert_edit session s socket m w = WellFormed-handle_edit_message s socket m w
  WellFormed-dispatch delete_edit session s socket m w = WellFormed-handle_edit_message s socket m w
  WellFormed-dispatch sync_request session s socket m w =
      unfold send_sync_response in
      WellFormed-SameRoom s _ (send_chunks-SameRoom _ 0 s.document s.revision _ _ socket) w
  WellFormed-dispatch _ session s socket m w =
      WellFormed-SameRoom s _ (send_error-SameRoom s socket (codes "unsupported_message")) w

  pub WellFormed-serve_message :
      (session : Text) (s : Server) (socket : ℕ) (m : ProtocolMessage)
      → WellFormed s
      → WellFormed (serve_message api net session s socket m).0
  unfolding serve_message
  WellFormed-serve_message session s socket m w =
      if-holds (λ (r : Server × Bool). WellFormed r.0) (not (text_eq m.session s.session_code)) _
        (dispatch api net m.type session s socket m)
        (WellFormed-SameRoom s _ (send_error-SameRoom s socket (codes "invalid_session")) w)
        (WellFormed-dispatch m.type session s socket m w)
