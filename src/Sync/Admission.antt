-- ===== src/Sync/Admission.antt =====
-- Whom `HandleClient` of client/sync_server.cpp lets in.
use share_note_pad.Base.{
  ℕ, ◌≡◌, ◌≢◌, sym, ap, true, false, not, some, arith, Text, codes, text_eq, text_eq_iff,
  Bool-cases, inl, inr,
}
use share_note_pad.Protocol.Codec.{TextApi, is_empty}
use share_note_pad.Protocol.Message.{ProtocolMessage}
use share_note_pad.Sync.Server.{Server, send, send_join_ok, is_join_blocked}
use share_note_pad.Sync.Session.{over, serves, admit, welcome, string_or_empty}
use share_note_pad.Sync.Transport.{Net}

-- A peer that was let in.
pub record Admitted (s : Server) (socket : ℕ) (m : ProtocolMessage) (s' : Server) : Type 0 where
  pub not_blocked : is_join_blocked s ≡ false
  pub code : string_or_empty (codes "join_code") m ≡ s.session_code
  pub vacant : s.peer_joined ≡ false
  pub peer : s'.peer_socket ≡ some socket
  pub joined : s'.peer_joined ≡ true
  pub document : s'.document ≡ s.document
  pub failures : s'.failed_join_count ≡ s.failed_join_count
  pub kept_open : s'.closed ≡ s.closed

over_serves : (s t : Server) → over s ≢ serves t
over_serves s t e = cc

serves_inj : {s t : Server} → serves s ≡ serves t → s ≡ t
serves_inj e = cc

module _ (api : TextApi) (net : Net) where
  welcome-serves :
      (token : Text) (s s' : Server) (socket : ℕ) (m : ProtocolMessage)
      → welcome api net token (record s { peer_joined = true; peer_socket = some socket }) socket m
        ≡ serves s'
      → (s'.peer_socket ≡ some socket)
        × (s'.peer_joined ≡ true)
        × (s'.document ≡ s.document)
        × (s'.failed_join_count ≡ s.failed_join_count)
        × (s'.closed ≡ s.closed)
  unfolding welcome send_join_ok send
  welcome-serves token s s' socket m h =
      let entered = record s { peer_joined = true; peer_socket = some socket } in
      let reconnecting = not (is_empty (string_or_empty (codes "reconnect_token") m)) in
      elim (Bool-cases (send_join_ok api net token entered socket reconnecting).1) [
        | inr e ↦ absurd (over_serves _ s' (rw (e, welcome) at h))
        | inl e ↦
            let same = sym (serves_inj (rw (e, welcome) at h)) in
            (
              ap (λ (t : Server). t.peer_socket) same,
              ap (λ (t : Server). t.peer_joined) same,
              ap (λ (t : Server). t.document) same,
              ap (λ (t : Server). t.failed_join_count) same,
              ap (λ (t : Server). t.closed) same,
            )
      ]

  -- A connection is served only if its JOIN message had the code of the room, at most four attempts
  -- had failed before, and nobody was in the room; then it is the peer, and neither the document nor
  -- the count of failures nor another connection is touched.
  pub admit-Admitted :
      (token : Text) (s s' : Server) (socket : ℕ) (m : ProtocolMessage)
      → admit api net token s socket m ≡ serves s'
      → Admitted s socket m s'
  unfolding admit
  admit-Admitted token s s' socket m h = elim (Bool-cases (is_join_blocked s)) [
    | inl e ↦ absurd (over_serves _ s' (rw (e, admit) at h))
    | inr free ↦
        elim (Bool-cases (not (text_eq (string_or_empty (codes "join_code") m) s.session_code))) [
          | inl e ↦ absurd (over_serves _ s' (rw (free, e, admit) at h))
          | inr right ↦ elim (Bool-cases s.peer_joined) [
            | inl e ↦ absurd (over_serves _ s' (rw (free, right, e, admit) at h))
            | inr vacant ↦
                let (p, j, d, f, o) =
                  welcome-serves token s s' socket m (rw (free, right, vacant, admit) at h) in
                record {
                  not_blocked = free;
                  code =
                      (text_eq_iff (string_or_empty (codes "join_code") m) s.session_code).0
                        (ground arith);
                  vacant = vacant;
                  peer = p;
                  joined = j;
                  document = d;
                  failures = f;
                  kept_open = o;
                }
          ]
        ]
  ]
