-- ===== src/Discovery/Hearing.antt =====
-- What a guest's `DiscoveryClient::Find` makes of the announcements of a `DiscoveryAnnouncer`.
use share_note_pad.Base.{
  ℕ, ◌≤◌, ◌<◌, ◌≡◌, refl, ap, ◌∙◌, Bool, true, false, ◌&&◌, ◌||◌, Option, none, some, List, [], ◌∷◌,
  Bool-cases, inl, inr, if◌then◌else◌, Text, codes, text_eq,
}
use share_note_pad.Discovery.Announcer.{
  Announced, Announcer, announce_loop, binds, find, found_or_timeout, opened, send_announcement,
  start, stop,
}
use share_note_pad.Discovery.Announcing.{parse_message-build_message}
use share_note_pad.Discovery.{
  build_message, datagram, endpoint_in, endpoint_of, find_room, Reception,
}
use share_note_pad.Numbers.{NoSpace}
use share_note_pad.Protocol.Codec.{TextApi, utf8_to_wide, wide_to_utf8}

-- The datagrams of a host, as another machine receives them.
abbrev pub heard : Text → List Announced → List Reception
heard host [] = []
heard host (d ∷ sent) = datagram d.message (some host) ∷ heard host sent

-- Whether one of the sends of the rounds succeeds.
abbrev pub some_sent : List (Bool × Bool) → Bool
some_sent [] = false
some_sent ((broadcast, loopback) ∷ rounds) = broadcast || (loopback || some_sent rounds)

module _ (api : TextApi) (code expected host : Text) (port : ℕ) (some_port : 0 < port)
    (small : port ≤ 65535) (back : utf8_to_wide api (wide_to_utf8 api code) ≡ some code)
    (no_space : NoSpace (wide_to_utf8 api code)) where
  endpoint_in-announced :
      endpoint_in api expected (datagram (build_message api code port) (some host))
      ≡ (if text_eq code expected then some (host, port) else none)
  unfolding endpoint_in endpoint_of
  endpoint_in-announced =
      rw (parse_message-build_message api code expected port some_port small back no_space)
        (elim (Bool-cases (text_eq code expected)) [ inl e ↦ rw e refl | inr e ↦ rw e refl ])

  abbrev endpoint_after : Bool → Option (Text × ℕ)
  endpoint_after sent = if text_eq code expected && sent then some (host, port) else none

  find_room-announced :
      (later : Bool) (rest : List Reception)
      → find_room api expected rest ≡ endpoint_after later
      → find_room api expected (datagram (build_message api code port) (some host) ∷ rest)
        ≡ endpoint_after true
  unfolding find_room
  find_room-announced later rest h =
      ap
        (λ (o : Option (Text × ℕ)). elim o [ some e ↦ some e | none ↦ find_room api expected rest ])
        endpoint_in-announced
      ∙ elim (Bool-cases (text_eq code expected)) [
        | inl e ↦ rw e refl
        | inr e ↦ rw e (h ∙ rw e refl)
      ]

  find_room-none : find_room api expected [] ≡ endpoint_after false
  unfolding find_room
  find_room-none = elim (Bool-cases (text_eq code expected)) [
    | inl e ↦ rw e refl
    | inr e ↦ rw e refl
  ]

  abbrev announcing : Option ℕ → ℕ → Text → List ℕ → Announcer
  announcing socket discovery_port last_error closed = record {
    socket = socket;
    session_code = code;
    tcp_port = port;
    discovery_port = discovery_port;
    running = true;
    last_error = last_error;
    closed = closed;
  }

  module _ (socket : Option ℕ) (discovery_port : ℕ) (closed : List ℕ) where
    find_room-announce_loop :
        (rounds : List (Bool × Bool)) (last_error : Text)
        → find_room api expected (
            heard host
              (announce_loop api rounds (announcing socket discovery_port last_error closed)).1)
          ≡ endpoint_after (some_sent rounds)
    unfolding announce_loop send_announcement
    find_room-announce_loop [] e = find_room-none
    find_room-announce_loop ((true, true) ∷ rounds) e =
        find_room-announced true _
          (find_room-announced (some_sent rounds) _ (find_room-announce_loop rounds e))
    find_room-announce_loop ((true, false) ∷ rounds) e =
        find_room-announced (some_sent rounds) _ (find_room-announce_loop rounds _)
    find_room-announce_loop ((false, true) ∷ rounds) e =
        find_room-announced (some_sent rounds) _ (find_room-announce_loop rounds _)
    find_room-announce_loop ((false, false) ∷ rounds) e = find_room-announce_loop rounds _

  -- Once the announcer is started, a guest who receives what it sends finds the room exactly when it
  -- looks for its code and one of the sends succeeds, with the address of the sender and the port of
  -- the server; otherwise the search times out. The session code can be converted and has no blank,
  -- and the port is from 1 to 65535.
  pub find-announce_loop :
      (socket discovery_port : ℕ) (a : Announcer) (rounds : List (Bool × Bool))
      → let (started, _) = start (opened socket) code port discovery_port a in
        find api binds expected (heard host (announce_loop api rounds started).1) ≡ (
          if text_eq code expected && some_sent rounds
          then (some (host, port), [])
          else (none, codes "discovery timeout"))
  unfolding find found_or_timeout start
  find-announce_loop socket discovery_port a rounds =
      ap found_or_timeout (
        find_room-announce_loop (some socket) discovery_port (stop a).closed rounds
          (stop a).last_error)
      ∙ elim (Bool-cases (text_eq code expected && some_sent rounds)) [
        | inl e ↦ rw e refl
        | inr e ↦ rw e refl
      ]
