-- ===== src/Discovery/Announcing.antt =====
-- What a guest finds of the rooms that are announced.
use share_note_pad.Base.{
  ℕ, ◌≤◌, ◌<◌, ◌≡◌, refl, ap, ◌∙◌, ◌||◌, Option, some, none, List, [], ◌∷◌, ◌++◌, Text, Bytes,
  codes, text_eq, arith, ltb, ◌==◌, if◌then◌else◌, if_cases,
}
use share_note_pad.Discovery.{
  discovery_prefix, read_token_value, Announcement, checked_port, read_token, read_tokens,
  build_message, accept_session, accept_tokens, parse_words, parse_message, Reception, socket_error,
  datagram, endpoint_of, endpoint_in, find_room,
}
use share_note_pad.Discovery.Words.{words, words_from, words_from-blank, words_from-end}
use share_note_pad.Numbers.{NoSpace, format_unsigned-NoSpace, stoul-format}
use share_note_pad.Protocol.Codec.{TextApi, wide_to_utf8, utf8_to_wide}
use share_note_pad.Protocol.Json.{format_unsigned}

-- The tokens that an announcement is read into.
abbrev announced : Bytes → ℕ → List Bytes
announced session port =
    codes "v=1" ∷ (codes "session=" ++ session) ∷ (codes "port=" ++ format_unsigned port) ∷ []

checked_port-small :
    (a : Announcement) (port : ℕ)
    → 0 < port
    → port ≤ 65535
    → checked_port a (some port) ≡ some (record a { port = port })
unfolding checked_port
checked_port-small a port some_port small =
    if_cases (λ r. r ≡ some (record a { port = port })) (port == 0 || ltb 65535 port) _ _
      (λ e. absurd (ground arith)) (λ _. refl)

read_token-port :
    (a : Announcement) (port : ℕ)
    → 0 < port
    → port ≤ 65535
    → read_token a (codes "port=" ++ format_unsigned port) ≡ some (record a { port = port })
unfolding read_token read_token_value
read_token-port a port some_port small =
    ap (checked_port a) (stoul-format port (omega arith))
    ∙ checked_port-small a port some_port small

read_tokens-announced :
    (session : Bytes) (port : ℕ)
    → 0 < port
    → port ≤ 65535
    → read_tokens (record { session = []; port = 0 }) (announced session port)
      ≡ some (record { session = session; port = port })
unfolding read_tokens read_token read_token_value
read_tokens-announced session port some_port small =
    ap
      (λ o.
        let read : Option Announcement = elim o [ none ↦ none | some a ↦ read_tokens a [] ] in read)
      (read_token-port (record { session = session; port = 0 }) port some_port small)

endpoint_parts :
    (h host : Text) (p port : ℕ)
    → (let e : Option (Text × ℕ) = some (h, p) in e) ≡ some (host, port)
    → (h ≡ host) × (p ≡ port)
endpoint_parts h host p port e = (cc, cc)

module _ (api : TextApi) where
  words-build_message :
      (code : Text) (port : ℕ)
      → NoSpace (wide_to_utf8 api code)
      → words (build_message api code port)
        ≡ discovery_prefix ∷ announced (wide_to_utf8 api code) port
  unfolding words build_message words_from
  words-build_message code port h =
      ap (λ ws. discovery_prefix ∷ codes "v=1" ∷ ws)
        (words_from-blank (codes "session=") (wide_to_utf8 api code)
            (codes "port=" ++ format_unsigned port) h
          ∙ ap (λ ws. (codes "session=" ++ wide_to_utf8 api code) ∷ ws)
              (words_from-end (codes "port=") (format_unsigned port)
                (format_unsigned-NoSpace port)))

  accept_session-given :
      (session expected : Text) (port : ℕ)
      → 0 < port
      → accept_session expected (some session) port
        ≡ (if text_eq session expected then some port else none)
  unfolding accept_session
  accept_session-given session expected port some_port = ground arith

  parse_words-build_message :
      (code expected : Text) (port : ℕ)
      → 0 < port
      → port ≤ 65535
      → utf8_to_wide api (wide_to_utf8 api code) ≡ some code
      → parse_words api expected (discovery_prefix ∷ announced (wide_to_utf8 api code) port)
        ≡ (if text_eq code expected then some port else none)
  unfolding parse_words accept_tokens text_eq
  parse_words-build_message code expected port some_port small back =
      ap (accept_tokens api expected)
        (read_tokens-announced (wide_to_utf8 api code) port some_port small)
      ∙ ap (λ session. accept_session expected session port) back
      ∙ accept_session-given code expected port some_port

  -- A guest who looks for a room finds its port in the announcement of its host, and nothing in those
  -- of other rooms. The session code can be converted and has no blank, and the port is from 1 to
  -- 65535.
  pub parse_message-build_message :
      (code expected : Text) (port : ℕ)
      → 0 < port
      → port ≤ 65535
      → utf8_to_wide api (wide_to_utf8 api code) ≡ some code
      → NoSpace (wide_to_utf8 api code)
      → parse_message api (build_message api code port) expected
        ≡ (if text_eq code expected then some port else none)
  unfolding parse_message
  parse_message-build_message code expected port some_port small back h =
      ap (parse_words api expected) (words-build_message code port h)
      ∙ parse_words-build_message code expected port some_port small back

  -- Nothing that was received names the room and its sender.
  abbrev pub NoRoom : Text → List Reception → Type 0
  NoRoom code [] = Unit
  NoRoom code (reception ∷ receptions) =
      (endpoint_in api code reception ≡ none) × NoRoom code receptions

  -- The endpoint is the sender of the first announcement of the room.
  abbrev pub Found : Text → List Reception → Option (Text × ℕ) → Type 0
  Found code receptions none = NoRoom code receptions
  Found code receptions (some (host, port)) =
      (before : List Reception) × (message : Bytes) × (after : List Reception) × (receptions
        ≡ before ++ datagram message (some host) ∷ after)
      × (parse_message api message code ≡ some port)
      × NoRoom code before

  endpoint_in-datagram :
      (code : Text) (reception : Reception) (host : Text) (port : ℕ)
      → endpoint_in api code reception ≡ some (host, port)
      → (message : Bytes) × (reception ≡ datagram message (some host))
        × (parse_message api message code ≡ some port)
  unfolding endpoint_in endpoint_of
  endpoint_in-datagram code socket_error host port e = cc
  endpoint_in-datagram code (datagram message sender) host port e =
      by_parts (parse_message api message code) sender refl e
    where
      by_parts :
          (parsed : Option ℕ) (sender : Option Text)
          → parse_message api message code ≡ parsed
          → endpoint_of parsed sender ≡ some (host, port)
          → (m : Bytes) × (datagram message sender ≡ datagram m (some host))
            × (parse_message api m code ≡ some port)
      by_parts (some p) (some h) f e =
          let (same_host, same_port) = endpoint_parts h host p port e in
          (message, ap (λ t. datagram message (some t)) same_host, f ∙ ap (λ n. some n) same_port)
      by_parts (some p) none f e = cc
      by_parts none (some h) f e = cc
      by_parts none none f e = cc

  Found-cons :
      (code : Text) (reception : Reception) (receptions : List Reception)
      (endpoint : Option (Text × ℕ))
      → endpoint_in api code reception ≡ none
      → Found code receptions endpoint
      → Found code (reception ∷ receptions) endpoint
  Found-cons code reception receptions none e f = (e, f)
  Found-cons code reception receptions (some (host, port)) e (before, m, after, split, p, nothing) =
      (reception ∷ before, m, after, ap (◌∷◌ reception) split, p, (e, nothing))

  -- `Find` gives the sender and the port of the first datagram that announces the room, and times out
  -- only if none of what arrived before the deadline announces it.
  pub find_room-Found :
      (code : Text) (receptions : List Reception)
      → Found code receptions (find_room api code receptions)
  unfolding find_room
  find_room-Found code [] = tt
  find_room-Found code (reception ∷ receptions) =
      by_endpoint (endpoint_in api code reception) refl (find_room-Found code receptions)
    where
      by_endpoint :
          (endpoint : Option (Text × ℕ))
          → endpoint_in api code reception ≡ endpoint
          → Found code receptions (find_room api code receptions)
          → Found code
              (reception ∷ receptions)
              (elim endpoint [ some e ↦ some e | none ↦ find_room api code receptions ])
      by_endpoint none e rest =
          Found-cons code reception receptions (find_room api code receptions) e rest
      by_endpoint (some (host, port)) e rest =
          let (m, same, parsed) = endpoint_in-datagram code reception host port e in
          ([], m, receptions, ap (λ r. r ∷ receptions) same, parsed, tt)
