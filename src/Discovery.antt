-- ===== src/Discovery.antt =====
-- client/discovery.cpp: the announcement of a room and the search for one. The options of the
-- sockets and the threads are not modelled; what `recvfrom` gives is an argument.
pub mod Words
pub mod Announcer
pub mod Announcing
pub mod Hearing
pub mod Tests
use share_note_pad.Base.{
  ℕ, ◌+◌, Bool, true, false, not, ◌||◌, Option, some, none, List, [], ◌∷◌, ◌++◌, ltb, ◌==◌,
  if◌then◌else◌, Text, Bytes, codes, text_eq, length, drop,
}
use share_note_pad.Discovery.Words.{words}
use share_note_pad.Numbers.{stoul}
use share_note_pad.Protocol.Codec.{TextApi, wide_to_utf8, utf8_to_wide}
use share_note_pad.Protocol.Json.{format_unsigned}

-- kDiscoveryPrefix.
abbrev pub discovery_prefix : Bytes
discovery_prefix = codes "SHARENOTEPAD_DISCOVERY"

-- `ReadTokenValue`; `none` is a result of false.
behind_prefix : Bytes → Bytes → Option Bytes
behind_prefix token [] = some token
behind_prefix [] (p ∷ prefix) = none
behind_prefix (t ∷ token) (p ∷ prefix) = if t == p then behind_prefix token prefix else none

unfoldable pub read_token_value : Bytes → Bytes → Option Bytes
unfolding behind_prefix
read_token_value token key = behind_prefix token (key ++ codes "=")

-- `session` and `port` of `ParseMessage`.
pub record Announcement : Type 0 where
  pub session : Bytes
  pub port : ℕ

pub checked_port : Announcement → Option ℕ → Option Announcement
checked_port a none = none
checked_port a (some parsed) =
    if parsed == 0 || ltb 65535 parsed then none else some (record a { port = parsed })

-- One round of the loop; `none` is a return of false.
unfoldable pub read_token : Announcement → Bytes → Option Announcement
unfolding checked_port
read_token a token = elim (read_token_value token (codes "session")) [
  | some value ↦ some (record a { session = value })
  | none ↦ elim (read_token_value token (codes "port")) [
    | some value ↦ checked_port a (stoul value)
    | none ↦ some a
  ]
]

unfoldable pub read_tokens : Announcement → List Bytes → Option Announcement
read_tokens a [] = some a
read_tokens a (token ∷ tokens) = elim (read_token a token) [
  | none ↦ none
  | some a' ↦ read_tokens a' tokens
]

-- The checks behind the loop.
unfoldable pub accept_session : Text → Option Text → ℕ → Option ℕ
accept_session expected_session none port = none
accept_session expected_session (some session) port =
    if not (text_eq session expected_session) || port == 0 then none else some port

-- What a `recvfrom` before the deadline gives: an error, or a datagram with the text of the sender's
-- address, `none` where `InetNtopA` fails.
pub data Reception : Type 0 where
  socket_error : Reception
  datagram : Bytes → Option Text → Reception

-- The endpoint that one round of the loop finds.
unfoldable pub endpoint_of : Option ℕ → Option Text → Option (Text × ℕ)
endpoint_of (some port) (some host) = some (host, port)
endpoint_of _ _ = none

module _ (api : TextApi) where
  -- `DiscoveryAnnouncer::BuildMessage`.
  unfoldable pub build_message : Text → ℕ → Bytes
  build_message session_code tcp_port =
      discovery_prefix
      ++ (codes " v=1 session="
          ++ (wide_to_utf8 api session_code ++ (codes " port=" ++ format_unsigned tcp_port)))

  pub accept_tokens : Text → Option Announcement → Option ℕ
  accept_tokens expected_session none = none
  accept_tokens expected_session (some a) =
      accept_session expected_session (utf8_to_wide api a.session) a.port

  pub parse_words : Text → List Bytes → Option ℕ
  parse_words expected_session [] = none
  parse_words expected_session (prefix ∷ tokens) =
      if not (text_eq prefix discovery_prefix)
      then none
      else accept_tokens expected_session (read_tokens (record { session = []; port = 0 }) tokens)

  -- `DiscoveryClient::ParseMessage`; `none` is a result of false. Without any word the prefix is the
  -- empty text.
  unfoldable pub parse_message : Bytes → Text → Option ℕ
  unfolding parse_words accept_tokens
  parse_message message expected_session = parse_words expected_session (words message)

  unfoldable pub endpoint_in : Text → Reception → Option (Text × ℕ)
  unfolding endpoint_of
  endpoint_in session_code socket_error = none
  endpoint_in session_code (datagram message host) =
      endpoint_of (parse_message message session_code) host

  -- The loop of `DiscoveryClient::Find`; `none` is the timeout.
  unfoldable pub find_room : Text → List Reception → Option (Text × ℕ)
  find_room session_code [] = none
  find_room session_code (reception ∷ receptions) = elim (endpoint_in session_code reception) [
    | some endpoint ↦ some endpoint
    | none ↦ find_room session_code receptions
  ]
