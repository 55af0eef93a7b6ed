-- ===== src/Discovery/Announcer.antt =====
-- The class `DiscoveryAnnouncer` of client/discovery.cpp and `DiscoveryClient::Find` with its socket.
-- What the calls of Winsock give is an argument; the datagrams that are sent are results.
use share_note_pad.Base.{
  ℕ, Bool, true, false, Option, none, some, List, [], ◌∷◌, ◌++◌, if◌then◌else◌, Text, Bytes, codes,
}
use share_note_pad.Discovery.{build_message, find_room, Reception}
use share_note_pad.Protocol.Codec.{TextApi}

pub record Announcer : Type 0 where
  pub socket : Option ℕ
  pub session_code : Text
  pub tcp_port : ℕ
  pub discovery_port : ℕ
  pub running : Bool
  pub last_error : Text
  pub closed : List ℕ

-- The address and the port of `MakeTarget`, and the message.
pub record Announced : Type 0 where
  pub address : Text
  pub port : ℕ
  pub message : Bytes

-- What `socket` and `SetBroadcast` give.
pub data Opened : Type 0 where
  no_socket : Opened
  no_broadcast opened : ℕ → Opened

close_announced : Option ℕ → Announcer → Announcer
close_announced none a = a
close_announced (some socket) a = record a { socket = none; closed = socket ∷ a.closed }

-- `Stop`, which waits for the thread, and with it `CloseSocket`.
unfoldable pub stop : Announcer → Announcer
unfolding close_announced
stop a = close_announced a.socket (record a { running = false })

start_with : Opened → Announcer → Announcer × Bool
unfolding close_announced
start_with no_socket a =
    (record a { socket = none; last_error = codes "discovery socket creation failed" }, false)
start_with (no_broadcast socket) a = (
  close_announced (some socket)
      (record a { socket = some socket; last_error = codes "discovery broadcast option failed" }),
  false,
)
start_with (opened socket) a = (record a { socket = some socket; running = true }, true)

unfoldable pub start : Opened → Text → ℕ → ℕ → Announcer → Announcer × Bool
unfolding start_with
start o session_code tcp_port discovery_port a = start_with o (record (stop a) {
  session_code = session_code;
  tcp_port = tcp_port;
  discovery_port = discovery_port;
})

module _ (api : TextApi) where
  -- `SendAnnouncement`; `sent` says whether `sendto` succeeds.
  unfoldable pub send_announcement : Bool → Text → Announcer → Announcer × List Announced
  send_announcement true address a = (
    a,
    record {
      address = address;
      port = a.discovery_port;
      message = build_message api a.session_code a.tcp_port;
    }
        ∷ [],
  )
  send_announcement false address a = (record a { last_error = codes "discovery send failed" }, [])

  -- The rounds of `AnnounceLoop` until `running_` is false, each with the results of its two sends.
  unfoldable pub announce_loop : List (Bool × Bool) → Announcer → Announcer × List Announced
  announce_loop [] a = (a, [])
  announce_loop ((broadcast, loopback) ∷ rounds) a =
      let (a', first) = send_announcement broadcast (codes "255.255.255.255") a in
      let (a'', second) = send_announcement loopback (codes "127.0.0.1") a' in
      let (last, more) = announce_loop rounds a'' in
      if a.running then (last, first ++ (second ++ more)) else (a, [])

-- What `socket` and `bind` give to `Find`.
pub data Bound : Type 0 where
  no_handle bind_fails binds : Bound

unfoldable pub found_or_timeout : Option (Text × ℕ) → Option (Text × ℕ) × Text
found_or_timeout none = (none, codes "discovery timeout")
found_or_timeout (some endpoint) = (some endpoint, [])

-- `DiscoveryClient::Find`: the endpoint, `none` for a result of false, and `last_error_`.
unfoldable pub find : TextApi → Bound → Text → List Reception → Option (Text × ℕ) × Text
unfolding found_or_timeout
find api no_handle session_code receptions = (none, codes "discovery socket creation failed")
find api bind_fails session_code receptions = (none, codes "discovery bind failed")
find api binds session_code receptions = found_or_timeout (find_room api session_code receptions)
