-- ===== src/Sync/Connecting.antt =====
-- `ConnectWithTimeout` of client/sync_client.cpp over what the calls of Winsock give, with what it
-- makes of a socket, and `TryPopEvent` of the client.
use share_note_pad.Base.{ℕ, Bool, ◌||◌, Option, none, some, List, [], ◌∷◌, if◌then◌else◌, ◌==◌}
use share_note_pad.Sync.Client.{Client, Opening, connect_timeout, connect_failed, opened}
use share_note_pad.Sync.Server.{SyncEvent}

pub data ConnectResult : Type 0 where
  connected timed_out failed : ConnectResult

-- What `connect` gives: success, or an error.
pub data Started : Type 0 where
  succeeds : Started
  stops : ℕ → Started

-- What `select` gives: a timeout, an error, or whether the socket is in `write_set`.
pub data Selected : Type 0 where
  times_out select_error : Selected
  selects : Bool → Selected

-- The results of `ioctlsocket`, `connect`, `select` and `getsockopt`; `none` is a failure of the last,
-- and `some` the error of the socket.
pub record ConnectCalls : Type 0 where
  pub sets_mode : Bool
  pub started : Started
  pub selected : Selected
  pub socket_error : Option ℕ

-- WSAEWOULDBLOCK, WSAEINPROGRESS and WSAEINVAL.
is_pending : ℕ → Bool
is_pending error = error == 10035 || error == 10036 || error == 10022

after_option : Option ℕ → ConnectResult
after_option none = failed
after_option (some error) = if error == 0 then connected else failed

after_select : Selected → Option ℕ → ConnectResult
unfolding after_option
after_select times_out error = timed_out
after_select select_error error = failed
after_select (selects writable) error = if writable then after_option error else failed

after_connect : ConnectCalls → Started → ConnectResult
unfolding is_pending after_select
after_connect calls succeeds = connected
after_connect calls (stops error) =
    if is_pending error then after_select calls.selected calls.socket_error else failed

unfoldable pub connect_with_timeout : ConnectCalls → ConnectResult
unfolding after_connect
connect_with_timeout calls = if calls.sets_mode then after_connect calls calls.started else failed

-- The branches of `Connect` on the result.
opening_of : ℕ → ConnectResult → Opening
opening_of socket connected = opened socket
opening_of socket timed_out = connect_timeout socket
opening_of socket failed = connect_failed socket

-- How the connection of an open socket to a valid address opens.
unfoldable pub open_connection : ℕ → ConnectCalls → Opening
unfolding opening_of connect_with_timeout
open_connection socket calls = opening_of socket (connect_with_timeout calls)

-- The front of the queue, `none` for a result of false, and the members after it.
popped : List SyncEvent → Client → Option SyncEvent × Client
popped [] c = (none, c)
popped (event ∷ events) c = (some event, record c { event_queue = events })

unfoldable pub try_pop_event : Client → Option SyncEvent × Client
unfolding popped
try_pop_event c = popped c.event_queue c
