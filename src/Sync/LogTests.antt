-- ===== src/Sync/LogTests.antt =====
-- Runs of the session log, the reconnect token, `ConnectWithTimeout` and `TryPopEvent`.
use share_note_pad.Base.{◌≡◌, refl, true, false, none, some, [], codes}
use share_note_pad.Protocol.Codec.{wide_to_utf8}
use share_note_pad.Protocol.Json.{digits_onto, format_unsigned}
use share_note_pad.Protocol.Tests.{ascii_api}
use share_note_pad.Storage.{writes_all, writes_only}
use share_note_pad.Sync.Client.{connect_timeout, opened}
use share_note_pad.Sync.Connecting.{
  ConnectCalls, open_connection, selects, stops, times_out, try_pop_event,
}
use share_note_pad.Sync.Log.{
  generate_reconnect_token, session_log_timestamp, SystemTime, write_session_log,
}
use share_note_pad.Sync.Tests.{joined_client}

abbrev now : SystemTime
now = record {
  year = 2026;
  month = 3;
  day = 9;
  hour = 8;
  minute = 5;
  second = 59;
  milliseconds = 7;
}

stamp : session_log_timestamp now ≡ codes "2026-03-09 08:05:59.007"
unfolding session_log_timestamp format_unsigned digits_onto
stamp = refl

line_written :
    write_session_log ascii_api
      (record { creates_directory = true; opens = true; write = writes_all })
      (codes "session.log")
      now
      (codes "STOP session=1")
      (record { content = []; last_error = [] })
    ≡ (record { content = codes "2026-03-09 08:05:59.007 STOP session=1\n"; last_error = [] }, true)
unfolding write_session_log wide_to_utf8 session_log_timestamp format_unsigned digits_onto
line_written = refl

line_cut :
    write_session_log ascii_api
      (record { creates_directory = true; opens = true; write = writes_only 4 })
      (codes "session.log")
      now
      (codes "STOP")
      (record { content = codes "a\n"; last_error = [] })
    ≡ (record { content = codes "a\n2026"; last_error = codes "session.log write failed" }, false)
unfolding write_session_log wide_to_utf8 session_log_timestamp format_unsigned digits_onto
line_cut = refl

token_inside : generate_reconnect_token (some (codes "{0f8fad5b}")) ≡ codes "0f8fad5b"
unfolding generate_reconnect_token
token_inside = refl

token_kept : generate_reconnect_token (some (codes "{0f8fad5b")) ≡ codes "{0f8fad5b"
unfolding generate_reconnect_token
token_kept = refl

-- WSAEWOULDBLOCK, and the socket is connected in time, or not.
abbrev pending : ConnectCalls
pending = record {
  sets_mode = true;
  started = stops 10035;
  selected = selects true;
  socket_error = some 0;
}

connects_later : open_connection 7 pending ≡ opened 7
unfolding open_connection
connects_later = refl

connects_late : open_connection 7 (record pending { selected = times_out }) ≡ connect_timeout 7
unfolding open_connection
connects_late = refl

nothing_queued :
    try_pop_event (record joined_client { event_queue = [] })
    ≡ (none, record joined_client { event_queue = [] })
unfolding try_pop_event
nothing_queued = refl
