-- ===== src/Discovery/Tests.antt =====
-- Runs of the discovery, and its theorems at them.
use share_note_pad.Base.{◌≡◌, refl, true, false, none, some, List, [], ◌∷◌, codes, text_eq, arith}
use share_note_pad.Discovery.{build_message, Reception, socket_error, datagram, find_room}
use share_note_pad.Discovery.Announcer.{announce_loop, Announcer, binds, find, opened, start}
use share_note_pad.Discovery.Hearing.{find-announce_loop, heard}
use share_note_pad.Discovery.Announcing.{Found, find_room-Found}
use share_note_pad.Protocol.Codec.{wide_to_utf8, utf8_to_wide}
use share_note_pad.Protocol.Json.{format_unsigned}
use share_note_pad.Protocol.Tests.{ascii_api}

announcement :
    build_message ascii_api (codes "482913") 7777
    ≡ codes "SHARENOTEPAD_DISCOVERY v=1 session=482913 port=7777"
unfolding build_message wide_to_utf8 format_unsigned
announcement = refl

-- An error, another room, and the room from two senders.
abbrev receptions : List Reception
receptions =
    socket_error
    ∷ datagram (codes "SHARENOTEPAD_DISCOVERY v=1 session=000000 port=7780")
        (some (codes "10.0.0.2"))
    ∷ datagram (codes "SHARENOTEPAD_DISCOVERY v=1 session=482913 port=7777")
        (some (codes "10.0.0.3"))
    ∷ datagram (codes "SHARENOTEPAD_DISCOVERY v=1 session=482913 port=7778")
        (some (codes "10.0.0.4"))
    ∷ []

find_room-Found_example :
    Found ascii_api (codes "482913") receptions (find_room ascii_api (codes "482913") receptions)
find_room-Found_example = find_room-Found ascii_api (codes "482913") receptions

abbrev announcer : Announcer
announcer = record {
  socket = none;
  session_code = [];
  tcp_port = 0;
  discovery_port = 7776;
  running = false;
  last_error = [];
  closed = [];
}

find-announce_loop_example :
    let (started, _) = start (opened 5) (codes "482913") 7777 7776 announcer in
    find ascii_api binds (codes "482913") (
      heard
        (codes "10.0.0.3")
        (announce_loop ascii_api ((false, false) ∷ (true, true) ∷ []) started).1)
    ≡ (some (codes "10.0.0.3", 7777), [])
unfolding text_eq wide_to_utf8 utf8_to_wide
find-announce_loop_example =
    find-announce_loop ascii_api (codes "482913") (codes "482913") (codes "10.0.0.3") 7777
      (omega arith) (omega arith) refl (refl, (refl, (refl, (refl, (refl, (refl, tt)))))) 5 7776
      announcer ((false, false) ∷ (true, true) ∷ [])
