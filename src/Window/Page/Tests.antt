-- ===== src/Window/Page/Tests.antt =====
-- Messages of the page, and the theorem about them at one of them.
use share_note_pad.Base.{◌≡◌, refl, true, false, none, some, [], ◌∷◌, ◌++◌, Text, codes}
use share_note_pad.Protocol.Json.{digits_onto, format_unsigned}
use share_note_pad.Protocol.Tests.{ascii_api}
use share_note_pad.Storage.{has_prefix}
use share_note_pad.Sync.Receive.{timeout}
use share_note_pad.Sync.Session.{bound}
use share_note_pad.Sync.Tests.{joined_client, room, slow_net}
use share_note_pad.Window.Editor.{handle_editor_changed}
use share_note_pad.Window.Page.Dispatch.{PageState, Surroundings, handle_web_message}
use share_note_pad.Window.Page.Reading.{
  IsPaired, IsPlain, editor_message, stringify_from, stringify_unit,
  handle_web_message-editor_message,
}
use share_note_pad.Window.Page.{
  behind, document_json, escape_char, escape_json, extract_json_string, file_path_to_uri,
  generate_session_code, has_message_type, is_found, read_quoted, read_value, unescape_char,
}
use share_note_pad.Window.Tests.{host_window}

abbrev surroundings : Surroundings
surroundings = record {
  winsock = true;
  content = codes "note";
  drawn = 4711;
  probe = λ port. bound;
  port = 7777;
  find = λ code. none;
  device_id = codes "device";
  nickname = codes "User";
  now = 0;
  response = timeout;
}

abbrev page : PageState
page = record { server = room; client = joined_client; window = host_window; closing = false }

-- With quotes, the name of another message, a line break and a surrogate pair.
abbrev tricky_text : Text
tricky_text = codes "a\\\"type\":\"uiReady\"\n" ++ 55357 ∷ 56832 ∷ []

tricky_text-IsPlain : IsPlain tricky_text
unfolding IsPlain
tricky_text-IsPlain = search

tricky_text-IsPaired : IsPaired false tricky_text
unfolding IsPaired
tricky_text-IsPaired = search

handle_web_message-editor_message_example :
    handle_web_message ascii_api slow_net surroundings page (editor_message tricky_text) ≡ (
      let (server', window') =
        handle_editor_changed ascii_api slow_net page.server page.window tricky_text in
      record page { server = server'; window = window' })
handle_web_message-editor_message_example =
    handle_web_message-editor_message ascii_api slow_net surroundings page tricky_text
      tricky_text-IsPlain tricky_text-IsPaired

quit_closes :
    handle_web_message ascii_api slow_net surroundings page
      (codes "{\"type\":\"quit\",\"payload\":{}}")
    ≡ record page { closing = true }
unfolding handle_web_message has_message_type is_found behind has_prefix
quit_closes = refl

-- A vertical tab, which `EscapeJson` writes as its four digits, is not read back.
vertical_tab_lost :
    extract_json_string (document_json (codes "a" ++ 11 ∷ [])) (codes "text")
    ≡ some (codes "au000b")
unfolding extract_json_string document_json escape_json escape_char behind has_prefix read_quoted
    read_value unescape_char
vertical_tab_lost = refl

-- Nor is an unpaired surrogate, which the page writes as its digits.
surrogate_lost :
    extract_json_string (editor_message (55296 ∷ [])) (codes "text") ≡ some (codes "ud800")
unfolding extract_json_string editor_message stringify_from stringify_unit behind has_prefix
    read_quoted read_value unescape_char
surrogate_lost = refl

file_uri : file_path_to_uri (codes "C:\\My #1\\ui") ≡ codes "file:///C:/My%20%231/ui"
unfolding file_path_to_uri
file_uri = refl

short_number : generate_session_code 4711 ≡ codes "004711"
unfolding generate_session_code format_unsigned digits_onto
short_number = refl
