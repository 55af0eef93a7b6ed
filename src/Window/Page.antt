-- ===== src/Window/Page.antt =====
-- The messages between the page and the window of client/webview_window.cpp: `EscapeJson`,
-- `ExtractJsonString`, `HasMessageType`, what `PostStatus`, `PostRoomCreated` and `PostDocument`
-- write, `FilePathToUri` and `GenerateSessionCode`.
pub mod Dispatch
pub mod Reading
pub mod Tests
use share_note_pad.Base.{
  ℕ, ◌+◌, ◌-◌, ◌/◌, ◌%◌, Bool, true, false, Option, none, some, [], ◌∷◌, ◌++◌, ltb, ◌==◌,
  if◌then◌else◌, length, drop, replicate, Text, codes,
}
use share_note_pad.Protocol.Json.{format_unsigned}
use share_note_pad.Storage.{has_prefix}

-- The hexadecimal digits that `std::hex` writes.
hex_digit : ℕ → ℕ
hex_digit digit = if ltb digit 10 then b'0' + digit else b'a' + (digit - 10)

-- A control character is below 32, so that the first two of the four digits are 0.
unfoldable pub escape_char : ℕ → Text
unfolding hex_digit
escape_char ch =
    if ch == b'\\'
    then b'\\' ∷ b'\\' ∷ []
    else if ch == b'"'
    then b'\\' ∷ b'"' ∷ []
    else if ch == 8
    then b'\\' ∷ b'b' ∷ []
    else if ch == 12
    then b'\\' ∷ b'f' ∷ []
    else if ch == 10
    then b'\\' ∷ b'n' ∷ []
    else if ch == 13
    then b'\\' ∷ b'r' ∷ []
    else if ch == 9
    then b'\\' ∷ b't' ∷ []
    else if ltb ch 32
    then codes "\\u00" ++ hex_digit (ch / 16) ∷ hex_digit (ch % 16) ∷ []
    else ch ∷ []

unfoldable pub escape_json : Text → Text
escape_json [] = []
escape_json (ch ∷ value) = escape_char ch ++ escape_json value

-- What stands behind the first place where `find` finds the pattern, which is never empty.
unfoldable pub behind : Text → Text → Option Text
behind pattern [] = none
behind pattern (ch ∷ json) =
    let later = behind pattern json in
    if has_prefix (ch ∷ json) pattern then some (drop (length pattern) (ch ∷ json)) else later

unfoldable pub unescape_char : ℕ → ℕ
unescape_char ch =
    if ch == b'b'
    then 8
    else if ch == b'f'
    then 12
    else if ch == b'n'
    then 10
    else if ch == b'r'
    then 13
    else if ch == b't'
    then 9
    else ch

-- The loop of `ExtractJsonString`, with `value` and `escaping`.
unfoldable pub read_value : Text → Bool → Text → Option Text
unfolding unescape_char
read_value value escaping [] = none
read_value value true (ch ∷ json) = read_value (value ++ unescape_char ch ∷ []) false json
read_value value false (ch ∷ json) =
    let kept = if ch == b'\\' then value else value ++ ch ∷ [] in
    let more = read_value kept (ch == b'\\') json in if ch == b'"' then some value else more

unfoldable pub read_quoted : Option Text → Option Text
read_quoted none = none
read_quoted (some json) = read_value [] false json

behind_next : Text → Option Text → Option Text
behind_next pattern none = none
behind_next pattern (some json) = behind pattern json

unfoldable pub extract_json_string : Text → Text → Option Text
unfolding behind_next
extract_json_string json key =
    let colon = behind_next (codes ":") (behind (b'"' ∷ (key ++ b'"' ∷ [])) json) in
    read_quoted (behind_next (codes "\"") colon)

unfoldable pub is_found : Option Text → Bool
is_found none = false
is_found (some _) = true

unfoldable pub has_message_type : Text → Text → Bool
unfolding is_found
has_message_type json type = is_found (behind (codes "\"type\":\"" ++ (type ++ codes "\"")) json)

-- What `PostStatus`, `PostRoomCreated` and `PostDocument` send to the page.
unfoldable pub status_json : Text → Text → Text
status_json save_status connection_status =
    codes "{\"type\":\"statusChanged\",\"payload\":{\"saveStatus\":\""
    ++ (escape_json save_status
        ++ (codes "\",\"connectionStatus\":\"" ++ (escape_json connection_status ++ codes "\"}}")))

unfoldable pub room_json : Text → Text
room_json code =
    codes "{\"type\":\"roomCreated\",\"payload\":{\"code\":\"" ++ (escape_json code ++ codes "\"}}")

unfoldable pub document_json : Text → Text
document_json text =
    codes "{\"type\":\"hydrateDocument\",\"payload\":{\"text\":\""
    ++ (escape_json text ++ codes "\"}}")

-- `FilePathToUri`, after every `\` has become a `/`.
uri_char : ℕ → Text
uri_char ch =
    if ch == b' '
    then codes "%20"
    else if ch == b'%'
    then codes "%25"
    else if ch == b'#'
    then codes "%23"
    else ch ∷ []

uri_chars : Text → Text
unfolding uri_char
uri_chars [] = []
uri_chars (ch ∷ path) = uri_char (if ch == b'\\' then b'/' else ch) ++ uri_chars path

unfoldable pub file_path_to_uri : Text → Text
unfolding uri_chars
file_path_to_uri path = codes "file:///" ++ uri_chars path

-- `GenerateSessionCode`, for the number from 0 to 999999 that is drawn.
unfoldable pub generate_session_code : ℕ → Text
generate_session_code drawn =
    let digits = format_unsigned drawn in replicate (6 - length digits) b'0' ++ digits
