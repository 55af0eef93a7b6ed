-- ===== src/Window/Page/Reading.antt =====
-- The message `editorChanged` that `postNative` of ui/app.js writes, and what `HandleWebMessage` of
-- client/webview_window.cpp reads from it.
use share_note_pad.Base.{
  ℕ, ◌/◌, ◌%◌, ◌≡◌, refl, ap, ◌∙◌, Bool, true, false, not, ◌&&◌, ◌||◌, none, some, [], ◌∷◌, ◌++◌,
  append-nil, append_assoc, if◌then◌else◌, leb, ◌==◌, Text, codes, arith,
}
use share_note_pad.Protocol.Codec.{TextApi}
use share_note_pad.Storage.{has_prefix}
use share_note_pad.Sync.Transport.{Net}
use share_note_pad.Window.Editor.{handle_editor_changed}
use share_note_pad.Window.Page.Dispatch.{PageState, Surroundings, change_editor, handle_web_message}
use share_note_pad.Window.Page.{
  behind, hex_digit, escape_char, escape_json, extract_json_string, has_message_type, read_quoted,
  read_value, unescape_char,
}

-- Halves of a surrogate pair.
abbrev pub is_high : ℕ → Bool
is_high ch = leb 55296 ch && leb ch 56319

abbrev pub is_low : ℕ → Bool
is_low ch = leb 56320 ch && leb ch 57343

abbrev pub starts_low : Text → Bool
starts_low [] = false
starts_low (ch ∷ text) = is_low ch

-- A unit of a text in JSON: an unpaired surrogate is written as its four digits, every other unit as
-- `escape_char` writes it. `whole` is false for an unpaired surrogate.
unfoldable pub stringify_unit : Bool → ℕ → Text
unfolding hex_digit
stringify_unit whole ch =
    if whole
    then escape_char ch
    else codes "\\u"
      ++ hex_digit (ch / 4096)
        ∷ hex_digit (ch / 256 % 16)
        ∷ hex_digit (ch / 16 % 16)
        ∷ hex_digit (ch % 16)
        ∷ []

-- Whether a unit is no surrogate or one of a pair; `paired` says that it is the second one of a pair.
abbrev pub is_whole : Bool → ℕ → Text → Bool
is_whole paired ch text =
    paired || (not (is_high ch || is_low ch) || (is_high ch && starts_low text))

-- What `JSON.stringify` writes for the units of a text, between the quotes.
unfoldable pub stringify_from : Bool → Text → Text
stringify_from paired [] = []
stringify_from paired (ch ∷ text) =
    stringify_unit (is_whole paired ch text) ch
    ++ stringify_from (is_high ch && starts_low text) text

-- The message that `postNative` writes.
unfoldable pub editor_message : Text → Text
editor_message text =
    codes "{\"type\":\"editorChanged\",\"payload\":{\"text\":\""
    ++ (stringify_from false text ++ codes "\"}}")

-- A character that is not a control character, or one of the five with an escape of their own.
abbrev pub is_plain : ℕ → Bool
is_plain ch = leb 32 ch || ch == 8 || ch == 9 || ch == 10 || ch == 12 || ch == 13

unfoldable pub IsPlain : Text → Type 0
IsPlain [] = Unit
IsPlain (ch ∷ text) = (is_plain ch ≡ true) × IsPlain text

-- Every surrogate of the text is one of a pair.
unfoldable pub IsPaired : Bool → Text → Type 0
IsPaired paired [] = Unit
IsPaired paired (ch ∷ text) =
    (is_whole paired ch text ≡ true) × IsPaired (is_high ch && starts_low text) text

-- Then the page escapes the text as the window does.
stringify_from-paired :
    (paired : Bool) (text : Text)
    → IsPaired paired text
    → stringify_from paired text ≡ escape_json text
unfolding stringify_from stringify_unit escape_json IsPaired
stringify_from-paired paired [] h = refl
stringify_from-paired paired (ch ∷ text) (whole, h) =
    rw whole
      (ap (λ t. escape_char ch ++ t) (stringify_from-paired (is_high ch && starts_low text) text h))

-- The message with the text as the window escapes it.
escaped_message : Text → Text
escaped_message text =
    codes "{\"type\":\"editorChanged\",\"payload\":{\"text\":\""
    ++ (escape_json text ++ codes "\"}}")

editor_message-paired :
    (text : Text) → IsPaired false text → editor_message text ≡ escaped_message text
unfolding editor_message escaped_message
editor_message-paired text h =
    ap (λ t. codes "{\"type\":\"editorChanged\",\"payload\":{\"text\":\"" ++ (t ++ codes "\"}}"))
      (stringify_from-paired false text h)

-- One character is read back.
read_value-escape_char :
    (ch : ℕ) (value rest : Text)
    → is_plain ch ≡ true
    → read_value value false (escape_char ch ++ rest) ≡ read_value (value ++ ch ∷ []) false rest
unfolding read_value unescape_char escape_char
read_value-escape_char ch value rest h = ground arith

read_value-escape_json :
    (text value rest : Text)
    → IsPlain text
    → read_value value false (escape_json text ++ (b'"' ∷ rest)) ≡ some (value ++ text)
unfolding read_value escape_json IsPlain
read_value-escape_json [] value rest h = rw append-nil refl
read_value-escape_json (ch ∷ text) value rest (plain, h) = rw append_assoc (
    read_value-escape_char ch value _ plain
    ∙ read_value-escape_json text (value ++ ch ∷ []) rest h
    ∙ ap some (append_assoc value (ch ∷ []) text))

-- No member name ends in what is escaped: a quote in it has a backslash in front.
IsWord : Text → Type 0
IsWord [] = Unit
IsWord (c ∷ word) = ((c == b'"') ≡ false) × ((c == b'\\') ≡ false) × IsWord word

abbrev closing : Text
closing = codes "\"}}"

has_prefix-escape_char :
    (ch c : ℕ) (pattern rest : Text)
    → is_plain ch ≡ true
    → (c == b'\\') ≡ false
    → has_prefix rest pattern ≡ false
    → has_prefix (escape_char ch ++ rest) (c ∷ pattern) ≡ false
unfolding has_prefix escape_char
has_prefix-escape_char ch c pattern rest plain h later = ground arith

behind-escape_char :
    (ch : ℕ) (pattern rest : Text)
    → is_plain ch ≡ true
    → has_prefix rest pattern ≡ false
    → behind (b'"' ∷ pattern) rest ≡ none
    → behind (b'"' ∷ pattern) (escape_char ch ++ rest) ≡ none
unfolding behind has_prefix escape_char
behind-escape_char ch pattern rest plain h later = ground arith

is_word : IsWord (codes "type")
unfolding IsWord
is_word = search

module _ (last : Text) where
  has_prefix-escape_json :
      (word text : Text)
      → IsWord word
      → IsPlain text
      → has_prefix (escape_json text ++ closing) (word ++ (codes "\":" ++ last)) ≡ false
  unfolding has_prefix escape_json IsPlain IsWord escape_char
  has_prefix-escape_json [] [] w h = refl
  has_prefix-escape_json (c ∷ word) [] (quote, _, w) h = ground arith
  has_prefix-escape_json [] (ch ∷ text) w (plain, h) = ground arith
  has_prefix-escape_json (c ∷ word) (ch ∷ text) (quote, slash, w) (plain, h) =
      rw append_assoc
        (has_prefix-escape_char ch c _ _ plain slash (has_prefix-escape_json word text w h))

  -- Nothing in what is escaped looks like the type of a message.
  behind-escape_json :
      (text : Text)
      → IsPlain text
      → behind (codes "\"type\":" ++ last) (escape_json text ++ closing) ≡ none
  unfolding behind escape_json IsPlain IsWord has_prefix
  behind-escape_json [] h = refl
  behind-escape_json (ch ∷ text) (plain, h) = rw append_assoc (
      behind-escape_char ch (codes "type\":" ++ last) _ plain
        (has_prefix-escape_json (codes "type") text is_word h) (behind-escape_json text h))

no_ui_ready :
    (text : Text) → IsPlain text → has_message_type (escaped_message text) (codes "uiReady") ≡ false
unfolding has_message_type escaped_message behind has_prefix
no_ui_ready text h =
    rw
      (
        has_prefix-escape_json (codes "\"uiReady\"") (codes "type") text is_word h,
        behind-escape_json (codes "\"uiReady\"") text h,
      )
      refl

editor_changed :
    (text : Text) → has_message_type (escaped_message text) (codes "editorChanged") ≡ true
unfolding has_message_type escaped_message behind has_prefix
editor_changed text = refl

-- The text of the message is read from it.
extract_json_string-escaped_message :
    (text : Text)
    → IsPlain text
    → extract_json_string (escaped_message text) (codes "text") ≡ some text
unfolding extract_json_string escaped_message behind has_prefix read_quoted
extract_json_string-escaped_message text h = read_value-escape_json text [] (codes "}}") h

-- For every text without unpaired surrogates and without control characters other than the five that
-- have an escape of their own, the message `editorChanged` that the page writes for it is handled as
-- this message, and as the change of the editor to this very text, whatever the text holds, quotes and
-- names of other messages among them.
pub handle_web_message-editor_message :
    (api : TextApi) (net : Net) (o : Surroundings) (s : PageState) (text : Text)
    → IsPlain text
    → IsPaired false text
    → handle_web_message api net o s (editor_message text) ≡ (
        let (server', window') = handle_editor_changed api net s.server s.window text in
        record s { server = server'; window = window' })
unfolding handle_web_message change_editor
handle_web_message-editor_message api net o s text h paired =
    ap (handle_web_message api net o s) (editor_message-paired text paired)
    ∙ rw (no_ui_ready text h, editor_changed text, extract_json_string-escaped_message text h) refl
