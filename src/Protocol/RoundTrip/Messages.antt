-- ===== src/Protocol/RoundTrip/Messages.antt =====
-- The round trip of client/protocol.cpp: `DeserializeMessage` after `SerializeMessage`.
use share_note_pad.Base.{
  ℕ, ◌≤◌, ◌<◌, ◌≡◌, refl, ap, ◌∙◌, false, Option, some, none, List, [], ◌∷◌, ◌++◌, arith, Text,
  Bytes, codes, if◌then◌else◌, text_eq, text_eq_iff, length, length-append, Bool-cases,
  Option-cases, inl, inr,
}
use share_note_pad.Protocol.Codec.{
  ok, TextApi, is_common_field, is_empty, is_unknown, finish_message, parse_message,
  parse_message-object, message_text, wide_to_utf8, utf8_to_wide, serialize_message,
  deserialize_message, max_frame_payload_bytes,
}
use share_note_pad.Protocol.Fields.{Fields, lookup, IsSorted}
use share_note_pad.Protocol.Json.{max_u64, skip_whitespace, escape_json_string, format_unsigned}
use share_note_pad.Protocol.Message.{
  ProtocolMessage, empty_message, set_string, get_string, get_number, get_string-set_string,
  get_number-set_string, message_type_to_string, message_type_from_string-to_string,
}
use share_note_pad.Protocol.RoundTrip.Items.{
  Item, text_item, number_item, item_text, tail_text, set_item, set_items, Fits,
}
use share_note_pad.Protocol.RoundTrip.Lookups.{
  over, over-none, set_items-append, SameHead-string_items, SameHead-number_items,
  get_string-string_items, get_number-number_items, get_number-string_items,
  get_string-number_items,
}
use share_note_pad.Protocol.RoundTrip.Parsed.{parse_fields-items}
use share_note_pad.Protocol.RoundTrip.Printed.{
  string_items, number_items, rest_items, message_text-items,
}

-- Every number of the map is a `uint64_t`.
abbrev pub AllU64 : Fields ℕ → Type 0
AllU64 [] = Unit
AllU64 ((_, n) ∷ fs) = (n ≤ max_u64) × AllU64 fs

-- The maps of a message are maps, and its numbers are `uint64_t`s.
pub record IsMessage (m : ProtocolMessage) : Type 0 where
  pub strings_sorted : IsSorted m.strings
  pub numbers_sorted : IsSorted m.numbers
  pub numbers_fit : AllU64 m.numbers

-- What the text map of a received message holds under `key`.
pub received_string : ProtocolMessage → Text → Option Text
received_string m key =
    if text_eq key (codes "type")
    then some (message_type_to_string m.type)
    else if text_eq key (codes "session")
    then some m.session
    else if text_eq key (codes "client")
    then some m.client
    else get_string key m

-- `m'` is `m` as the other side receives it: the same members and numbers, the same texts, and
-- copies of the three members among the texts.
pub record Received (m m' : ProtocolMessage) : Type 0 where
  pub type : m'.type ≡ m.type
  pub session : m'.session ≡ m.session
  pub client : m'.client ≡ m.client
  pub numbers : (key : Text) → get_number key m' ≡ get_number key m
  pub strings : (key : Text) → get_string key m' ≡ received_string m key

abbrev all_items : ProtocolMessage → List Item
all_items m = text_item (codes "type") (message_type_to_string m.type) ∷ rest_items m

-- The message after the three common fields.
head_of : ProtocolMessage → ProtocolMessage
head_of m = set_string (codes "client") m.client (
    set_string (codes "session") m.session
      (set_string (codes "type") (message_type_to_string m.type) empty_message))

set_all-head :
    (m : ProtocolMessage)
    → set_items empty_message (all_items m)
      ≡ set_items (set_items (head_of m) (string_items m.strings)) (number_items m.numbers)
unfolding set_items set_item rest_items head_of
set_all-head m = set_items-append (string_items m.strings) (number_items m.numbers) (head_of m)

Received-head :
    (m : ProtocolMessage)
    → ((head_of m).type ≡ m.type)
      × ((head_of m).session ≡ m.session)
      × ((head_of m).client ≡ m.client)
unfolding head_of set_string text_eq
Received-head m = (message_type_from_string-to_string m.type, refl, refl)

get_string-empty : (key : Text) → get_string key empty_message ≡ none
unfolding get_string lookup
get_string-empty key = refl

get_string-head :
    (m : ProtocolMessage) (key : Text)
    → get_string key (head_of m) ≡ (
        if text_eq key (codes "type")
        then some (message_type_to_string m.type)
        else if text_eq key (codes "session")
        then some m.session
        else if text_eq key (codes "client")
        then some m.client
        else none)
unfolding head_of
get_string-head m key =
    let typed = set_string (codes "type") (message_type_to_string m.type) empty_message in
    let named = set_string (codes "session") m.session typed in
    ground (
      arith,
      get_string-set_string (codes "client") key m.client named,
      get_string-set_string (codes "session") key m.session typed,
      get_string-set_string (codes "type") key (message_type_to_string m.type) empty_message,
      get_string-empty key,
      text_eq_iff (codes "client") key,
      text_eq_iff (codes "session") key,
      text_eq_iff (codes "type") key,
      text_eq_iff key (codes "client"),
      text_eq_iff key (codes "session"),
      text_eq_iff key (codes "type"),
    )

get_number-head : (m : ProtocolMessage) (key : Text) → get_number key (head_of m) ≡ none
unfolding head_of
get_number-head m key =
    get_number-set_string (codes "client") key _ _
    ∙ get_number-set_string (codes "session") key _ _
    ∙ get_number-set_string (codes "type") key _ empty_message
    ∙ unfold get_number lookup in refl

numbers_received :
    (m : ProtocolMessage) (key : Text)
    → over (lookup key m.numbers) (get_number key (set_items (head_of m) (string_items m.strings)))
      ≡ get_number key m
unfolding get_number
numbers_received m key =
    let before = get_number-string_items key m.strings (head_of m) ∙ get_number-head m key in
    ap (over (lookup key m.numbers)) before ∙ over-none (lookup key m.numbers)

texts_received :
    (m : ProtocolMessage) (key : Text)
    → (if is_common_field key
        then get_string key (head_of m)
        else over (lookup key m.strings) (get_string key (head_of m)))
      ≡ received_string m key
unfolding is_common_field received_string get_string
texts_received m key = ground (arith, get_string-head m key, over-none (lookup key m.strings))

Received-set_all :
    (m : ProtocolMessage) → IsMessage m → Received m (set_items empty_message (all_items m))
Received-set_all m v = rw (set_all-head m) (
    let (t, s, c) = Received-head m in
    let texts = SameHead-string_items m.strings (head_of m) in
    let all = SameHead-number_items m.numbers (set_items (head_of m) (string_items m.strings)) in
    record {
      type = all.type ∙ texts.type ∙ t;
      session = all.session ∙ texts.session ∙ s;
      client = all.client ∙ texts.client ∙ c;
      numbers =
          λ key. get_number-number_items key m.numbers _ v.numbers_sorted ∙ numbers_received m key;
      strings = λ key.
          get_string-number_items key m.numbers _
          ∙ get_string-string_items key m.strings _ v.strings_sorted
          ∙ texts_received m key;
    })

Fits-append : (xs ys : List Item) → Fits xs → Fits ys → Fits (xs ++ ys)
Fits-append [] ys h k = k
Fits-append (text_item _ _ ∷ xs) ys h k = Fits-append xs ys h k
Fits-append (number_item _ _ ∷ xs) ys h k = (h.0, Fits-append xs ys h.1 k)

Fits-string_items : (fs : Fields Text) → Fits (string_items fs)
unfolding string_items
Fits-string_items [] = tt
Fits-string_items ((k, v) ∷ fs) = elim (Bool-cases (is_common_field k)) [
  | inl common ↦ rw common (Fits-string_items fs)
  | inr other ↦ rw other (Fits-string_items fs)
]

Fits-number_items : (fs : Fields ℕ) → AllU64 fs → Fits (number_items fs)
unfolding number_items
Fits-number_items [] h = tt
Fits-number_items ((k, n) ∷ fs) h = (h.0, Fits-number_items fs h.1)

Fits-all_items : (m : ProtocolMessage) → IsMessage m → Fits (all_items m)
unfolding rest_items
Fits-all_items m v =
    Fits-append (string_items m.strings) (number_items m.numbers) (Fits-string_items m.strings)
      (Fits-number_items m.numbers v.numbers_fit)

-- A field takes more than one character, so there are fewer fields than characters.
lt-length-item_text : (i : Item) (rest : Text) → length rest < length (item_text i rest)
unfolding item_text
lt-length-item_text (text_item k v) rest = omega (
  arith,
  length-append (escape_json_string k)
      (b'"' ∷ b':' ∷ b'"' ∷ (escape_json_string v ++ (b'"' ∷ rest))),
  length-append (escape_json_string v) (b'"' ∷ rest),
)
lt-length-item_text (number_item k n) rest = omega (
  arith,
  length-append (escape_json_string k) (b'"' ∷ b':' ∷ (format_unsigned n ++ rest)),
  length-append (format_unsigned n) rest,
)

length-le-tail_text : (items : List Item) → length items ≤ length (tail_text items)
unfolding tail_text
length-le-tail_text [] = omega arith
length-le-tail_text (i ∷ items) =
    omega (arith, length-le-tail_text items, lt-length-item_text i (tail_text items))

parse_message-text :
    (m : ProtocolMessage)
    → IsMessage m
    → parse_message (message_text m) ≡ finish_message (set_items empty_message (all_items m)) []
unfolding item_text
parse_message-text m v = rw (message_text-items m) (
    parse_message-object _ _ (
      parse_fields-items (rest_items m) _ (text_item (codes "type") _) empty_message
        (Fits-all_items m v)
        (omega (
          arith,
          length-le-tail_text (rest_items m),
          lt-length-item_text (text_item (codes "type") (message_type_to_string m.type))
              (tail_text (rest_items m)),
        ))))

-- What `SerializeMessage` has checked when it succeeds.
record Serialized (api : TextApi) (m : ProtocolMessage) (bytes : Bytes) : Type 0 where
  known : is_unknown m.type ≡ false
  session : is_empty m.session ≡ false
  client : is_empty m.client ≡ false
  full : is_empty bytes ≡ false
  fits : length bytes ≤ max_frame_payload_bytes
  text : wide_to_utf8 api (message_text m) ≡ bytes

serialize_message-inv :
    (api : TextApi) (m : ProtocolMessage) (bytes : Bytes)
    → serialize_message api m ≡ ok bytes
    → Serialized api m bytes
unfolding serialize_message
serialize_message-inv api m bytes h = ground arith

-- What is sent fits into a frame.
pub serialize_message-fits :
    (api : TextApi) (m : ProtocolMessage) (bytes : Bytes)
    → serialize_message api m ≡ ok bytes
    → length bytes ≤ max_frame_payload_bytes
serialize_message-fits api m bytes h = (serialize_message-inv api m bytes h).fits

utf8_to_wide-wide_to_utf8 :
    (api : TextApi) (text : Text) (bytes : Bytes)
    → is_empty bytes ≡ false
    → wide_to_utf8 api text ≡ bytes
    → utf8_to_wide api bytes ≡ some text
unfolding wide_to_utf8 utf8_to_wide
utf8_to_wide-wide_to_utf8 api [] [] h e = cc
utf8_to_wide-wide_to_utf8 api [] (b ∷ bytes) h e = cc
utf8_to_wide-wide_to_utf8 api (c ∷ text) [] h e = cc
utf8_to_wide-wide_to_utf8 api (c ∷ text) (b ∷ bytes) h e =
    elim (Option-cases (api.wide_to_multi_byte (c ∷ text))) [
      | inl x ↦ ground arith
      | inr (r, x) ↦ ground (arith, api.converts_back (c ∷ text) r x)
    ]

finish_message-Received :
    (m m' : ProtocolMessage)
    → Received m m'
    → is_unknown m.type ≡ false
    → is_empty m.session ≡ false
    → is_empty m.client ≡ false
    → finish_message m' [] ≡ ok m'
unfolding finish_message skip_whitespace
finish_message-Received m m' r t s c = ground (arith, r.type, r.session, r.client)

deserialize_message-text :
    (api : TextApi) (bytes : Bytes) (text : Text)
    → length bytes ≤ max_frame_payload_bytes
    → utf8_to_wide api bytes ≡ some text
    → deserialize_message api bytes ≡ parse_message text
unfolding deserialize_message
deserialize_message-text api bytes text h e = ground arith

-- Whatever `SerializeMessage` accepts, `DeserializeMessage` reads back: the type, the session, the
-- client, every number and every text are the ones of the message, and the text map holds copies of
-- the three members besides. The maps of the message are in the order of their keys, its numbers
-- are below 2^64, and the Windows conversions undo one another.
pub deserialize-serialize :
    (api : TextApi) (m : ProtocolMessage) (bytes : Bytes)
    → IsMessage m
    → serialize_message api m ≡ ok bytes
    → (m' : ProtocolMessage) × (deserialize_message api bytes ≡ ok m') × Received m m'
deserialize-serialize api m bytes v h =
    let s = serialize_message-inv api m bytes h in
    let r = Received-set_all m v in
    let decoded = utf8_to_wide-wide_to_utf8 api (message_text m) bytes s.full s.text in
    (
      set_items empty_message (all_items m),
      deserialize_message-text api bytes (message_text m) s.fits decoded
          ∙ parse_message-text m v
          ∙ finish_message-Received m _ r s.known s.session s.client,
      r,
    )
