-- ===== src/Sync/Log.antt =====
-- `AppendSessionLog` of client/sync_server.cpp with its time stamp, and `GenerateReconnectToken`. The
-- log file is its contents; the time, the path and what the calls of the system give are arguments.
use share_note_pad.Base.{
  ℕ, ◌-◌, Bool, true, false, not, ◌&&◌, Option, none, some, [], ◌∷◌, ◌++◌, if◌then◌else◌, length,
  replicate, take, Text, Bytes, codes, ◌==◌,
}
use share_note_pad.Protocol.Codec.{TextApi, is_empty, wide_to_utf8}
use share_note_pad.Protocol.Json.{format_unsigned}
use share_note_pad.Storage.{Write, writes_all, writes_only}

-- SYSTEMTIME.
pub record SystemTime : Type 0 where
  pub year : ℕ
  pub month : ℕ
  pub day : ℕ
  pub hour : ℕ
  pub minute : ℕ
  pub second : ℕ
  pub milliseconds : ℕ

-- `%0<width>hu`.
padded : ℕ → ℕ → Text
padded width value =
    let digits = format_unsigned value in replicate (width - length digits) b'0' ++ digits

unfoldable pub session_log_timestamp : SystemTime → Text
unfolding padded
session_log_timestamp t =
    padded 4 t.year
    ++ (b'-'
        ∷ (padded 2 t.month
            ++ (b'-'
                ∷ (padded 2 t.day
                    ++ (b' '
                        ∷ (padded 2 t.hour
                            ++ (b':'
                                ∷ (padded 2 t.minute
                                    ++ (b':'
                                        ∷ (padded 2 t.second
                                            ++ (b'.' ∷ padded 3 t.milliseconds)))))))))))

-- Whether the folder can be made and the file opened, and how much is written.
pub record LogDisk : Type 0 where
  pub creates_directory : Bool
  pub opens : Bool
  pub write : Write

-- The file, and `last_error_` of the server.
pub record LogFile : Type 0 where
  pub content : Bytes
  pub last_error : Text

write_log : Bytes → Write → LogFile → LogFile × Bool
write_log bytes writes_all f = (record f { content = f.content ++ bytes }, true)
write_log bytes (writes_only n) f = (
  record { content = f.content ++ take n bytes; last_error = codes "session.log write failed" },
  false,
)

unfoldable pub write_session_log :
    TextApi → LogDisk → Text → SystemTime → Text → LogFile → LogFile × Bool
unfolding write_log
write_session_log api disk path now message f =
    let line = session_log_timestamp now ++ (b' ' ∷ (message ++ b'\n' ∷ [])) in
    let bytes = wide_to_utf8 api line in
    if is_empty path
    then (f, true)
    else if not disk.creates_directory
    then (record f { last_error = codes "session.log directory creation failed" }, false)
    else if is_empty bytes && not (is_empty line)
    then (record f { last_error = codes "session.log encoding failed" }, false)
    else if not disk.opens
    then (record f { last_error = codes "session.log open failed" }, false)
    else write_log bytes disk.write f

-- The text without its last unit, if this is a closing brace.
before_brace : Text → Option Text
before_brace [] = none
before_brace (c ∷ []) = if c == b'}' then some [] else none
before_brace (c ∷ d ∷ rest) = elim (before_brace (d ∷ rest)) [
  | none ↦ none
  | some front ↦ some (c ∷ front)
]

or_whole : Text → Option Text → Text
or_whole text none = text
or_whole text (some inside) = inside

without_braces : Text → Text
unfolding before_brace or_whole
without_braces [] = []
without_braces (c ∷ rest) = if c == b'{' then or_whole (c ∷ rest) (before_brace rest) else c ∷ rest

-- `none` where `CoCreateGuid` or `StringFromGUID2` fails.
unfoldable pub generate_reconnect_token : Option Text → Text
unfolding without_braces
generate_reconnect_token none = codes "local-token"
generate_reconnect_token (some guid) = without_braces guid
