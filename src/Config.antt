-- ===== src/Config.antt =====
-- The class `Config` of client/config.cpp, which keeps the settings in config.ini. The folder is kept
-- as the contents of that file; what the calls of the system give is an argument.
pub mod Lines
pub mod Saving
pub mod Defaults
pub mod Tests
use share_note_pad.Base.{
  ℕ, ◌+◌, ◌-◌, Bool, true, false, not, ◌&&◌, ◌||◌, Option, some, none, List, [], ◌∷◌, ◌++◌, ltb,
  leb, ◌==◌, if◌then◌else◌, length, take, drop, get_elem?, Text, Bytes, codes, text_eq,
}
use mathlib.Core.List.{map}
use share_note_pad.Config.Lines.{trim, find_equals, lines_of}
use share_note_pad.Numbers.{stoul}
use share_note_pad.Protocol.Codec.{TextApi, is_empty, wide_to_utf8, utf8_to_wide}
use share_note_pad.Protocol.Json.{format_unsigned}
use share_note_pad.Storage.{Write, writes_all, writes_only, has_prefix, utf8_mark}

pub record Config : Type 0 where
  pub device_id : Text
  pub nickname : Text
  pub port : ℕ
  pub last_error : Text
  pub file : Option Bytes  -- config.ini

-- Whether the folder can be made, the file opened to read and to write, and what is written.
pub record ConfigDisk : Type 0 where
  pub creates_directory : Bool
  pub opens_to_read : Bool
  pub opens_to_write : Bool
  pub write : Write

-- kDefaultPort and kDefaultNickname.
abbrev pub default_port : ℕ
default_port = 7777

abbrev pub default_nickname : Text
default_nickname = codes "User"

-- `towlower` on the characters of a GUID.
to_lower : ℕ → ℕ
to_lower ch = if leb b'A' ch && leb ch b'Z' then ch + 32 else ch

is_brace : ℕ → Option ℕ → Bool
is_brace brace none = false
is_brace brace (some c) = c == brace

without_braces : Text → Text
without_braces value =
    if leb 2 (length value)
      && (is_brace b'{' (get_elem? value 0) && is_brace b'}' (get_elem? value (length value - 1)))
    then take (length value - 2) (drop 1 value)
    else value

-- `GenerateDeviceId`: the text of the GUID, or `none` where one of the calls fails.
unfoldable pub generate_device_id : Option Text → Text
unfolding without_braces to_lower is_brace
generate_device_id none = codes "local-device"
generate_device_id (some guid) = map to_lower (without_braces guid)

-- `ParsePort`; `none` is a result of false.
pub in_range : Option ℕ → Option ℕ
in_range none = none
in_range (some parsed) = if parsed == 0 || ltb 65535 parsed then none else some parsed

unfoldable pub parse_port : Text → Option ℕ
unfolding in_range
parse_port value = in_range (stoul value)

-- The flag `changed` beside the settings.
pub set_port : Option ℕ → Config × Bool → Config × Bool
set_port (some parsed) (c, changed) = (record c { port = parsed }, changed)
set_port none (c, changed) = (record c { port = default_port }, true)

unfoldable pub set_value : Text → Text → Config × Bool → Config × Bool
unfolding set_port
set_value key value (c, changed) =
    if text_eq key (codes "device_id")
    then (record c { device_id = value }, changed)
    else if text_eq key (codes "nickname")
    then (record c { nickname = value }, changed)
    else if text_eq key (codes "port")
    then set_port (parse_port value) (c, changed)
    else (c, changed)

pub is_comment : Text → Bool
is_comment [] = true
is_comment (c ∷ line) = c == b'#' || c == b';'

pub set_at : Text → Option ℕ → Config × Bool → Config × Bool
set_at line none r = r
set_at line (some equals) r = set_value (trim (take equals line)) (trim (drop (equals + 1) line)) r

-- One round of the loop of `LoadExisting`.
unfoldable pub load_line : Text → Config × Bool → Config × Bool
unfolding is_comment set_at
load_line line r =
    let trimmed = trim line in
    if is_comment trimmed then r else set_at trimmed (find_equals trimmed) r

unfoldable pub load_lines : List Text → Config × Bool → Config × Bool
load_lines [] r = r
load_lines (line ∷ lines) r = load_lines lines (load_line line r)

-- `ApplyDefaults`, with the device id that is generated.
pub default_device : Text → Config × Bool → Config × Bool
default_device generated (c, changed) =
    if is_empty c.device_id then (record c { device_id = generated }, true) else (c, changed)

pub default_name : Config × Bool → Config × Bool
default_name (c, changed) =
    if is_empty c.nickname then (record c { nickname = default_nickname }, true) else (c, changed)

pub default_number : Config × Bool → Config × Bool
default_number (c, changed) =
    if c.port == 0 then (record c { port = default_port }, true) else (c, changed)

unfoldable pub apply_defaults : Text → Config × Bool → Config × Bool
unfolding default_device default_name default_number
apply_defaults generated r = default_number (default_name (default_device generated r))

pub loaded : Config × Bool → Option Text → Config × Bool × Bool
loaded (c, changed) none =
    (record c { last_error = codes "config.ini를 읽을 수 없습니다." }, changed, false)
loaded r (some text) = let (c, changed) = load_lines (lines_of text) r in (c, changed, true)

-- What `Save` writes.
unfoldable pub settings_text : Config → Text
settings_text c =
    codes "device_id="
    ++ (c.device_id
        ++ (codes "\nnickname="
            ++ (c.nickname ++ (codes "\nport=" ++ (format_unsigned c.port ++ codes "\n")))))

pub write_settings : Bytes → Config → Write → Config × Bool
write_settings bytes c writes_all = (record c { file = some bytes; last_error = [] }, true)
write_settings bytes c (writes_only n) =
    (record c { file = some (take n bytes); last_error = codes "config.ini 쓰기에 실패했습니다." }, false)

pub done_saving : Config × Bool → Config × Bool
done_saving (c, false) = (c, false)
done_saving (c, true) = (record c { last_error = [] }, true)

module _ (api : TextApi) where
  -- `ReadUtf8File`.
  unfoldable pub read_utf8_file : ConfigDisk → Option Bytes → Option Text
  read_utf8_file disk none = none
  read_utf8_file disk (some bytes) =
      if not disk.opens_to_read
      then none
      else utf8_to_wide api (if has_prefix bytes utf8_mark then drop 3 bytes else bytes)

  -- `LoadExisting`: the settings, `changed` and the result.
  unfoldable pub load_existing : ConfigDisk → Config × Bool → Config × Bool × Bool
  unfolding loaded
  load_existing disk (c, changed) = loaded (c, changed) (read_utf8_file disk c.file)

  -- `Save`.
  unfoldable pub save : ConfigDisk → Config → Config × Bool
  unfolding write_settings
  save disk c =
      let bytes = wide_to_utf8 api (settings_text c) in
      if not disk.creates_directory
      then (record c { last_error = codes "설정 폴더를 만들 수 없습니다." }, false)
      else if is_empty bytes
      then (record c { last_error = codes "설정을 UTF-8로 변환할 수 없습니다." }, false)
      else if not disk.opens_to_write
      then (record c { last_error = codes "config.ini를 저장할 수 없습니다." }, false)
      else write_settings bytes c disk.write

  pub read_or_new : ConfigDisk → Config → Option Bytes → Config × Bool × Bool
  read_or_new disk c none = (c, true, true)
  read_or_new disk c (some bytes) = load_existing disk (c, false)

  pub finish_loading : ConfigDisk → Text → Config × Bool × Bool → Config × Bool
  finish_loading disk generated (c, changed, false) = (c, false)
  finish_loading disk generated (c, changed, true) =
      let (c', changed') = apply_defaults generated (c, changed) in
      if changed' then done_saving (save disk c') else (record c' { last_error = [] }, true)

  -- `LoadOrCreate`.
  unfoldable pub load_or_create : ConfigDisk → Text → Config → Config × Bool
  unfolding read_or_new finish_loading done_saving
  load_or_create disk generated c =
      if not disk.creates_directory
      then (record c { last_error = codes "설정 폴더를 만들 수 없습니다." }, false)
      else finish_loading disk generated (read_or_new disk c c.file)
