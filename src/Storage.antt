-- ===== src/Storage.antt =====
-- The class `Storage` of client/storage.cpp, which keeps the note in current.txt. The folder is
-- kept as the contents of its two files; what the calls of the system give this time is an argument.
pub mod Saving
pub mod Tests
use share_note_pad.Base.{
  ℕ, ◌/◌, ◌%◌, ◌*◌, ◌+◌, Bool, true, false, not, ◌&&◌, Option, some, none, List, [], ◌∷◌, ltb, ◌==◌,
  if◌then◌else◌, length, take, drop, Text, Bytes, codes,
}
use share_note_pad.Protocol.Codec.{TextApi, is_empty, wide_to_utf8, utf8_to_wide}

pub record Storage : Type 0 where
  pub current : Option Bytes
  pub temp : Option Bytes
  pub last_error : Text

-- Whether the folder can be made, the files opened, everything written and current.txt replaced;
-- `writes_only n` is a write that fails with `n` bytes in the file.
pub data Write : Type 0 where
  writes_all : Write
  writes_only : ℕ → Write

pub record Disk : Type 0 where
  pub creates_directory : Bool
  pub opens_current : Bool
  pub creates_temp : Bool
  pub write : Write
  pub moves : Bool

unfoldable pub has_prefix : Bytes → Bytes → Bool
has_prefix bytes [] = true
has_prefix [] (value ∷ prefix) = false
has_prefix (byte ∷ bytes) (value ∷ prefix) = byte == value && has_prefix bytes prefix

abbrev pub utf8_mark : Bytes
utf8_mark = 239 ∷ 187 ∷ 191 ∷ []

abbrev pub utf16_mark : Bytes
utf16_mark = 255 ∷ 254 ∷ []

-- `Utf16LeBytesToWide` of client/text_encoding.cpp: the bytes are copied into units of two bytes.
pair_bytes : Bytes → Text
pair_bytes [] = []
pair_bytes (low ∷ []) = []
pair_bytes (low ∷ high ∷ bytes) = (low + 256 * high) ∷ pair_bytes bytes

unfoldable pub utf16_le_bytes_to_wide : Bytes → Option Text
unfolding pair_bytes
utf16_le_bytes_to_wide bytes = if not (length bytes % 2 == 0) then none else some (pair_bytes bytes)

-- `EnsureDataDirectory`.
unfoldable pub ensure_data_directory : Disk → Storage → Storage × Bool
ensure_data_directory disk s =
    if disk.creates_directory
    then (s, true)
    else (record s { last_error = codes "저장 폴더를 만들 수 없습니다." }, false)

module _ (api : TextApi) where
  with_content : Storage → Option Text → Storage × Option Text
  with_content s none = (record s { last_error = codes "current.txt의 문자 인코딩을 읽을 수 없습니다." }, none)
  with_content s (some content) = (s, some content)

  -- What the bytes of current.txt hold; only the last way of reading them sets the error text.
  unfoldable pub read_current : Storage → Bytes → Storage × Option Text
  unfolding with_content
  read_current s bytes =
      if has_prefix bytes utf8_mark
      then (s, utf8_to_wide api (drop 3 bytes))
      else if has_prefix bytes utf16_mark
      then (s, utf16_le_bytes_to_wide (drop 2 bytes))
      else with_content s (utf8_to_wide api bytes)

  load_file : Disk → Storage → Option Bytes → Storage × Option Text
  load_file disk s none = (s, some [])
  load_file disk s (some bytes) =
      if disk.opens_current
      then read_current s bytes
      else (record s { last_error = codes "current.txt를 열 수 없습니다." }, none)

  -- `LoadCurrent`; `none` is a result of false.
  unfoldable pub load_current : Disk → Storage → Storage × Option Text
  unfolding load_file ensure_data_directory
  load_current disk s =
      let (s', made) = ensure_data_directory disk s in
      if made then load_file disk s' s'.current else (s', none)

  -- `MoveFileExW` from current.tmp to current.txt.
  move_temp : Disk → Bytes → Storage → Storage × Bool
  move_temp disk bytes s =
      if disk.moves
      then (record s { current = some bytes; temp = none; last_error = [] }, true)
      else (record s { last_error = codes "current.txt를 교체할 수 없습니다." }, false)

  write_temp : Disk → Bytes → Storage → Write → Storage × Bool
  write_temp disk bytes s writes_all = move_temp disk bytes (record s { temp = some bytes })
  write_temp disk bytes s (writes_only n) =
      (record s { temp = some (take n bytes); last_error = codes "임시 저장 파일에 쓸 수 없습니다." }, false)

  -- `SaveCurrent`.
  unfoldable pub save_current : Disk → Text → Storage → Storage × Bool
  unfolding write_temp move_temp ensure_data_directory
  save_current disk content s =
      let (s', made) = ensure_data_directory disk s in
      let bytes = wide_to_utf8 api content in
      if not made
      then (s', false)
      else if not (is_empty content) && is_empty bytes
      then (record s' { last_error = codes "문서를 UTF-8로 변환할 수 없습니다." }, false)
      else if disk.creates_temp
      then write_temp disk bytes s' disk.write
      else (record s' { last_error = codes "임시 저장 파일을 만들 수 없습니다." }, false)
