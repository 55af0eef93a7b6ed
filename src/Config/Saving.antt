-- ===== src/Config/Saving.antt =====
-- What `LoadExisting` reads from a file that `Save` wrote.

use share_note_pad.Base.{
  ℕ, ◌≤◌, ◌<◌, ◌≡◌, refl, ap, ◌∙◌, Bool, true, false, ◌||◌, some, [], ◌∷◌, ◌++◌, ◌==◌, ltb,
  if_cases, if◌then◌else◌, Text, Bytes, codes, text_eq, arith,
}
use share_note_pad.Config.{
  Config, ConfigDisk, in_range, parse_port, set_port, set_value, is_comment, set_at, load_line,
  load_lines, read_utf8_file, loaded, load_existing, settings_text, write_settings, save,
}
use share_note_pad.Config.Lines.{
  is_blank, trim_start, trim_end, trim, find_equals, lines_of, NoBreak, lines_of-break,
}
use share_note_pad.Numbers.{is_space, NoSpace, format_unsigned-NoSpace, stoul-format}
use share_note_pad.Protocol.Codec.{TextApi, is_empty, wide_to_utf8, utf8_to_wide}
use share_note_pad.Protocol.Json.{format_unsigned}
use share_note_pad.Storage.Saving.{utf8_to_wide-wide_to_utf8}
use share_note_pad.Storage.{has_prefix, utf8_mark}

-- There are no blanks at the ends of the value, and no line break in it.
pub record IsValue (value : Text) : Type 0 where
  pub front : trim_start value ≡ value
  pub end : trim_end value ≡ value
  pub line : NoBreak value

trim-IsValue : (value : Text) → IsValue value → trim value ≡ value
unfolding trim
trim-IsValue value v = ap trim_end v.front ∙ v.end

-- The line of a key, read when nothing is trimmed off.
load_line-trimmed :
    (line : Text) (r : Config × Bool)
    → trim line ≡ line
    → load_line line r ≡ (if is_comment line then r else set_at line (find_equals line) r)
unfolding load_line
load_line-trimmed line r e = ap (λ t. if is_comment t then r else set_at t (find_equals t) r) e

module _ (value : Text) (v : IsValue value) (r : Config × Bool) where
  load_line-device :
      load_line (codes "device_id=" ++ value) r ≡ set_value (codes "device_id") value r
  unfolding trim trim_start trim_end is_comment set_at find_equals
  load_line-device =
      load_line-trimmed (codes "device_id=" ++ value) r (ap (λ t. codes "device_id=" ++ t) v.end)
      ∙ ap (λ t. set_value (codes "device_id") t r) (trim-IsValue value v)

  load_line-nickname :
      load_line (codes "nickname=" ++ value) r ≡ set_value (codes "nickname") value r
  unfolding trim trim_start trim_end is_comment set_at find_equals
  load_line-nickname =
      load_line-trimmed (codes "nickname=" ++ value) r (ap (λ t. codes "nickname=" ++ t) v.end)
      ∙ ap (λ t. set_value (codes "nickname") t r) (trim-IsValue value v)

  load_line-port : load_line (codes "port=" ++ value) r ≡ set_value (codes "port") value r
  unfolding trim trim_start trim_end is_comment set_at find_equals
  load_line-port =
      load_line-trimmed (codes "port=" ++ value) r (ap (λ t. codes "port=" ++ t) v.end)
      ∙ ap (λ t. set_value (codes "port") t r) (trim-IsValue value v)

-- A text without blanks is a value.
not_blank : (c : ℕ) → is_space c ≡ false → (is_blank c ≡ false) × ((c == b'\n') ≡ false)
not_blank c h = ground arith

trim_end-NoSpace : (value : Text) → NoSpace value → trim_end value ≡ value
unfolding trim_end
trim_end-NoSpace [] h = refl
trim_end-NoSpace (c ∷ value) (s, h) =
    rw ((not_blank c s).0, trim_end) (ap (◌∷◌ c) (trim_end-NoSpace value h))

NoBreak-NoSpace : (value : Text) → NoSpace value → NoBreak value
NoBreak-NoSpace [] h = tt
NoBreak-NoSpace (c ∷ value) (s, h) = ((not_blank c s).1, NoBreak-NoSpace value h)

trim_start-NoSpace : (value : Text) → NoSpace value → trim_start value ≡ value
unfolding trim_start
trim_start-NoSpace [] h = refl
trim_start-NoSpace (c ∷ value) (s, h) = rw ((not_blank c s).0, trim_start) refl

pub NoSpace-IsValue : (value : Text) → NoSpace value → IsValue value
NoSpace-IsValue value h = record {
  front = trim_start-NoSpace value h;
  end = trim_end-NoSpace value h;
  line = NoBreak-NoSpace value h;
}

-- The settings of a configuration that can be read again.
pub record CanSave (c : Config) : Type 0 where
  pub device : IsValue c.device_id
  pub name : IsValue c.nickname
  pub some_port : 0 < c.port
  pub small : c.port ≤ 65535

parse_port-format : (n : ℕ) → 0 < n → n ≤ 65535 → parse_port (format_unsigned n) ≡ some n
unfolding parse_port in_range
parse_port-format n some_port small =
    ap in_range (stoul-format n (omega arith))
    ∙ if_cases (λ r. r ≡ some n) (n == 0 || ltb 65535 n) _ _ (λ e. absurd (ground arith))
        (λ _. refl)

-- The three lines in a row.
lines_of-settings_text :
    (c : Config)
    → CanSave c
    → lines_of (settings_text c)
      ≡ (codes "device_id=" ++ c.device_id)
        ∷ (codes "nickname=" ++ c.nickname)
        ∷ (codes "port=" ++ format_unsigned c.port)
        ∷ []
unfolding settings_text lines_of
lines_of-settings_text c can =
    let digits = (NoSpace-IsValue _ (format_unsigned-NoSpace c.port)).line in
    lines_of-break (codes "device_id=" ++ c.device_id) _ (
      refl,
      (refl, (refl, (refl, (refl, (refl, (refl, (refl, (refl, (refl, can.device.line))))))))),
    )
    ∙ ap (◌∷◌ (codes "device_id=" ++ c.device_id)) (
        lines_of-break (codes "nickname=" ++ c.nickname) _
          (refl, (refl, (refl, (refl, (refl, (refl, (refl, (refl, (refl, can.name.line)))))))))
        ∙ ap (◌∷◌ (codes "nickname=" ++ c.nickname)) (
            lines_of-break (codes "port=" ++ format_unsigned c.port) []
              (refl, (refl, (refl, (refl, (refl, digits)))))))

-- Reading the three lines sets the three settings.
load_lines-settings :
    (c d : Config) (changed : Bool)
    → CanSave c
    → load_lines (lines_of (settings_text c)) (d, changed)
      ≡ (record d { device_id = c.device_id; nickname = c.nickname; port = c.port }, changed)
unfolding load_lines set_value set_port text_eq
load_lines-settings c d changed can =
    let digits = NoSpace-IsValue _ (format_unsigned-NoSpace c.port) in
    let with_device : Config = record d { device_id = c.device_id } in
    let with_name : Config = record with_device { nickname = c.nickname } in
    ap (λ lines. load_lines lines (d, changed)) (lines_of-settings_text c can)
    ∙ ap
        (λ r.
          load_line (codes "port=" ++ format_unsigned c.port)
            (load_line (codes "nickname=" ++ c.nickname) r))
        (load_line-device c.device_id can.device (d, changed))
    ∙ ap (load_line (codes "port=" ++ format_unsigned c.port))
        (load_line-nickname c.nickname can.name (with_device, changed))
    ∙ load_line-port (format_unsigned c.port) digits (with_name, changed)
    ∙ ap (λ parsed. set_port parsed (with_name, changed))
        (parse_port-format c.port can.some_port can.small)

module _ (api : TextApi) where
  save-file :
      (disk : ConfigDisk) (c : Config)
      → (save api disk c).1 ≡ true
      → ((save api disk c).0.file ≡ some (wide_to_utf8 api (settings_text c)))
        × (is_empty (wide_to_utf8 api (settings_text c)) ≡ false)
  unfolding save write_settings
  save-file disk c saved = ground arith

  read-file :
      (disk : ConfigDisk) (bytes : Bytes)
      → disk.opens_to_read ≡ true
      → has_prefix bytes utf8_mark ≡ false
      → read_utf8_file api disk (some bytes) ≡ utf8_to_wide api bytes
  unfolding read_utf8_file
  read-file disk bytes opens no_mark = rw (opens, no_mark) refl

  -- The settings survive a restart: what `Save` wrote, if it succeeded, sets the same device id,
  -- nickname and port in any other object that loads the file, and needs no change. The values have
  -- no blanks at their ends and no line break in them, the port is from 1 to 65535, the file can be
  -- opened, and its bytes do not begin like a byte order mark.
  pub load_existing-save :
      (disk later : ConfigDisk) (c d : Config) (changed : Bool)
      → (save api disk c).1 ≡ true
      → CanSave c
      → later.opens_to_read ≡ true
      → has_prefix (wide_to_utf8 api (settings_text c)) utf8_mark ≡ false
      → d.file ≡ (save api disk c).0.file
      → load_existing api later (d, changed) ≡ (
        record d { device_id = c.device_id; nickname = c.nickname; port = c.port },
        changed,
        true,
      )
  unfolding load_existing loaded settings_text
  load_existing-save disk later c d changed saved can opens no_mark same =
      let bytes = wide_to_utf8 api (settings_text c) in
      let (written, some_bytes) = save-file disk c saved in
      let text : read_utf8_file api later d.file ≡ some (settings_text c) =
        ap (read_utf8_file api later) (same ∙ written)
        ∙ read-file later bytes opens no_mark
        ∙ utf8_to_wide-wide_to_utf8 api (settings_text c) some_bytes in
      ap (loaded (d, changed)) text
      ∙ ap (λ (r : Config × Bool). (r.0, r.1, true)) (load_lines-settings c d changed can)
