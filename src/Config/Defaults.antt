-- ===== src/Config/Defaults.antt =====
-- What `LoadOrCreate` leaves in the settings.
use share_note_pad.Base.{
  ℕ, ◌≤◌, ◌<◌, ◌≡◌, refl, Bool, true, false, not, Option, some, none, List, [], ◌∷◌, if_cases, Text,
  Bytes, codes, text_eq, arith,
}
use share_note_pad.Config.{
  Config, ConfigDisk, in_range, parse_port, set_port, set_value, is_comment, set_at, load_line,
  load_lines, default_device, default_name, default_number, apply_defaults, loaded, load_existing,
  write_settings, save, read_or_new, done_saving, finish_loading, load_or_create,
}
use share_note_pad.Config.Lines.{trim, find_equals, lines_of}
use share_note_pad.Numbers.{stoul}
use share_note_pad.Protocol.Codec.{TextApi, is_empty}

-- The port is a port or 0.
abbrev FitsPort : Config × Bool → Type 0
FitsPort (c, changed) = c.port ≤ 65535

in_range-le : (parsed : Option ℕ) (port : ℕ) → in_range parsed ≡ some port → port ≤ 65535
unfolding in_range
in_range-le none port e = cc
in_range-le (some parsed) port e = ground arith

set_port-FitsPort :
    (parsed : Option ℕ) (r : Config × Bool)
    → ((port : ℕ) → parsed ≡ some port → port ≤ 65535)
    → FitsPort (set_port parsed r)
unfolding set_port
set_port-FitsPort none (c, changed) h = omega arith
set_port-FitsPort (some parsed) (c, changed) h = h parsed refl

set_value-FitsPort :
    (key value : Text) (r : Config × Bool) → FitsPort r → FitsPort (set_value key value r)
unfolding set_value parse_port
set_value-FitsPort key value (c, changed) h =
    if_cases FitsPort (text_eq key (codes "device_id")) _ _ (λ _. h)
      (λ _.
        if_cases FitsPort (text_eq key (codes "nickname")) _ _ (λ _. h)
          (λ _.
            if_cases FitsPort (text_eq key (codes "port")) _ _
              (λ _. set_port-FitsPort (parse_port value) (c, changed) (in_range-le (stoul value)))
              (λ _. h)))

set_at-FitsPort :
    (line : Text) (equals : Option ℕ) (r : Config × Bool)
    → FitsPort r
    → FitsPort (set_at line equals r)
unfolding set_at
set_at-FitsPort line none r h = h
set_at-FitsPort line (some equals) r h = set_value-FitsPort _ _ r h

load_lines-FitsPort :
    (lines : List Text) (r : Config × Bool) → FitsPort r → FitsPort (load_lines lines r)
unfolding load_lines load_line
load_lines-FitsPort [] r h = h
load_lines-FitsPort (line ∷ lines) r h = load_lines-FitsPort lines _ (
    if_cases FitsPort (is_comment (trim line)) _ _ (λ _. h)
      (λ _. set_at-FitsPort (trim line) (find_equals (trim line)) r h))

-- Settings that the program can use.
pub record IsUsable (c : Config) : Type 0 where
  pub device : is_empty c.device_id ≡ false
  pub name : is_empty c.nickname ≡ false
  pub some_port : 0 < c.port
  pub small : c.port ≤ 65535

apply_defaults-IsUsable :
    (generated : Text) (r : Config × Bool)
    → is_empty generated ≡ false
    → FitsPort r
    → IsUsable (apply_defaults generated r).0
unfolding apply_defaults default_device default_name default_number
apply_defaults-IsUsable generated (c, changed) g h = ground arith

-- A result of true comes with usable settings.
abbrev Succeeds : Config × Bool → Type 0
Succeeds (c, done) = done ≡ true → IsUsable c

module _ (api : TextApi) where
  save-IsUsable : (disk : ConfigDisk) (c : Config) → IsUsable c → IsUsable (save api disk c).0
  unfolding save write_settings
  save-IsUsable disk c u = ground arith

  done_saving-Succeeds : (r : Config × Bool) → IsUsable r.0 → Succeeds (done_saving r)
  unfolding done_saving
  done_saving-Succeeds (c, true) u e = ground arith
  done_saving-Succeeds (c, false) u e = absurd (let z : false ≡ true = e in cc)

  finish_loading-Succeeds :
      (disk : ConfigDisk) (generated : Text) (r : Config × Bool × Bool)
      → is_empty generated ≡ false
      → r.0.port ≤ 65535
      → Succeeds (finish_loading api disk generated r)
  unfolding finish_loading
  finish_loading-Succeeds disk generated (c, changed, false) g h =
      λ e. absurd (let z : false ≡ true = e in cc)
  finish_loading-Succeeds disk generated (c, changed, true) g h =
      let r = apply_defaults generated (c, changed) in
      let u = apply_defaults-IsUsable generated (c, changed) g h in
      if_cases Succeeds r.1 _ _
        (λ _. done_saving-Succeeds (save api disk r.0) (save-IsUsable disk r.0 u))
        (λ _ _. ground arith)

  loaded-FitsPort :
      (r : Config × Bool) (text : Option Text) → FitsPort r → (loaded r text).0.port ≤ 65535
  unfolding loaded
  loaded-FitsPort (c, changed) none h = h
  loaded-FitsPort r (some text) h = load_lines-FitsPort (lines_of text) r h

  read_or_new-FitsPort :
      (disk : ConfigDisk) (c : Config) (file : Option Bytes)
      → c.port ≤ 65535
      → (read_or_new api disk c file).0.port ≤ 65535
  unfolding read_or_new load_existing
  read_or_new-FitsPort disk c none h = h
  read_or_new-FitsPort disk c (some bytes) h = loaded-FitsPort (c, false) _ h

  -- Whatever config.ini holds, a successful start leaves settings that the program can use: a device
  -- id, a nickname, and a port from 1 to 65535. A generated device id is not empty, and the port is a
  -- number of 16 bits.
  pub load_or_create-IsUsable :
      (disk : ConfigDisk) (generated : Text) (c : Config)
      → is_empty generated ≡ false
      → c.port ≤ 65535
      → (load_or_create api disk generated c).1 ≡ true
      → IsUsable (load_or_create api disk generated c).0
  unfolding load_or_create
  load_or_create-IsUsable disk generated c g h =
      if_cases Succeeds (not disk.creates_directory) _ _
        (λ _ e. absurd (let z : false ≡ true = e in cc))
        (λ _.
          finish_loading-Succeeds disk generated (read_or_new api disk c c.file) g
            (read_or_new-FitsPort disk c c.file h))
