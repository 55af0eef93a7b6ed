-- ===== src/Storage/Saving.antt =====
-- What current.txt holds after `SaveCurrent`, and what `LoadCurrent` reads from it.
use share_note_pad.Base.{
  ◌≡◌, refl, ap, ◌∙◌, ◌⊎◌, true, false, not, ◌&&◌, Option, some, none, [], ◌∷◌, ◌++◌, Text, Bytes,
  arith,
}
use share_note_pad.Protocol.Codec.{TextApi, is_empty, wide_to_utf8, utf8_to_wide}
use share_note_pad.Storage.{
  Storage, Disk, has_prefix, utf8_mark, utf16_mark, ensure_data_directory, read_current, load_file,
  load_current, write_temp, move_temp, save_current,
}

module _ (api : TextApi) where
  -- A save that succeeds leaves the bytes of the text in current.txt, and one that fails, for
  -- whatever reason, leaves current.txt as it was.
  pub save_current-current :
      (disk : Disk) (content : Text) (s : Storage)
      → let (s', saved) = save_current api disk content s in
        ((saved ≡ true) × (s'.current ≡ some (wide_to_utf8 api content)) × (s'.last_error ≡ []))
        ⊎ ((saved ≡ false) × (s'.current ≡ s.current))
  unfolding save_current write_temp move_temp ensure_data_directory
  save_current-current disk content s = ground arith

  pub utf8_to_wide-wide_to_utf8 :
      (content : Text)
      → (not (is_empty content) && is_empty (wide_to_utf8 api content)) ≡ false
      → utf8_to_wide api (wide_to_utf8 api content) ≡ some content
  unfolding wide_to_utf8 utf8_to_wide
  utf8_to_wide-wide_to_utf8 [] h = refl
  utf8_to_wide-wide_to_utf8 (c ∷ content) h = by_bytes (api.wide_to_multi_byte (c ∷ content)) refl
    where
      by_bytes :
          (o : Option Bytes)
          → api.wide_to_multi_byte (c ∷ content) ≡ o
          → utf8_to_wide api (wide_to_utf8 api (c ∷ content)) ≡ some (c ∷ content)
      by_bytes none e = absurd (let z : true ≡ false = rw (e, wide_to_utf8) at h in cc)
      by_bytes (some []) e = absurd (let z : true ≡ false = rw (e, wide_to_utf8) at h in cc)
      by_bytes (some (byte ∷ bytes)) e =
          rw (e, wide_to_utf8) (api.converts_back (c ∷ content) (byte ∷ bytes) e)

  -- Only a text that could be converted is saved.
  save_current-converts :
      (disk : Disk) (content : Text) (s : Storage)
      → (save_current api disk content s).1 ≡ true
      → (not (is_empty content) && is_empty (wide_to_utf8 api content)) ≡ false
  unfolding save_current ensure_data_directory
  save_current-converts disk content s e = ground arith

  load_current-bytes :
      (later : Disk) (content : Text) (bytes : Bytes) (t : Storage)
      → later.creates_directory ≡ true
      → later.opens_current ≡ true
      → t.current ≡ some bytes
      → has_prefix bytes utf8_mark ≡ false
      → has_prefix bytes utf16_mark ≡ false
      → utf8_to_wide api bytes ≡ some content
      → (load_current api later t).1 ≡ some content
  unfolding load_current load_file read_current ensure_data_directory
  load_current-bytes later content bytes t d o c m n e =
      ap (λ r. r.1) (directory d ∙ ap (load_file api later t) c ∙ opened o ∙ read m n e)
    where
      directory :
          later.creates_directory ≡ true
          → load_current api later t ≡ load_file api later t t.current
      directory d = rw d refl

      opened :
          later.opens_current ≡ true → load_file api later t (some bytes) ≡ read_current api t bytes
      opened o = rw o refl

      read :
          has_prefix bytes utf8_mark ≡ false
          → has_prefix bytes utf16_mark ≡ false
          → utf8_to_wide api bytes ≡ some content
          → read_current api t bytes ≡ (t, some content)
      read m n e = rw (m, n, e) refl

  -- What was saved is loaded again, whatever the files were before: the text whose saving succeeded,
  -- unless its bytes begin like one of the two byte order marks.
  pub load_current-save_current :
      (disk later : Disk) (content : Text) (s : Storage)
      → let (s', saved) = save_current api disk content s in
        saved ≡ true
        → later.creates_directory ≡ true
        → later.opens_current ≡ true
        → has_prefix (wide_to_utf8 api content) utf8_mark ≡ false
        → has_prefix (wide_to_utf8 api content) utf16_mark ≡ false
        → (load_current api later s').1 ≡ some content
  load_current-save_current disk later content s saved d o m n =
      load_current-bytes later content (wide_to_utf8 api content)
        (save_current api disk content s).0 d o
        (ground (arith, save_current-current disk content s)) m n
        (utf8_to_wide-wide_to_utf8 content (save_current-converts disk content s saved))

  -- A text that begins with the unit U+FEFF loses it: its three bytes are those of the byte order
  -- mark, which `LoadCurrent` drops. The other units are loaded again, where the bytes behind the
  -- mark convert back to them.
  pub load_current-marked :
      (disk later : Disk) (text : Text) (bytes : Bytes) (s : Storage)
      → let (s', saved) = save_current api disk (65279 ∷ text) s in
        saved ≡ true
        → later.creates_directory ≡ true
        → later.opens_current ≡ true
        → api.wide_to_multi_byte (65279 ∷ text) ≡ some (utf8_mark ++ bytes)
        → utf8_to_wide api bytes ≡ some text
        → (load_current api later s').1 ≡ some text
  unfolding load_current load_file read_current ensure_data_directory has_prefix wide_to_utf8
  load_current-marked disk later text bytes s saved d o b e =
      let s' = (save_current api disk (65279 ∷ text) s).0 in
      let converted : wide_to_utf8 api (65279 ∷ text) ≡ utf8_mark ++ bytes =
        rw (wide_to_utf8, b) refl in
      let written : s'.current ≡ some (utf8_mark ++ bytes) =
        ground (arith, save_current-current disk (65279 ∷ text) s) ∙ ap some converted in
      let directory : load_current api later s' ≡ load_file api later s' s'.current = rw d refl in
      let opened : load_file api later s' (some (utf8_mark ++ bytes)) ≡ (s', some text) =
        rw (o, e) refl in
      ap (λ r. r.1) (directory ∙ ap (load_file api later s') written ∙ opened)
