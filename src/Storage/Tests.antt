-- ===== src/Storage/Tests.antt =====
-- Runs of the storage, and its theorems at them.
use mathlib.Core.Path.{subst}
use share_note_pad.Base.{
  ◌≡◌, refl, sym, ap, inl, inr, Bool-cases, ◌⊎◌, true, false, Option, some, none, [], ◌∷◌, ◌++◌,
  if◌then◌else◌, Text, Bytes, codes, text_eq, text_eq_iff,
}
use share_note_pad.Protocol.Codec.{TextApi, wide_to_utf8, utf8_to_wide}
use share_note_pad.Protocol.Tests.{ascii_api}
use share_note_pad.Storage.{
  Storage, writes_all, writes_only, Disk, has_prefix, utf8_mark, save_current, load_current,
}
use share_note_pad.Storage.Saving.{
  save_current-current, load_current-save_current, load_current-marked,
}

abbrev pub old_note : Storage
old_note = record { current = some (codes "old"); temp = none; last_error = [] }

abbrev pub good_disk : Disk
good_disk = record {
  creates_directory = true;
  opens_current = true;
  creates_temp = true;
  write = writes_all;
  moves = true;
}

-- The disk is full after two bytes.
abbrev full_disk : Disk
full_disk = record good_disk { write = writes_only 2 }

full_disk_keeps :
    (save_current ascii_api full_disk (codes "new") old_note).0.current ≡ some (codes "old")
unfolding save_current wide_to_utf8
full_disk_keeps = refl

save_current-current_example :
    let (s', saved) = save_current ascii_api full_disk (codes "new") old_note in
    ((saved ≡ true)
      × (s'.current ≡ some (wide_to_utf8 ascii_api (codes "new")))
      × (s'.last_error ≡ []))
    ⊎ ((saved ≡ false) × (s'.current ≡ some (codes "old")))
save_current-current_example = save_current-current ascii_api full_disk (codes "new") old_note

load_current-save_current_example :
    (load_current ascii_api good_disk (save_current ascii_api good_disk (codes "new") old_note).0).1
    ≡ some (codes "new")
unfolding save_current wide_to_utf8 has_prefix
load_current-save_current_example =
    load_current-save_current ascii_api good_disk good_disk (codes "new") old_note refl refl refl
      refl refl

-- Conversions that also know the mark in front of ASCII.
abbrev marked : Text → Option Bytes
marked text = if text_eq text (65279 ∷ codes "hi") then some (utf8_mark ++ codes "hi") else none

abbrev unmarked : Bytes → Option Text
unmarked bytes =
    if text_eq bytes (utf8_mark ++ codes "hi") then some (65279 ∷ codes "hi") else some bytes

pub marked_back :
    (text : Text) (bytes : Bytes) → marked text ≡ some bytes → unmarked bytes ≡ some text
unfolding text_eq
marked_back text bytes h = elim (Bool-cases (text_eq text (65279 ∷ codes "hi"))) [
  | inl e ↦
      let same : utf8_mark ++ codes "hi" ≡ bytes =
        let given : some (utf8_mark ++ codes "hi") ≡ some bytes = rw e at h in cc in
      subst (λ b. unmarked b ≡ some text) same
        (ap some (sym ((text_eq_iff text (65279 ∷ codes "hi")).0 e)))
  | inr e ↦ absurd (let given : none ≡ some bytes = rw e at h in cc)
]

abbrev marked_api : TextApi
marked_api = record {
  wide_to_multi_byte = marked;
  multi_byte_to_wide = unmarked;
  converts_back = marked_back;
}

load_current-marked_example :
    (load_current marked_api good_disk
      (save_current marked_api good_disk (65279 ∷ codes "hi") old_note).0).1
    ≡ some (codes "hi")
unfolding save_current wide_to_utf8 utf8_to_wide text_eq
load_current-marked_example =
    load_current-marked marked_api good_disk good_disk (codes "hi") (codes "hi") old_note refl refl
      refl refl refl
