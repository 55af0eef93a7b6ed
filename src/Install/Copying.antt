-- ===== src/Install/Copying.antt =====
-- What the copies of client/self_install.cpp do to the files.
use share_note_pad.Base.{
  ◌≡◌, ◌≢◌, refl, sym, ap, ◌∙◌, false, Option, none, some, List, [], ◌∷◌, Bool-cases, inl, inr,
  Text, Bytes, text_eq, text_eq_iff, text_eq_refl, arith,
}
use share_note_pad.Install.{
  Copied, copy_works, copy_fails, Entry, file, folder, Files, put, join, parent_path, before_last,
  in_front, front_or_empty, copy_entry, required, optional, replace_folder, copy_below,
}

-- Only the destination changes.
unfoldable pub Kept : Text → Files → Files → Type 0
Kept destination files files' =
    (path : Text) → text_eq destination path ≡ false → files' path ≡ files path

put-Kept :
    (destination : Text) (entry : Option Entry) (files : Files)
    → Kept destination files (put destination entry files)
unfolding Kept
put-Kept destination entry files path h = rw h refl

put-there :
    (destination : Text) (entry : Option Entry) (files : Files)
    → put destination entry files destination ≡ entry
put-there destination entry files = rw (text_eq_refl destination) refl

module _ (source destination : Text) where
  copy_entry-Kept :
      (copied : Copied) (entry : Entry) (files : Files)
      → Kept destination files (copy_entry copied source destination entry files).0
  unfolding copy_entry Kept
  copy_entry-Kept copy_works (file bytes) files = put-Kept destination (some (file bytes)) files
  copy_entry-Kept copy_works (folder below) files = λ path h. refl
  copy_entry-Kept (copy_fails left message) entry files = put-Kept destination left files

  copy_entry-made :
      (copied : Copied) (entry : Entry) (files : Files)
      → (copy_entry copied source destination entry files).1 ≡ none
      → (copy_entry copied source destination entry files).0 destination ≡ some entry
  unfolding copy_entry
  copy_entry-made copy_works (file bytes) files h = put-there destination (some (file bytes)) files
  copy_entry-made copy_works (folder below) files h = cc
  copy_entry-made (copy_fails left message) entry files h = cc

  pub required-Kept :
      (copied : Copied) (entry : Option Entry) (files : Files)
      → Kept destination files (required copied source destination entry files).0
  unfolding required Kept
  required-Kept copied none files = λ path h. refl
  required-Kept copied (some entry) files = copy_entry-Kept copied entry files

  pub required-made :
      (copied : Copied) (entry : Option Entry) (files : Files)
      → (required copied source destination entry files).1 ≡ none
      → (required copied source destination entry files).0 destination ≡ entry
  unfolding required
  required-made copied none files h = cc
  required-made copied (some entry) files h = copy_entry-made copied entry files h

  pub optional-Kept :
      (copied : Copied) (entry : Option Entry) (files : Files)
      → Kept destination files (optional copied source destination entry files).0
  unfolding optional Kept
  optional-Kept copied none files = λ path h. refl
  optional-Kept copied (some entry) files = copy_entry-Kept copied entry files

  copy_below-Kept :
      (copied : Copied) (below : List (Text × Bytes)) (files : Files)
      → Kept destination files (copy_below copied source destination below files).0
  unfolding copy_below
  copy_below-Kept copy_works below files = put-Kept destination (some (folder below)) files
  copy_below-Kept (copy_fails left message) below files = put-Kept destination left files

  pub replace_folder-Kept :
      (removed : Option (Option Entry)) (copied : Copied) (entry : Option Entry) (files : Files)
      → Kept destination files (replace_folder removed copied source destination entry files).0
  unfolding replace_folder Kept
  replace_folder-Kept none copied (some (folder below)) files = λ path h.
      copy_below-Kept copied below (put destination none files) path h
      ∙ put-Kept destination none files path h
  replace_folder-Kept (some left) copied (some (folder below)) files =
      put-Kept destination left files
  replace_folder-Kept removed copied (some (file bytes)) files = λ path h. refl
  replace_folder-Kept removed copied none files = λ path h. refl

  copy_below-made :
      (copied : Copied) (below : List (Text × Bytes)) (files : Files)
      → (copy_below copied source destination below files).1 ≡ none
      → (copy_below copied source destination below files).0 destination ≡ some (folder below)
  unfolding copy_below
  copy_below-made copy_works below files h = put-there destination (some (folder below)) files
  copy_below-made (copy_fails left message) below files h = cc

  pub replace_folder-made :
      (removed : Option (Option Entry)) (copied : Copied) (entry : Option Entry) (files : Files)
      → (replace_folder removed copied source destination entry files).1 ≡ none
      → (replace_folder removed copied source destination entry files).0 destination ≡ entry
  unfolding replace_folder
  replace_folder-made none copied (some (folder below)) files h =
      copy_below-made copied below (put destination none files) h
  replace_folder-made (some left) copied (some (folder below)) files h = cc
  replace_folder-made removed copied (some (file bytes)) files h = cc
  replace_folder-made removed copied none files h = cc

-- The folder of a joined path is found again.
before_last-join :
    (directory name : Text)
    → before_last name ≡ none
    → before_last (join directory name) ≡ some directory
unfolding before_last in_front
before_last-join [] name h = rw h refl
before_last-join (c ∷ directory) name h = rw (before_last-join directory name h) refl

pub parent_path-join :
    (directory name : Text)
    → before_last name ≡ none
    → parent_path (join directory name) ≡ directory
unfolding parent_path front_or_empty
parent_path-join directory name h = rw (before_last-join directory name h) refl

-- Paths of one folder differ as their names do, and paths of two folders always.
pub text_eq-join :
    (directory a b : Text) → text_eq (join directory a) (join directory b) ≡ text_eq a b
unfolding text_eq
text_eq-join [] a b = ground arith
text_eq-join (c ∷ directory) a b = ground (arith, text_eq-join directory a b)

pub text_eq-apart :
    (directory name path : Text)
    → before_last name ≡ none
    → parent_path path ≢ directory
    → text_eq (join directory name) path ≡ false
text_eq-apart directory name path h apart = elim (Bool-cases (text_eq (join directory name) path)) [
  | inl e ↦ absurd (
      apart (
        sym (ap parent_path ((text_eq_iff (join directory name) path).0 e))
        ∙ parent_path-join directory name h))
  | inr e ↦ e
]
