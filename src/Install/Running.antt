-- ===== src/Install/Running.antt =====
-- What `RunSelfInstallIfNeeded` of client/self_install.cpp leaves behind.
use mathlib.Core.Path.{subst}
use share_note_pad.Base.{
  ◌≡◌, ◌≢◌, refl, sym, ap, ◌∙◌, false, Option, none, some, Bool-cases, if_cases, Option-cases,
  ne_of_text_eq, inl, inr, Text, codes, text_eq, text_eq_refl,
}
use share_note_pad.Install.{
  after_copies, and_then, before_last, Calls, continue, Entry, copy_all, copy_directory_required,
  copy_file_optional, copy_file_required, Copying, failed, Files, if_marked, install_into, join,
  Outcome, parent_path, relaunched, run_from, run_self_install_if_needed, same_path,
  without_separators,
}
use share_note_pad.Install.Copying.{
  Kept, required-Kept, required-made, optional-Kept, replace_folder-Kept, replace_folder-made,
  parent_path-join, text_eq-apart, text_eq-join,
}

continue_ne : continue ≢ relaunched
continue_ne e = cc

failed_ne : failed ≢ relaunched
failed_ne e = cc

and_then-none :
    (c : Copying) (next : Files → Copying)
    → (and_then c next).1 ≡ none
    → (c.1 ≡ none) × (and_then c next ≡ next c.0)
unfolding and_then
and_then-none (files, some message) next h = cc
and_then-none (files, none) next h = (refl, refl)

module _ (calls : Calls) (exe install : Text) (files : Files) where
  abbrev exe_copy : Text
  exe_copy = join install (codes "ShareNotepad.exe")

  abbrev first : Copying
  first = copy_file_required calls.exe exe exe_copy files

  abbrev second : Files → Copying
  second =
      copy_file_required calls.loader (join (parent_path exe) (codes "WebView2Loader.dll"))
        (join install (codes "WebView2Loader.dll"))

  abbrev third : Files → Copying
  third =
      copy_directory_required calls.removed calls.ui (join (parent_path exe) (codes "ui"))
        (join install (codes "ui"))

  abbrev fourth : Files → Copying
  fourth =
      copy_file_optional calls.readme (join (parent_path exe) (codes "README.txt"))
        (join install (codes "README.txt"))

  abbrev fifth : Files → Copying
  fifth =
      copy_file_optional calls.version (join (parent_path exe) (codes "VERSION.txt"))
        (join install (codes "VERSION.txt"))

  abbrev last : Files
  last = (fifth (fourth (third (second first.0).0).0).0).0

  -- The copies succeed one after the other.
  copy_all-steps :
      (copy_all calls exe (parent_path exe) install files).1 ≡ none
      → (first.1 ≡ none)
        × ((second first.0).1 ≡ none)
        × ((third (second first.0).0).1 ≡ none)
        × ((copy_all calls exe (parent_path exe) install files).0 ≡ last)
  unfolding copy_all
  copy_all-steps h =
      let (h1, e1) = and_then-none first _ h in
      let (h2, e2) = and_then-none (second first.0) _ (ap (λ (c : Copying). c.1) (sym e1) ∙ h) in
      let (h3, e3) =
        and_then-none (third (second first.0).0) _
          (ap (λ (c : Copying). c.1) (sym (e1 ∙ e2)) ∙ h) in
      let (h4, e4) =
        and_then-none (fourth (third (second first.0).0).0) _
          (ap (λ (c : Copying). c.1) (sym (e1 ∙ e2 ∙ e3)) ∙ h) in
      (h1, h2, h3, ap (λ (c : Copying). c.0) (e1 ∙ e2 ∙ e3 ∙ e4))

  second-Kept : (f : Files) → Kept (join install (codes "WebView2Loader.dll")) f (second f).0
  unfolding copy_file_required
  second-Kept f = required-Kept _ _ calls.loader (f _) f

  third-Kept : (f : Files) → Kept (join install (codes "ui")) f (third f).0
  unfolding copy_directory_required
  third-Kept f = replace_folder-Kept _ _ calls.removed calls.ui (f _) f

  fourth-Kept : (f : Files) → Kept (join install (codes "README.txt")) f (fourth f).0
  unfolding copy_file_optional
  fourth-Kept f = optional-Kept _ _ calls.readme (f _) f

  fifth-Kept : (f : Files) → Kept (join install (codes "VERSION.txt")) f (fifth f).0
  unfolding copy_file_optional
  fifth-Kept f = optional-Kept _ _ calls.version (f _) f

  first-Kept : Kept exe_copy files first.0
  unfolding copy_file_required
  first-Kept = required-Kept _ _ calls.exe (files exe) files

  -- Two names in the folder of the installation.
  names_differ :
      (a b : Text) → text_eq a b ≡ false → text_eq (join install a) (join install b) ≡ false
  names_differ a b h = text_eq-join install a b ∙ h

  -- What the last two copies keep.
  kept_to_last :
      (f : Files) (name : Text)
      → text_eq (codes "README.txt") name ≡ false
      → text_eq (codes "VERSION.txt") name ≡ false
      → (fifth (fourth f).0).0 (join install name) ≡ f (join install name)
  unfolding Kept
  kept_to_last f name readme version =
      fifth-Kept (fourth f).0 (join install name) (names_differ _ name version)
      ∙ fourth-Kept f (join install name) (names_differ _ name readme)

  -- What is in the folder of the program is not touched.
  source_Kept :
      (a b : Text)
      → before_last a ≡ none
      → before_last b ≡ none
      → parent_path exe ≢ install
      → text_eq (join install a) (join (parent_path exe) b) ≡ false
  source_Kept a b ha hb apart =
      text_eq-apart install a (join (parent_path exe) b) ha
        (λ e. apart (sym (parent_path-join (parent_path exe) b hb) ∙ e))

  -- The program, its library and the folder of its page are copied.
  pub Installed : Files → Type 0
  Installed after =
      (after exe_copy ≡ files exe)
      × (after (join install (codes "WebView2Loader.dll"))
          ≡ files (join (parent_path exe) (codes "WebView2Loader.dll")))
      × (after (join install (codes "ui")) ≡ files (join (parent_path exe) (codes "ui")))

  last-Installed :
      parent_path exe ≢ install
      → first.1 ≡ none
      → (second first.0).1 ≡ none
      → (third (second first.0).0).1 ≡ none
      → Installed last
  unfolding Installed Kept copy_file_required copy_directory_required text_eq before_last
  last-Installed apart h1 h2 h3 = (
    kept_to_last (third (second first.0).0).0 (codes "ShareNotepad.exe") refl refl
        ∙ third-Kept (second first.0).0 exe_copy (names_differ _ (codes "ShareNotepad.exe") refl)
        ∙ second-Kept first.0 exe_copy (names_differ _ (codes "ShareNotepad.exe") refl)
        ∙ required-made _ _ calls.exe (files exe) files h1,
    kept_to_last (third (second first.0).0).0 (codes "WebView2Loader.dll") refl refl
        ∙ third-Kept (second first.0).0 _ (names_differ _ (codes "WebView2Loader.dll") refl)
        ∙ required-made _ _ calls.loader (first.0 _) first.0 h2
        ∙ first-Kept _
            (source_Kept (codes "ShareNotepad.exe") (codes "WebView2Loader.dll") refl refl apart),
    kept_to_last (third (second first.0).0).0 (codes "ui") refl refl
        ∙ replace_folder-made _ _ calls.removed calls.ui ((second first.0).0 _) (second first.0).0
            h3
        ∙ second-Kept first.0 _
            (source_Kept (codes "WebView2Loader.dll") (codes "ui") refl refl apart)
        ∙ first-Kept _ (source_Kept (codes "ShareNotepad.exe") (codes "ui") refl refl apart),
  )

  not_same : same_path calls (parent_path exe) install ≡ false → parent_path exe ≢ install
  unfolding same_path
  not_same h e =
      ne_of_text_eq (without_separators (calls.lower_canonical (parent_path exe)))
        (without_separators (calls.lower_canonical install)) h
        (ap (λ path. without_separators (calls.lower_canonical path)) e)

  after_copies-relaunched :
      (c : Copying)
      → (after_copies calls c).1 ≡ relaunched
      → (c.1 ≡ none) × ((after_copies calls c).0 ≡ c.0)
  unfolding after_copies
  after_copies-relaunched (f, some message) h = cc
  after_copies-relaunched (f, none) h = elim (Bool-cases calls.starts) [
    | inl e ↦ (refl, rw e refl)
    | inr e ↦ (refl, rw e refl)
  ]

  Relaunched : Outcome → Type 0
  Relaunched (after, result, shown) = result ≡ relaunched → Installed after

  copies-Relaunched :
      parent_path exe ≢ install
      → Relaunched (after_copies calls (copy_all calls exe (parent_path exe) install files))
  unfolding Relaunched
  copies-Relaunched apart h =
      let (none_failed, same) = after_copies-relaunched _ h in
      let (h1, h2, h3, to_last) = copy_all-steps none_failed in
      subst (λ f. Installed f) (sym (same ∙ to_last)) (last-Installed apart h1 h2 h3)

  install_into-Relaunched :
      Relaunched (install_into calls exe (parent_path exe) (some install) files)
  unfolding install_into Relaunched
  install_into-Relaunched =
      if_cases Relaunched (same_path calls (parent_path exe) install) _ _
        (λ e h. absurd (continue_ne h))
        (λ e.
          if_cases Relaunched calls.makes_folder _ _ (λ made. copies-Relaunched (not_same e))
            (λ fails h. absurd (failed_ne h)))

  -- A program in the folder of the installation starts: it is not marked, or it is at home.
  run_from-installed :
      calls.install_directory ≡ some install
      → run_from calls (some exe_copy) files ≡ (files, continue, none)
  unfolding run_from if_marked install_into same_path before_last
  run_from-installed h =
      rw
        (
          parent_path-join install (codes "ShareNotepad.exe") refl,
          h,
          text_eq_refl (without_separators (calls.lower_canonical install)),
        )
        (elim (Option-cases (files (join install (codes "ShareNotepad.portable")))) [
          | inl e ↦ rw e refl
          | inr (marker, e) ↦ rw e refl
        ])

  if_marked-Relaunched :
      (marker : Option Entry) (o : Outcome) → Relaunched o → Relaunched (if_marked marker o files)
  unfolding if_marked Relaunched
  if_marked-Relaunched none o h e = absurd (continue_ne e)
  if_marked-Relaunched (some marker) o h e = h e

  run_from-Relaunched :
      calls.install_directory ≡ some install → Relaunched (run_from calls (some exe) files)
  unfolding run_from
  run_from-Relaunched h =
      subst
        (λ directory. Relaunched (
          if_marked (files (join (parent_path exe) (codes "ShareNotepad.portable")))
            (install_into calls exe (parent_path exe) directory files) files))
        (sym h) (if_marked-Relaunched _ _ install_into-Relaunched)

-- If the program says that it has started its copy, the program, its library and the folder of its
-- page stand in the folder of the installation as they stood beside it before, and the copy, when it
-- starts from there, goes on without installing anything again.
pub run_self_install_if_needed-Installed :
    (calls : Calls) (exe install : Text) (files : Files)
    → calls.current_exe ≡ some exe
    → calls.install_directory ≡ some install
    → (run_self_install_if_needed calls files).1 ≡ relaunched
    → let (after, result, _) = run_self_install_if_needed calls files in
      let copy = record calls { current_exe = some (join install (codes "ShareNotepad.exe")) } in
      Installed calls exe install files after
      × (run_self_install_if_needed copy after ≡ (after, continue, none))
unfolding run_self_install_if_needed Relaunched
run_self_install_if_needed-Installed calls exe install files program directory h = (
  subst (λ o. Relaunched calls exe install files (run_from calls o files)) (sym program)
      (run_from-Relaunched calls exe install files directory) h,
  run_from-installed (record calls { current_exe = some (join install (codes "ShareNotepad.exe")) })
      exe install (run_self_install_if_needed calls files).0 directory,
)
