-- ===== src/Install/Tests.antt =====
-- Runs of the self-installation, and its theorem at one of them.
use share_note_pad.Base.{◌≡◌, refl, true, none, some, [], ◌∷◌, Text, codes, text_eq}
use share_note_pad.Install.{
  and_then, before_last, Calls, continue, copy_all, copy_directory_required, copy_fails,
  copy_file_optional, copy_file_required, copy_works, file, Files, folder, join, parent_path, put,
  run_self_install_if_needed, same_path,
}
use share_note_pad.Install.Running.{Installed, run_self_install_if_needed-Installed}

abbrev portable : Text
portable = codes "D:\\note"

abbrev program : Text
program = join portable (codes "ShareNotepad.exe")

abbrev target : Text
target = codes "C:\\ShareNotepad"

-- A portable folder without the two optional files.
abbrev files : Files
files = put program (some (file (1 ∷ []))) (
    put (join portable (codes "WebView2Loader.dll")) (some (file (2 ∷ []))) (
      put (join portable (codes "ui")) (some (folder ((codes "index.html", 3 ∷ []) ∷ [])))
        (put (join portable (codes "ShareNotepad.portable")) (some (file [])) (λ path. none))))

abbrev calls : Calls
calls = record {
  current_exe = some program;
  install_directory = some target;
  lower_canonical = λ path. path;
  makes_folder = true;
  exe = copy_works;
  loader = copy_works;
  removed = none;
  ui = copy_works;
  readme = copy_works;
  version = copy_fails none [];
  starts = true;
  last_error = [];
}

run_self_install_if_needed-Installed_example :
    let (after, result, _) = run_self_install_if_needed calls files in
    let copy = record calls { current_exe = some (join target (codes "ShareNotepad.exe")) } in
    Installed calls program target files after
    × (run_self_install_if_needed copy after ≡ (after, continue, none))
unfolding run_self_install_if_needed parent_path same_path copy_all and_then copy_file_required
    copy_file_optional copy_directory_required before_last text_eq
run_self_install_if_needed-Installed_example =
    run_self_install_if_needed-Installed calls program target files refl refl refl
