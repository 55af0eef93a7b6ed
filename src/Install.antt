-- ===== src/Install.antt =====
-- client/self_install.cpp: `RunSelfInstallIfNeeded`, which copies a portable folder to the folder of
-- the user's programs and starts the copy. What the calls of the system give is an argument; the
-- shortcut of the start menu, whose result is not used, is left out.
pub mod Copying
pub mod Running
pub mod Tests
use share_note_pad.Base.{
  ℕ, Bool, true, false, ◌||◌, Option, none, some, List, [], ◌∷◌, ◌++◌, ◌==◌, if◌then◌else◌, Text,
  Bytes, codes, text_eq,
}

-- What stands at a path: a file, or a folder with all that is below it.
pub data Entry : Type 0 where
  file : Bytes → Entry
  folder : List (Text × Bytes) → Entry

abbrev pub Files : Type 0
Files = Text → Option Entry

abbrev pub put : Text → Option Entry → Files → Files
put path entry files = λ other. if text_eq path other then entry else files other

-- `operator/` of paths.
abbrev pub join : Text → Text → Text
join directory name = directory ++ (b'\\' ∷ name)

-- `parent_path`: what stands before the last separator.
in_front : ℕ → Option Text → Text → Option Text
in_front c (some front) rest = some (c ∷ front)
in_front c none rest = if c == b'\\' then some [] else none

pub before_last : Text → Option Text
unfolding in_front
before_last [] = none
before_last (c ∷ path) = in_front c (before_last path) path

front_or_empty : Option Text → Text
front_or_empty none = []
front_or_empty (some path) = path

unfoldable pub parent_path : Text → Text
unfolding front_or_empty
parent_path path = front_or_empty (before_last path)

-- What a copy does: it succeeds, or it leaves something at its destination, with a message.
pub data Copied : Type 0 where
  copy_works : Copied
  copy_fails : Option Entry → Text → Copied

-- The files, and the error message where the result is false.
abbrev pub Copying : Type 0
Copying = Files × Option Text

failed_copy : Text → Text → Text → Text
failed_copy source destination message =
    source ++ (codes " -> " ++ (destination ++ (b'\n' ∷ message)))

copy_entry : Copied → Text → Text → Entry → Files → Copying
unfolding failed_copy
copy_entry copy_works source destination (file bytes) files =
    (put destination (some (file bytes)) files, none)
copy_entry copy_works source destination (folder below) files =
    (files, some (codes "파일 복사 실패: " ++ failed_copy source destination []))
copy_entry (copy_fails left message) source destination entry files = (
  put destination left files,
  some (codes "파일 복사 실패: " ++ failed_copy source destination message),
)

pub required : Copied → Text → Text → Option Entry → Files → Copying
unfolding copy_entry
required copied source destination none files = (files, some (codes "필수 파일을 찾을 수 없습니다: " ++ source))
required copied source destination (some entry) files =
    copy_entry copied source destination entry files

unfoldable pub copy_file_required : Copied → Text → Text → Files → Copying
unfolding required
copy_file_required copied source destination files =
    required copied source destination (files source) files

pub optional : Copied → Text → Text → Option Entry → Files → Copying
unfolding copy_entry
optional copied source destination none files = (files, none)
optional copied source destination (some entry) files =
    copy_entry copied source destination entry files

unfoldable pub copy_file_optional : Copied → Text → Text → Files → Copying
unfolding optional
copy_file_optional copied source destination files =
    optional copied source destination (files source) files

copy_below : Copied → Text → Text → List (Text × Bytes) → Files → Copying
unfolding failed_copy
copy_below copy_works source destination below files =
    (put destination (some (folder below)) files, none)
copy_below (copy_fails left message) source destination below files = (
  put destination left files,
  some (codes "폴더 복사 실패: " ++ failed_copy source destination message),
)

-- `removed` is what `remove_all` leaves if it fails.
pub replace_folder : Option (Option Entry) → Copied → Text → Text → Option Entry → Files → Copying
unfolding copy_below
replace_folder removed copied source destination (some (folder below)) files = elim removed [
  | none ↦ copy_below copied source destination below (put destination none files)
  | some left ↦ (put destination left files, some (codes "기존 UI 폴더 정리 실패: " ++ destination))
]
replace_folder removed copied source destination _ files =
    (files, some (codes "필수 폴더를 찾을 수 없습니다: " ++ source))

unfoldable pub copy_directory_required :
    Option (Option Entry) → Copied → Text → Text → Files → Copying
unfolding replace_folder
copy_directory_required removed copied source destination files =
    replace_folder removed copied source destination (files source) files

-- `||` of the failures.
unfoldable pub and_then : Copying → (Files → Copying) → Copying
and_then (files, some message) next = (files, some message)
and_then (files, none) next = next files

-- What the system gives: the paths, the canonical form of a path in lower case letters, and what its
-- calls do.
pub record Calls : Type 0 where
  pub current_exe : Option Text
  pub install_directory : Option Text
  pub lower_canonical : Text → Text
  pub makes_folder : Bool
  pub exe : Copied
  pub loader : Copied
  pub removed : Option (Option Entry)
  pub ui : Copied
  pub readme : Copied
  pub version : Copied
  pub starts : Bool
  pub last_error : Text

-- The separators at the end are taken off; they are no letters.
without_separators : Text → Text
without_separators [] = []
without_separators (c ∷ path) =
    let rest = without_separators path in
    if text_eq rest [] then (if c == b'\\' || c == b'/' then [] else c ∷ []) else c ∷ rest

unfoldable pub same_path : Calls → Text → Text → Bool
unfolding without_separators
same_path calls left right =
    text_eq (without_separators (calls.lower_canonical left))
      (without_separators (calls.lower_canonical right))

unfoldable pub copy_all : Calls → Text → Text → Text → Files → Copying
copy_all calls exe source install files =
    and_then (copy_file_required calls.exe exe (join install (codes "ShareNotepad.exe")) files)
      (λ f1.
        and_then
          (copy_file_required calls.loader (join source (codes "WebView2Loader.dll"))
            (join install (codes "WebView2Loader.dll")) f1)
          (λ f2.
            and_then
              (copy_directory_required calls.removed calls.ui (join source (codes "ui"))
                (join install (codes "ui")) f2)
              (λ f3.
                and_then
                  (copy_file_optional calls.readme (join source (codes "README.txt"))
                    (join install (codes "README.txt")) f3)
                  (λ f4.
                    copy_file_optional calls.version (join source (codes "VERSION.txt"))
                      (join install (codes "VERSION.txt")) f4))))

pub data SelfInstallResult : Type 0 where
  continue relaunched failed : SelfInstallResult

-- The files and the result, with the text that `ShowInstallError` shows.
abbrev pub Outcome : Type 0
Outcome = Files × SelfInstallResult × Option Text

after_copies : Calls → Copying → Outcome
after_copies calls (files, some message) =
    (files, failed, some (message ++ codes "\n\n이미 실행 중인 ShareNotepad가 있다면 닫고 다시 실행해 주세요."))
after_copies calls (files, none) =
    if calls.starts
    then (files, relaunched, none)
    else (files, failed, some (codes "설치된 ShareNotepad를 실행할 수 없습니다: " ++ calls.last_error))

install_into : Calls → Text → Text → Option Text → Files → Outcome
unfolding after_copies
install_into calls exe source none files = (files, failed, some (codes "사용자 설치 경로를 찾을 수 없습니다."))
install_into calls exe source (some install) files =
    if same_path calls source install
    then (files, continue, none)
    else if calls.makes_folder
    then after_copies calls (copy_all calls exe source install files)
    else (files, failed, some (codes "설치 폴더를 만들 수 없습니다: " ++ install))

if_marked : Option Entry → Outcome → Files → Outcome
if_marked none outcome files = (files, continue, none)
if_marked (some marker) outcome files = outcome

run_from : Calls → Option Text → Files → Outcome
unfolding install_into if_marked
run_from calls none files = (files, continue, none)
run_from calls (some exe) files =
    let source = parent_path exe in
    if_marked (files (join source (codes "ShareNotepad.portable")))
      (install_into calls exe source calls.install_directory files) files

-- `RunSelfInstallIfNeeded`.
unfoldable pub run_self_install_if_needed : Calls → Files → Outcome
unfolding run_from
run_self_install_if_needed calls files = run_from calls calls.current_exe files
