-- ===== src/FileManager/List.antt =====
-- `listDirectory` and `listFilesByExtension` of hw1/fileManager.c. A child process does the listing
-- while the parent waits, so the two are one program; the parent does not look at its exit status.
pub mod Extension
pub mod Matched
pub mod Lists
pub mod Rows
use system_hw.CString.{codes, strcmp_eq, strrchr}
use system_hw.FileManager.Calls.{
  Name, Os, Program, Result, ok, failed, FileKind, directory_kind, regular_kind, other_kind, pure,
  ask, call, say, complain, ◌>>=◌, ◌>>◌,
}
use system_hw.FileManager.Create.{log_operation, about}
use system_hw.Prelude.{ℕ, Bool, true, false, Option, none, some, List, [], ◌∷◌, ◌++◌, if◌then◌else◌}

-- `type`
kind_word : FileKind → List ℕ
kind_word directory_kind = codes "Directory"
kind_word regular_kind = codes "File"
kind_word other_kind = codes "Other"

-- `file_ext != NULL && strcmp(file_ext, extension) == 0`
unfoldable pub ext_eq : List ℕ → Option (List ℕ) → Bool
ext_eq extension none = false
ext_eq extension (some file_ext) = strcmp_eq file_ext extension

unfoldable pub has_extension : List ℕ → Name → Bool
unfolding ext_eq
has_extension extension name = ext_eq extension (strrchr b'.' name)

module _ (S : Os) where
  -- `path_stat.st_mode` after a `stat` whose result is not looked at.
  pub mode_of : Option FileKind → Program S FileKind
  mode_of (some kind) = pure S kind
  mode_of none = ask S S.unset_mode

  -- The loop over `readdir` in `listDirectory`.
  pub print_entries : Name → List Name → Program S (Unit {0})
  unfolding mode_of
  print_entries dir [] = pure S tt
  print_entries dir (name ∷ names) = do
    found ← ask S (S.stat (dir ++ (codes "/" ++ name)))
    kind ← mode_of found
    say S (codes "  " ++ (name ++ (codes " [" ++ (kind_word kind ++ codes "]"))))
    print_entries dir names

  pub list_opened : Name → Result (List Name) → Program S (Unit {0})
  unfolding print_entries
  list_opened dir (failed e) = complain S (codes "Error opening directory: " ++ S.strerror e)
  list_opened dir (ok names) = do
    say S (about (codes "Contents of directory \"") dir (codes "\":"))
    print_entries dir names

  -- After `fork`: the child, then the parent.
  pub list_forked : Name → Result (Unit {0}) → Program S (Unit {0})
  unfolding list_opened
  list_forked dir (failed e) = complain S (codes "Error forking process: " ++ S.strerror e)
  list_forked dir (ok _) = do
    names ← call S (S.opendir dir)
    list_opened dir names
    log_operation S (about (codes "Directory \"") dir (codes "\" listed successfully."))

  pub list_found : Name → Option FileKind → Program S (Unit {0})
  unfolding list_forked
  list_found dir none = complain S (about (codes "Error: Directory \"") dir (codes "\" not found."))
  list_found dir (some _) = do forked ← call S S.fork; list_forked dir forked

  -- `listDirectory`
  pub list_directory : Name → Program S (Unit {0})
  unfolding list_found
  list_directory dir = do found ← ask S (S.stat dir); list_found dir found

  -- The loop over `readdir` in `listFilesByExtension`; the result is `found`. What its `stat` gives is
  -- not used.
  pub print_matching : List ℕ → Bool → List Name → Program S Bool
  print_matching extension found [] = pure S found
  print_matching extension found (name ∷ names) = do
    let matching = has_extension extension name
    if matching then say S (codes "  " ++ name) else pure S tt
    print_matching extension (if matching then true else found) names

  pub tell_found : Name → List ℕ → Bool → Program S (Unit {0})
  tell_found dir extension true = pure S tt
  tell_found dir extension false = say S (
      about (codes "No files with extension \"") extension
        (about (codes "\" found in \"") dir (codes "\".")))

  pub match_opened : Name → List ℕ → Result (List Name) → Program S (Unit {0})
  unfolding print_matching tell_found
  match_opened dir extension (failed e) =
      complain S (codes "Error opening directory: " ++ S.strerror e)
  match_opened dir extension (ok names) = do
    say S (
        about (codes "Files with extension \"") extension
          (about (codes "\" in directory \"") dir (codes "\":")))
    found ← print_matching extension false names
    tell_found dir extension found

  pub match_forked : Name → List ℕ → Result (Unit {0}) → Program S (Unit {0})
  unfolding match_opened
  match_forked dir extension (failed e) =
      complain S (codes "Error forking process: " ++ S.strerror e)
  match_forked dir extension (ok _) = do
    names ← call S (S.opendir dir)
    match_opened dir extension names
    log_operation S (
        about (codes "Listed files with extension \"") extension
          (about (codes "\" in directory \"") dir (codes "\".")))

  pub match_found : Name → List ℕ → Option FileKind → Program S (Unit {0})
  unfolding match_forked
  match_found dir extension none =
      complain S (about (codes "Error: Directory \"") dir (codes "\" not found."))
  match_found dir extension (some _) = do forked ← call S S.fork; match_forked dir extension forked

  -- `listFilesByExtension`
  pub list_files_by_extension : Name → List ℕ → Program S (Unit {0})
  unfolding match_found
  list_files_by_extension dir extension = do
    found ← ask S (S.stat dir)
    match_found dir extension found
