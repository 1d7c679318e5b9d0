-- ===== src/FileManager/Delete.antt =====
-- `deleteFile` and `deleteDirectory` of hw1/fileManager.c. A child process deletes while the parent
-- waits; the child's exit status is the result of its part.
pub mod File
pub mod Directory
use system_hw.CString.{codes, strcmp_eq}
use system_hw.FileManager.Calls.{
  Name, Os, Program, Result, ok, failed, FileKind, pure, ask, call, say, complain, ◌>>=◌, ◌>>◌,
}
use system_hw.FileManager.Create.{log_operation, about}
use system_hw.Prelude.{
  ℕ, Bool, true, false, ◌&&◌, not, Option, none, some, List, [], ◌∷◌, ◌++◌, if◌then◌else◌,
}

-- The loop over `readdir` in `deleteDirectory`: `is_empty` after it.
unfoldable pub is_empty_dir : List Name → Bool
is_empty_dir [] = true
is_empty_dir (name ∷ names) =
    if not (strcmp_eq name (codes ".")) && not (strcmp_eq name (codes ".."))
    then false
    else is_empty_dir names

-- `exit(EXIT_SUCCESS)` and `exit(EXIT_FAILURE)`
pub data ExitStatus : Type 0 where
  success failure : ExitStatus

module _ (S : Os) where
  fail_with : List ℕ → Program S ExitStatus
  fail_with message = do complain S message; pure S failure

  pub after_unlink : Name → Result (Unit {0}) → Program S ExitStatus
  unfolding fail_with
  after_unlink name (failed e) = fail_with (codes "Error deleting file: " ++ S.strerror e)
  after_unlink name (ok _) = do
    say S (about (codes "File \"") name (codes "\" deleted successfully."))
    pure S success

  -- The parent after `waitpid`.
  pub log_success : List ℕ → ExitStatus → Program S (Unit {0})
  log_success message failure = pure S tt
  log_success message success = log_operation S message

  pub unlink_forked : Name → Result (Unit {0}) → Program S (Unit {0})
  unfolding after_unlink log_success
  unlink_forked name (failed e) = complain S (codes "Error forking process: " ++ S.strerror e)
  unlink_forked name (ok _) = do
    unlinked ← call S (S.unlink_file name)
    status ← after_unlink name unlinked
    log_success (about (codes "File \"") name (codes "\" deleted successfully.")) status

  pub unlink_found : Name → Option FileKind → Program S (Unit {0})
  unfolding unlink_forked
  unlink_found name none = complain S (about (codes "Error: File \"") name (codes "\" not found."))
  unlink_found name (some _) = do forked ← call S S.fork; unlink_forked name forked

  -- `deleteFile`
  pub delete_file : Name → Program S (Unit {0})
  unfolding unlink_found
  delete_file name = do found ← ask S (S.stat name); unlink_found name found

  pub after_rmdir : Name → Result (Unit {0}) → Program S ExitStatus
  unfolding fail_with
  after_rmdir dir (failed e) = fail_with (codes "Error deleting directory: " ++ S.strerror e)
  after_rmdir dir (ok _) = do
    say S (about (codes "Directory \"") dir (codes "\" deleted successfully."))
    pure S success

  pub remove_if : Name → Bool → Program S ExitStatus
  unfolding after_rmdir
  remove_if dir false =
      fail_with (about (codes "Error: Directory \"") dir (codes "\" is not empty."))
  remove_if dir true = do removed ← call S (S.rmdir dir); after_rmdir dir removed

  pub rmdir_opened : Name → Result (List Name) → Program S ExitStatus
  unfolding remove_if
  rmdir_opened dir (failed e) = fail_with (codes "Error opening directory: " ++ S.strerror e)
  rmdir_opened dir (ok names) = remove_if dir (is_empty_dir names)

  pub rmdir_forked : Name → Result (Unit {0}) → Program S (Unit {0})
  unfolding rmdir_opened log_success
  rmdir_forked dir (failed e) = complain S (codes "Error forking process: " ++ S.strerror e)
  rmdir_forked dir (ok _) = do
    names ← call S (S.opendir dir)
    status ← rmdir_opened dir names
    log_success (about (codes "Directory \"") dir (codes "\" deleted successfully.")) status

  pub rmdir_found : Name → Option FileKind → Program S (Unit {0})
  unfolding rmdir_forked
  rmdir_found dir none =
      complain S (about (codes "Error: Directory \"") dir (codes "\" not found."))
  rmdir_found dir (some _) = do forked ← call S S.fork; rmdir_forked dir forked

  -- `deleteDirectory`
  pub delete_directory : Name → Program S (Unit {0})
  unfolding rmdir_found
  delete_directory dir = do found ← ask S (S.stat dir); rmdir_found dir found
