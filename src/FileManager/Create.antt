-- ===== src/FileManager/Create.antt =====
-- `logOperation` of hw1/utils.c, and `createDirectory`, `createFile` and `appendToFile` of
-- hw1/fileManager.c.
pub mod Log
pub mod Ends
pub mod Directory
pub mod File
pub mod Append
use system_hw.CString.{codes}
use system_hw.FileManager.Calls.{
  Name, Os, Program, Result, ok, failed, truncating, logging, appending, exclusive, unlocked,
  FileKind, pure, ask, call, apply, put_err, say, complain, ◌>>=◌, ◌>>◌,
}
use system_hw.Prelude.{ℕ, Option, none, some, List, [], ◌∷◌, ◌++◌}

-- `LOG_FILE`
abbrev pub log_file : Name
unfolding codes
log_file = codes "log.txt"

-- `Directory "NAME"` and the like, with what comes before and after the name.
abbrev pub about : List ℕ → Name → List ℕ → List ℕ
about before name after = before ++ (name ++ after)

module _ (S : Os) where
  pub log_to : List ℕ → Result ℕ → Program S (Unit {0})
  log_to message (failed e) = do
    put_err S (codes "Error opening log file: ")
    put_err S (S.strerror e)
    put_err S (codes "\n")
  log_to message (ok fd) = do
    timestamp ← ask S S.now
    apply S (S.write fd timestamp)
    apply S (S.write fd (codes " "))
    apply S (S.write fd message)
    apply S (S.write fd (codes "\n"))
    apply S (S.close fd)

  -- `logOperation`
  unfoldable pub log_operation : List ℕ → Program S (Unit {0})
  unfolding log_to
  log_operation message = do fd ← call S (S.open_file logging log_file); log_to message fd

  pub after_mkdir : Name → Result (Unit {0}) → Program S (Unit {0})
  after_mkdir name (failed e) = complain S (codes "Error creating directory: " ++ S.strerror e)
  after_mkdir name (ok _) = do
    let log_msg = about (codes "Directory \"") name (codes "\" created successfully.")
    log_operation log_msg
    say S log_msg

  pub make_directory : Name → Option FileKind → Program S (Unit {0})
  unfolding after_mkdir
  make_directory name (some _) =
      complain S (about (codes "Error: Directory \"") name (codes "\" already exists."))
  make_directory name none = do made ← call S (S.mkdir name); after_mkdir name made

  -- `createDirectory`
  pub create_directory : Name → Program S (Unit {0})
  unfolding make_directory
  create_directory name = do found ← ask S (S.stat name); make_directory name found

  pub fill_file : Name → Result ℕ → Program S (Unit {0})
  fill_file name (failed e) = complain S (codes "Error creating file: " ++ S.strerror e)
  fill_file name (ok fd) = do
    timestamp ← ask S S.now
    apply S (S.write fd timestamp)
    apply S (S.write fd (codes " File created\n"))
    apply S (S.close fd)
    let log_msg = about (codes "File \"") name (codes "\" created successfully.")
    log_operation log_msg
    say S log_msg

  pub make_file : Name → Option FileKind → Program S (Unit {0})
  unfolding fill_file
  make_file name (some _) =
      complain S (about (codes "Error: File \"") name (codes "\" already exists."))
  make_file name none = do fd ← call S (S.open_file truncating name); fill_file name fd

  -- `createFile`
  pub create_file : Name → Program S (Unit {0})
  unfolding make_file
  create_file name = do found ← ask S (S.stat name); make_file name found

  pub append_locked : Name → List ℕ → ℕ → Result (Unit {0}) → Program S (Unit {0})
  append_locked name content fd (failed e) = do
    complain S (
        about (codes "Error: Cannot write to \"") name
          (codes "\". File is currently being accessed by another process."))
    apply S (S.close fd)
  append_locked name content fd (ok _) = do
    apply S (S.write fd (codes "\n"))
    apply S (S.write fd content)
    call S (S.flock fd unlocked)
    apply S (S.close fd)
    let log_msg = about (codes "Content appended to file \"") name (codes "\" successfully.")
    log_operation log_msg
    say S log_msg

  pub append_opened : Name → List ℕ → Result ℕ → Program S (Unit {0})
  unfolding append_locked
  append_opened name content (failed e) =
      complain S
        (about (codes "Error: Cannot write to \"") name (codes "\". File is locked or read-only."))
  append_opened name content (ok fd) = do
    locked ← call S (S.flock fd exclusive)
    append_locked name content fd locked

  pub append_found : Name → List ℕ → Option FileKind → Program S (Unit {0})
  unfolding append_opened
  append_found name content none =
      complain S (about (codes "Error: File \"") name (codes "\" not found."))
  append_found name content (some _) = do
    fd ← call S (S.open_file appending name)
    append_opened name content fd

  -- `appendToFile`
  pub append_to_file : Name → List ℕ → Program S (Unit {0})
  unfolding append_found
  append_to_file name content = do found ← ask S (S.stat name); append_found name content found
