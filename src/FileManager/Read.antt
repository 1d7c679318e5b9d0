-- ===== src/FileManager/Read.antt =====
-- `readFile` and `showLogs` of hw1/fileManager.c.
pub mod Copies
pub mod Prints
pub mod Logs
use system_hw.CString.{codes}
use system_hw.FileManager.Calls.{
  Name, Os, Program, Result, ok, failed, FileKind, reading, shared, unlocked, pure, ask, call,
  apply, put_out, say, complain, ◌>>=◌, ◌>>◌,
}
use system_hw.FileManager.Create.{log_file, log_operation, about}
use system_hw.Prelude.{ℕ, zero, suc, ◌+◌, Option, none, some, List, [], ◌∷◌, ◌++◌}

-- `BUFFER_SIZE`
abbrev pub buffer_size : ℕ
buffer_size = 4096

module _ (S : Os) where
  -- The body of the loop, before the rest of it.
  pub copy_chunk : Program S (Unit {0}) → Result (List ℕ) → Program S (Unit {0})
  copy_chunk rest (failed e) = pure S tt
  copy_chunk rest (ok []) = pure S tt
  copy_chunk rest (ok (c ∷ cs)) = put_out S (c ∷ cs) >> rest

  -- `while ((bytes_read = read(fd, buffer, BUFFER_SIZE)) > 0) write(...)`
  pub copy_out : ℕ → ℕ → Program S (Unit {0})
  unfolding copy_chunk
  copy_out zero fd = pure S tt
  copy_out (suc fuel) fd = do
    chunk ← call S (S.read fd buffer_size)
    copy_chunk (copy_out fuel fd) chunk

  -- Each read gives a byte, so one round more than there are bytes is enough.
  pub copy_all : ℕ → Program S (Unit {0})
  unfolding copy_out
  copy_all fd = do size ← ask S (λ s. S.size s fd); copy_out (size + 1) fd

  pub read_locked : Name → ℕ → Result (Unit {0}) → Program S (Unit {0})
  unfolding copy_all
  read_locked name fd (failed e) = do
    complain S
        (about (codes "Error: Cannot read \"") name (codes "\". File is locked for writing."))
    apply S (S.close fd)
  read_locked name fd (ok _) = do
    say S (about (codes "Contents of file \"") name (codes "\":"))
    copy_all fd
    put_out S (codes "\n")
    call S (S.flock fd unlocked)
    apply S (S.close fd)
    log_operation S (about (codes "File \"") name (codes "\" read successfully."))

  pub read_opened : Name → Result ℕ → Program S (Unit {0})
  unfolding read_locked
  read_opened name (failed e) = complain S (codes "Error opening file: " ++ S.strerror e)
  read_opened name (ok fd) = do locked ← call S (S.flock fd shared); read_locked name fd locked

  pub read_found : Name → Option FileKind → Program S (Unit {0})
  unfolding read_opened
  read_found name none = complain S (about (codes "Error: File \"") name (codes "\" not found."))
  read_found name (some _) = do fd ← call S (S.open_file reading name); read_opened name fd

  -- `readFile`
  pub read_file : Name → Program S (Unit {0})
  unfolding read_found
  read_file name = do found ← ask S (S.stat name); read_found name found

  pub show_opened : Result ℕ → Program S (Unit {0})
  unfolding copy_all
  show_opened (failed e) = complain S (codes "Error opening log file: " ++ S.strerror e)
  show_opened (ok fd) = do
    put_out S (codes "Operation logs:\n")
    copy_all fd
    apply S (S.close fd)
    log_operation S (codes "Logs displayed successfully.")

  pub show_found : Option FileKind → Program S (Unit {0})
  unfolding show_opened
  show_found none = complain S (codes "Error: Log file not found.")
  show_found (some _) = do fd ← call S (S.open_file reading log_file); show_opened fd

  -- `showLogs`
  pub show_logs : Program S (Unit {0})
  unfolding show_found
  show_logs = do found ← ask S (S.stat log_file); show_found found
