-- ===== src/FileManager/Calls.antt =====
-- The system calls of hw1/fileManager.c as a parameter, and programs over them: a program takes the
-- system's state and what has been written to the standard streams, and gives them back changed.
use system_hw.CString.{codes}
use system_hw.Prelude.{ℕ, Option, List, ◌++◌}

-- Names of files, and texts: bytes before a NUL.
abbrev pub Name : Type 0
Name = List ℕ

pub data FileKind : Type 0 where
  directory_kind regular_kind other_kind : FileKind

-- The flags of `open` that occur: O_WRONLY | O_CREAT | O_TRUNC, O_WRONLY | O_CREAT | O_APPEND,
-- O_WRONLY | O_APPEND, O_RDONLY.
pub data OpenMode : Type 0 where
  truncating logging appending reading : OpenMode

pub data Lock : Type 0 where
  shared exclusive unlocked : Lock

-- `failed e`: the call returned -1 (or NULL) and set `errno` to e.
pub data Result (A : Type 0) : Type 0 where
  ok : A → Result A
  failed : ℕ → Result A

-- `stat` gives the kind, or nothing for -1. `opendir` gives the names that `readdir` then returns, up
-- to its NULL. `unset_mode` is what an uninitialised `st_mode` reads as, `now` what `strftime` makes
-- of the local time, and `size` bounds the bytes that a descriptor still gives.
pub record Os : Type 1 where
  pub State : Type 0
  pub stat : Name → State → Option FileKind
  pub mkdir : Name → State → Result (Unit {0}) × State
  pub open_file : OpenMode → Name → State → Result ℕ × State
  pub write : ℕ → List ℕ → State → State
  pub read : ℕ → ℕ → State → Result (List ℕ) × State
  pub flock : ℕ → Lock → State → Result (Unit {0}) × State
  pub close : ℕ → State → State
  pub fork : State → Result (Unit {0}) × State
  pub opendir : Name → State → Result (List Name) × State
  pub unlink_file : Name → State → Result (Unit {0}) × State
  pub rmdir : Name → State → Result (Unit {0}) × State
  pub unset_mode : State → FileKind
  pub now : State → List ℕ
  pub size : State → ℕ → ℕ
  pub strerror : ℕ → List ℕ

-- The system and the bytes written to STDOUT_FILENO and to STDERR_FILENO.
pub record World (S : Os) : Type 0 where
  pub os : S.State
  pub out : List ℕ
  pub err : List ℕ

abbrev pub Program : Os → Type 0 → Type 0
Program S A = World S → A × World S

infixl 5 ◌>>=◌ ◌>>◌
abbrev pub ◌>>=◌ : {S : Os} {A B : Type 0} → Program S A → (A → Program S B) → Program S B
◌>>=◌ m f w = f (m w).0 (m w).1

abbrev pub ◌>>◌ : {S : Os} {A B : Type 0} → Program S A → Program S B → Program S B
m >> k = m >>= λ _. k

module _ (S : Os) where
  abbrev pub pure : {A : Type 0} → A → Program S A
  pure a w = (a, w)

  -- A call that asks, one that may fail, and one whose result is not looked at.
  abbrev pub ask : {A : Type 0} → (S.State → A) → Program S A
  ask f w = (f w.os, w)

  abbrev pub call : {A : Type 0} → (S.State → A × S.State) → Program S A
  call f w = ((f w.os).0, record w { os = (f w.os).1 })

  abbrev pub apply : (S.State → S.State) → Program S (Unit {0})
  apply f w = (tt, record w { os = f w.os })

  -- `write` to one of the standard streams.
  abbrev pub put_out : List ℕ → Program S (Unit {0})
  put_out bytes w = (tt, record w { out = w.out ++ bytes })

  abbrev pub put_err : List ℕ → Program S (Unit {0})
  put_err bytes w = (tt, record w { err = w.err ++ bytes })

  -- A message and its line feed, written by two calls in the source.
  abbrev pub say : List ℕ → Program S (Unit {0})
  say message = put_out (message ++ codes "\n")

  abbrev pub complain : List ℕ → Program S (Unit {0})
  complain message = put_err (message ++ codes "\n")
