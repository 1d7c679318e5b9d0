-- ===== src/FileManager/Tree.antt =====
-- What the file manager's theorems say of a file system: a tree is what each name stands for, and
-- `Lawful` is what the system calls do to it, by their manual pages.
use system_hw.CString.{strcmp_eq}
use system_hw.FileManager.Calls.{
  Name, Os, Result, ok, failed, FileKind, directory_kind, regular_kind, other_kind, OpenMode,
  truncating, logging, appending, reading, Lock,
}
use system_hw.Prelude.{ℕ, ◌≤◌, ◌<◌, ◌≡◌, Option, none, some, List, [], ◌++◌, length, if◌then◌else◌}

pub data Entry : Type 0 where
  folder special : Entry
  file : List ℕ → Entry

abbrev pub Tree : Type 0
Tree = Name → Option Entry

abbrev pub kind_of : Option Entry → Option FileKind
kind_of none = none
kind_of (some folder) = some directory_kind
kind_of (some (file _)) = some regular_kind
kind_of (some special) = some other_kind

-- A change of what one name stands for.
unfoldable pub change : Name → (Option Entry → Option Entry) → Tree → Tree
change n f tree m = if strcmp_eq m n then f (tree m) else tree m

-- What a file holds; other entries hold nothing that these programs see.
abbrev pub contents : Option Entry → List ℕ
contents (some (file bytes)) = bytes
contents _ = []

abbrev pub extended : List ℕ → Option Entry → Option Entry
extended bytes (some (file old)) = some (file (old ++ bytes))
extended bytes o = o

abbrev pub created : Option Entry → Option Entry
created none = some (file [])
created (some e) = some e

abbrev pub emptied : Option Entry → Option Entry
emptied (some (file _)) = some (file [])
emptied o = created o

-- Where a call did what it was asked to, `P`, and where it failed, `Q`.
abbrev pub Either : {A : Type 0} → Result A → (A → Type 0) → Type 0 → Type 0
Either (ok a) P Q = P a
Either (failed e) P Q = Q

-- The first part of some bytes, which may be none or all of them.
abbrev pub Begins : List ℕ → List ℕ → Type 0
Begins part bytes = (rest : List ℕ) × (bytes ≡ part ++ rest)

-- From `before` to `after`, what `n` stands for has become `f` of it, and what every name stands for
-- that is apart from `n` has stayed.
abbrev pub Changes :
    (Name → Name → Type 0) → Name → (Option Entry → Option Entry) → Tree → Tree → Type 0
Changes apart n f before after =
    (after n ≡ f (before n)) × ((m : Name) → apart n m → after m ≡ before m)

abbrev pub OpensTree : (Name → Name → Type 0) → OpenMode → Name → Tree → Tree → Type 0
OpensTree apart truncating n before after = Changes apart n emptied before after
OpensTree apart logging n before after = Changes apart n created before after
OpensTree apart appending n before after = after ≡ before
OpensTree apart reading n before after = after ≡ before

-- `entry` is what `stat` sees of a path. Two paths are `apart` if they do not lead, through dots or
-- links, to the same entry, nor one through the other; of a path that is not apart from the one that
-- a call changes nothing is said. `handle` is the file that a descriptor writes to at its end, `ahead`
-- what a descriptor has still to read. A `write` writes a first part of the bytes, or fails and
-- writes none; another call that fails changes no entry.
pub record Lawful (S : Os) : Type 1 where
  pub entry : S.State → Tree
  pub apart : Name → Name → Type 0
  pub handle : S.State → ℕ → Option Name
  pub ahead : S.State → ℕ → List ℕ
  pub stat-entry : (n : Name) (s : S.State) → S.stat n s ≡ kind_of (entry s n)
  pub entry-mkdir :
      (n : Name) (s : S.State)
      → Either
          (S.mkdir n s).0
          (λ _. Changes apart n (λ _. some folder) (entry s) (entry (S.mkdir n s).1))
          (entry (S.mkdir n s).1 ≡ entry s)
  pub entry-open :
      (mode : OpenMode) (n : Name) (s : S.State)
      → Either
          (S.open_file mode n s).0
          (λ fd.
            OpensTree apart mode n (entry s) (entry (S.open_file mode n s).1)
            × (handle (S.open_file mode n s).1 fd ≡ some n)
            × (ahead (S.open_file mode n s).1 fd ≡ contents (entry s n)))
          (entry (S.open_file mode n s).1 ≡ entry s)
  pub entry-write :
      (fd : ℕ) (bytes : List ℕ) (s : S.State) (n : Name)
      → handle s fd ≡ some n
      → (part : List ℕ) × Begins part bytes
        × Changes apart n (extended part) (entry s) (entry (S.write fd bytes s))
        × (handle (S.write fd bytes s) fd ≡ some n)
  pub entry-read : (fd k : ℕ) (s : S.State) → entry (S.read fd k s).1 ≡ entry s
  pub ahead-read :
      (fd k : ℕ) (s : S.State)
      → Either
          (S.read fd k s).0
          (λ bytes.
            (ahead s fd ≡ bytes ++ ahead (S.read fd k s).1 fd)
            × (0 < k → bytes ≡ [] → ahead s fd ≡ []))
          (Unit {0})
  pub length-ahead : (s : S.State) (fd : ℕ) → length (ahead s fd) ≤ S.size s fd
  pub entry-flock : (fd : ℕ) (lock : Lock) (s : S.State) → entry (S.flock fd lock s).1 ≡ entry s
  pub handle-flock :
      (fd : ℕ) (lock : Lock) (s : S.State) → handle (S.flock fd lock s).1 fd ≡ handle s fd
  pub ahead-flock :
      (fd : ℕ) (lock : Lock) (s : S.State) → ahead (S.flock fd lock s).1 fd ≡ ahead s fd
  pub entry-close : (fd : ℕ) (s : S.State) → entry (S.close fd s) ≡ entry s
  pub entry-fork : (s : S.State) → entry (S.fork s).1 ≡ entry s
  pub entry-opendir : (n : Name) (s : S.State) → entry (S.opendir n s).1 ≡ entry s
  pub entry-unlink :
      (n : Name) (s : S.State)
      → Either
          (S.unlink_file n s).0
          (λ _. Changes apart n (λ _. none) (entry s) (entry (S.unlink_file n s).1))
          (entry (S.unlink_file n s).1 ≡ entry s)
  pub entry-rmdir :
      (n : Name) (s : S.State)
      → Either
          (S.rmdir n s).0
          (λ _.
            (entry s n ≡ some folder)
            × Changes apart n (λ _. none) (entry s) (entry (S.rmdir n s).1))
          (entry (S.rmdir n s).1 ≡ entry s)
