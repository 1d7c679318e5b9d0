-- ===== src/FileManager/Memory.antt =====
-- A small file system in memory that meets what the theorems on the file manager ask for, so that
-- they can be applied and the commands run. All descriptors are the last one opened.
use system_hw.CString.{codes, strcmp_eq, strcmp_eq_iff}
use system_hw.FileManager.Calls.{
  Name, Os, other_kind, OpenMode, truncating, logging, appending, reading, Result, ok, failed,
}
use system_hw.FileManager.Tree.{
  Entry, folder, special, file, Tree, kind_of, change, contents, extended, emptied, created, Begins,
  Changes, OpensTree, Lawful, Either,
}
use system_hw.Prelude.{
  ℕ, zero, suc, ◌<◌, ◌≡◌, ◌≢◌, refl, sym, subst, inl, inr, Bool-cases, append-nil, Option, none,
  some, List, [], ◌∷◌, length, take, drop, take-append-drop, arith,
}

-- `names` is what `readdir` gives for a directory.
pub record Disk : Type 0 where
  pub tree : Tree
  pub names : Name → List Name
  pub path : Name
  pub left : List ℕ

-- The errors ENOENT, EEXIST, ENOTDIR, EISDIR.
unfoldable pub mkdir_at : Name → Disk → Option Entry → Result (Unit {0}) × Disk
mkdir_at n d none = (ok tt, record d { tree = change n (λ _. some folder) d.tree })
mkdir_at n d (some _) = (failed 17, d)

unfoldable pub open_error : OpenMode → Option Entry → Option ℕ
open_error reading none = some 2
open_error appending none = some 2
open_error reading _ = none
open_error _ (some folder) = some 21
open_error _ _ = none

abbrev pub opened : OpenMode → Name → Tree → Tree
opened truncating n tree = change n emptied tree
opened logging n tree = change n created tree
opened appending n tree = tree
opened reading n tree = tree

unfoldable pub open_at : OpenMode → Name → Disk → Option ℕ → Result ℕ × Disk
open_at mode n d (some e) = (failed e, d)
open_at mode n d none =
    (ok 3, record d { tree = opened mode n d.tree; path = n; left = contents (d.tree n) })

unfoldable pub opendir_at : Name → Disk → Option Entry → Result (List Name) × Disk
opendir_at n d (some folder) = (ok (d.names n), d)
opendir_at n d (some _) = (failed 20, d)
opendir_at n d none = (failed 2, d)

unfoldable pub unlink_at : Name → Disk → Option Entry → Result (Unit {0}) × Disk
unlink_at n d none = (failed 2, d)
unlink_at n d (some folder) = (failed 21, d)
unlink_at n d (some _) = (ok tt, record d { tree = change n (λ _. none) d.tree })

unfoldable pub rmdir_at : Name → Disk → Option Entry → Result (Unit {0}) × Disk
rmdir_at n d (some folder) = (ok tt, record d { tree = change n (λ _. none) d.tree })
rmdir_at n d (some _) = (failed 20, d)
rmdir_at n d none = (failed 2, d)

abbrev pub memory : Os
memory = record {
  State = Disk;
  stat = λ n d. kind_of (d.tree n);
  mkdir = λ n d. mkdir_at n d (d.tree n);
  open_file = λ mode n d. open_at mode n d (open_error mode (d.tree n));
  write = λ fd bytes d. record d { tree = change d.path (extended bytes) d.tree };
  read = λ fd k d. (ok (take k d.left), record d { left = drop k d.left });
  flock = λ fd lock d. (ok tt, d);
  close = λ fd d. d;
  fork = λ d. (ok tt, d);
  opendir = λ n d. opendir_at n d (d.tree n);
  unlink_file = λ n d. unlink_at n d (d.tree n);
  rmdir = λ n d. rmdir_at n d (d.tree n);
  unset_mode = λ d. other_kind;
  now = λ d. codes "[2025-03-01 12:00:00]";
  size = λ d fd. length d.left;
  strerror = λ e. codes "Error";
}

change-Changes :
    (n : Name) (f : Option Entry → Option Entry) (tree : Tree)
    → Changes (λ n m. m ≢ n) n f tree (change n f tree)
unfolding change
change-Changes n f tree = (
  rw ((strcmp_eq_iff n n).1 refl) refl,
  λ m ne. elim (Bool-cases (strcmp_eq m n)) [
    | inl is ↦ absurd (ne ((strcmp_eq_iff m n).0 is))
    | inr other ↦ rw other refl
  ],
)

the_path : {m n : Name} → some m ≡ some n → m ≡ n
the_path e = cc e

take_nothing : (k : ℕ) (xs : List ℕ) → 0 < k → take k xs ≡ [] → xs ≡ []
take_nothing zero xs pos e = elim pos [ ]
take_nothing (suc k) [] pos e = refl
take_nothing (suc k) (x ∷ xs) pos e = cc

mkdir_entry :
    (n : Name) (d : Disk) (o : Option Entry)
    → Either
        (mkdir_at n d o).0
        (λ _. Changes (λ n m. m ≢ n) n (λ _. some folder) d.tree (mkdir_at n d o).1.tree)
        ((mkdir_at n d o).1.tree ≡ d.tree)
unfolding mkdir_at
mkdir_entry n d none = change-Changes n _ d.tree
mkdir_entry n d (some _) = refl

open_entry :
    (mode : OpenMode) (n : Name) (d : Disk) (e : Option ℕ)
    → Either
        (open_at mode n d e).0
        (λ fd.
          OpensTree (λ n m. m ≢ n) mode n d.tree (open_at mode n d e).1.tree
          × (some (open_at mode n d e).1.path ≡ some n)
          × ((open_at mode n d e).1.left ≡ contents (d.tree n)))
        ((open_at mode n d e).1.tree ≡ d.tree)
unfolding open_at
open_entry truncating n d none = (change-Changes n _ d.tree, refl, refl)
open_entry logging n d none = (change-Changes n _ d.tree, refl, refl)
open_entry appending n d none = (refl, refl, refl)
open_entry reading n d none = (refl, refl, refl)
open_entry mode n d (some e) = refl

opendir_entry : (n : Name) (d : Disk) (o : Option Entry) → (opendir_at n d o).1.tree ≡ d.tree
unfolding opendir_at
opendir_entry n d none = refl
opendir_entry n d (some folder) = refl
opendir_entry n d (some special) = refl
opendir_entry n d (some (file bytes)) = refl

unlink_entry :
    (n : Name) (d : Disk) (o : Option Entry)
    → Either
        (unlink_at n d o).0
        (λ _. Changes (λ n m. m ≢ n) n (λ _. none) d.tree (unlink_at n d o).1.tree)
        ((unlink_at n d o).1.tree ≡ d.tree)
unfolding unlink_at
unlink_entry n d none = refl
unlink_entry n d (some folder) = refl
unlink_entry n d (some special) = change-Changes n _ d.tree
unlink_entry n d (some (file bytes)) = change-Changes n _ d.tree

rmdir_entry :
    (n : Name) (d : Disk) (o : Option Entry)
    → Either
        (rmdir_at n d o).0
        (λ _.
          (o ≡ some folder) × Changes (λ n m. m ≢ n) n (λ _. none) d.tree (rmdir_at n d o).1.tree)
        ((rmdir_at n d o).1.tree ≡ d.tree)
unfolding rmdir_at
rmdir_entry n d none = refl
rmdir_entry n d (some folder) = (refl, change-Changes n _ d.tree)
rmdir_entry n d (some special) = refl
rmdir_entry n d (some (file bytes)) = refl

write_entry :
    (bytes : List ℕ) (d : Disk) (n : Name)
    → some d.path ≡ some n
    → (part : List ℕ) × Begins part bytes
      × Changes (λ n m. m ≢ n) n (extended part) d.tree (change d.path (extended bytes) d.tree)
      × (some d.path ≡ some n)
write_entry bytes d n e = (
  bytes,
  ([], sym (append-nil bytes)),
  subst
      (λ p.
        Changes (λ n m. m ≢ n) p (extended bytes) d.tree (change d.path (extended bytes) d.tree))
      (the_path e) (change-Changes d.path _ d.tree),
  e,
)

pub memory-Lawful : Lawful memory
memory-Lawful = record {
  entry = λ d. d.tree;
  apart = λ n m. m ≢ n;
  handle = λ d fd. some d.path;
  ahead = λ d fd. d.left;
  stat-entry = λ n d. refl;
  entry-mkdir = λ n d. mkdir_entry n d (d.tree n);
  entry-open = λ mode n d. open_entry mode n d (open_error mode (d.tree n));
  entry-write = λ fd bytes d n e. write_entry bytes d n e;
  entry-read = λ fd k d. refl;
  ahead-read = λ fd k d. (sym (take-append-drop k d.left), take_nothing k d.left);
  length-ahead = λ d fd. omega arith;
  entry-flock = λ fd lock d. refl;
  handle-flock = λ fd lock d. refl;
  ahead-flock = λ fd lock d. refl;
  entry-close = λ fd d. refl;
  entry-fork = λ d. refl;
  entry-opendir = λ n d. opendir_entry n d (d.tree n);
  entry-unlink = λ n d. unlink_entry n d (d.tree n);
  entry-rmdir = λ n d. rmdir_entry n d (d.tree n);
}

pub memory-Lawful-apart : (n m : Name) → m ≢ n → memory-Lawful.apart n m
unfolding memory-Lawful
memory-Lawful-apart n m ne = ne
