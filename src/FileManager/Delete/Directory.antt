-- ===== src/FileManager/Delete/Directory.antt =====
-- What `deleteDirectory` of hw1/fileManager.c does.
use system_hw.CString.{codes}
use system_hw.FileManager.Calls.{Name, Os, World, ok, failed}
use system_hw.FileManager.Create.{about}
use system_hw.FileManager.Create.Ends.{Ends, Done}
use system_hw.FileManager.Delete.{is_empty_dir}
use system_hw.FileManager.Tree.{folder, Tree, Changes, Lawful}
use system_hw.Prelude.{ℕ, ◌≡◌, ◌≢◌, ◌⊎◌, false, none, some, List, [], ◌∷◌, ◌++◌}

-- The entries that every directory has.
abbrev pub OnlyDots : List Name → Type 0
OnlyDots [] = Unit {0}
OnlyDots (name ∷ names) = ((name ≡ codes ".") ⊎ (name ≡ codes "..")) × OnlyDots names

module _ (S : Os) (L : Lawful S) where
  -- The states before and after the child reads the directory.
  abbrev forked : World S → S.State
  forked w = (S.fork w.os).1

  abbrev listed : Name → World S → S.State
  listed dir w = (S.opendir dir (forked w)).1

  abbrev RmdirFails : Name → World S → List ℕ → Type 0
  RmdirFails dir w why =
      ((e : ℕ) × ((S.fork w.os).0 ≡ failed e)
        × (why ≡ codes "Error forking process: " ++ S.strerror e))
      ⊎ ((e : ℕ) × ((S.opendir dir (forked w)).0 ≡ failed e)
          × (why ≡ codes "Error opening directory: " ++ S.strerror e))
      ⊎ ((names : List Name) × ((S.opendir dir (forked w)).0 ≡ ok names)
          × (is_empty_dir names ≡ false)
          × (why ≡ about (codes "Error: Directory \"") dir (codes "\" is not empty.")))
      ⊎ ((e : ℕ) × ((S.rmdir dir (listed dir w)).0 ≡ failed e)
          × (why ≡ codes "Error deleting directory: " ++ S.strerror e))

  abbrev NoDirectory : Name → World S → World S → Type 0
  NoDirectory dir w t =
      ((names : List Name) × ((S.opendir dir (forked w)).0 ≡ ok names) × OnlyDots names)
      × (L.entry w.os dir ≡ some folder)
      × (tree : Tree) × Changes L.apart dir (λ _. none) (L.entry w.os) tree
      × Done S L w t tree (about (codes "Directory \"") dir (codes "\" deleted successfully."))

  abbrev pub DeletesDirectory : Name → World S → World S → Type 0
  DeletesDirectory dir w t =
      Ends S L w t (L.entry w.os dir ≢ none)
        (about (codes "Error: Directory \"") dir (codes "\" not found.")) (RmdirFails dir w)
        (NoDirectory dir w t)

  message : Name → List ℕ
  message dir = about (codes "Directory \"") dir (codes "\" deleted successfully.")
