-- ===== src/FileManager/Read/Prints.antt =====
-- What `readFile` of hw1/fileManager.c does.
use system_hw.CString.{codes}
use system_hw.FileManager.Calls.{Name, Os, World, ok, failed, reading, shared}
use system_hw.FileManager.Create.{about}
use system_hw.FileManager.Create.Ends.{Attempts, Ends}
use system_hw.FileManager.Read.Copies.{Shows}
use system_hw.FileManager.Tree.{contents, Lawful}
use system_hw.Prelude.{ℕ, ◌≡◌, ◌≢◌, ◌⊎◌, none, List, ◌++◌}

module _ (S : Os) (L : Lawful S) where
  abbrev OpenFails : Name → World S → List ℕ → List ℕ → Type 0
  OpenFails name w prefix why =
      (e : ℕ) × ((S.open_file reading name w.os).0 ≡ failed e) × (why ≡ prefix ++ S.strerror e)

  abbrev LockFails : Name → World S → List ℕ → Type 0
  LockFails name w why =
      (fd e : ℕ) × ((S.flock fd shared (S.open_file reading name w.os).1).0 ≡ failed e)
      × (why ≡ about (codes "Error: Cannot read \"") name (codes "\". File is locked for writing."))

  abbrev ShowsFile : Name → World S → World S → Type 0
  ShowsFile name w t =
      (fd : ℕ) × ((S.open_file reading name w.os).0 ≡ ok fd)
      × Shows S L fd (S.flock fd shared (S.open_file reading name w.os).1).1
          (contents (L.entry w.os name))
          (about (codes "Contents of file \"") name (codes "\":") ++ codes "\n") (codes "\n") w t
          (about (codes "File \"") name (codes "\" read successfully."))

  abbrev ReadOrNot : Name → World S → World S → Type 0
  ReadOrNot name w t =
      Attempts S L w t
        (λ why. OpenFails name w (codes "Error opening file: ") why ⊎ LockFails name w why)
        (ShowsFile name w t)

  abbrev pub Prints : Name → World S → World S → Type 0
  Prints name w t =
      Ends S L w t (L.entry w.os name ≢ none)
        (about (codes "Error: File \"") name (codes "\" not found."))
        (λ why. OpenFails name w (codes "Error opening file: ") why ⊎ LockFails name w why)
        (ShowsFile name w t)
