-- ===== src/FileManager/Create/Append.antt =====
-- What `appendToFile` of hw1/fileManager.c does.
use system_hw.CString.{codes}
use system_hw.FileManager.Calls.{Name, Os, World, failed, appending, exclusive}
use system_hw.FileManager.Create.{about}
use system_hw.FileManager.Create.Log.{Pieces}
use system_hw.FileManager.Create.Ends.{Ends, Done}
use system_hw.FileManager.Tree.{Tree, Changes, extended, Lawful}
use system_hw.Prelude.{ℕ, ◌≡◌, ◌≢◌, ◌⊎◌, none, List, [], ◌∷◌}

module _ (S : Os) (L : Lawful S) where
  abbrev AppendFails : Name → World S → List ℕ → Type 0
  AppendFails name w why =
      ((e : ℕ) × ((S.open_file appending name w.os).0 ≡ failed e)
        × (why
            ≡ about (codes "Error: Cannot write to \"") name
                (codes "\". File is locked or read-only.")))
      ⊎ ((fd e : ℕ) × ((S.flock fd exclusive (S.open_file appending name w.os).1).0 ≡ failed e)
          × (why
              ≡ about (codes "Error: Cannot write to \"") name
                  (codes "\". File is currently being accessed by another process.")))

  abbrev LongerFile : Name → List ℕ → World S → World S → Type 0
  LongerFile name content w t =
      (bytes : List ℕ) × Pieces (codes "\n" ∷ content ∷ []) bytes
      × (tree : Tree) × Changes L.apart name (extended bytes) (L.entry w.os) tree
      × Done S L w t tree
          (about (codes "Content appended to file \"") name (codes "\" successfully."))

  abbrev pub Appends : Name → List ℕ → World S → World S → Type 0
  Appends name content w t =
      Ends S L w t (L.entry w.os name ≢ none)
        (about (codes "Error: File \"") name (codes "\" not found.")) (AppendFails name w)
        (LongerFile name content w t)
