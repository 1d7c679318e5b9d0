-- ===== src/FileManager/Create/File.antt =====
-- What `createFile` of hw1/fileManager.c does.
use system_hw.CString.{codes}
use system_hw.FileManager.Calls.{Name, Os, World, failed, truncating}
use system_hw.FileManager.Create.{about}
use system_hw.FileManager.Create.Log.{Pieces}
use system_hw.FileManager.Create.Ends.{Ends, Done}
use system_hw.FileManager.Tree.{file, Tree, Changes, Lawful}
use system_hw.Prelude.{ℕ, ◌≡◌, none, some, List, [], ◌∷◌, ◌++◌}

module _ (S : Os) (L : Lawful S) where
  abbrev CreateFails : Name → World S → List ℕ → Type 0
  CreateFails name w why =
      (e : ℕ) × ((S.open_file truncating name w.os).0 ≡ failed e)
      × (why ≡ codes "Error creating file: " ++ S.strerror e)

  abbrev NewFile : Name → World S → World S → Type 0
  NewFile name w t =
      (stamp bytes : List ℕ) × Pieces (stamp ∷ codes " File created\n" ∷ []) bytes
      × (tree : Tree) × Changes L.apart name (λ _. some (file bytes)) (L.entry w.os) tree
      × Done S L w t tree (about (codes "File \"") name (codes "\" created successfully."))

  abbrev pub CreatesFile : Name → World S → World S → Type 0
  CreatesFile name w t =
      Ends S L w t (L.entry w.os name ≡ none)
        (about (codes "Error: File \"") name (codes "\" already exists.")) (CreateFails name w)
        (NewFile name w t)
