-- ===== src/FileManager/List/Lists.antt =====
-- What `listFilesByExtension` of hw1/fileManager.c does.
use system_hw.CString.{codes}
use system_hw.FileManager.Calls.{Name, Os, World, ok, failed}
use system_hw.FileManager.Create.{about}
use system_hw.FileManager.Create.Log.{Logged}
use system_hw.FileManager.Create.Ends.{Refused, Ends}
use system_hw.FileManager.List.Matched.{Matched}
use system_hw.FileManager.Tree.{Lawful}
use system_hw.Prelude.{ℕ, ◌≡◌, ◌≢◌, ◌⊎◌, none, List, ◌++◌}

module _ (S : Os) (L : Lawful S) where
  abbrev forked : World S → S.State
  forked w = (S.fork w.os).1

  abbrev log_message : Name → List ℕ → List ℕ
  log_message dir extension =
      about (codes "Listed files with extension \"") extension
        (about (codes "\" in directory \"") dir (codes "\"."))

  abbrev ForkFails : World S → List ℕ → Type 0
  ForkFails w why =
      (e : ℕ) × ((S.fork w.os).0 ≡ failed e)
      × (why ≡ codes "Error forking process: " ++ S.strerror e)

  -- The child leaves `u`, having printed the list or why it could not; then the parent logs that the
  -- files were listed.
  abbrev Listed : Name → List ℕ → World S → World S → Type 0
  Listed dir extension w t =
      (u : World S) × (((names : List Name) × ((S.opendir dir (forked w)).0 ≡ ok names)
          × Matched S dir extension names (record w { os = (S.opendir dir (forked w)).1 }) u)
        ⊎ ((e : ℕ) × ((S.opendir dir (forked w)).0 ≡ failed e)
            × Refused S L w u (codes "Error opening directory: " ++ S.strerror e)))
      × Logged S L u t (L.entry w.os) (log_message dir extension)

  abbrev pub Lists : Name → List ℕ → World S → World S → Type 0
  Lists dir extension w t =
      Ends S L w t (L.entry w.os dir ≢ none)
        (about (codes "Error: Directory \"") dir (codes "\" not found.")) (ForkFails w)
        (Listed dir extension w t)
