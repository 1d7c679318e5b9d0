-- ===== src/FileManager/Create/Directory.antt =====
-- What `createDirectory` of hw1/fileManager.c does.
use system_hw.CString.{codes}
use system_hw.FileManager.Calls.{Name, Os, World, FileKind, Result, ok, failed}
use system_hw.FileManager.Create.{about, after_mkdir, make_directory, create_directory}
use system_hw.FileManager.Create.Ends.{
  Attempts, Ends, Done, log_and_say-Done, kind_of-eq-none, kind_of-eq-some,
}
use system_hw.FileManager.Tree.{folder, Tree, kind_of, Changes, Lawful, Either}
use system_hw.Prelude.{ℕ, ◌≡◌, refl, sym, inl, inr, Option, none, some, List, ◌++◌}

module _ (S : Os) (L : Lawful S) where
  abbrev MkdirFails : Name → World S → List ℕ → Type 0
  MkdirFails name w why =
      (e : ℕ) × ((S.mkdir name w.os).0 ≡ failed e)
      × (why ≡ codes "Error creating directory: " ++ S.strerror e)

  abbrev NewDirectory : Name → World S → World S → Type 0
  NewDirectory name w t =
      (tree : Tree) × Changes L.apart name (λ _. some folder) (L.entry w.os) tree
      × Done S L w t tree (about (codes "Directory \"") name (codes "\" created successfully."))

  abbrev pub CreatesDirectory : Name → World S → World S → Type 0
  CreatesDirectory name w t =
      Ends S L w t (L.entry w.os name ≡ none)
        (about (codes "Error: Directory \"") name (codes "\" already exists.")) (MkdirFails name w)
        (NewDirectory name w t)

  made-Attempts :
      (name : Name) (w : World S) (r : Result (Unit {0})) (s : S.State)
      → (S.mkdir name w.os).0 ≡ r
      → Either r
          (λ _. Changes L.apart name (λ _. some folder) (L.entry w.os) (L.entry s))
          (L.entry s ≡ L.entry w.os)
      → let t = (after_mkdir S name r (record w { os = s })).1 in
        Attempts S L w t (MkdirFails name w) (NewDirectory name w t)
  unfolding after_mkdir
  made-Attempts name w (failed e) s is same = inl (_, (e, is, refl), (same, refl, refl))
  made-Attempts name w (ok _) s is new = inr (L.entry s, new, log_and_say-Done S L w s _ _ refl)

  make_directory-Creates :
      (name : Name) (w : World S) (r : Option FileKind)
      → r ≡ kind_of (L.entry w.os name)
      → CreatesDirectory name w (make_directory S name r w).1
  unfolding make_directory
  make_directory-Creates name w (some k) e =
      inl (kind_of-eq-some (L.entry w.os name) k e, (refl, refl, refl))
  make_directory-Creates name w none e = inr (
    kind_of-eq-none (L.entry w.os name) (sym e),
    made-Attempts name w (S.mkdir name w.os).0 (S.mkdir name w.os).1 refl (L.entry-mkdir name w.os),
  )

  -- createDirectory of a name that exists only says so, and if `mkdir` fails only says that.
  -- Otherwise the name stands for a directory, no name apart from it changes, and then the log gets
  -- its line, as far as it could be opened and written, and the user is told.
  pub create_directory-Creates :
      (name : Name) (w : World S) → CreatesDirectory name w (create_directory S name w).1
  unfolding create_directory
  create_directory-Creates name w =
      make_directory-Creates name w (S.stat name w.os) (L.stat-entry name w.os)
