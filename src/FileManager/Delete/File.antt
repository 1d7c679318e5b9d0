-- ===== src/FileManager/Delete/File.antt =====
-- What `deleteFile` of hw1/fileManager.c does.
use system_hw.CString.{codes}
use system_hw.FileManager.Calls.{Name, Os, World, FileKind, Result, ok, failed}
use system_hw.FileManager.Create.{about}
use system_hw.FileManager.Create.Ends.{
  Attempts, Ends, Done, say_and_log-Done, kind_of-eq-none, kind_of-eq-some,
}
use system_hw.FileManager.Delete.{
  after_unlink, log_success, unlink_forked, unlink_found, delete_file,
}
use system_hw.FileManager.Tree.{Tree, kind_of, Changes, Lawful, Either}
use system_hw.Prelude.{
  ℕ, ◌≡◌, ◌≢◌, refl, sym, ◌∙◌, subst, ◌⊎◌, inl, inr, Option, none, some, List, ◌++◌,
}

module _ (S : Os) (L : Lawful S) where
  abbrev UnlinkFails : Name → World S → List ℕ → Type 0
  UnlinkFails name w why =
      ((e : ℕ) × ((S.fork w.os).0 ≡ failed e)
        × (why ≡ codes "Error forking process: " ++ S.strerror e))
      ⊎ ((e : ℕ) × ((S.unlink_file name (S.fork w.os).1).0 ≡ failed e)
          × (why ≡ codes "Error deleting file: " ++ S.strerror e))

  abbrev NoFile : Name → World S → World S → Type 0
  NoFile name w t =
      (tree : Tree) × Changes L.apart name (λ _. none) (L.entry w.os) tree
      × Done S L w t tree (about (codes "File \"") name (codes "\" deleted successfully."))

  abbrev pub DeletesFile : Name → World S → World S → Type 0
  DeletesFile name w t =
      Ends S L w t (L.entry w.os name ≢ none)
        (about (codes "Error: File \"") name (codes "\" not found.")) (UnlinkFails name w)
        (NoFile name w t)

  unlinked-Attempts :
      (name : Name) (w : World S) (r : Result (Unit {0})) (s : S.State)
      → (S.unlink_file name (S.fork w.os).1).0 ≡ r
      → Either r
          (λ _. Changes L.apart name (λ _. none) (L.entry (S.fork w.os).1) (L.entry s))
          (L.entry s ≡ L.entry (S.fork w.os).1)
      → let child = after_unlink S name r (record w { os = s }) in
        let message = about (codes "File \"") name (codes "\" deleted successfully.") in
        let t = (log_success S message child.0 child.1).1 in
        Attempts S L w t (UnlinkFails name w) (NoFile name w t)
  unfolding after_unlink log_success
  unlinked-Attempts name w (failed e) s is same =
      inl (_, inr (e, is, refl), (same ∙ L.entry-fork w.os, refl, refl))
  unlinked-Attempts name w (ok _) s is gone = inr (
    L.entry s,
    subst (λ tree. Changes L.apart name (λ _. none) tree (L.entry s)) (L.entry-fork w.os) gone,
    say_and_log-Done S L w s _ _ refl,
  )

  forked-Attempts :
      (name : Name) (w : World S) (r : Result (Unit {0}))
      → (S.fork w.os).0 ≡ r
      → let t = (unlink_forked S name r (record w { os = (S.fork w.os).1 })).1 in
        Attempts S L w t (UnlinkFails name w) (NoFile name w t)
  unfolding unlink_forked
  forked-Attempts name w (failed e) is = inl (_, inl (e, is, refl), (L.entry-fork w.os, refl, refl))
  forked-Attempts name w (ok _) is =
      let s = (S.fork w.os).1 in
      unlinked-Attempts name w (S.unlink_file name s).0 (S.unlink_file name s).1 refl
        (L.entry-unlink name s)

  unlink_found-Deletes :
      (name : Name) (w : World S) (r : Option FileKind)
      → r ≡ kind_of (L.entry w.os name)
      → DeletesFile name w (unlink_found S name r w).1
  unfolding unlink_found
  unlink_found-Deletes name w none e =
      inl (λ present. present (kind_of-eq-none (L.entry w.os name) (sym e)), (refl, refl, refl))
  unlink_found-Deletes name w (some k) e =
      inr (kind_of-eq-some (L.entry w.os name) k e, forked-Attempts name w (S.fork w.os).0 refl)

  -- deleteFile of a name that does not exist only says so, and if the fork or `unlink` fails only says
  -- that. Otherwise the name stands for nothing, no name apart from it changes, and then the log gets its
  -- line, as far as it could be opened and written, and the user is told.
  pub delete_file-Deletes :
      (name : Name) (w : World S) → DeletesFile name w (delete_file S name w).1
  unfolding delete_file
  delete_file-Deletes name w =
      unlink_found-Deletes name w (S.stat name w.os) (L.stat-entry name w.os)
