-- ===== src/FileManager/List/Rows.antt =====
-- What `listDirectory` of hw1/fileManager.c prints.
use system_hw.CString.{codes}
use system_hw.FileManager.Calls.{Name, Os, World, FileKind, Result, ok, failed}
use system_hw.FileManager.Create.{about, log_operation}
use system_hw.FileManager.Create.Log.{Logged, log_operation-Logged}
use system_hw.FileManager.Create.Ends.{Refused, Attempts, Ends, kind_of-eq-none, kind_of-eq-some}
use system_hw.FileManager.List.{
  kind_word, mode_of, print_entries, list_opened, list_forked, list_found, list_directory,
}
use system_hw.FileManager.Tree.{Entry, folder, special, file, kind_of, Lawful}
use system_hw.Prelude.{
  ℕ, ◌≡◌, ◌≢◌, refl, sym, ap, ◌∙◌, subst, ◌⊎◌, inl, inr, Option, none, some, List, [], ◌∷◌, ◌++◌,
  append-nil, append_assoc,
}

-- The word for what an entry is; nothing is said of the entry of a name that is gone.
pub data Describes : Option Entry → List ℕ → Type 0 where
  a_folder : Describes (some folder) (codes "Directory")
  a_file : {bytes : List ℕ} → Describes (some (file bytes)) (codes "File")
  another : Describes (some special) (codes "Other")
  gone : {word : List ℕ} → Describes none word

module _ (S : Os) (L : Lawful S) where
  -- One line for each entry, in order: its name and what stands at its path.
  pub data Rows (dir : Name) (s : S.State) : List Name → List ℕ → Type 0 where
    end : Rows dir s [] []
    row :
        {name : Name} {names : List Name} {word body : List ℕ}
        → Describes (L.entry s (dir ++ (codes "/" ++ name))) word
        → Rows dir s names body
        → Rows dir s
            (name ∷ names)
            ((codes "  " ++ (name ++ (codes " [" ++ (word ++ codes "]"))) ++ codes "\n") ++ body)

  mode-Describes :
      (o : Option Entry) (r : Option FileKind) (w : World S)
      → r ≡ kind_of o
      → Describes o (kind_word (mode_of S r w).0)
  unfolding mode_of kind_word
  mode-Describes none r w e = gone
  mode-Describes (some folder) r w e = rw e a_folder
  mode-Describes (some special) r w e = rw e another
  mode-Describes (some (file bytes)) r w e = rw e a_file

  mode_same : (r : Option FileKind) (w : World S) → (mode_of S r w).1 ≡ w
  unfolding mode_of
  mode_same none w = refl
  mode_same (some kind) w = refl

  abbrev Prints : Name → List Name → World S → World S → Type 0
  Prints dir names w t =
      (body : List ℕ) × Rows dir w.os names body × (t ≡ record w { out = w.out ++ body })

  print_entries-Rows :
      (dir : Name) (names : List Name) (w : World S)
      → Prints dir names w (print_entries S dir names w).1
  unfolding print_entries
  print_entries-Rows dir [] w = ([], end, ap (λ o. record w { out = o }) (sym (append-nil w.out)))
  print_entries-Rows dir (name ∷ names) w =
      let found = S.stat (dir ++ (codes "/" ++ name)) w.os in
      let word = kind_word (mode_of S found w).0 in
      let line = codes "  " ++ (name ++ (codes " [" ++ (word ++ codes "]"))) ++ codes "\n" in
      let (body, rows, written) = print_entries-Rows dir names (record w { out = w.out ++ line }) in
      (
        line ++ body,
        row (mode-Describes _ found w (L.stat-entry (dir ++ (codes "/" ++ name)) w.os)) rows,
        ap (λ (v : World S). (print_entries S dir names (record v { out = v.out ++ line })).1)
              (mode_same found w)
            ∙ written
            ∙ ap (λ o. record w { out = o }) (append_assoc w.out line body),
      )

  abbrev forked : World S → S.State
  forked w = (S.fork w.os).1

  abbrev ForkFails : World S → List ℕ → Type 0
  ForkFails w why =
      (e : ℕ) × ((S.fork w.os).0 ≡ failed e)
      × (why ≡ codes "Error forking process: " ++ S.strerror e)

  abbrev log_message : Name → List ℕ
  log_message dir = about (codes "Directory \"") dir (codes "\" listed successfully.")

  abbrev heading : Name → List ℕ
  heading dir = about (codes "Contents of directory \"") dir (codes "\":") ++ codes "\n"

  -- The child leaves `u`, having printed the rows or why it could not; then the parent logs that the
  -- directory was listed.
  abbrev Listed : Name → World S → World S → Type 0
  Listed dir w t =
      (u : World S) × (((names : List Name) × ((S.opendir dir (forked w)).0 ≡ ok names)
          × Prints dir names
              (record w { os = (S.opendir dir (forked w)).1; out = w.out ++ heading dir }) u)
        ⊎ ((e : ℕ) × ((S.opendir dir (forked w)).0 ≡ failed e)
            × Refused S L w u (codes "Error opening directory: " ++ S.strerror e)))
      × Logged S L u t (L.entry w.os) (log_message dir)

  abbrev pub ListsDirectory : Name → World S → World S → Type 0
  ListsDirectory dir w t =
      Ends S L w t (L.entry w.os dir ≢ none)
        (about (codes "Error: Directory \"") dir (codes "\" not found.")) (ForkFails w)
        (Listed dir w t)

  listed-entry : (dir : Name) (w : World S) → L.entry (S.opendir dir (forked w)).1 ≡ L.entry w.os
  listed-entry dir w = L.entry-opendir dir (forked w) ∙ L.entry-fork w.os

  log_operation-Logged-child :
      (dir : Name) (w u : World S)
      → L.entry u.os ≡ L.entry (S.opendir dir (forked w)).1
      → Logged S L u (log_operation S (log_message dir) u).1 (L.entry w.os) (log_message dir)
  log_operation-Logged-child dir w u e =
      subst (λ tree. Logged S L u (log_operation S (log_message dir) u).1 tree (log_message dir))
        (e ∙ listed-entry dir w) (log_operation-Logged S L (log_message dir) u)

  opened-Listed :
      (dir : Name) (w : World S) (r : Result (List Name))
      → (S.opendir dir (forked w)).0 ≡ r
      → let u = (list_opened S dir r (record w { os = (S.opendir dir (forked w)).1 })).1 in
        Listed dir w (log_operation S (log_message dir) u).1
  unfolding list_opened
  opened-Listed dir w (failed e) is =
      let start : World S = record w { os = (S.opendir dir (forked w)).1 } in
      let u = (list_opened S dir (failed e) start).1 in
      (u, inr (e, is, (listed-entry dir w, refl, refl)), log_operation-Logged-child dir w u refl)
  opened-Listed dir w (ok names) is =
      let start : World S = record w { os = (S.opendir dir (forked w)).1 } in
      let u = (list_opened S dir (ok names) start).1 in
      let printed =
        print_entries-Rows dir names (record start { out = start.out ++ heading dir }) in
      (
        u,
        inl (names, is, printed),
        log_operation-Logged-child dir w u (ap (λ v. L.entry v.os) printed.2),
      )

  forked-Attempts :
      (dir : Name) (w : World S) (r : Result (Unit {0}))
      → (S.fork w.os).0 ≡ r
      → let t = (list_forked S dir r (record w { os = forked w })).1 in
        Attempts S L w t (ForkFails w) (Listed dir w t)
  unfolding list_forked
  forked-Attempts dir w (failed e) is = inl (_, (e, is, refl), (L.entry-fork w.os, refl, refl))
  forked-Attempts dir w (ok _) is = inr (opened-Listed dir w (S.opendir dir (forked w)).0 refl)

  list_found-Lists :
      (dir : Name) (w : World S) (r : Option FileKind)
      → r ≡ kind_of (L.entry w.os dir)
      → ListsDirectory dir w (list_found S dir r w).1
  unfolding list_found
  list_found-Lists dir w none e =
      inl (λ present. present (kind_of-eq-none (L.entry w.os dir) (sym e)), (refl, refl, refl))
  list_found-Lists dir w (some k) e =
      inr (kind_of-eq-some (L.entry w.os dir) k e, forked-Attempts dir w (S.fork w.os).0 refl)

  -- listDirectory of a directory that does not exist only says so, and if the fork fails only says
  -- that. Otherwise it prints each entry with the word for what it is, in the order of the directory,
  -- or that the directory cannot be opened; no file has changed but that the log has a line, if it
  -- could be opened, and that says in both cases that the directory was listed.
  pub list_directory-Lists :
      (dir : Name) (w : World S) → ListsDirectory dir w (list_directory S dir w).1
  unfolding list_directory
  list_directory-Lists dir w = list_found-Lists dir w (S.stat dir w.os) (L.stat-entry dir w.os)
