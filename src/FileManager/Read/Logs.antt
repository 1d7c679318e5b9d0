-- ===== src/FileManager/Read/Logs.antt =====
-- What `showLogs` of hw1/fileManager.c does.
use system_hw.CString.{codes}
use system_hw.FileManager.Calls.{Os, World, FileKind, Result, ok, failed, reading}
use system_hw.FileManager.Create.{log_file, log_operation}
use system_hw.FileManager.Create.Log.{Opens}
use system_hw.FileManager.Create.Ends.{Refused, Attempts, kind_of-eq-none, kind_of-eq-some}
use system_hw.FileManager.Read.Copies.{copy_all-Copies, Shows, shown-Shows}
use system_hw.FileManager.Read.{copy_all, show_opened, show_found, show_logs}
use system_hw.FileManager.Tree.{kind_of, contents, Lawful, Either}
use system_hw.Prelude.{
  ℕ, ◌≡◌, ◌≢◌, refl, sym, subst, ◌⊎◌, inl, inr, Option, none, some, [], ◌++◌, append-nil,
}

module _ (S : Os) (L : Lawful S) where
  abbrev ShownLog : World S → World S → Type 0
  ShownLog w t =
      Attempts S L w t
        (λ why.
          (e : ℕ) × ((S.open_file reading log_file w.os).0 ≡ failed e)
          × (why ≡ codes "Error opening log file: " ++ S.strerror e))
        ((fd : ℕ) × ((S.open_file reading log_file w.os).0 ≡ ok fd)
          × Shows S L fd (S.open_file reading log_file w.os).1 (contents (L.entry w.os log_file))
              (codes "Operation logs:\n") [] w t (codes "Logs displayed successfully."))

  abbrev pub ShowsLog : World S → World S → Type 0
  ShowsLog w t =
      ((L.entry w.os log_file ≡ none) × Refused S L w t (codes "Error: Log file not found."))
      ⊎ ((L.entry w.os log_file ≢ none) × ShownLog w t)

  log_opened-Shows :
      (w : World S) (r : Result ℕ)
      → let s = (S.open_file reading log_file w.os).1 in
        (S.open_file reading log_file w.os).0 ≡ r
        → Either r (λ fd. Opens S L reading log_file w.os s fd) (L.entry s ≡ L.entry w.os)
        → ShownLog w (show_opened S r (record w { os = s })).1
  unfolding show_opened
  log_opened-Shows w (failed e) is same = inl (_, (e, is, refl), (same, refl, refl))
  log_opened-Shows w (ok fd) is (same, _, full) =
      let s = (S.open_file reading log_file w.os).1 in
      let begun : World S = record w { os = s; out = w.out ++ codes "Operation logs:\n" } in
      let t = (copy_all S fd begun).1 in
      let shown =
        shown-Shows S L fd _ (codes "Operation logs:\n") [] (codes "Logs displayed successfully.") w
          s (S.close fd t.os) t same full (copy_all-Copies S L fd begun) (L.entry-close fd t.os) in
      inr (
        fd,
        is,
        subst
            (λ o.
              Shows S L fd s (contents (L.entry w.os log_file)) (codes "Operation logs:\n") [] w
                (log_operation S (codes "Logs displayed successfully.")
                  (record t { os = S.close fd t.os; out = o })).1
                (codes "Logs displayed successfully."))
            (append-nil t.out) shown,
      )

  log_found-Shows :
      (w : World S) (r : Option FileKind)
      → r ≡ kind_of (L.entry w.os log_file)
      → ShowsLog w (show_found S r w).1
  unfolding show_found
  log_found-Shows w none e =
      inl (kind_of-eq-none (L.entry w.os log_file) (sym e), (refl, refl, refl))
  log_found-Shows w (some k) e = inr (
    kind_of-eq-some (L.entry w.os log_file) k e,
    log_opened-Shows w (S.open_file reading log_file w.os).0 refl
        (L.entry-open reading log_file w.os),
  )

  -- showLogs prints exactly what the log holds, or a first part of it if a read fails, and then adds a
  -- line to the log about that; if there is no log, or it cannot be opened, it only says so.
  pub show_logs-Shows : (w : World S) → ShowsLog w (show_logs S w).1
  unfolding show_logs
  show_logs-Shows w = log_found-Shows w (S.stat log_file w.os) (L.stat-entry log_file w.os)
