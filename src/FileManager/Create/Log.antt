-- ===== src/FileManager/Create/Log.antt =====
-- What `logOperation` of hw1/utils.c leaves in a lawful file system.
use system_hw.CString.{codes}
use system_hw.FileManager.Calls.{Name, Os, World, Result, ok, failed, OpenMode, logging}
use system_hw.FileManager.Create.{log_file, log_to, log_operation}
use system_hw.FileManager.Tree.{
  Entry, folder, special, file, Tree, Begins, Changes, OpensTree, extended, created, contents,
  Lawful, Either,
}
use system_hw.Prelude.{
  ℕ, ◌≡◌, refl, sym, ap, subst, ◌∙◌, ◌⊎◌, inl, inr, Option, none, some, List, [], ◌∷◌, ◌++◌,
  append_assoc, append-nil,
}

-- `bytes` is made of first parts of the chunks, in their order.
abbrev pub Pieces : List (List ℕ) → List ℕ → Type 0
Pieces [] bytes = bytes ≡ []
Pieces (chunk ∷ chunks) bytes =
    (part rest : List ℕ) × Begins part chunk × Pieces chunks rest × (bytes ≡ part ++ rest)

Pieces-append :
    (chunks : List (List ℕ)) (bytes part chunk : List ℕ)
    → Pieces chunks bytes
    → Begins part chunk
    → Pieces (chunks ++ (chunk ∷ [])) (bytes ++ part)
Pieces-append [] bytes part chunk e b =
    (part, [], b, refl, ap (λ x. x ++ part) e ∙ sym (append-nil part))
Pieces-append (c ∷ cs) bytes part chunk (p, rest, a, ps, e) b = (
  p,
  rest ++ part,
  a,
  Pieces-append cs rest part chunk ps b,
  ap (λ x. x ++ part) e ∙ append_assoc p rest part,
)

extended-extended :
    (a b : List ℕ) (o : Option Entry) → extended b (extended a o) ≡ extended (a ++ b) o
extended-extended a b none = refl
extended-extended a b (some folder) = refl
extended-extended a b (some special) = refl
extended-extended a b (some (file old)) = ap (λ bytes. some (file bytes)) (append_assoc old a b)

-- What is written for a line of the log.
abbrev pub line : List ℕ → List ℕ → List (List ℕ)
line stamp message = stamp ∷ codes " " ∷ message ∷ codes "\n" ∷ []

module _ (S : Os) (L : Lawful S) where
  -- `open` took the state from `s` to `t` and gave `fd`.
  abbrev pub Opens : OpenMode → Name → S.State → S.State → ℕ → Type 0
  Opens mode n s t fd =
      OpensTree L.apart mode n (L.entry s) (L.entry t)
      × (L.handle t fd ≡ some n)
      × (L.ahead t fd ≡ contents (L.entry s n))

  -- From `s` to `t` first parts of the chunks were written at the end of `n`.
  abbrev pub Writes : S.State → S.State → ℕ → Name → List (List ℕ) → Type 0
  Writes s t fd n chunks =
      (bytes : List ℕ) × Pieces chunks bytes
      × Changes L.apart n (extended bytes) (L.entry s) (L.entry t)
      × (L.handle t fd ≡ some n)

  pub written_first :
      (s : S.State) (fd : ℕ) (n : Name) (chunk : List ℕ)
      → L.handle s fd ≡ some n
      → Writes s (S.write fd chunk s) fd n (chunk ∷ [])
  written_first s fd n chunk at =
      let (part, begins, changed, still) = L.entry-write fd chunk s n at in
      (part, Pieces-append [] [] part chunk refl begins, changed, still)

  pub Writes-write :
      (s t : S.State) (fd : ℕ) (n : Name) (chunks : List (List ℕ)) (chunk : List ℕ)
      → Writes s t fd n chunks
      → Writes s (S.write fd chunk t) fd n (chunks ++ (chunk ∷ []))
  Writes-write s t fd n chunks chunk (bytes, pieces, (now, others), at) =
      let (part, begins, (next, rest), still) = L.entry-write fd chunk t n at in
      (
        bytes ++ part,
        Pieces-append chunks bytes part chunk pieces begins,
        (
          next ∙ ap (extended part) now ∙ extended-extended bytes part (L.entry s n),
          λ m a. rest m a ∙ others m a,
        ),
        still,
      )

  -- The message is in the log, with the time, on a line of its own, as far as the writes got; or the
  -- log could not be opened, and the user is told so.
  abbrev pub InLog : World S → World S → Tree → List ℕ → Type 0
  InLog w t tree message =
      ((stamp bytes : List ℕ) × Pieces (line stamp message) bytes
        × Changes L.apart log_file (λ o. extended bytes (created o)) tree (L.entry t.os)
        × (t.err ≡ w.err))
      ⊎ ((e : ℕ) × (L.entry t.os ≡ tree)
          × (t.err ≡ w.err ++ codes "Error opening log file: " ++ S.strerror e ++ codes "\n"))

  pub InLog-same :
      (u w t : World S) (tree tree' : Tree) (message : List ℕ)
      → u.err ≡ w.err
      → tree ≡ tree'
      → InLog u t tree message
      → InLog w t tree' message
  InLog-same u w t tree tree' message e f (inl (stamp, bytes, pieces, changed, silent)) = inl (
    stamp,
    bytes,
    pieces,
    subst (λ x. Changes L.apart log_file (λ o. extended bytes (created o)) x (L.entry t.os)) f
        changed,
    silent ∙ e,
  )
  InLog-same u w t tree tree' message e f (inr (code, written, told)) = inr (
    code,
    written ∙ f,
    told ∙ ap (λ x. x ++ codes "Error opening log file: " ++ S.strerror code ++ codes "\n") e,
  )

  abbrev pub Logged : World S → World S → Tree → List ℕ → Type 0
  Logged w t tree message = (t.out ≡ w.out) × InLog w t tree message

  log_to-Logged :
      (message : List ℕ) (w : World S) (r : Result ℕ) (s : S.State)
      → Either r (λ fd. Opens logging log_file w.os s fd) (L.entry s ≡ L.entry w.os)
      → Logged w (log_to S message r (record w { os = s })).1 (L.entry w.os) message
  unfolding log_to
  log_to-Logged message w (failed e) s same = (refl, inr (e, same, refl))
  log_to-Logged message w (ok fd) s ((made, others), at, _) =
      let stamp = S.now s in
      let s1 = S.write fd stamp s in
      let s2 = S.write fd (codes " ") s1 in
      let s3 = S.write fd message s2 in
      let s4 = S.write fd (codes "\n") s3 in
      let (bytes, pieces, (end, rest), _) =
        Writes-write s s3 fd log_file (stamp ∷ codes " " ∷ message ∷ []) (codes "\n") (
          Writes-write s s2 fd log_file (stamp ∷ codes " " ∷ []) message (
            Writes-write s s1 fd log_file (stamp ∷ []) (codes " ")
              (written_first s fd log_file stamp at))) in
      (
        refl,
        inl (
          stamp,
          bytes,
          pieces,
          (
            ap (λ tree. tree log_file) (L.entry-close fd s4) ∙ end ∙ ap (extended bytes) made,
            λ m a. ap (λ tree. tree m) (L.entry-close fd s4) ∙ rest m a ∙ others m a,
          ),
          refl,
        ),
      )

  pub log_operation-Logged :
      (message : List ℕ) (w : World S)
      → Logged w (log_operation S message w).1 (L.entry w.os) message
  unfolding log_operation
  log_operation-Logged message w =
      log_to-Logged message w (S.open_file logging log_file w.os).0
        (S.open_file logging log_file w.os).1 (L.entry-open logging log_file w.os)
