-- ===== src/FileManager/Create/Ends.antt =====
-- How a command of hw1/fileManager.c can end.
use system_hw.CString.{codes}
use system_hw.FileManager.Calls.{Os, World, FileKind, say}
use system_hw.FileManager.Create.{log_operation}
use system_hw.FileManager.Create.Log.{InLog, log_operation-Logged}
use system_hw.FileManager.Tree.{Entry, folder, special, file, Tree, kind_of, Lawful}
use system_hw.Prelude.{ℕ, ◌≡◌, ◌≢◌, refl, ap, ◌∙◌, subst, ◌⊎◌, Option, none, some, List, ◌++◌}

pub kind_of-eq-none : (o : Option Entry) → kind_of o ≡ none → o ≡ none
kind_of-eq-none none e = refl
kind_of-eq-none (some folder) e = cc
kind_of-eq-none (some special) e = cc
kind_of-eq-none (some (file bytes)) e = cc

pub kind_of-eq-some : (o : Option Entry) (k : FileKind) → some k ≡ kind_of o → o ≢ none
kind_of-eq-some o k e h = cc (e ∙ ap kind_of h)

module _ (S : Os) (L : Lawful S) where
  -- Nothing has happened but a message on the standard error stream.
  abbrev pub Refused : World S → World S → List ℕ → Type 0
  Refused w t why =
      (L.entry t.os ≡ L.entry w.os) × (t.out ≡ w.out) × (t.err ≡ w.err ++ (why ++ codes "\n"))

  -- Either a call failed, as `Fails` says of the message, and nothing is done, or the command
  -- succeeds.
  abbrev pub Attempts : World S → World S → (List ℕ → Type 0) → Type 0 → Type 0
  Attempts w t Fails success = ((why : List ℕ) × Fails why × Refused w t why) ⊎ success

  -- It is attempted if `guard` holds, and refused if not.
  abbrev pub Ends : World S → World S → Type 0 → List ℕ → (List ℕ → Type 0) → Type 0 → Type 0
  Ends w t guard refusal Fails success =
      ((guard → ⊥) × Refused w t refusal) ⊎ (guard × Attempts w t Fails success)

  -- The tree has become `tree` and then the log's line; the message has been printed too.
  abbrev pub Done : World S → World S → Tree → List ℕ → Type 0
  Done w t tree message = (t.out ≡ w.out ++ (message ++ codes "\n")) × InLog S L w t tree message

  pub log_and_say-Done :
      (w : World S) (s : S.State) (tree : Tree) (message : List ℕ)
      → L.entry s ≡ tree
      → Done w (say S message (log_operation S message (record w { os = s })).1).1 tree message
  log_and_say-Done w s tree message e =
      let (out, logged) = log_operation-Logged S L message (record w { os = s }) in
      (
        ap (λ o. o ++ (message ++ codes "\n")) out,
        subst (λ x. InLog S L w (log_operation S message (record w { os = s })).1 x message) e
            logged,
      )

  pub say_and_log-Done :
      (w : World S) (s : S.State) (tree : Tree) (message : List ℕ)
      → L.entry s ≡ tree
      → Done w (log_operation S message (say S message (record w { os = s })).1).1 tree message
  say_and_log-Done w s tree message e =
      let said = (say S message (record w { os = s })).1 in
      let (out, logged) = log_operation-Logged S L message said in
      (out, subst (λ x. InLog S L w (log_operation S message said).1 x message) e logged)
