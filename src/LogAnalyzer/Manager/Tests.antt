-- ===== src/LogAnalyzer/Manager/Tests.antt =====
-- The theorems about the manager of hw4/210104004042_main.c at concrete inputs.
use system_hw.Prelude.{ℕ, ◌≡◌, refl, true, List, [], ◌∷◌, ◌++◌, map, replicate}
use system_hw.CString.{c_string}
use system_hw.LogAnalyzer.Manager.{Action, Env, eof_marker, manager}
use system_hw.LogAnalyzer.Manager.Lines.{lines_of}
use system_hw.LogAnalyzer.Manager.Stream.{IsSteady, chunks, file_of, manager-actions}

abbrev quiet : Env
quiet = record { running_at = λ k. true; copy_ok = λ k. true }

quiet-IsSteady : IsSteady quiet
quiet-IsSteady = record { runs = λ k. refl; copies = λ k. refl }

-- The file "ab\n\nc", read in two parts.
abbrev parts : List (ℕ × List ℕ)
parts = (b'a', b'b' ∷ []) ∷ (b'\n', b'\n' ∷ b'c' ∷ []) ∷ []

lines_of-parts : lines_of (file_of parts) ≡ (b'a' ∷ b'b' ∷ []) ∷ (b'c' ∷ []) ∷ []
unfolding lines_of file_of c_string
lines_of-parts = refl

manager-actions_example :
    (manager quiet true (chunks parts) 2).actions
    ≡ map Action.add (lines_of (file_of parts)) ++ replicate 2 (Action.add eof_marker)
manager-actions_example = manager-actions quiet quiet-IsSteady parts 2
