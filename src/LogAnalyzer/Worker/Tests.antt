-- ===== src/LogAnalyzer/Worker/Tests.antt =====
-- The theorems about the workers of hw4/210104004042_main.c at concrete inputs.
use system_hw.Prelude.{ℕ, suc, zero, ◌<◌, ◌≡◌, refl, inl, inr, some, List, [], ◌∷◌, ◌++◌, arith}
use system_hw.LogAnalyzer.Worker.{worker, report_total}
use system_hw.LogAnalyzer.Worker.Total.{
  count_matching, taken_by, lines_in, markers_for, rounds_of, counts_from, Takes, report_total-deal,
}

abbrev term : List ℕ
term = b'e' ∷ []

-- Worker 1 takes "he", worker 0 takes "x".
abbrev deal : List (ℕ × List ℕ)
deal = (1, b'h' ∷ b'e' ∷ []) ∷ (0, b'x' ∷ []) ∷ []

both-Takes : (i : ℕ) → i < 2 → Takes i (1 ∷ 0 ∷ [])
both-Takes zero h = inr (inl refl)
both-Takes (suc zero) h = inl refl
both-Takes (suc (suc i)) h = absurd (omega arith)

report_total-deal_example :
    ((i : ℕ)
      → i < 2
      → worker term (rounds_of (taken_by i (deal ++ markers_for (1 ∷ 0 ∷ []))))
        ≡ some (count_matching term (taken_by i deal)))
    × (report_total (counts_from term deal 0 2) ≡ count_matching term (lines_in deal))
report_total-deal_example =
    report_total-deal term 2 deal (1 ∷ 0 ∷ [])
      (omega arith, (λ e. cc), (omega arith, (λ e. cc), tt)) both-Takes
