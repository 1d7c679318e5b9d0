-- ===== src/LogAnalyzer/Worker/Total.antt =====
-- The total that the workers of hw4/210104004042_main.c report, whoever takes which line.
use system_hw.CString.{strcmp_eq_iff, strstr}
use system_hw.LogAnalyzer.Manager.{eof_marker}
use system_hw.LogAnalyzer.Worker.{Round, worker, worker_loop, report_total, add_counts}
use system_hw.Prelude.{
  ℕ, zero, suc, ◌+◌, ◌<◌, ◌≡◌, ◌≢◌, ◌⊎◌, inl, inr, refl, ap, ◌∙◌, true, some, List, [], ◌∷◌, ◌++◌,
  arith, ◌==◌, if◌then◌else◌, Bool-cases, ltb, leb, ◌&&◌,
}

-- How many lines hold the term.
pub count_matching : List ℕ → List (List ℕ) → ℕ
count_matching term [] = 0
count_matching term (l ∷ ls) =
    if strstr l term then suc (count_matching term ls) else count_matching term ls

-- The lines that worker `i` takes when `deal` lists them in the order of removal, each with the
-- worker that takes it.
pub taken_by : ℕ → List (ℕ × List ℕ) → List (List ℕ)
taken_by i [] = []
taken_by i ((j, l) ∷ deal) = if i == j then l ∷ taken_by i deal else taken_by i deal

pub lines_in : List (ℕ × List ℕ) → List (List ℕ)
lines_in [] = []
lines_in ((j, l) ∷ deal) = l ∷ lines_in deal

-- The end markers, by the worker that takes each.
pub markers_for : List ℕ → List (ℕ × List ℕ)
markers_for [] = []
markers_for (j ∷ js) = (j, eof_marker) ∷ markers_for js

pub rounds_of : List (List ℕ) → List Round
rounds_of [] = []
rounds_of (l ∷ ls) = record { running = true; received = some l } ∷ rounds_of ls

-- The counts of workers `i ..< i + n`, as the array of worker 0.
pub counts_from : List ℕ → List (ℕ × List ℕ) → ℕ → ℕ → List ℕ
counts_from term deal i zero = []
counts_from term deal i (suc n) =
    count_matching term (taken_by i deal) ∷ counts_from term deal (i + 1) n

-- Every entry goes to one of `n` workers, and no line of the file reads like the end marker.
abbrev pub IsDealt : ℕ → List (ℕ × List ℕ) → Type 0
IsDealt n [] = Unit {0}
IsDealt n ((j, l) ∷ deal) = (j < n) × (l ≢ eof_marker) × IsDealt n deal

abbrev pub Takes : ℕ → List ℕ → Type 0
Takes i [] = ⊥
Takes i (j ∷ js) = (i ≡ j) ⊎ Takes i js

worker_loop-line :
    (term l : List ℕ) (rest : List Round) (count : ℕ)
    → l ≢ eof_marker
    → worker_loop term (record { running = true; received = some l } ∷ rest) count
      ≡ worker_loop term rest (if strstr l term then count + 1 else count)
unfolding worker_loop
worker_loop-line term l rest count h = ground (arith, strcmp_eq_iff l eof_marker)

worker_loop-marker :
    (term : List ℕ) (rest : List Round) (count : ℕ)
    → worker_loop term (record { running = true; received = some eof_marker } ∷ rest) count
      ≡ some count
unfolding worker_loop
worker_loop-marker term rest count = ground (arith, strcmp_eq_iff eof_marker eof_marker)

-- A worker that takes lines and then at least one marker returns the number of its matches.
worker_loop-counts :
    (term : List ℕ) (n i : ℕ) (deal : List (ℕ × List ℕ)) (markers : List ℕ) (count : ℕ)
    → IsDealt n deal
    → Takes i markers
    → worker_loop term (rounds_of (taken_by i (deal ++ markers_for markers))) count
      ≡ some (count + count_matching term (taken_by i deal))
unfolding taken_by rounds_of markers_for count_matching
worker_loop-counts term n i [] [] count d t = elim t [ ]
worker_loop-counts term n i [] (j ∷ js) count d t = elim (Bool-cases (i == j)) [
  | inl e ↦ rw e (worker_loop-marker term _ count ∙ ap some (omega arith))
  | inr e ↦ rw e (worker_loop-counts term n i [] js count d (ground arith))
]
worker_loop-counts term n i ((j, l) ∷ deal) markers count d t = elim (Bool-cases (i == j)) [
  | inl e ↦ rw e (
      worker_loop-line term l _ count d.1
      ∙ worker_loop-counts term n i deal markers _ d.2 t
      ∙ ap some (ground arith))
  | inr e ↦ rw e (worker_loop-counts term n i deal markers count d.2 t)
]

sum_list : List ℕ → ℕ
sum_list [] = 0
sum_list (c ∷ cs) = c + sum_list cs

report_total-sum : (t : ℕ) (cs : List ℕ) → add_counts t cs ≡ t + sum_list cs
unfolding add_counts sum_list
report_total-sum t [] = omega arith
report_total-sum t (c ∷ cs) = omega (arith, report_total-sum (t + c) cs)

-- One more line for worker `j` adds its match to the sum once, if `j` is among the workers.
sum_list-counts :
    (term : List ℕ) (j : ℕ) (l : List ℕ) (deal : List (ℕ × List ℕ)) (i n : ℕ)
    → sum_list (counts_from term ((j, l) ∷ deal) i n)
      ≡ sum_list (counts_from term deal i n)
        + (if strstr l term then (if leb i j && ltb j (i + n) then 1 else 0) else 0)
unfolding sum_list counts_from taken_by count_matching
sum_list-counts term j l deal i zero = ground arith
sum_list-counts term j l deal i (suc n) = ground (arith, sum_list-counts term j l deal (i + 1) n)

sum_list-nil : (term : List ℕ) (i n : ℕ) → sum_list (counts_from term [] i n) ≡ 0
unfolding sum_list counts_from taken_by count_matching
sum_list-nil term i zero = refl
sum_list-nil term i (suc n) = omega (arith, sum_list-nil term (i + 1) n)

sum_list-deal :
    (term : List ℕ) (n : ℕ) (deal : List (ℕ × List ℕ))
    → IsDealt n deal
    → sum_list (counts_from term deal 0 n) ≡ count_matching term (lines_in deal)
unfolding lines_in count_matching
sum_list-deal term n [] d = sum_list-nil term 0 n
sum_list-deal term n ((j, l) ∷ deal) d =
    ground (arith, sum_list-counts term j l deal 0 n, sum_list-deal term n deal d.2)

-- When every worker takes an end marker and no line of the file reads like one, each worker
-- returns, and the reported total is the number of lines that hold the term, whoever took them.
pub report_total-deal :
    (term : List ℕ) (n : ℕ) (deal : List (ℕ × List ℕ)) (markers : List ℕ)
    → IsDealt n deal
    → ((i : ℕ) → i < n → Takes i markers)
    → ((i : ℕ)
        → i < n
        → worker term (rounds_of (taken_by i (deal ++ markers_for markers)))
          ≡ some (count_matching term (taken_by i deal)))
      × (report_total (counts_from term deal 0 n) ≡ count_matching term (lines_in deal))
unfolding worker report_total
report_total-deal term n deal markers d t = (
  (λ i h. worker_loop-counts term n i deal markers 0 d (t i h) ∙ ap some (omega arith)),
  report_total-sum 0 (counts_from term deal 0 n) ∙ omega (arith, sum_list-deal term n deal d),
)

abbrev pub NoMarker : List (List ℕ) → Type 0
NoMarker [] = Unit {0}
NoMarker (l ∷ ls) = (l ≢ eof_marker) × NoMarker ls

worker_loop-stops :
    (term : List ℕ) (before after : List (List ℕ)) (count : ℕ)
    → NoMarker before
    → worker_loop term (rounds_of (before ++ (eof_marker ∷ after))) count
      ≡ some (count + count_matching term before)
unfolding rounds_of count_matching
worker_loop-stops term [] after count h =
    worker_loop-marker term (rounds_of after) count ∙ ap some (omega arith)
worker_loop-stops term (l ∷ before) after count h =
    worker_loop-line term l (rounds_of (before ++ (eof_marker ∷ after))) count h.0
    ∙ worker_loop-stops term before after (if strstr l term then count + 1 else count) h.1
    ∙ ap some (ground arith)

-- A line of the file that reads like the end marker ends the worker that takes it: after lines
-- that do not, the worker counts those, and whatever stands after the marker in what it would
-- have taken is not counted.
pub worker_stops_at_marker :
    (term : List ℕ) (before after : List (List ℕ))
    → NoMarker before
    → worker term (rounds_of (before ++ (eof_marker ∷ after))) ≡ some (count_matching term before)
unfolding worker
worker_stops_at_marker term before after h =
    worker_loop-stops term before after 0 h ∙ ap some (omega arith)
