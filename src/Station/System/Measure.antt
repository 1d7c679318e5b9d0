-- ===== src/Station/System/Measure.antt =====
-- Every move of a thread of hw3/main.c uses up some of a fixed amount, so every run is finite.
use system_hw.Prelude.{
  ℕ, zero, suc, ◌+◌, ◌*◌, ◌≤◌, ◌<◌, ◌≡◌, refl, sym, ap, subst, List, [], ◌∷◌, length, length-set,
  get_or, set, length-replicate, arith, Option, none, some, inl, inr, Bool-cases, ltb,
}
use system_hw.Station.System.{
  Satellite, unborn, created, gone, Engineer, idle, exited, Main, launching, joining, posting,
  collecting, ended, Shared, System, Choice, satellite_step, engineer_step, main_step, all_gone,
  all_exited, after_satellite, after_engineer, step, Move, main_moves, satellite_moves,
  engineer_moves, run, initial,
}
use system_hw.Station.System.Tally.{tally, tally-set, tally-replicate, tally-replicate_sum, outside}
use system_hw.Station.System.Inv.{Inv, initial-Inv}
use system_hw.Station.System.Satellites.{InvIf}
use system_hw.Station.System.Runs.{at_main, step-Inv}
use system_hw.Station.System.Costs.{
  s_cost, e_cost, main_cost, SatellitePays, EngineerPays, satellite_step-pays, engineer_step-pays,
}

pub cost : System → ℕ
cost s =
    main_cost (length s.engineers) s.main
    + 5 * s.shared.new_request
    + tally s_cost s.satellites
    + tally e_cost s.engineers

-- A move that is possible lowers the cost.
abbrev CheaperIf : System → Option System → Type 0
CheaperIf s none = Unit {0}
CheaperIf s (some s') = (cost s' < cost s) × (length s'.engineers ≡ length s.engineers)

satellite_at-CheaperIf :
    (s : System) (i : ℕ) (r : Option (Shared × Satellite))
    → i < length s.satellites
    → SatellitePays (get_or s.satellites i gone) s.shared r
    → CheaperIf s (after_satellite s i r)
unfolding after_satellite cost
satellite_at-CheaperIf s i none lt pays = tt
satellite_at-CheaperIf s i (some (m', ph')) lt pays =
    (omega (arith, pays, tally-set s_cost s.satellites i ph' gone lt), refl)

gone_pays :
    (s : System) (i : ℕ) (choice : Choice)
    → CheaperIf s (after_satellite s i (satellite_step i choice gone s.shared))
unfolding satellite_step after_satellite
gone_pays s i choice = tt

satellite_moves-CheaperIf :
    (s : System) (i : ℕ) (choice : Choice) → CheaperIf s (step s (satellite_moves i choice))
unfolding step
satellite_moves-CheaperIf s i choice = elim (outside s.satellites i gone) [
  | inl lt ↦
      satellite_at-CheaperIf s i _ lt
        (satellite_step-pays i choice (get_or s.satellites i gone) s.shared)
  | inr e ↦
      subst (λ ph. CheaperIf s (after_satellite s i (satellite_step i choice ph s.shared))) (sym e)
        (gone_pays s i choice)
]

engineer_at-CheaperIf :
    (s : System) (i : ℕ) (r : Option (Shared × Engineer))
    → i < length s.engineers
    → EngineerPays (get_or s.engineers i exited) s.shared r
    → CheaperIf s (after_engineer s i r)
unfolding after_engineer cost
engineer_at-CheaperIf s i none lt pays = tt
engineer_at-CheaperIf s i (some (m', ph')) lt pays =
    let same : length (set s.engineers i ph') ≡ length s.engineers = length-set s.engineers i ph' in
    (rw same (omega (arith, pays, tally-set e_cost s.engineers i ph' exited lt)), same)

exited_pays :
    (s : System) (i : ℕ) → CheaperIf s (after_engineer s i (engineer_step exited s.shared))
unfolding engineer_step after_engineer
exited_pays s i = tt

engineer_moves-CheaperIf : (s : System) (i : ℕ) → CheaperIf s (step s (engineer_moves i))
unfolding step
engineer_moves-CheaperIf s i = elim (outside s.engineers i exited) [
  | inl lt ↦
      engineer_at-CheaperIf s i _ lt (engineer_step-pays (get_or s.engineers i exited) s.shared)
  | inr e ↦
      subst (λ ph. CheaperIf s (after_engineer s i (engineer_step ph s.shared))) (sym e)
        (exited_pays s i)
]

main_step-CheaperIf :
    (n k : ℕ) (main : Main) (s : System)
    → Inv n k (at_main s main)
    → CheaperIf (at_main s main) (main_step main s)
unfolding main_step cost
main_step-CheaperIf n k (launching j) s h = elim (Bool-cases (ltb j (length s.satellites))) [
  | inl e ↦
      let lt : j < length s.satellites = ground (arith, e) in
      let was : get_or s.satellites j gone ≡ unborn =
        h.to_come j (omega arith) (omega (arith, h.satellites_n)) in
      rw e (omega (arith, tally-set s_cost s.satellites j created gone lt, ap s_cost was), refl)
  | inr e ↦ rw e (omega arith, refl)
]
main_step-CheaperIf n k joining s h = elim (Bool-cases (all_gone s.satellites)) [
  | inl e ↦ rw e (omega arith, refl)
  | inr e ↦ rw e tt
]
main_step-CheaperIf n k (posting zero) s h = (omega arith, refl)
main_step-CheaperIf n k (posting (suc j)) s h = (omega arith, refl)
main_step-CheaperIf n k collecting s h = elim (Bool-cases (all_exited s.engineers)) [
  | inl e ↦ rw e (omega arith, refl)
  | inr e ↦ rw e tt
]
main_step-CheaperIf n k ended s h = tt

step-CheaperIf : (n k : ℕ) (s : System) (mv : Move) → Inv n k s → CheaperIf s (step s mv)
unfolding step
step-CheaperIf n k s main_moves h = main_step-CheaperIf n k s.main s h
step-CheaperIf n k s (satellite_moves i choice) h = satellite_moves-CheaperIf s i choice
step-CheaperIf n k s (engineer_moves i) h = engineer_moves-CheaperIf s i

abbrev SpentIf : System → ℕ → Option System → Type 0
SpentIf s moves none = Unit {0}
SpentIf s moves (some s') = moves + cost s' ≤ cost s

run-SpentIf :
    (n k : ℕ) (s : System) (mvs : List Move)
    → 0 < k
    → Inv n k s
    → SpentIf s (length mvs) (run s mvs)
unfolding run
run-SpentIf n k s [] pos h = omega arith
run-SpentIf n k s (mv ∷ mvs) pos h =
    next (λ s' good. run-SpentIf n k s' mvs pos good) (step s mv) (step-Inv n k s mv pos h)
      (step-CheaperIf n k s mv h)
  where
    more :
        (s' : System) (r : Option System)
        → cost s' < cost s
        → SpentIf s' (length mvs) r
        → SpentIf s (suc (length mvs)) r
    more s' none cheaper spent = tt
    more s' (some s'') cheaper spent = omega (arith, cheaper, spent)

    next :
        ((s' : System) → Inv n k s' → SpentIf s' (length mvs) (run s' mvs))
        → (r : Option System) → InvIf n k r
        → CheaperIf s r
        → SpentIf s (suc (length mvs)) (elim r [ none ↦ none | some s' ↦ run s' mvs ])
    next go none good cheaper = tt
    next go (some s') good (cheaper, _) = more s' (run s' mvs) cheaper (go s' good)

cost-initial : (n k : ℕ) → cost (initial n k) ≡ 12 * n + 6 * k + 4
unfolding cost initial
cost-initial n k = omega (
  arith,
  length-replicate k idle,
  tally-replicate e_cost k idle refl,
  tally-replicate_sum s_cost n unborn,
)

-- Whatever the order in which the threads move, the priorities, the failed allocations and the timed
-- waits that expire, a run with `n` satellites and `k` engineers, at least one, has at most
-- 12 n + 6 k + 4 moves.
pub length-run :
    (n k : ℕ) (mvs : List Move) (s : System)
    → 0 < k
    → run (initial n k) mvs ≡ some s
    → length mvs ≤ 12 * n + 6 * k + 4
length-run n k mvs s pos e =
    let spent : length mvs + cost s ≤ cost (initial n k) =
      subst (SpentIf (initial n k) (length mvs)) e
        (run-SpentIf n k (initial n k) mvs pos (initial-Inv n k)) in
    omega (arith, spent, cost-initial n k)
