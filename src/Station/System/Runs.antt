-- ===== src/Station/System/Runs.antt =====
-- The moves of `main` in hw3/main.c keep the invariant, and so does every run.
use system_hw.Prelude.{
  ℕ, zero, suc, ◌+◌, ◌≤◌, ◌<◌, ◌≡◌, ◌≢◌, refl, sym, ap, ◌∙◌, subst, true, List, [], ◌∷◌, length,
  length-set, get_or, get_or-set_self, get_or-set_ne, set, arith, Option, none, some, inl, inr,
  Bool-cases, ltb, ◌==◌,
}
use system_hw.Station.System.{
  unborn, created, gone, Main, launching, joining, posting, collecting, ended, System, all_gone,
  all_exited, main_step, step, Move, main_moves, satellite_moves, engineer_moves, run, initial,
}
use system_hw.Station.System.Tally.{
  tally, tally-set, all_gone-tally, all_exited-tally, inside-exited, s_queued, s_active, s_left,
  e_inside,
}
use system_hw.Station.System.Inv.{Inv, initial-Inv}
use system_hw.Station.System.Satellites.{InvIf, satellite_moves-Inv}
use system_hw.Station.System.Engineers.{engineer_moves-Inv}

-- The program as `main` sees it.
abbrev pub at_main : System → Main → System
at_main s main = record s { main = main }

created_alive : created ≢ unborn
created_alive e = cc

module _ (n k : ℕ) (s : System) (pos : 0 < k) where
  -- The next satellite is created.
  birth-Inv :
      (j : ℕ)
      → Inv n k (at_main s (launching j))
      → j < length s.satellites
      → Inv n k (record s { main = launching (j + 1); satellites = set s.satellites j created })
  birth-Inv j h lt =
      let was : get_or s.satellites j gone ≡ unborn =
        h.to_come j (omega arith) (omega (arith, h.satellites_n)) in
      record {
        satellites_n = length-set s.satellites j created ∙ h.satellites_n;
        engineers_m = h.engineers_m;
        permits =
            omega (
              arith,
              h.permits,
              tally-set s_queued s.satellites j created gone lt,
              ap s_queued was,
            );
        no_stray = h.no_stray;
        active =
            omega
              (arith, h.active, tally-set s_active s.satellites j created gone lt, ap s_active was);
        available = h.available;
        late = λ e. absurd cc;
        flag = λ e. absurd cc;
        settled = λ some_out. absurd (cc ((h.settled some_out).1));
        over = λ e. absurd cc;
        to_come = λ i le less.
            get_or-set_ne s.satellites j i created gone (omega arith)
            ∙ h.to_come i (omega arith) less;
        created_before = before;
      }
    where
      before : (i : ℕ) → get_or (set s.satellites j created) i gone ≡ unborn → j + 1 ≤ i
      before i e = elim (Bool-cases (j == i)) [
        | inl same ↦
            let at : j ≡ i = ground (arith, same) in
            absurd (
              created_alive (
                sym (get_or-set_self s.satellites j created gone lt)
                ∙ ap (λ x. get_or (set s.satellites j created) x gone) at
                ∙ e))
        | inr other ↦
            let ne : j ≢ i = ground (arith, other) in
            omega (
              arith,
              ne,
              h.created_before i (sym (get_or-set_ne s.satellites j i created gone ne) ∙ e),
            )
      ]

  joining-Inv :
      (j : ℕ)
      → Inv n k (at_main s (launching j))
      → length s.satellites ≤ j
      → Inv n k (record s { main = joining; shared = record s.shared { all_launched = true } })
  joining-Inv j h le = record {
    satellites_n = h.satellites_n;
    engineers_m = h.engineers_m;
    permits = h.permits;
    no_stray = h.no_stray;
    active = h.active;
    available = h.available;
    late = λ e. absurd cc;
    flag = λ e. refl;
    settled = λ some_out. absurd (cc ((h.settled some_out).1));
    over = λ e. absurd cc;
    to_come = λ i le' less. absurd (omega arith);
    created_before = λ i e. omega (arith, h.created_before i e, h.satellites_n);
  }

  posting-Inv :
      Inv n k (at_main s joining)
      → tally s_left s.satellites ≡ 0
      → Inv n k (at_main s (posting (length s.engineers)))
  posting-Inv h none_left = record {
    satellites_n = h.satellites_n;
    engineers_m = h.engineers_m;
    permits = omega (arith, h.permits, h.engineers_m);
    no_stray = h.no_stray;
    active = h.active;
    available = h.available;
    late = λ e. (none_left, h.flag refl);
    flag = λ e. absurd cc;
    settled = λ some_out. absurd (cc ((h.settled some_out).1));
    over = λ e. absurd cc;
    to_come = h.to_come;
    created_before = h.created_before;
  }

  post-Inv :
      (j : ℕ)
      → Inv n k (at_main s (posting (suc j)))
      → Inv n k (record s {
        main = posting j;
        shared = record s.shared { new_request = s.shared.new_request + 1 };
      })
  post-Inv j h = record {
    satellites_n = h.satellites_n;
    engineers_m = h.engineers_m;
    permits = omega (arith, h.permits);
    no_stray = h.no_stray;
    active = h.active;
    available = h.available;
    late = h.late;
    flag = λ e. absurd cc;
    settled = h.settled;
    over = λ e. absurd cc;
    to_come = h.to_come;
    created_before = h.created_before;
  }

  collecting-Inv : Inv n k (at_main s (posting 0)) → Inv n k (at_main s collecting)
  collecting-Inv h = record {
    satellites_n = h.satellites_n;
    engineers_m = h.engineers_m;
    permits = omega (arith, h.permits);
    no_stray = h.no_stray;
    active = h.active;
    available = h.available;
    late = h.late;
    flag = λ e. absurd cc;
    settled = h.settled;
    over = λ e. absurd cc;
    to_come = h.to_come;
    created_before = h.created_before;
  }

  ended-Inv :
      Inv n k (at_main s collecting)
      → tally e_inside s.engineers ≡ 0
      → Inv n k (record s { main = ended })
  ended-Inv h none_inside =
      let (empty, late) =
        h.settled (omega (arith, pos, none_inside, inside-exited s.engineers, h.engineers_m)) in
      record {
        satellites_n = h.satellites_n;
        engineers_m = h.engineers_m;
        permits = omega (arith, h.permits, ap length empty);
        no_stray = h.no_stray;
        active = h.active;
        available = h.available;
        late = h.late;
        flag = λ e. absurd cc;
        settled = λ some_out. (empty, refl);
        over = λ e. (none_inside, empty);
        to_come = h.to_come;
        created_before = h.created_before;
      }

main_step-Inv :
    (n k : ℕ) (main : Main) (s : System)
    → 0 < k
    → Inv n k (at_main s main)
    → InvIf n k (main_step main s)
unfolding main_step
main_step-Inv n k (launching j) s pos h = elim (Bool-cases (ltb j (length s.satellites))) [
  | inl e ↦ rw e (birth-Inv n k s pos j h (ground (arith, e)))
  | inr e ↦ rw e (joining-Inv n k s pos j h (ground (arith, e)))
]
main_step-Inv n k joining s pos h = elim (Bool-cases (all_gone s.satellites)) [
  | inl e ↦ rw e (posting-Inv n k s pos h (ground (arith, sym (all_gone-tally s.satellites) ∙ e)))
  | inr e ↦ rw e tt
]
main_step-Inv n k (posting zero) s pos h = collecting-Inv n k s pos h
main_step-Inv n k (posting (suc j)) s pos h = post-Inv n k s pos j h
main_step-Inv n k collecting s pos h = elim (Bool-cases (all_exited s.engineers)) [
  | inl e ↦ rw e (ended-Inv n k s pos h (ground (arith, sym (all_exited-tally s.engineers) ∙ e)))
  | inr e ↦ rw e tt
]
main_step-Inv n k ended s pos h = tt

pub step-Inv : (n k : ℕ) (s : System) (mv : Move) → 0 < k → Inv n k s → InvIf n k (step s mv)
unfolding step
step-Inv n k s main_moves pos h = main_step-Inv n k s.main s pos h
step-Inv n k s (satellite_moves i choice) pos h = satellite_moves-Inv n k s i choice h
step-Inv n k s (engineer_moves i) pos h = engineer_moves-Inv n k s i h

pub run_from-Inv :
    (n k : ℕ) (s : System) (mvs : List Move) → 0 < k → Inv n k s → InvIf n k (run s mvs)
unfolding run
run_from-Inv n k s [] pos h = h
run_from-Inv n k s (mv ∷ mvs) pos h =
    next (λ s' good. run_from-Inv n k s' mvs pos good) (step s mv) (step-Inv n k s mv pos h)
  where
    next :
        ((s' : System) → Inv n k s' → InvIf n k (run s' mvs))
        → (r : Option System) → InvIf n k r
        → InvIf n k (elim r [ none ↦ none | some s' ↦ run s' mvs ])
    next go none good = tt
    next go (some s') good = go s' good

-- At every moment of a run with `n` satellites and at least one engineer: the counters of the active
-- satellites and of the available engineers are those of the threads, the wake-ups posted and not yet
-- used up stand for requests of the queue or for the last wake-ups of `main`, and an engineer has
-- returned only after every satellite has, with the queue empty.
pub run-Inv :
    (n k : ℕ) (mvs : List Move) (s : System) → 0 < k → run (initial n k) mvs ≡ some s → Inv n k s
run-Inv n k mvs s pos e =
    subst (InvIf n k) e (run_from-Inv n k (initial n k) mvs pos (initial-Inv n k))
