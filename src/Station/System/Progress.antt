-- ===== src/Station/System/Progress.antt =====
-- No run of hw3/main.c gets stuck: as long as `main` has not ended, some thread can move.
use system_hw.Prelude.{
  ℕ, zero, suc, ◌+◌, ◌≤◌, ◌<◌, ◌≡◌, ◌≢◌, refl, ap, ◌∙◌, subst, true, List, [], length, get_or, set,
  arith, none, some, ◌⊎◌, inl, inr, Bool-cases, ltb, ◌==◌,
}
use system_hw.Station.System.{
  Satellite, unborn, created, gone, Engineer, exited, Main, launching, joining, posting, collecting,
  ended, Shared, System, fails, satellite_step, engineer_step, main_step, all_gone, all_exited,
  after_satellite, after_engineer, step, Move, main_moves, satellite_moves, engineer_moves, run,
  initial,
}
use system_hw.Station.System.Tally.{
  tally, tally-get, tally-find, all_gone-tally, all_exited-tally, inside-exited, queued-left,
  awake-running, active-left, busy-inside, s_left, e_running, e_inside,
}
use system_hw.Station.System.Inv.{Inv, births, is_late, due, woken}
use system_hw.Station.System.Runs.{run-Inv}
use system_hw.Station.System.Able.{satellite_can, engineer_can, engineer_wakes}

-- Some thread can move.
abbrev pub Moves : System → Type 0
Moves s = (mv : Move) × (s' : System) × (step s mv ≡ some s')

module _ (s : System) (i : ℕ) where
  satellite-Moves :
      (r : Shared × Satellite)
      → satellite_step i fails (get_or s.satellites i gone) s.shared ≡ some r
      → Moves s
  unfolding step after_satellite
  satellite-Moves r e = (satellite_moves i fails, _, ap (after_satellite s i) e)

  engineer-Moves :
      (r : Shared × Engineer)
      → engineer_step (get_or s.engineers i exited) s.shared ≡ some r
      → Moves s
  unfolding step after_engineer
  engineer-Moves r e = (engineer_moves i, _, ap (after_engineer s i) e)

posting_zero : (s : System) → main_step (posting zero) s ≡ some (record s { main = collecting })
unfolding main_step
posting_zero s = refl

posting_suc :
    (s : System) (j : ℕ)
    → main_step (posting (suc j)) s
      ≡ some (record s {
        main = posting j;
        shared = record s.shared { new_request = s.shared.new_request + 1 };
      })
unfolding main_step
posting_suc s j = refl

joining_can :
    (s : System)
    → tally s_left s.satellites ≡ 0
    → main_step joining s ≡ some (record s { main = posting (length s.engineers) })
unfolding main_step
joining_can s none_left =
    let all : all_gone s.satellites ≡ true =
      all_gone-tally s.satellites ∙ ap (λ t. t == 0) none_left in
    rw all refl

collecting_can :
    (s : System)
    → tally e_inside s.engineers ≡ 0
    → main_step collecting s ≡ some (record s { main = ended })
unfolding main_step
collecting_can s none_inside =
    let all : all_exited s.engineers ≡ true =
      all_exited-tally s.engineers ∙ ap (λ t. t == 0) none_inside in
    rw all refl

module _ (n k : ℕ) (s : System) (pos : 0 < k) where
  main-Moves : (main : Main) (s' : System) → s.main ≡ main → main_step main s ≡ some s' → Moves s
  unfolding step
  main-Moves main s' at e = (main_moves, s', ap (λ x. main_step x s) at ∙ e)

  launching-Moves : (j : ℕ) → s.main ≡ launching j → Moves s
  unfolding main_step
  launching-Moves j at = elim (Bool-cases (ltb j (length s.satellites))) [
    | inl e ↦
        main-Moves (launching j)
          (record s { main = launching (j + 1); satellites = set s.satellites j created }) at
          (rw e refl)
    | inr e ↦
        main-Moves (launching j)
          (record s { main = joining; shared = record s.shared { all_launched = true } }) at
          (rw e refl)
  ]

  -- While a satellite has not returned, one can move.
  joining-Moves : Inv n k s → s.main ≡ joining → Moves s
  joining-Moves h at = elim (tally-find s_left s.satellites gone) [
    | inl none_left ↦ main-Moves joining _ at (joining_can s none_left)
    | inr (i, lt, here) ↦
        let (r, e) = satellite_can i (get_or s.satellites i gone) s.shared (born i lt) here in
        satellite-Moves s i r e
  ]
    where
      born : (i : ℕ) → i < length s.satellites → get_or s.satellites i gone ≢ unborn
      born i lt e = absurd (
          omega (
            arith,
            subst (λ main. births n main ≤ i) at (h.created_before i e),
            lt,
            h.satellites_n,
          ))

  -- While an engineer has not returned at the end, one can move: a wake-up is left for it.
  collecting-Moves : Inv n k s → s.main ≡ collecting → Moves s
  collecting-Moves h at = elim (tally-find e_inside s.engineers exited) [
    | inl none_inside ↦ main-Moves collecting _ at (collecting_can s none_inside)
    | inr (i, lt, here) ↦ one_moves i lt here (tally-find e_running s.engineers exited)
  ]
    where
      permit :
          (i : ℕ)
          → i < length s.engineers
          → 0 < e_inside (get_or s.engineers i exited)
          → tally e_running s.engineers ≡ 0
          → 0 < s.shared.new_request
      permit i lt here none_running = omega (
        arith,
        h.permits,
        inside-exited s.engineers,
        h.engineers_m,
        awake-running s.engineers,
        queued-left s.satellites,
        none_running,
        (h.late (ap is_late at)).0,
        ap due at,
        ap (woken k) at,
        tally-get e_inside s.engineers i exited lt,
        here,
      )

      one_moves :
          (i : ℕ)
          → i < length s.engineers
          → 0 < e_inside (get_or s.engineers i exited)
          → (tally e_running s.engineers ≡ 0)
            ⊎ ((j : ℕ) × (j < length s.engineers) × (0 < e_running (get_or s.engineers j exited)))
          → Moves s
      one_moves i lt here (inr (j, _, runs)) =
          let (r, e) = engineer_can (get_or s.engineers j exited) s.shared runs in
          engineer-Moves s j r e
      one_moves i lt here (inl none_running) =
          let (r, e) =
            engineer_wakes (get_or s.engineers i exited) s.shared here
              (omega (arith, none_running, tally-get e_running s.engineers i exited lt))
              (permit i lt here none_running) in
          engineer-Moves s i r e

-- A thread can move as long as `main` has not ended.
not_stuck :
    (n k : ℕ) (s : System) (main : Main)
    → 0 < k
    → Inv n k s
    → s.main ≡ main
    → Moves s ⊎ (s.main ≡ ended)
not_stuck n k s (launching j) pos h at = inl (launching-Moves n k s pos j at)
not_stuck n k s joining pos h at = inl (joining-Moves n k s pos h at)
not_stuck n k s (posting zero) pos h at =
    inl (main-Moves n k s pos (posting zero) _ at (posting_zero s))
not_stuck n k s (posting (suc j)) pos h at =
    inl (main-Moves n k s pos (posting (suc j)) _ at (posting_suc s j))
not_stuck n k s collecting pos h at = inl (collecting-Moves n k s pos h at)
not_stuck n k s ended pos h at = inr at

ended_state :
    (n k : ℕ) (s : System)
    → Inv n k s
    → s.main ≡ ended
    → (s.main ≡ ended)
      × (all_gone s.satellites ≡ true)
      × (all_exited s.engineers ≡ true)
      × (s.shared.queue ≡ [])
      × (s.shared.active_satellites ≡ 0)
      × (s.shared.available_engineers ≡ k)
ended_state n k s h at =
    let (none_left, launched) = h.late (ap is_late at) in
    let (none_inside, empty) = h.over at in
    (
      at,
      all_gone-tally s.satellites ∙ ap (λ t. t == 0) none_left,
      all_exited-tally s.engineers ∙ ap (λ t. t == 0) none_inside,
      empty,
      omega (arith, h.active, none_left, active-left s.satellites),
      omega (arith, h.available, none_inside, busy-inside s.engineers),
    )

-- The program ends properly: when, after any run with `n` satellites and at least one engineer, no
-- thread can move, `main` has ended, every satellite and every engineer has returned, the queue is
-- empty, no satellite is counted as active, and every engineer is counted as available.
pub run-ended :
    (n k : ℕ) (mvs : List Move) (s : System)
    → 0 < k
    → run (initial n k) mvs ≡ some s
    → ((mv : Move) → step s mv ≡ none)
    → (s.main ≡ ended)
      × (all_gone s.satellites ≡ true)
      × (all_exited s.engineers ≡ true)
      × (s.shared.queue ≡ [])
      × (s.shared.active_satellites ≡ 0)
      × (s.shared.available_engineers ≡ k)
run-ended n k mvs s pos e stuck =
    let h : Inv n k s = run-Inv n k mvs s pos e in
    elim (not_stuck n k s s.main pos h refl) [
      | inl (mv, s', moves) ↦ absurd (cc (stuck mv, moves))
      | inr at ↦ ended_state n k s h at
    ]
