-- ===== src/Station/System/Costs.antt =====
-- What each move of a satellite or an engineer of hw3/main.c uses up.
use system_hw.Prelude.{
  ℕ, ◌+◌, ◌*◌, ◌<◌, ◌&&◌, List, [], ◌∷◌, arith, Option, none, some, inl, inr, Bool-cases, ltb, ◌==◌,
}
use system_hw.Station.Queue.Seg.{QueuedRequest}
use system_hw.Station.Queue.Pick.{take_best}
use system_hw.Station.System.{
  Satellite, unborn, created, counted, queued, waiting, expired, leaving, gone, Engineer, idle,
  awake, discarding, handling, working, finished, rechecking, closing, exited, Main, launching,
  joining, posting, collecting, ended, Shared, Choice, goes, fails, satellite_step, engineer_step,
  engineer_turn, take_request, engage, is_empty,
}

-- What the rest of a thread can still cost, with the wake-up that a satellite posts.
abbrev pub s_cost : Satellite → ℕ
s_cost unborn = 12
s_cost created = 11
s_cost counted = 10
s_cost queued = 9
s_cost waiting = 3
s_cost expired = 2
s_cost leaving = 1
s_cost gone = 0

abbrev pub e_cost : Engineer → ℕ
e_cost idle = 0
e_cost awake = 4
e_cost handling = 3
e_cost working = 2
e_cost finished = 1
e_cost discarding = 1
e_cost rechecking = 2
e_cost closing = 1
e_cost exited = 0

-- `main`, with `m` engineers; each creation of a satellite is paid by the satellite.
abbrev pub main_cost : ℕ → Main → ℕ
main_cost m (launching j) = 6 * m + 4
main_cost m joining = 6 * m + 3
main_cost m (posting j) = 6 * j + 2
main_cost m collecting = 1
main_cost m ended = 0

abbrev pub SatellitePays : Satellite → Shared → Option (Shared × Satellite) → Type 0
SatellitePays ph m none = Unit {0}
SatellitePays ph m (some (m', ph')) =
    5 * m'.new_request + s_cost ph' < 5 * m.new_request + s_cost ph

pub satellite_step-pays :
    (i : ℕ) (choice : Choice) (ph : Satellite) (m : Shared)
    → SatellitePays ph m (satellite_step i choice ph m)
unfolding satellite_step
satellite_step-pays i choice unborn m = tt
satellite_step-pays i choice created m = omega arith
satellite_step-pays i (goes p) counted m = omega arith
satellite_step-pays i fails counted m = omega arith
satellite_step-pays i choice queued m = omega arith
satellite_step-pays i (goes p) waiting m = ground arith
satellite_step-pays i fails waiting m = omega arith
satellite_step-pays i choice expired m = omega arith
satellite_step-pays i choice leaving m = omega arith
satellite_step-pays i choice gone m = tt

abbrev pub EngineerPays : Engineer → Shared → Option (Shared × Engineer) → Type 0
EngineerPays ph m none = Unit {0}
EngineerPays ph m (some (m', ph')) = 5 * m'.new_request + e_cost ph' < 5 * m.new_request + e_cost ph

engage-pays :
    (m : Shared) (t : QueuedRequest × List QueuedRequest)
    → 5 * (engage m t).0.new_request + e_cost (engage m t).1 < 5 * m.new_request + 4
unfolding engage
engage-pays m (best, rest) = elim (Bool-cases best.handled) [
  | inl e ↦ rw e (omega arith)
  | inr e ↦ rw e (omega arith)
]

take_request-pays :
    (m : Shared) (q : List QueuedRequest)
    → 5 * (take_request m q).0.new_request + e_cost (take_request m q).1 < 5 * m.new_request + 4
unfolding take_request
take_request-pays m [] = omega arith
take_request-pays m (r ∷ rs) = engage-pays m (take_best r rs)

engineer_turn-pays : (m : Shared) → EngineerPays awake m (some (engineer_turn m))
unfolding engineer_turn
engineer_turn-pays m =
    elim (Bool-cases (m.all_launched && (m.active_satellites == 0 && is_empty m.queue))) [
      | inl e ↦ rw e (omega arith)
      | inr e ↦ rw e (take_request-pays m m.queue)
    ]

pub engineer_step-pays : (ph : Engineer) (m : Shared) → EngineerPays ph m (engineer_step ph m)
unfolding engineer_step
engineer_step-pays idle m = elim (Bool-cases (ltb 0 m.new_request)) [
  | inl e ↦ rw e (ground (arith, e))
  | inr e ↦ rw e tt
]
engineer_step-pays awake m = engineer_turn-pays m
engineer_step-pays discarding m = omega arith
engineer_step-pays handling m = omega arith
engineer_step-pays working m = omega arith
engineer_step-pays finished m = omega arith
engineer_step-pays rechecking m = elim (Bool-cases (m.all_launched && m.active_satellites == 0)) [
  | inl e ↦ rw e (omega arith)
  | inr e ↦ rw e (omega arith)
]
engineer_step-pays closing m = elim (Bool-cases (is_empty m.queue)) [
  | inl e ↦ rw e (omega arith)
  | inr e ↦ rw e (omega arith)
]
engineer_step-pays exited m = tt
