-- ===== src/Station/System.antt =====
-- The threads of hw3/main.c: `satellite`, `engineer` and `main`. A move is what one thread does
-- between two points at which others can see it: a critical section, a semaphore operation, or a
-- write of its own. The queue is the list of its requests, which Station/Queue refines to pointers; a
-- request is known by its satellite, so the reuse of a freed address is outside this model.
pub mod Tally
pub mod Inv
pub mod Satellites
pub mod Turn
pub mod Engineers
pub mod Runs
pub mod Costs
pub mod Measure
pub mod Able
pub mod Progress
mod Tests
use system_hw.Prelude.{
  ℕ, zero, suc, ◌+◌, ◌-◌, Bool, true, false, ◌&&◌, Option, none, some, List, [], ◌∷◌, length,
  get_or, set, replicate, ltb, ◌==◌, if◌then◌else◌,
}
use system_hw.Station.Queue.Seg.{QueuedRequest}
use system_hw.Station.Queue.Pick.{take_best}

-- Where a satellite thread stands: not created yet; created; in the count of active satellites; its
-- request in the queue; waiting after `sem_post`; timed out; about to leave the count; returned.
pub data Satellite : Type 0 where
  unborn created counted queued waiting expired leaving gone : Satellite

-- Where an engineer thread stands: at `sem_wait`; woken; with a stale request to free; with a
-- request to handle; at work after its `sem_post`; about to be available again; at the second check
-- of the shutdown, and at its last part; returned.
pub data Engineer : Type 0 where
  idle awake discarding handling working finished rechecking closing exited : Engineer

-- `main`, with the satellites created, or the wake-ups that are left to post.
pub data Main : Type 0 where
  launching : ℕ → Main
  joining : Main
  posting : ℕ → Main
  collecting : Main
  ended : Main

-- The variables that the threads share; the counters are shown to stay above 0 where they are
-- decremented.
pub record Shared : Type 0 where
  pub queue : List QueuedRequest
  pub new_request : ℕ
  pub request_handled : ℕ
  pub available_engineers : ℕ
  pub active_satellites : ℕ
  pub all_launched : Bool

pub record System : Type 0 where
  pub shared : Shared
  pub main : Main
  pub satellites : List Satellite
  pub engineers : List Engineer

-- What is left open for a satellite: the priority drawn for it, and whether it goes on, or its
-- `malloc` or its timed wait fails.
pub data Choice : Type 0 where
  goes : (priority : ℕ) → Choice
  fails : Choice

mark_own : ℕ → List QueuedRequest → List QueuedRequest
mark_own i [] = []
mark_own i (r ∷ rs) = if r.id == i then record r { handled = true } ∷ rs else r ∷ mark_own i rs

-- `satellite`: `none` where it cannot move.
pub satellite_step : ℕ → Choice → Satellite → Shared → Option (Shared × Satellite)
unfolding mark_own
satellite_step i choice unborn m = none
satellite_step i choice created m =
    some (record m { active_satellites = m.active_satellites + 1 }, counted)
satellite_step i (goes p) counted m =
    some (record m { queue = record { id = i; priority = p; handled = false } ∷ m.queue }, queued)
satellite_step i fails counted m = some (m, leaving)
satellite_step i choice queued m = some (record m { new_request = m.new_request + 1 }, waiting)
satellite_step i (goes p) waiting m =
    if ltb 0 m.request_handled
    then some (record m { request_handled = m.request_handled - 1 }, leaving)
    else none
satellite_step i fails waiting m = some (m, expired)
satellite_step i choice expired m = some (record m { queue = mark_own i m.queue }, leaving)
satellite_step i choice leaving m =
    some (record m { active_satellites = m.active_satellites - 1 }, gone)
satellite_step i choice gone m = none

pub is_empty : List QueuedRequest → Bool
is_empty [] = true
is_empty (r ∷ rs) = false

-- What an engineer does with the request that it has taken, the queue being `rest`.
engage : Shared → QueuedRequest × List QueuedRequest → Shared × Engineer
engage m (best, rest) =
    if best.handled
    then (record m { queue = rest }, discarding)
    else (record m { queue = rest; available_engineers = m.available_engineers - 1 }, handling)

take_request : Shared → List QueuedRequest → Shared × Engineer
unfolding engage
take_request m [] = (m, rechecking)
take_request m (r ∷ rs) = engage m (take_best r rs)

-- The critical section of an engineer that has been woken.
engineer_turn : Shared → Shared × Engineer
unfolding take_request
engineer_turn m =
    if m.all_launched && (m.active_satellites == 0 && is_empty m.queue)
    then (m, exited)
    else take_request m m.queue

-- `engineer`: `none` where it cannot move.
pub engineer_step : Engineer → Shared → Option (Shared × Engineer)
unfolding engineer_turn
engineer_step idle m =
    if ltb 0 m.new_request then some (record m { new_request = m.new_request - 1 }, awake) else none
engineer_step awake m = some (engineer_turn m)
engineer_step discarding m = some (m, idle)
engineer_step handling m = some (record m { request_handled = m.request_handled + 1 }, working)
engineer_step working m = some (m, finished)
engineer_step finished m = some (record m { available_engineers = m.available_engineers + 1 }, idle)
engineer_step rechecking m =
    some (m, if m.all_launched && m.active_satellites == 0 then closing else idle)
engineer_step closing m = some (m, if is_empty m.queue then exited else idle)
engineer_step exited m = none

-- Whether every thread of a list has returned.
pub all_gone : List Satellite → Bool
all_gone [] = true
all_gone (gone ∷ ss) = all_gone ss
all_gone (_ ∷ ss) = false

pub all_exited : List Engineer → Bool
all_exited [] = true
all_exited (exited ∷ es) = all_exited es
all_exited (_ ∷ es) = false

-- `main` after its initialisations: the satellites created one by one, `allSatellitesLaunched`, the
-- joins, the wake-ups, and the end.
pub main_step : Main → System → Option System
main_step (launching k) s =
    if ltb k (length s.satellites)
    then some (record s { main = launching (k + 1); satellites = set s.satellites k created })
    else some (record s { main = joining; shared = record s.shared { all_launched = true } })
main_step joining s =
    if all_gone s.satellites then some (record s { main = posting (length s.engineers) }) else none
main_step (posting zero) s = some (record s { main = collecting })
main_step (posting (suc k)) s = some (record s {
  main = posting k;
  shared = record s.shared { new_request = s.shared.new_request + 1 };
})
main_step collecting s = if all_exited s.engineers then some (record s { main = ended }) else none
main_step ended s = none

pub data Move : Type 0 where
  main_moves : Move
  satellite_moves : ℕ → Choice → Move
  engineer_moves : ℕ → Move

after_satellite : System → ℕ → Option (Shared × Satellite) → Option System
after_satellite s i none = none
after_satellite s i (some (m, phase)) =
    some (record s { shared = m; satellites = set s.satellites i phase })

after_engineer : System → ℕ → Option (Shared × Engineer) → Option System
after_engineer s i none = none
after_engineer s i (some (m, phase)) =
    some (record s { shared = m; engineers = set s.engineers i phase })

-- One move of one thread; `none` if it cannot move.
pub step : System → Move → Option System
unfolding after_satellite after_engineer
step s main_moves = main_step s.main s
step s (satellite_moves i choice) =
    after_satellite s i (satellite_step i choice (get_or s.satellites i gone) s.shared)
step s (engineer_moves i) =
    after_engineer s i (engineer_step (get_or s.engineers i exited) s.shared)

-- The state after `main` has created `m` engineers, with `n` satellites to come.
pub initial : ℕ → ℕ → System
initial n m = record {
  shared = record {
    queue = [];
    new_request = 0;
    request_handled = 0;
    available_engineers = m;
    active_satellites = 0;
    all_launched = false;
  };
  main = launching 0;
  satellites = replicate n unborn;
  engineers = replicate m idle;
}

-- A run of the program, in which each move is possible when it is made.
pub run : System → List Move → Option System
run s [] = some s
run s (mv ∷ mvs) = elim (step s mv) [ none ↦ none | some s' ↦ run s' mvs ]
