-- ===== src/Station/System/Tests.antt =====
-- The theorems on the threads at one satellite and one engineer.
use system_hw.Prelude.{
  ◌≡◌, ◌≤◌, ◌+◌, ◌*◌, zero, suc, refl, true, none, some, List, [], ◌∷◌, length, arith,
}
use system_hw.Station.Queue.Pick.{take_best}
use system_hw.Station.System.{
  System, Move, main_moves, satellite_moves, engineer_moves, goes, step, run, initial, ended, gone,
  exited, all_gone, all_exited, main_step, satellite_step, engineer_step, engineer_turn,
  take_request, engage, after_satellite, after_engineer, is_empty,
}
use system_hw.Station.System.Inv.{Inv}
use system_hw.Station.System.Runs.{run-Inv}
use system_hw.Station.System.Measure.{length-run}
use system_hw.Station.System.Progress.{run-ended}

-- The engineer serves the satellite, and is woken once more at the end.
abbrev moves : List Move
moves =
    main_moves
    ∷ satellite_moves 0 (goes 3)
    ∷ main_moves
    ∷ satellite_moves 0 (goes 3)
    ∷ satellite_moves 0 (goes 3)
    ∷ engineer_moves 0
    ∷ engineer_moves 0
    ∷ engineer_moves 0
    ∷ satellite_moves 0 (goes 3)
    ∷ satellite_moves 0 (goes 3)
    ∷ main_moves
    ∷ engineer_moves 0
    ∷ engineer_moves 0
    ∷ main_moves
    ∷ main_moves
    ∷ engineer_moves 0
    ∷ engineer_moves 0
    ∷ main_moves
    ∷ []

abbrev last_state : System
last_state = record {
  shared = record {
    queue = [];
    new_request = 0;
    request_handled = 0;
    available_engineers = 1;
    active_satellites = 0;
    all_launched = true;
  };
  main = ended;
  satellites = gone ∷ [];
  engineers = exited ∷ [];
}

whole_run : run (initial 1 1) moves ≡ some last_state
unfolding run initial step main_step satellite_step engineer_step engineer_turn take_request engage
    after_satellite after_engineer is_empty all_gone all_exited take_best
whole_run = refl

last_state_stuck : (mv : Move) → step last_state mv ≡ none
unfolding step main_step satellite_step engineer_step after_satellite after_engineer
last_state_stuck main_moves = refl
last_state_stuck (satellite_moves zero choice) = refl
last_state_stuck (satellite_moves (suc i) choice) = refl
last_state_stuck (engineer_moves zero) = refl
last_state_stuck (engineer_moves (suc i)) = refl

run-Inv_example : Inv 1 1 last_state
run-Inv_example = run-Inv 1 1 moves last_state (omega arith) whole_run

length-run_example : length moves ≤ 12 * 1 + 6 * 1 + 4
length-run_example = length-run 1 1 moves last_state (omega arith) whole_run

run-ended_example :
    (last_state.main ≡ ended)
    × (all_gone last_state.satellites ≡ true)
    × (all_exited last_state.engineers ≡ true)
    × (last_state.shared.queue ≡ [])
    × (last_state.shared.active_satellites ≡ 0)
    × (last_state.shared.available_engineers ≡ 1)
run-ended_example = run-ended 1 1 moves last_state (omega arith) whole_run last_state_stuck
