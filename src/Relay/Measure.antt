-- ===== src/Relay/Measure.antt =====
-- How long a run of hw2/main.c can be: each move uses up some of what is left to do.
use system_hw.Prelude.{ℕ, ◌+◌, ◌-◌, ◌≤◌, ◌<◌, Bool, true, false, Option, none, some, List, [], ◌∷◌}
use system_hw.Relay.{
  Parent, arriving, opening, writing_first, writing_second, closing, looping, leaving, killing,
  reaping, done, killed, waiting, Child1, reading_first, reading_second, sending, opening_next,
  writing, exiting, zombie, gone, Child2, reading, Daemon, alive, Processes, Move, polls,
}

left_of_parent : Parent → ℕ
left_of_parent arriving = 15
left_of_parent opening = 14
left_of_parent writing_first = 13
left_of_parent writing_second = 12
left_of_parent closing = 11
left_of_parent looping = 10
left_of_parent leaving = 9
left_of_parent killing = 8
left_of_parent (waiting i) = 4 + (3 - i)
left_of_parent reaping = 2
left_of_parent done = 0
left_of_parent killed = 0

left_of_child1 : Child1 → ℕ
left_of_child1 arriving = 11
left_of_child1 opening = 10
left_of_child1 reading_first = 9
left_of_child1 (reading_second a) = 8
left_of_child1 (sending l) = 7
left_of_child1 (opening_next l) = 6
left_of_child1 (writing l) = 5
left_of_child1 (exiting l) = 4
left_of_child1 (zombie l) = 1
left_of_child1 (gone l) = 0

left_of_child2 : Child2 → ℕ
left_of_child2 arriving = 7
left_of_child2 opening = 6
left_of_child2 reading = 5
left_of_child2 (exiting l) = 4
left_of_child2 (zombie l) = 1
left_of_child2 (gone l) = 0

left_of_daemon : Daemon → ℕ
left_of_daemon alive = 4
left_of_daemon Daemon.zombie = 1
left_of_daemon Daemon.gone = 0

flag : ℕ → Bool → ℕ
flag n true = n
flag n false = 0

-- A pending signal is worth two moves of the handler's, its return one.
left : Processes → ℕ
unfolding left_of_parent left_of_child1 left_of_child2 left_of_daemon flag
left s =
    left_of_parent s.parent
    + left_of_child1 s.child1
    + left_of_child2 s.child2
    + left_of_daemon s.daemon
    + flag 2 s.pending
    + flag 1 s.handling

-- The moves other than rounds of the parent's loop.
unfoldable pub without_polls : List Move → List Move
without_polls [] = []
without_polls (polls ∷ ms) = without_polls ms
without_polls (m ∷ ms) = m ∷ without_polls ms

abbrev LessIf : ℕ → Option Processes → Type 0
LessIf n none = Unit {0}
LessIf n (some s) = left s < n

-- What a move uses up: a round of the loop nothing.
abbrev worth : Move → ℕ
worth polls = 0
worth m = 1

abbrev UsesIf : ℕ → ℕ → Option Processes → Type 0
UsesIf n k none = Unit {0}
UsesIf n k (some s) = k + left s ≤ n
