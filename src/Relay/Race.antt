-- ===== src/Relay/Race.antt =====
-- The race of hw2/main.c between the handler and the `kill` of the daemon.
use system_hw.Prelude.Int.{ℤ}
use system_hw.Prelude.{◌≡◌, refl, Option, none, some, List, [], ◌∷◌}
use system_hw.Relay.{
  larger, Parent, done, killed, Processes, take_number, Move, parent_moves, child1_moves,
  child2_moves, daemon_ends, signal, reaps_child1, reaps_child2, reaps_daemon, returns, step, run,
  begin,
}

-- Everything up to the `kill`; then the daemon ends and the handler forgets it, and the parent goes on.
abbrev pub late_end : List Move
late_end =
    parent_moves ∷ child1_moves ∷ parent_moves ∷ child1_moves ∷ parent_moves ∷ parent_moves
    ∷ child1_moves ∷ child1_moves ∷ parent_moves ∷ child1_moves ∷ child2_moves ∷ child1_moves
    ∷ child2_moves ∷ child1_moves ∷ child1_moves ∷ child2_moves ∷ child2_moves ∷ signal
    ∷ reaps_child1 ∷ reaps_child2 ∷ returns ∷ parent_moves ∷ parent_moves ∷ daemon_ends ∷ signal
    ∷ reaps_daemon ∷ returns ∷ parent_moves ∷ []

-- The same without the end of the daemon: the parent waits for it, kills it, and is done.
abbrev pub plain_end : List Move
plain_end =
    parent_moves ∷ child1_moves ∷ parent_moves ∷ child1_moves ∷ parent_moves ∷ parent_moves
    ∷ child1_moves ∷ child1_moves ∷ parent_moves ∷ child1_moves ∷ child2_moves ∷ child1_moves
    ∷ child2_moves ∷ child1_moves ∷ child1_moves ∷ child2_moves ∷ child2_moves ∷ signal
    ∷ reaps_child1 ∷ reaps_child2 ∷ returns ∷ parent_moves ∷ parent_moves ∷ parent_moves
    ∷ parent_moves ∷ parent_moves ∷ parent_moves ∷ parent_moves ∷ parent_moves ∷ []

-- The parent after a run, if the run is possible.
abbrev pub parent_after : Option Processes → Option Parent
parent_after none = none
parent_after (some s) = some s.parent

-- Whatever the two numbers, there is an order of the moves in which the daemon ends between the test of
-- daemon_pid and the `kill`, the handler sets daemon_pid to 0, and the signal goes to the parent's own
-- process group; and one in which the parent comes to its end.
kill_may_hit_parent :
    (n1 n2 unset : ℤ)
    → (parent_after (run late_end (begin n1 n2 unset)) ≡ some killed)
      × (parent_after (run plain_end (begin n1 n2 unset)) ≡ some done)
unfolding run step take_number larger
kill_may_hit_parent n1 n2 unset = (refl, refl)
