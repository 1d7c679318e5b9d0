-- ===== src/Relay/Progress.antt =====
-- Where the runs of hw2/main.c end.
use system_hw.Prelude.Int.{ℤ}
use system_hw.Prelude.{◌<◌, ◌≡◌, ◌≢◌, ◌⊎◌, true, false, none}
use system_hw.Relay.{larger, Child1, gone, Processes, Move, polls, step}
use system_hw.Relay.Inv.{Inv, sent, opened_by_child1, opened_by_child2}

-- What the first child waits for when it cannot move.
abbrev Waits1 : Processes → Child1 → Type 0
Waits1 s c =
    ((l : ℤ) × (c ≡ gone l))
    ⊎ ((sent s.parent < 2) × (opened_by_child1 c ≡ true))
    ⊎ (opened_by_child2 s.child2 ≡ false)

abbrev pub IsStuck : Processes → Type 0
IsStuck s = (m : Move) → m ≢ polls → step m s ≡ none

-- Both children have ended, have been counted, and had the larger number.
pub record Relayed (s : Processes) : Type 0 where
  pub counted : s.child_counter ≡ 4
  pub first : s.child1 ≡ gone (larger s.n1 s.n2)
  pub second : s.child2 ≡ gone (larger s.n1 s.n2)
