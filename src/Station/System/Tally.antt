-- ===== src/Station/System/Tally.antt =====
-- Counting the threads of hw3/main.c by where they stand.
use system_hw.Prelude.{ℕ, ◌+◌, ◌≤◌, ◌≡◌, refl, List, [], ◌∷◌, length, arith, ◌==◌}
unfoldable pub use system_hw.Prelude.Tally.{tally}
pub use system_hw.Prelude.Tally.{
  tally-set, tally-get, tally-replicate, tally-replicate_sum, tally-find, outside,
}
use system_hw.Prelude.Tally.{tally-sum}
use system_hw.Station.System.{
  Satellite, unborn, created, queued, gone, Engineer, idle, awake, handling, working, finished,
  rechecking, closing, exited, all_gone, all_exited,
}

abbrev pub s_queued : Satellite → ℕ
s_queued queued = 1
s_queued _ = 0

abbrev pub s_active : Satellite → ℕ
s_active unborn = 0
s_active created = 0
s_active gone = 0
s_active _ = 1

abbrev pub s_left : Satellite → ℕ
s_left gone = 0
s_left _ = 1

abbrev pub e_awake : Engineer → ℕ
e_awake awake = 1
e_awake _ = 0

abbrev pub e_busy : Engineer → ℕ
e_busy handling = 1
e_busy working = 1
e_busy finished = 1
e_busy _ = 0

abbrev pub e_stray : Engineer → ℕ
e_stray rechecking = 1
e_stray closing = 1
e_stray _ = 0

abbrev pub e_exited : Engineer → ℕ
e_exited exited = 1
e_exited _ = 0

abbrev pub e_inside : Engineer → ℕ
e_inside exited = 0
e_inside _ = 1

-- Neither waiting for a request nor returned.
abbrev pub e_running : Engineer → ℕ
e_running idle = 0
e_running exited = 0
e_running _ = 1

pub all_gone-tally : (ss : List Satellite) → all_gone ss ≡ (tally s_left ss == 0)
unfolding tally all_gone
all_gone-tally [] = refl
all_gone-tally (s ∷ ss) = ground (arith, all_gone-tally ss)

pub all_exited-tally : (es : List Engineer) → all_exited es ≡ (tally e_inside es == 0)
unfolding tally all_exited
all_exited-tally [] = refl
all_exited-tally (e ∷ es) = ground (arith, all_exited-tally es)

pub inside-exited : (es : List Engineer) → tally e_inside es + tally e_exited es ≡ length es
inside-exited es = tally-sum e_inside e_exited es (λ e. ground arith)

-- Awake engineers are not busy.
pub awake-busy : (es : List Engineer) → tally e_awake es + tally e_busy es ≤ length es
unfolding tally
awake-busy [] = omega arith
awake-busy (e ∷ es) = ground (arith, awake-busy es)

pub active-left : (ss : List Satellite) → tally s_active ss ≤ tally s_left ss
unfolding tally
active-left [] = omega arith
active-left (s ∷ ss) = ground (arith, active-left ss)

pub queued-left : (ss : List Satellite) → tally s_queued ss ≤ tally s_left ss
unfolding tally
queued-left [] = omega arith
queued-left (s ∷ ss) = ground (arith, queued-left ss)

pub awake-running : (es : List Engineer) → tally e_awake es ≤ tally e_running es
unfolding tally
awake-running [] = omega arith
awake-running (e ∷ es) = ground (arith, awake-running es)

pub busy-inside : (es : List Engineer) → tally e_busy es ≤ tally e_inside es
unfolding tally
busy-inside [] = omega arith
busy-inside (e ∷ es) = ground (arith, busy-inside es)
