-- ===== src/Relay.antt =====
-- hw2/main.c: the parent sends two numbers to the first child over FIFO1, which sends the larger one
-- to the second child over FIFO2; a handler of SIGCHLD counts the children that have ended, and at
-- the end the parent stops the daemon that keeps the log. A move is a system call, or a test of a
-- variable that the handler writes, of one process; a run is any order of moves, from where all
-- processes have been created. Calls succeed; the sleeps and the log are left out.
pub mod Inv
pub mod Measure
pub mod Progress
pub mod Race
mod Tests
use system_hw.Prelude.Int.{ℤ, ltb_ℤ}
use system_hw.Prelude.{
  ℕ, zero, suc, ◌+◌, ◌*◌, Bool, true, false, not, ◌&&◌, ◌||◌, Option, none, some, List, [], ◌∷◌,
  ◌++◌, ltb, if◌then◌else◌,
}

-- `(a > b) ? a : b`
unfoldable pub larger : ℤ → ℤ → ℤ
larger a b = if ltb_ℤ b a then a else b

-- `num_children`
abbrev pub num_children : ℕ
num_children = 2

-- A FIFO: whether `open` for reading and for writing has been called (each waits for the other),
-- whether the writer has closed it, and the numbers in it.
pub record Fifo : Type 0 where
  pub reader : Bool
  pub writer : Bool
  pub closed : Bool
  pub items : List ℤ

-- Where the parent is in `main`, from its `open` of FIFO1 on. `looping` is the loop that waits for the
-- children (its rounds are `poll`, its end is a step), `leaving` and `killing` the test of `daemon_pid` and the `kill` after it, `waiting i` the
-- loop over `waitpid` with WNOHANG, `reaping` the `waitpid` after SIGKILL. `killed`: the signal went
-- to the parent itself.
pub data Parent : Type 0 where
  arriving opening writing_first writing_second closing looping leaving killing : Parent
  reaping done killed : Parent
  waiting : ℕ → Parent

-- What the first child has read, or will write, is the argument; `zombie` is ended and not yet waited
-- for, `gone` waited for.
pub data Child1 : Type 0 where
  arriving opening reading_first : Child1
  reading_second : ℤ → Child1
  sending opening_next writing exiting zombie gone : ℤ → Child1

pub data Child2 : Type 0 where
  arriving opening reading : Child2
  exiting zombie gone : ℤ → Child2

pub data Daemon : Type 0 where
  alive zombie gone : Daemon

-- `daemon_known` is `daemon_pid > 0`. `pending` and `handling`: SIGCHLD waits for its handler, or its
-- handler runs. `unset` is what an uninitialised number reads as.
pub record Processes : Type 0 where
  pub n1 : ℤ
  pub n2 : ℤ
  pub unset : ℤ
  pub parent : Parent
  pub child1 : Child1
  pub child2 : Child2
  pub daemon : Daemon
  pub fifo1 : Fifo
  pub fifo2 : Fifo
  pub child_counter : ℕ
  pub daemon_known : Bool
  pub pending : Bool
  pub handling : Bool

abbrev pub new_fifo : Fifo
new_fifo = record { reader = false; writer = false; closed = false; items = [] }

abbrev pub begin : ℤ → ℤ → ℤ → Processes
begin n1 n2 unset = record {
  n1 = n1;
  n2 = n2;
  unset = unset;
  parent = Parent.arriving;
  child1 = Child1.arriving;
  child2 = Child2.arriving;
  daemon = Daemon.alive;
  fifo1 = new_fifo;
  fifo2 = new_fifo;
  child_counter = 0;
  daemon_known = true;
  pending = false;
  handling = false;
}

-- `read` of a number: none while it waits; a FIFO that is empty and closed leaves the variable unset.
unfoldable pub take_number : ℤ → Fifo → Option (ℤ × Fifo)
take_number unset f = elim f.items [
  | [] ↦ if f.closed then some (unset, f) else none
  | n ∷ rest ↦ some (n, record f { items = rest })
]

abbrev pub put_number : ℤ → Fifo → Fifo
put_number n f = record f { items = f.items ++ (n ∷ []) }

pub is_zombie : Daemon → Bool
is_zombie Daemon.zombie = true
is_zombie _ = false

-- SIGKILL. A process that has ended takes no notice.
pub kill_daemon : Daemon → Processes → Processes
kill_daemon Daemon.alive s = record s { daemon = Daemon.zombie; pending = true }
kill_daemon _ s = s

-- `waitpid(daemon_pid, NULL, 0)`, or its error when the handler has been first.
pub reap_daemon : Daemon → Processes → Option Processes
reap_daemon Daemon.alive s = none
reap_daemon _ s = some (record s { daemon = Daemon.gone; parent = done })

pub parent_step : Parent → Processes → Option Processes
unfolding is_zombie kill_daemon reap_daemon
parent_step arriving s =
    some (record s { fifo1 = record s.fifo1 { writer = true }; parent = Parent.opening })
parent_step opening s = if s.fifo1.reader then some (record s { parent = writing_first }) else none
parent_step writing_first s =
    some (record s { fifo1 = put_number s.n1 s.fifo1; parent = writing_second })
parent_step writing_second s = some (record s { fifo1 = put_number s.n2 s.fifo1; parent = closing })
parent_step closing s =
    some (record s { fifo1 = record s.fifo1 { closed = true }; parent = looping })
parent_step looping s =
    if ltb s.child_counter (num_children * 2) then none else some (record s { parent = leaving })
parent_step leaving s =
    if s.daemon_known
    then some (record s { parent = killing })
    else some (record s { parent = done })
parent_step killing s =
    if s.daemon_known
    then some (record s { parent = waiting 0 })
    else some (record s { parent = killed })
parent_step (waiting i) s =
    if ltb i 3
    then (if s.daemon_known && is_zombie s.daemon
        then some (record s { daemon = Daemon.gone; daemon_known = false; parent = done })
        else some (record s { parent = waiting (i + 1) }))
    else if s.daemon_known
    then some (kill_daemon s.daemon (record s { parent = reaping }))
    else some (record s { parent = done })
parent_step reaping s = reap_daemon s.daemon s
parent_step done s = none
parent_step killed s = none

-- A round of the loop that waits for the children: the test succeeds, and the parent prints and sleeps.
pub poll : Parent → Processes → Option Processes
poll looping s = if ltb s.child_counter (num_children * 2) then some s else none
poll _ s = none

pub first_read : Processes → Option (ℤ × Fifo) → Option Processes
first_read s none = none
first_read s (some (n, f)) = some (record s { child1 = reading_second n; fifo1 = f })

pub second_read : Processes → ℤ → Option (ℤ × Fifo) → Option Processes
second_read s a none = none
second_read s a (some (n, f)) = some (record s { child1 = sending (larger a n); fifo1 = f })

pub child1_step : Child1 → Processes → Option Processes
unfolding first_read second_read
child1_step arriving s =
    some (record s { fifo1 = record s.fifo1 { reader = true }; child1 = Child1.opening })
child1_step opening s = if s.fifo1.writer then some (record s { child1 = reading_first }) else none
child1_step reading_first s = first_read s (take_number s.unset s.fifo1)
child1_step (reading_second a) s = second_read s a (take_number s.unset s.fifo1)
child1_step (sending l) s =
    some (record s { fifo2 = record s.fifo2 { writer = true }; child1 = opening_next l })
child1_step (opening_next l) s =
    if s.fifo2.reader then some (record s { child1 = writing l }) else none
child1_step (writing l) s =
    some (record s { fifo2 = put_number l s.fifo2; child1 = Child1.exiting l })
child1_step (exiting l) s = some (record s {
  fifo2 = record s.fifo2 { closed = true };
  child1 = Child1.zombie l;
  pending = true;
})
child1_step (zombie l) s = none
child1_step (gone l) s = none

pub last_read : Processes → Option (ℤ × Fifo) → Option Processes
last_read s none = none
last_read s (some (n, f)) = some (record s { child2 = Child2.exiting n; fifo2 = f })

pub child2_step : Child2 → Processes → Option Processes
unfolding last_read
child2_step arriving s =
    some (record s { fifo2 = record s.fifo2 { reader = true }; child2 = Child2.opening })
child2_step opening s = if s.fifo2.writer then some (record s { child2 = reading }) else none
child2_step reading s = last_read s (take_number s.unset s.fifo2)
child2_step (exiting l) s = some (record s { child2 = Child2.zombie l; pending = true })
child2_step (zombie l) s = none
child2_step (gone l) s = none

-- One iteration of the loop over `waitpid` in `sigchld_handler`, for each child that may be found.
pub reap_child1 : Child1 → Processes → Option Processes
reap_child1 (zombie l) s =
    some (record s { child1 = Child1.gone l; child_counter = s.child_counter + 2 })
reap_child1 _ s = none

pub reap_child2 : Child2 → Processes → Option Processes
reap_child2 (zombie l) s =
    some (record s { child2 = Child2.gone l; child_counter = s.child_counter + 2 })
reap_child2 _ s = none

pub forget_daemon : Daemon → Processes → Option Processes
forget_daemon Daemon.zombie s = some (record s { daemon = Daemon.gone; daemon_known = false })
forget_daemon _ s = none

pub child1_ended : Child1 → Bool
child1_ended (zombie l) = true
child1_ended _ = false

pub child2_ended : Child2 → Bool
child2_ended (zombie l) = true
child2_ended _ = false

-- `waitpid` finds nobody, and the handler returns.
pub leave_handler : Processes → Option Processes
unfolding child1_ended child2_ended is_zombie
leave_handler s =
    if child1_ended s.child1 || (child2_ended s.child2 || is_zombie s.daemon)
    then none
    else some (record s { handling = false })

-- The daemon ends: by a signal, its alarm, the end of its FIFO, or an error.
pub end_daemon : Daemon → Processes → Option Processes
end_daemon Daemon.alive s = some (record s { daemon = Daemon.zombie; pending = true })
end_daemon _ s = none

pub runs : Parent → Bool
runs done = false
runs killed = false
runs _ = true

pub data Move : Type 0 where
  parent_moves child1_moves child2_moves daemon_ends : Move
  polls signal reaps_child1 reaps_child2 reaps_daemon returns : Move

-- The parent's own code waits while its handler runs, and during the handler SIGCHLD is blocked.
pub step : Move → Processes → Option Processes
unfolding parent_step poll child1_step child2_step reap_child1 reap_child2 forget_daemon
    leave_handler end_daemon runs
step parent_moves s = if s.handling then none else parent_step s.parent s
step polls s = if s.handling then none else poll s.parent s
step child1_moves s = child1_step s.child1 s
step child2_moves s = child2_step s.child2 s
step daemon_ends s = end_daemon s.daemon s
step signal s =
    if runs s.parent && (s.pending && not s.handling)
    then some (record s { pending = false; handling = true })
    else none
step reaps_child1 s = if s.handling then reap_child1 s.child1 s else none
step reaps_child2 s = if s.handling then reap_child2 s.child2 s else none
step reaps_daemon s = if s.handling then forget_daemon s.daemon s else none
step returns s = if s.handling then leave_handler s else none

pub next : (Processes → Option Processes) → Option Processes → Option Processes
next go none = none
next go (some s) = go s

-- The state after some moves; none if one of them was not possible.
pub run : List Move → Processes → Option Processes
unfolding next
run [] s = some s
run (m ∷ ms) s = next (run ms) (step m s)
