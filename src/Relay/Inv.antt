-- ===== src/Relay/Inv.antt =====
-- What holds in every run of hw2/main.c: what is in the FIFOs, what the children know, and what the
-- handler has counted, by where the processes are.
use system_hw.Prelude.Int.{ℤ}
use system_hw.Prelude.{
  ℕ, zero, suc, ◌+◌, ◌-◌, ◌*◌, ◌≤◌, ◌<◌, ◌≡◌, ◌≢◌, refl, sym, ap, ◌∙◌, subst, ◌⊎◌, inl, inr, Bool,
  true, false, Option, none, some, List, [], ◌∷◌, take, drop, arith, ltb, if◌then◌else◌, Bool-cases,
}
use system_hw.Relay.{
  larger, Fifo, Parent, arriving, opening, writing_first, writing_second, closing, looping, leaving,
  killing, reaping, done, killed, waiting, Child1, reading_first, reading_second, sending,
  opening_next, writing, exiting, zombie, gone, Child2, reading, Daemon, alive, Processes,
  take_number, parent_step, first_read, second_read, child1_step, last_read, child2_step,
  reap_child1, reap_child2, forget_daemon, child1_ended, child2_ended, leave_handler, end_daemon,
  poll, num_children, Move, parent_moves, polls, child1_moves, child2_moves, daemon_ends, signal,
  reaps_child1, reaps_child2, reaps_daemon, returns, step, next, run, begin,
}

-- How much of its own part each process has done.
abbrev pub opened_by_parent : Parent → Bool
opened_by_parent arriving = false
opened_by_parent _ = true

-- The parent's numbers sent so far.
abbrev pub sent : Parent → ℕ
sent arriving = 0
sent opening = 0
sent writing_first = 0
sent writing_second = 1
sent _ = 2

abbrev pub closed_by_parent : Parent → Bool
closed_by_parent arriving = false
closed_by_parent opening = false
closed_by_parent writing_first = false
closed_by_parent writing_second = false
closed_by_parent closing = false
closed_by_parent _ = true

abbrev pub opened_by_child1 : Child1 → Bool
opened_by_child1 arriving = false
opened_by_child1 _ = true

-- The numbers that the first child has read.
abbrev pub read_by_child1 : Child1 → ℕ
read_by_child1 arriving = 0
read_by_child1 opening = 0
read_by_child1 reading_first = 0
read_by_child1 (reading_second a) = 1
read_by_child1 _ = 2

abbrev pub next_opened : Child1 → Bool
next_opened (opening_next l) = true
next_opened (writing l) = true
next_opened (exiting l) = true
next_opened (zombie l) = true
next_opened (gone l) = true
next_opened _ = false

abbrev pub sent_by_child1 : Child1 → ℕ
sent_by_child1 (exiting l) = 1
sent_by_child1 (zombie l) = 1
sent_by_child1 (gone l) = 1
sent_by_child1 _ = 0

abbrev pub closed_by_child1 : Child1 → Bool
closed_by_child1 (zombie l) = true
closed_by_child1 (gone l) = true
closed_by_child1 _ = false

abbrev pub opened_by_child2 : Child2 → Bool
opened_by_child2 arriving = false
opened_by_child2 _ = true

abbrev pub read_by_child2 : Child2 → ℕ
read_by_child2 (exiting l) = 1
read_by_child2 (zombie l) = 1
read_by_child2 (gone l) = 1
read_by_child2 _ = 0

-- What the children hold is right.
abbrev pub Knows1 : ℤ → ℤ → Child1 → Type 0
Knows1 n1 n2 (reading_second a) = a ≡ n1
Knows1 n1 n2 (sending l) = l ≡ larger n1 n2
Knows1 n1 n2 (opening_next l) = l ≡ larger n1 n2
Knows1 n1 n2 (writing l) = l ≡ larger n1 n2
Knows1 n1 n2 (exiting l) = l ≡ larger n1 n2
Knows1 n1 n2 (zombie l) = l ≡ larger n1 n2
Knows1 n1 n2 (gone l) = l ≡ larger n1 n2
Knows1 n1 n2 _ = Unit {0}

abbrev pub Knows2 : ℤ → ℤ → Child2 → Type 0
Knows2 n1 n2 (exiting l) = l ≡ larger n1 n2
Knows2 n1 n2 (zombie l) = l ≡ larger n1 n2
Knows2 n1 n2 (gone l) = l ≡ larger n1 n2
Knows2 n1 n2 _ = Unit {0}

abbrev pub gone1 : Child1 → ℕ
gone1 (gone l) = 1
gone1 _ = 0

abbrev pub gone2 : Child2 → ℕ
gone2 (gone l) = 1
gone2 _ = 0

-- Where the parent is past the loop that waits.
abbrev pub past_loop : Parent → Bool
past_loop leaving = true
past_loop killing = true
past_loop reaping = true
past_loop done = true
past_loop killed = true
past_loop (waiting i) = true
past_loop _ = false

abbrev pub IsKnown : Daemon → Bool → Parent → Type 0
IsKnown Daemon.gone known p = (known ≡ false) ⊎ (p ≡ done)
IsKnown Daemon.zombie known p = known ≡ true
IsKnown alive known p = (known ≡ true) × (p ≢ reaping)

-- The invariant, of a state with its processes where the arguments say.
pub record InvAt (s : Processes) (p : Parent) (c1 : Child1) (c2 : Child2) (d : Daemon)
    : Type 0 where
  pub fifo1_writer : s.fifo1.writer ≡ opened_by_parent p
  pub fifo1_reader : s.fifo1.reader ≡ opened_by_child1 c1
  pub fifo1_closed : s.fifo1.closed ≡ closed_by_parent p
  pub in_time1 : read_by_child1 c1 ≤ sent p
  pub fifo1_items : s.fifo1.items ≡ drop (read_by_child1 c1) (take (sent p) (s.n1 ∷ s.n2 ∷ []))
  pub fifo2_writer : s.fifo2.writer ≡ next_opened c1
  pub fifo2_reader : s.fifo2.reader ≡ opened_by_child2 c2
  pub fifo2_closed : s.fifo2.closed ≡ closed_by_child1 c1
  pub in_time2 : read_by_child2 c2 ≤ sent_by_child1 c1
  pub fifo2_items :
      s.fifo2.items ≡ drop (read_by_child2 c2) (take (sent_by_child1 c1) (larger s.n1 s.n2 ∷ []))
  pub knows1 : Knows1 s.n1 s.n2 c1
  pub knows2 : Knows2 s.n1 s.n2 c2
  pub counted : s.child_counter ≡ 2 * (gone1 c1 + gone2 c2)
  pub noticed :
      (s.pending ≡ true)
      ⊎ (s.handling ≡ true)
      ⊎ ((child1_ended c1 ≡ false) × (child2_ended c2 ≡ false))
  pub waited : (past_loop p ≡ false) ⊎ (s.child_counter ≡ 4)
  pub known : IsKnown d s.daemon_known p

abbrev pub Inv : Processes → Type 0
Inv s = InvAt s s.parent s.child1 s.child2 s.daemon

abbrev pub InvIf : Option Processes → Type 0
InvIf none = Unit {0}
InvIf (some s) = Inv s

parent_step-Inv :
    (p : Parent) (s : Processes) → InvAt s p s.child1 s.child2 s.daemon → InvIf (parent_step p s)
unfolding parent_step
parent_step-Inv arriving s h = ground arith
parent_step-Inv opening s h = ground arith
parent_step-Inv writing_first s h = ground arith
parent_step-Inv writing_second s h = ground arith
parent_step-Inv closing s h = ground arith
parent_step-Inv looping s h = ground arith
parent_step-Inv leaving s h = ground arith
parent_step-Inv killing s h = ground arith
parent_step-Inv (waiting i) s h = ground arith
parent_step-Inv reaping s h = ground arith
parent_step-Inv done s h = tt
parent_step-Inv killed s h = tt

-- A read from a FIFO that is not closed before all is in it finds the next number, or waits.
take_number-next :
    (unset a : ℤ) (rest : List ℤ) (n : ℕ) (f : Fifo)
    → f.items ≡ take n (a ∷ rest)
    → ((f.closed ≡ true) → 0 < n)
    → (take_number unset f ≡ none)
      ⊎ ((0 < n)
          × (take_number unset f ≡ some (a, record f { items = drop 1 (take n (a ∷ rest)) })))
unfolding take_number
take_number-next unset a rest zero f e full = elim (Bool-cases f.closed) [
  | inl closed ↦ absurd (omega (arith, full closed))
  | inr waits ↦ inl (rw (e, waits) refl)
]
take_number-next unset a rest (suc n) f e full = inr (omega arith, rw e refl)

closed-sent : (p : Parent) → closed_by_parent p ≡ true → 1 < sent p
closed-sent arriving e = cc
closed-sent opening e = cc
closed-sent writing_first e = cc
closed-sent writing_second e = cc
closed-sent closing e = cc
closed-sent looping e = omega arith
closed-sent leaving e = omega arith
closed-sent killing e = omega arith
closed-sent (waiting i) e = omega arith
closed-sent reaping e = omega arith
closed-sent done e = omega arith
closed-sent killed e = omega arith

closed-sent_by_child1 : (c : Child1) → closed_by_child1 c ≡ true → 0 < sent_by_child1 c
closed-sent_by_child1 (zombie l) e = omega arith
closed-sent_by_child1 (gone l) e = omega arith
closed-sent_by_child1 c e = ground arith

drop-one : (a b : ℤ) (n : ℕ) → 1 ≤ n → drop 1 (take n (a ∷ b ∷ [])) ≡ take (n - 1) (b ∷ [])
drop-one a b zero h = absurd (omega arith)
drop-one a b (suc n) h = ap (λ m. take m (b ∷ [])) (omega arith)

drop-two : (a b : ℤ) (n : ℕ) → drop 1 (take (n - 1) (b ∷ [])) ≡ drop 2 (take n (a ∷ b ∷ []))
drop-two a b zero = refl
drop-two a b (suc zero) = refl
drop-two a b (suc (suc k)) =
    let one_less : suc (suc k) - 1 ≡ suc k = omega arith in
    ap (λ m. drop 1 (take m (b ∷ []))) one_less

reading_first-Inv :
    (s : Processes)
    → InvAt s s.parent reading_first s.child2 s.daemon
    → InvIf (first_read s (take_number s.unset s.fifo1))
unfolding first_read child1_ended
reading_first-Inv s h =
    elim (take_number-next s.unset s.n1 (s.n2 ∷ []) (sent s.parent) s.fifo1 h.fifo1_items
      (λ e. omega (arith, closed-sent s.parent (sym h.fifo1_closed ∙ e)))) [
        | inl waits ↦ rw waits tt
        | inr (sent_one, found) ↦ rw found (ground arith)
      ]

reading_second-Inv :
    (a : ℤ) (s : Processes)
    → InvAt s s.parent (reading_second a) s.child2 s.daemon
    → InvIf (second_read s a (take_number s.unset s.fifo1))
unfolding second_read child1_ended
reading_second-Inv a s h =
    elim (take_number-next s.unset s.n2 [] (sent s.parent - 1) s.fifo1
      (h.fifo1_items ∙ drop-one s.n1 s.n2 (sent s.parent) h.in_time1)
      (λ e. omega (arith, closed-sent s.parent (sym h.fifo1_closed ∙ e)))) [
        | inl waits ↦ rw waits tt
        | inr (sent_two, found) ↦
            rw found
              (ground (arith, drop-two s.n1 s.n2 (sent s.parent), ap (λ x. larger x s.n2) h.knows1))
      ]

reading-Inv :
    (s : Processes)
    → InvAt s s.parent s.child1 reading s.daemon
    → InvIf (last_read s (take_number s.unset s.fifo2))
unfolding last_read child2_ended
reading-Inv s h =
    elim (take_number-next s.unset (larger s.n1 s.n2) [] (sent_by_child1 s.child1) s.fifo2
      h.fifo2_items (λ e. closed-sent_by_child1 s.child1 (sym h.fifo2_closed ∙ e))) [
        | inl waits ↦ rw waits tt
        | inr (sent_one, found) ↦ rw found (ground arith)
      ]

child1_step-Inv :
    (c : Child1) (s : Processes) → InvAt s s.parent c s.child2 s.daemon → InvIf (child1_step c s)
unfolding child1_step child1_ended
child1_step-Inv arriving s h = ground arith
child1_step-Inv opening s h = ground arith
child1_step-Inv reading_first s h = reading_first-Inv s h
child1_step-Inv (reading_second a) s h = reading_second-Inv a s h
child1_step-Inv (sending l) s h = ground arith
child1_step-Inv (opening_next l) s h = ground arith
child1_step-Inv (writing l) s h = ground arith
child1_step-Inv (exiting l) s h = ground arith
child1_step-Inv (zombie l) s h = tt
child1_step-Inv (gone l) s h = tt

child2_step-Inv :
    (c : Child2) (s : Processes) → InvAt s s.parent s.child1 c s.daemon → InvIf (child2_step c s)
unfolding child2_step child2_ended
child2_step-Inv arriving s h = ground arith
child2_step-Inv opening s h = ground arith
child2_step-Inv reading s h = reading-Inv s h
child2_step-Inv (exiting l) s h = ground arith
child2_step-Inv (zombie l) s h = tt
child2_step-Inv (gone l) s h = tt

reap_child1-Inv :
    (c : Child1) (s : Processes)
    → s.handling ≡ true
    → InvAt s s.parent c s.child2 s.daemon
    → InvIf (reap_child1 c s)
unfolding reap_child1
reap_child1-Inv (zombie l) s on h = ground arith
reap_child1-Inv arriving s on h = tt
reap_child1-Inv opening s on h = tt
reap_child1-Inv reading_first s on h = tt
reap_child1-Inv (reading_second a) s on h = tt
reap_child1-Inv (sending l) s on h = tt
reap_child1-Inv (opening_next l) s on h = tt
reap_child1-Inv (writing l) s on h = tt
reap_child1-Inv (exiting l) s on h = tt
reap_child1-Inv (gone l) s on h = tt

reap_child2-Inv :
    (c : Child2) (s : Processes)
    → s.handling ≡ true
    → InvAt s s.parent s.child1 c s.daemon
    → InvIf (reap_child2 c s)
unfolding reap_child2
reap_child2-Inv (zombie l) s on h = ground arith
reap_child2-Inv arriving s on h = tt
reap_child2-Inv opening s on h = tt
reap_child2-Inv reading s on h = tt
reap_child2-Inv (exiting l) s on h = tt
reap_child2-Inv (gone l) s on h = tt

forget_daemon-Inv :
    (d : Daemon) (s : Processes) → InvAt s s.parent s.child1 s.child2 d → InvIf (forget_daemon d s)
unfolding forget_daemon
forget_daemon-Inv alive s h = tt
forget_daemon-Inv Daemon.zombie s h = ground arith
forget_daemon-Inv Daemon.gone s h = tt

end_daemon-Inv :
    (d : Daemon) (s : Processes) → InvAt s s.parent s.child1 s.child2 d → InvIf (end_daemon d s)
unfolding end_daemon
end_daemon-Inv alive s h = ground arith
end_daemon-Inv Daemon.zombie s h = tt
end_daemon-Inv Daemon.gone s h = tt

leave_handler-Inv : (s : Processes) → Inv s → InvIf (leave_handler s)
unfolding leave_handler
leave_handler-Inv s h = ground arith

if-InvIf :
    (b : Bool) (x y : Option Processes)
    → (b ≡ true → InvIf x)
    → (b ≡ false → InvIf y)
    → InvIf (if b then x else y)
if-InvIf true x y h k = h refl
if-InvIf false x y h k = k refl

poll-InvIf : (p : Parent) (s : Processes) → Inv s → InvIf (poll p s)
unfolding poll
poll-InvIf looping s h = if-InvIf (ltb s.child_counter (num_children * 2)) _ none (λ _. h) (λ _. tt)
poll-InvIf arriving s h = tt
poll-InvIf opening s h = tt
poll-InvIf writing_first s h = tt
poll-InvIf writing_second s h = tt
poll-InvIf closing s h = tt
poll-InvIf leaving s h = tt
poll-InvIf killing s h = tt
poll-InvIf reaping s h = tt
poll-InvIf done s h = tt
poll-InvIf killed s h = tt
poll-InvIf (waiting i) s h = tt

pub step-InvIf : (m : Move) (s : Processes) → Inv s → InvIf (step m s)
unfolding step
step-InvIf parent_moves s h =
    if-InvIf s.handling none _ (λ _. tt) (λ _. parent_step-Inv s.parent s h)
step-InvIf polls s h = if-InvIf s.handling none _ (λ _. tt) (λ _. poll-InvIf s.parent s h)
step-InvIf child1_moves s h = child1_step-Inv s.child1 s h
step-InvIf child2_moves s h = child2_step-Inv s.child2 s h
step-InvIf daemon_ends s h = end_daemon-Inv s.daemon s h
step-InvIf signal s h = ground arith
step-InvIf reaps_child1 s h =
    if-InvIf s.handling _ none (λ on. reap_child1-Inv s.child1 s on h) (λ _. tt)
step-InvIf reaps_child2 s h =
    if-InvIf s.handling _ none (λ on. reap_child2-Inv s.child2 s on h) (λ _. tt)
step-InvIf reaps_daemon s h =
    if-InvIf s.handling _ none (λ _. forget_daemon-Inv s.daemon s h) (λ _. tt)
step-InvIf returns s h = if-InvIf s.handling _ none (λ _. leave_handler-Inv s h) (λ _. tt)

begin-Inv : (n1 n2 unset : ℤ) → Inv (begin n1 n2 unset)
unfolding child1_ended child2_ended
begin-Inv n1 n2 unset = ground arith

next-Inv :
    (go : Processes → Option Processes) (r : Option Processes) (t : Processes)
    → ((s : Processes) → Inv s → go s ≡ some t → Inv t)
    → InvIf r
    → next go r ≡ some t
    → Inv t
unfolding next
next-Inv go none t keeps i e = cc
next-Inv go (some s) t keeps i e = keeps s i e

run_from-Inv : (ms : List Move) (s t : Processes) → Inv s → run ms s ≡ some t → Inv t
unfolding run
run_from-Inv [] s t h e = subst Inv (some-inj e) h
  where
    some-inj : some s ≡ some t → s ≡ t
    some-inj e = cc
run_from-Inv (m ∷ ms) s t h e =
    next-Inv (run ms) (step m s) t (λ u. run_from-Inv ms u t) (step-InvIf m s h) e

-- Every state that a run reaches meets the invariant.
pub run-Inv :
    (ms : List Move) (n1 n2 unset : ℤ) (t : Processes) → run ms (begin n1 n2 unset) ≡ some t → Inv t
run-Inv ms n1 n2 unset t e = run_from-Inv ms (begin n1 n2 unset) t (begin-Inv n1 n2 unset) e
