-- ===== src/Station/System/Turn.antt =====
-- What one move of an engineer of hw3/main.c does to the shared variables.
use system_hw.Prelude.{
  ℕ, ◌+◌, ◌-◌, ◌≤◌, ◌<◌, ◌≡◌, refl, sym, ap, ◌∙◌, Bool, true, false, ◌&&◌, List, [], ◌∷◌, length,
  arith, Option, none, some, inl, inr, Bool-cases, ◌==◌, ltb,
}
use system_hw.Station.Queue.Seg.{QueuedRequest}
use system_hw.Station.Queue.Pick.{take_best}
use system_hw.Station.System.{
  Engineer, idle, awake, discarding, handling, working, finished, rechecking, closing, exited,
  Shared, engineer_step, engineer_turn, take_request, engage, is_empty,
}
use system_hw.Station.System.Tally.{e_awake, e_busy, e_stray, e_exited, e_inside}

length-take_best :
    (r : QueuedRequest) (rs : List QueuedRequest) → length (take_best r rs).1 ≡ length rs
unfolding take_best
length-take_best r [] = refl
length-take_best r (c ∷ cs) = ground (arith, length-take_best c cs)

pub record Turned (ph : Engineer) (m : Shared) (m' : Shared) (ph' : Engineer) : Type 0 where
  pub permits :
      m'.new_request + e_awake ph' + e_exited ph' + length m.queue
      ≡ m.new_request + e_awake ph + e_exited ph + length m'.queue
  pub inside : e_inside ph ≡ 1
  pub stray : e_stray ph' ≡ 0
  pub available : m'.available_engineers + e_busy ph' ≡ m.available_engineers + e_busy ph
  pub active : m'.active_satellites ≡ m.active_satellites
  pub launched : m'.all_launched ≡ m.all_launched
  pub empties : m.queue ≡ [] → m'.queue ≡ []
  pub exits : 0 < e_exited ph' → (m.queue ≡ []) × (e_awake ph ≡ 1)

-- An engineer that is woken while the queue is empty finds that the program shuts down.
abbrev pub ShutIfEmpty : Engineer → Shared → Type 0
ShutIfEmpty ph m =
    e_awake ph ≡ 1 → m.queue ≡ [] → (m.all_launched ≡ true) × (m.active_satellites ≡ 0)

engage-Turned :
    (m : Shared) (r : QueuedRequest) (rs : List QueuedRequest)
    (t : QueuedRequest × List QueuedRequest)
    → m.queue ≡ r ∷ rs
    → length t.1 ≡ length rs
    → 0 < m.available_engineers
    → Turned awake m (engage m t).0 (engage m t).1
unfolding engage
engage-Turned m r rs (best, rest) e len free = elim (Bool-cases best.handled) [
  | inl stale ↦ rw stale (record {
    permits = omega (arith, len, ap length e);
    inside = refl;
    stray = refl;
    available = omega arith;
    active = refl;
    launched = refl;
    empties = λ f. absurd (omega (arith, ap length (sym e ∙ f)));
    exits = λ f. absurd (omega arith);
  })
  | inr valid ↦ rw valid (record {
    permits = omega (arith, len, ap length e);
    inside = refl;
    stray = refl;
    available = omega arith;
    active = refl;
    launched = refl;
    empties = λ f. absurd (omega (arith, ap length (sym e ∙ f)));
    exits = λ f. absurd (omega arith);
  })
]

turn-Turned :
    (q : List QueuedRequest) (nr rh av ac : ℕ) (la : Bool)
    → let m : Shared = record {
      queue = q;
      new_request = nr;
      request_handled = rh;
      available_engineers = av;
      active_satellites = ac;
      all_launched = la;
    } in
      ShutIfEmpty awake m → 0 < av → Turned awake m (engineer_turn m).0 (engineer_turn m).1
unfolding engineer_turn take_request is_empty
turn-Turned [] nr rh av ac la shut free =
    let (launched, none_active) = shut refl refl in
    let closes : (la && (ac == 0 && true)) ≡ true = ground (arith, launched, none_active) in
    rw closes (record {
      permits = omega arith;
      inside = refl;
      stray = refl;
      available = omega arith;
      active = refl;
      launched = refl;
      empties = λ e. refl;
      exits = λ e. (refl, refl);
    })
turn-Turned (r ∷ rs) nr rh av ac la shut free =
    let m : Shared = record {
      queue = r ∷ rs;
      new_request = nr;
      request_handled = rh;
      available_engineers = av;
      active_satellites = ac;
      all_launched = la;
    } in
    let stays : (la && (ac == 0 && false)) ≡ false = ground arith in
    rw stays (engage-Turned m r rs (take_best r rs) refl (length-take_best r rs) free)

abbrev pub TurnedIf : Engineer → Shared → Option (Shared × Engineer) → Type 0
TurnedIf ph m none = Unit {0}
TurnedIf ph m (some (m', ph')) = Turned ph m m' ph'

-- A step that leaves the queue alone, and does not exit.
quiet-Turned :
    (ph ph' : Engineer) (m m' : Shared)
    → m'.queue ≡ m.queue
    → m'.new_request + e_awake ph' ≡ m.new_request + e_awake ph
    → e_exited ph ≡ 0
    → e_inside ph ≡ 1
    → e_exited ph' ≡ 0
    → e_stray ph' ≡ 0
    → m'.available_engineers + e_busy ph' ≡ m.available_engineers + e_busy ph
    → m'.active_satellites ≡ m.active_satellites
    → m'.all_launched ≡ m.all_launched
    → Turned ph m m' ph'
quiet-Turned ph ph' m m' q p x ins x' st av ac la = record {
  permits = omega (arith, p, x, x', ap length q);
  inside = ins;
  stray = st;
  available = av;
  active = ac;
  launched = la;
  empties = λ e. q ∙ e;
  exits = λ e. absurd (omega (arith, x'));
}

pub engineer_step-Turned :
    (ph : Engineer) (m : Shared)
    → e_stray ph ≡ 0
    → ShutIfEmpty ph m
    → e_awake ph ≤ m.available_engineers
    → TurnedIf ph m (engineer_step ph m)
unfolding engineer_step
engineer_step-Turned idle m st shut free = elim (Bool-cases (ltb 0 m.new_request)) [
  | inl e ↦ rw e (
      quiet-Turned idle awake m (record m { new_request = m.new_request - 1 }) refl
        (ground (arith, e)) refl refl refl refl refl refl refl)
  | inr e ↦ rw e tt
]
engineer_step-Turned awake m st shut free =
    turn-Turned m.queue m.new_request m.request_handled m.available_engineers m.active_satellites
      m.all_launched shut free
engineer_step-Turned discarding m st shut free =
    quiet-Turned discarding idle m m refl refl refl refl refl refl refl refl refl
engineer_step-Turned handling m st shut free =
    quiet-Turned handling working m (record m { request_handled = m.request_handled + 1 }) refl refl
      refl refl refl refl refl refl refl
engineer_step-Turned working m st shut free =
    quiet-Turned working finished m m refl refl refl refl refl refl refl refl refl
engineer_step-Turned finished m st shut free =
    quiet-Turned finished idle m (record m { available_engineers = m.available_engineers + 1 }) refl
      refl refl refl refl refl (omega arith) refl refl
engineer_step-Turned rechecking m st shut free = absurd (omega arith)
engineer_step-Turned closing m st shut free = absurd (omega arith)
engineer_step-Turned exited m st shut free = tt
