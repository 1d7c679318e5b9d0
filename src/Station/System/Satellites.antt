-- ===== src/Station/System/Satellites.antt =====
-- The moves of the satellites of hw3/main.c keep the invariant.
use system_hw.Prelude.{
  ℕ, ◌+◌, ◌≤◌, ◌<◌, ◌≡◌, ◌≢◌, refl, sym, ap, ◌∙◌, subst, true, List, [], ◌∷◌, length, length-set,
  get_or, get_or-set_self, get_or-set_ne, set, arith, Option, none, some, ◌⊎◌, inl, inr, Bool-cases,
  ◌==◌,
}
use system_hw.Station.Queue.Seg.{QueuedRequest}
use system_hw.Station.System.{
  Satellite, unborn, created, counted, queued, waiting, expired, leaving, gone, Shared, System,
  Choice, goes, fails, satellite_step, after_satellite, mark_own, step, satellite_moves,
}
use system_hw.Station.System.Tally.{tally-set, tally-get, outside, s_queued, s_active, s_left}
use system_hw.Station.System.Inv.{Inv, is_late}

length-mark_own : (i : ℕ) (rs : List QueuedRequest) → length (mark_own i rs) ≡ length rs
unfolding mark_own
length-mark_own i [] = refl
length-mark_own i (r ∷ rs) = ground (arith, length-mark_own i rs)

-- What a move of a satellite does to the shared variables.
record Moved (ph : Satellite) (m : Shared) (m' : Shared) (ph' : Satellite) : Type 0 where
  permits :
      m'.new_request + s_queued ph' + length m.queue ≡ m.new_request + s_queued ph + length m'.queue
  active : m'.active_satellites + s_active ph ≡ m.active_satellites + s_active ph'
  available : m'.available_engineers ≡ m.available_engineers
  launched : m'.all_launched ≡ m.all_launched
  here : s_left ph ≡ 1
  born : ph ≢ unborn
  alive : ph' ≢ unborn

abbrev MovedIf : Satellite → Shared → Option (Shared × Satellite) → Type 0
MovedIf ph m none = Unit {0}
MovedIf ph m (some (m', ph')) = Moved ph m m' ph'

satellite_step-Moved :
    (i : ℕ) (choice : Choice) (ph : Satellite) (m : Shared)
    → s_active ph ≤ m.active_satellites
    → MovedIf ph m (satellite_step i choice ph m)
unfolding satellite_step
satellite_step-Moved i choice unborn m le = tt
satellite_step-Moved i choice created m le = ground arith
satellite_step-Moved i (goes p) counted m le = ground arith
satellite_step-Moved i fails counted m le = ground arith
satellite_step-Moved i choice queued m le = ground arith
satellite_step-Moved i (goes p) waiting m le = ground arith
satellite_step-Moved i fails waiting m le = ground arith
satellite_step-Moved i choice expired m le = ground (arith, length-mark_own i m.queue)
satellite_step-Moved i choice leaving m le = ground arith
satellite_step-Moved i choice gone m le = tt

module _ (n k : ℕ) (s : System) (i : ℕ) (m' : Shared) (ph' : Satellite) (h : Inv n k s)
    (lt : i < length s.satellites)
    (moved : Moved (get_or s.satellites i gone) s.shared m' ph') where
  -- A satellite that moves has not returned, so `main` is still waiting for it.
  not_late : is_late s.main ≡ true → ⊥
  not_late e =
      absurd (omega (arith, (h.late e).0, tally-get s_left s.satellites i gone lt, moved.here))

  phase_at :
      (j : ℕ)
      → ((i ≡ j) × (get_or (set s.satellites i ph') j gone ≡ ph'))
        ⊎ ((i ≢ j) × (get_or (set s.satellites i ph') j gone ≡ get_or s.satellites j gone))
  phase_at j = elim (Bool-cases (i == j)) [
    | inl e ↦
        let same : i ≡ j = ground (arith, e) in
        inl (same, ap (get_or_at) (sym same) ∙ get_or-set_self s.satellites i ph' gone lt)
    | inr e ↦
        let ne : i ≢ j = ground (arith, e) in inr (ne, get_or-set_ne s.satellites i j ph' gone ne)
  ]
    where
      get_or_at : ℕ → Satellite
      get_or_at x = get_or (set s.satellites i ph') x gone

  after-Inv : Inv n k (record s { shared = m'; satellites = set s.satellites i ph' })
  after-Inv = record {
    satellites_n = length-set s.satellites i ph' ∙ h.satellites_n;
    engineers_m = h.engineers_m;
    permits =
        omega (arith, h.permits, moved.permits, tally-set s_queued s.satellites i ph' gone lt);
    no_stray = h.no_stray;
    active = omega (arith, h.active, moved.active, tally-set s_active s.satellites i ph' gone lt);
    available = omega (arith, h.available, moved.available);
    late = λ e. absurd (not_late e);
    flag = λ e. moved.launched ∙ h.flag e;
    settled = λ some_out. absurd (not_late (h.settled some_out).1);
    over = λ e. absurd (not_late (ap is_late e));
    to_come = λ j le less. elim (phase_at j) [
      | inl (same, e) ↦
          absurd (moved.born (ap (λ x. get_or s.satellites x gone) same ∙ h.to_come j le less))
      | inr (ne, e) ↦ e ∙ h.to_come j le less
    ];
    created_before = λ j e. elim (phase_at j) [
      | inl (same, f) ↦ absurd (moved.alive (sym f ∙ e))
      | inr (ne, f) ↦ h.created_before j (sym f ∙ e)
    ];
  }

-- The invariant after a move, if it is possible.
abbrev pub InvIf : ℕ → ℕ → Option System → Type 0
InvIf n k none = Unit {0}
InvIf n k (some s) = Inv n k s

satellite_at :
    (n k : ℕ) (s : System) (i : ℕ) (r : Option (Shared × Satellite))
    → Inv n k s
    → i < length s.satellites
    → MovedIf (get_or s.satellites i gone) s.shared r
    → InvIf n k (after_satellite s i r)
unfolding after_satellite
satellite_at n k s i none h lt moved = tt
satellite_at n k s i (some (m', ph')) h lt moved = after-Inv n k s i m' ph' h lt moved

gone_stays :
    (n k : ℕ) (s : System) (i : ℕ) (choice : Choice)
    → InvIf n k (after_satellite s i (satellite_step i choice gone s.shared))
unfolding after_satellite satellite_step
gone_stays n k s i choice = tt

pub satellite_moves-Inv :
    (n k : ℕ) (s : System) (i : ℕ) (choice : Choice)
    → Inv n k s
    → InvIf n k (step s (satellite_moves i choice))
unfolding step
satellite_moves-Inv n k s i choice h = elim (outside s.satellites i gone) [
  | inl lt ↦ satellite_at n k s i _ h lt (
      satellite_step-Moved i choice (get_or s.satellites i gone) s.shared
        (omega (arith, h.active, tally-get s_active s.satellites i gone lt)))
  | inr e ↦
      subst (λ ph. InvIf n k (after_satellite s i (satellite_step i choice ph s.shared))) (sym e)
        (gone_stays n k s i choice)
]
