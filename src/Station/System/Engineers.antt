-- ===== src/Station/System/Engineers.antt =====
-- The moves of the engineers of hw3/main.c keep the invariant.
use system_hw.Prelude.{
  ℕ, ◌<◌, ◌≡◌, refl, sym, ap, ◌∙◌, subst, true, [], length, length-set, get_or, set, arith, Option,
  none, some, inl, inr, Bool-cases, ltb,
}
use system_hw.Station.System.{
  Engineer, exited, Main, launching, joining, posting, collecting, ended, Shared, System,
  engineer_step, after_engineer, step, engineer_moves,
}
use system_hw.Station.System.Tally.{
  tally, tally-set, tally-get, outside, awake-busy, active-left, e_awake, e_busy, e_stray, e_exited,
  e_inside,
}
use system_hw.Station.System.Inv.{Inv, is_late, woken}
use system_hw.Station.System.Satellites.{InvIf}
use system_hw.Station.System.Turn.{Turned, TurnedIf, ShutIfEmpty, engineer_step-Turned}

late_of_woken : (k : ℕ) (main : Main) → 0 < woken k main → is_late main ≡ true
late_of_woken k (launching j) h = absurd (omega arith)
late_of_woken k joining h = absurd (omega arith)
late_of_woken k (posting j) h = refl
late_of_woken k collecting h = refl
late_of_woken k ended h = refl

module _ (n k : ℕ) (s : System) (i : ℕ) (h : Inv n k s) (lt : i < length s.engineers) where
  -- With the queue empty, a wake-up is one of the last ones of `main`.
  late_if_empty :
      e_awake (get_or s.engineers i exited) ≡ 1 → s.shared.queue ≡ [] → is_late s.main ≡ true
  late_if_empty woke empty =
      late_of_woken k s.main
        (omega (arith, h.permits, ap length empty, woke, tally-get e_awake s.engineers i exited lt))

  shut : ShutIfEmpty (get_or s.engineers i exited) s.shared
  shut woke empty =
      let (none_left, launched) = h.late (late_if_empty woke empty) in
      (launched, omega (arith, h.active, none_left, active-left s.satellites))

  turned :
      TurnedIf
        (get_or s.engineers i exited)
        s.shared
        (engineer_step (get_or s.engineers i exited) s.shared)
  turned =
      engineer_step-Turned (get_or s.engineers i exited) s.shared
        (omega (arith, h.no_stray, tally-get e_stray s.engineers i exited lt)) shut
        (omega (
          arith,
          h.available,
          h.engineers_m,
          awake-busy s.engineers,
          tally-get e_awake s.engineers i exited lt,
        ))

  module _ (m' : Shared) (ph' : Engineer)
      (t : Turned (get_or s.engineers i exited) s.shared m' ph') where
    settles : 0 < tally e_exited (set s.engineers i ph') → (m'.queue ≡ []) × (is_late s.main ≡ true)
    settles some_out = elim (Bool-cases (ltb 0 (tally e_exited s.engineers))) [
      | inl e ↦ let (empty, late) = h.settled (ground (arith, e)) in (t.empties empty, late)
      | inr e ↦
          let none_out : tally e_exited s.engineers ≡ 0 = ground (arith, e) in
          let (empty, woke) =
            t.exits
              (omega (arith, some_out, none_out, tally-set e_exited s.engineers i ph' exited lt)) in
          (t.empties empty, late_if_empty woke empty)
    ]

    turned-Inv : Inv n k (record s { shared = m'; engineers = set s.engineers i ph' })
    turned-Inv = record {
      satellites_n = h.satellites_n;
      engineers_m = length-set s.engineers i ph' ∙ h.engineers_m;
      permits = omega (
        arith,
        h.permits,
        t.permits,
        tally-set e_awake s.engineers i ph' exited lt,
        tally-set e_exited s.engineers i ph' exited lt,
      );
      no_stray = omega (arith, h.no_stray, t.stray, tally-set e_stray s.engineers i ph' exited lt);
      active = t.active ∙ h.active;
      available =
          omega (arith, h.available, t.available, tally-set e_busy s.engineers i ph' exited lt);
      late = λ e. ((h.late e).0, t.launched ∙ (h.late e).1);
      flag = λ e. t.launched ∙ h.flag e;
      settled = settles;
      over = λ e.
          absurd
            (omega (arith, (h.over e).0, t.inside, tally-get e_inside s.engineers i exited lt));
      to_come = h.to_come;
      created_before = h.created_before;
    }

engineer_at :
    (n k : ℕ) (s : System) (i : ℕ) (r : Option (Shared × Engineer))
    → Inv n k s
    → i < length s.engineers
    → TurnedIf (get_or s.engineers i exited) s.shared r
    → InvIf n k (after_engineer s i r)
unfolding after_engineer
engineer_at n k s i none h lt t = tt
engineer_at n k s i (some (m', ph')) h lt t = turned-Inv n k s i h lt m' ph' t

exited_stays :
    (n k : ℕ) (s : System) (i : ℕ) → InvIf n k (after_engineer s i (engineer_step exited s.shared))
unfolding after_engineer engineer_step
exited_stays n k s i = tt

pub engineer_moves-Inv :
    (n k : ℕ) (s : System) (i : ℕ) → Inv n k s → InvIf n k (step s (engineer_moves i))
unfolding step
engineer_moves-Inv n k s i h = elim (outside s.engineers i exited) [
  | inl lt ↦ engineer_at n k s i _ h lt (turned n k s i h lt)
  | inr e ↦
      subst (λ ph. InvIf n k (after_engineer s i (engineer_step ph s.shared))) (sym e)
        (exited_stays n k s i)
]
