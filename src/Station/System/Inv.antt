-- ===== src/Station/System/Inv.antt =====
-- What holds of the threads of hw3/main.c at every moment: each wake-up of an engineer stands for a
-- request in the queue or for one of the last wake-ups of `main`.
use system_hw.Prelude.{
  ℕ, zero, suc, ◌+◌, ◌≤◌, ◌<◌, ◌≡◌, refl, sym, Bool, true, false, [], length, length-replicate,
  get_or, replicate, arith,
}
use system_hw.Station.System.{
  unborn, gone, idle, Main, launching, joining, posting, ended, System, initial,
}
use system_hw.Station.System.Tally.{
  tally, tally-replicate, s_queued, s_active, s_left, e_awake, e_busy, e_stray, e_exited, e_inside,
}

-- The wake-ups that `main` has still to post, and those that it posts altogether once it does.
abbrev pub due : Main → ℕ
due (posting k) = k
due _ = 0

abbrev pub is_late : Main → Bool
is_late (launching k) = false
is_late joining = false
is_late _ = true

abbrev pub woken : ℕ → Main → ℕ
woken m (launching k) = 0
woken m joining = 0
woken m _ = m

-- The satellites that `main` has created.
abbrev pub births : ℕ → Main → ℕ
births n (launching k) = k
births n _ = n

-- `n` satellites and `m` engineers.
pub record Inv (n m : ℕ) (s : System) : Type 0 where
  pub satellites_n : length s.satellites ≡ n
  pub engineers_m : length s.engineers ≡ m
  pub permits :
      s.shared.new_request
        + tally e_awake s.engineers
        + tally s_queued s.satellites
        + tally e_exited s.engineers
        + due s.main
      ≡ length s.shared.queue + woken m s.main
  pub no_stray : tally e_stray s.engineers ≡ 0
  pub active : s.shared.active_satellites ≡ tally s_active s.satellites
  pub available : s.shared.available_engineers + tally e_busy s.engineers ≡ m
  pub late :
      is_late s.main ≡ true → (tally s_left s.satellites ≡ 0) × (s.shared.all_launched ≡ true)
  pub flag : s.main ≡ joining → s.shared.all_launched ≡ true
  pub settled : 0 < tally e_exited s.engineers → (s.shared.queue ≡ []) × (is_late s.main ≡ true)
  pub over : s.main ≡ ended → (tally e_inside s.engineers ≡ 0) × (s.shared.queue ≡ [])
  pub to_come : (i : ℕ) → births n s.main ≤ i → i < n → get_or s.satellites i gone ≡ unborn
  pub created_before : (i : ℕ) → get_or s.satellites i gone ≡ unborn → births n s.main ≤ i

get_or-replicate_lt : (n i : ℕ) → i < n → get_or (replicate n unborn) i gone ≡ unborn
get_or-replicate_lt zero i lt = absurd (omega arith)
get_or-replicate_lt (suc n) zero lt = refl
get_or-replicate_lt (suc n) (suc i) lt = get_or-replicate_lt n i (omega arith)

pub initial-Inv : (n m : ℕ) → Inv n m (initial n m)
unfolding initial
initial-Inv n m =
    let no_exits : tally e_exited (replicate m idle) ≡ 0 = tally-replicate e_exited m idle refl in
    record {
      satellites_n = length-replicate n unborn;
      engineers_m = length-replicate m idle;
      permits = omega (
        arith,
        no_exits,
        tally-replicate e_awake m idle refl,
        tally-replicate s_queued n unborn refl,
      );
      no_stray = tally-replicate e_stray m idle refl;
      active = sym (tally-replicate s_active n unborn refl);
      available = omega (arith, tally-replicate e_busy m idle refl);
      late = λ e. absurd cc;
      flag = λ e. absurd cc;
      settled = λ e. absurd (omega (arith, no_exits));
      over = λ e. absurd cc;
      to_come = λ i le lt. get_or-replicate_lt n i lt;
      created_before = λ i e. omega arith;
    }
