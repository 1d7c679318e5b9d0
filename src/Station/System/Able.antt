-- ===== src/Station/System/Able.antt =====
-- Which threads of hw3/main.c can move.
use system_hw.Prelude.{ℕ, ◌-◌, ◌<◌, ◌≡◌, ◌≢◌, refl, true, arith, some, ltb}
use system_hw.Station.System.{
  Satellite, unborn, created, counted, queued, waiting, expired, leaving, gone, Engineer, idle,
  awake, discarding, handling, working, finished, rechecking, closing, exited, Shared, fails,
  satellite_step, engineer_step,
}
use system_hw.Station.System.Tally.{s_left, e_running, e_inside}

-- A satellite that runs can move: its timed wait may expire.
pub satellite_can :
    (i : ℕ) (ph : Satellite) (m : Shared)
    → ph ≢ unborn
    → 0 < s_left ph
    → (r : Shared × Satellite) × (satellite_step i fails ph m ≡ some r)
unfolding satellite_step
satellite_can i unborn m born here = absurd (born refl)
satellite_can i created m born here = (_, refl)
satellite_can i counted m born here = (_, refl)
satellite_can i queued m born here = (_, refl)
satellite_can i waiting m born here = (_, refl)
satellite_can i expired m born here = (_, refl)
satellite_can i leaving m born here = (_, refl)
satellite_can i gone m born here = absurd (omega arith)

pub engineer_can :
    (ph : Engineer) (m : Shared)
    → 0 < e_running ph
    → (r : Shared × Engineer) × (engineer_step ph m ≡ some r)
unfolding engineer_step
engineer_can idle m runs = absurd (omega arith)
engineer_can awake m runs = (_, refl)
engineer_can discarding m runs = (_, refl)
engineer_can handling m runs = (_, refl)
engineer_can working m runs = (_, refl)
engineer_can finished m runs = (_, refl)
engineer_can rechecking m runs = (_, refl)
engineer_can closing m runs = (_, refl)
engineer_can exited m runs = absurd (omega arith)

-- An engineer that waits can move when a wake-up is there.
pub engineer_wakes :
    (ph : Engineer) (m : Shared)
    → 0 < e_inside ph
    → e_running ph ≡ 0
    → 0 < m.new_request
    → (r : Shared × Engineer) × (engineer_step ph m ≡ some r)
unfolding engineer_step
engineer_wakes idle m here waits permit =
    let may : ltb 0 m.new_request ≡ true = ground arith in
    ((record m { new_request = m.new_request - 1 }, awake), rw may refl)
engineer_wakes exited m here waits permit = absurd (omega arith)
engineer_wakes awake m here waits permit = absurd (omega arith)
engineer_wakes discarding m here waits permit = absurd (omega arith)
engineer_wakes handling m here waits permit = absurd (omega arith)
engineer_wakes working m here waits permit = absurd (omega arith)
engineer_wakes finished m here waits permit = absurd (omega arith)
engineer_wakes rechecking m here waits permit = absurd (omega arith)
engineer_wakes closing m here waits permit = absurd (omega arith)
