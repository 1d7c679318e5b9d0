-- ===== src/LogAnalyzer/Buffer.antt =====
-- hw4/buffer.h and hw4/buffer.c: the bounded buffer that the threads share. A blocking call is a
-- sequence of critical sections: one at its entry, and one each time that its wait on a condition
-- variable ends. Each section here is one function of the buffer, and says whether the call goes
-- back to waiting. `running` is written by other threads and by the signal handler without the
-- mutex, so a section takes the value of each read of it as an argument.
pub mod Inv
pub mod Window
pub mod Fifo
pub mod Schedule
pub mod Lifecycle
mod Tests
use system_hw.Prelude.Int.{ℤ, pos, negsuc}
use system_hw.Prelude.{
  ℕ, zero, suc, ◌+◌, ◌-◌, ◌%◌, Bool, true, false, not, ◌&&◌, Option, none, some, List, [], ◌∷◌,
  get_or, set, ◌==◌, if◌then◌else◌,
}

-- `data` is the array `cells`, or NULL when `allocated` is false; a NULL entry is `none`. The last
-- three fields say whether the mutex and the two condition variables are initialised.
pub record Buffer {ℓ} (A : Type ℓ) : Type ℓ where
  pub allocated : Bool
  pub cells : List (Option A)
  pub size : ℕ
  pub count : ℕ
  pub head : ℕ
  pub tail : ℕ
  pub mutex : Bool
  pub not_full : Bool
  pub not_empty : Bool

-- How a section of `add_to_buffer` ends: the line is in the buffer, or freed because the program
-- stops, or the caller sleeps on `not_full`.
pub data Added {ℓ} (A : Type ℓ) : Type ℓ where
  inserted : Buffer A → Added A
  dropped : Added A
  add_waits : Added A

-- How a section of `remove_from_buffer` ends: with the pointer that it returns, or asleep on
-- `not_empty`.
pub data Removed {ℓ} (A : Type ℓ) : Type ℓ where
  returned : Option A → Buffer A → Removed A
  remove_waits : Removed A

-- What the calls of `init_buffer` return: the array of `malloc`, and whether each of the three
-- initialisations succeeds.
pub record InitCalls {ℓ} (A : Type ℓ) : Type ℓ where
  pub storage : Option (List (Option A))
  pub mutex_ok : Bool
  pub not_full_ok : Bool
  pub not_empty_ok : Bool

module _ {ℓ} {A : Type ℓ} where
  cleared : Buffer A → Buffer A
  cleared b = record b { allocated = false; cells = []; size = 0; count = 0; head = 0; tail = 0 }

  without_data : Buffer A → Buffer A
  without_data b = record b { allocated = false; cells = [] }

  -- The three initialisations, each undoing the earlier ones when it fails.
  init_sync : InitCalls A → Buffer A → Buffer A × ℤ
  unfolding without_data
  init_sync calls b =
      if not calls.mutex_ok
      then (without_data b, negsuc 0)
      else if not calls.not_full_ok
      then (without_data (record b { mutex = false }), negsuc 0)
      else if not calls.not_empty_ok
      then (without_data (record b { mutex = false; not_full = false }), negsuc 0)
      else (record b { mutex = true; not_full = true; not_empty = true }, pos 0)

  init_allocated : InitCalls A → ℕ → Option (List (Option A)) → Buffer A → Buffer A × ℤ
  unfolding init_sync
  init_allocated calls n none b = (b, negsuc 0)
  init_allocated calls n (some storage) b =
      init_sync calls (record b { allocated = true; cells = storage; size = n })

  -- `init_buffer`; the buffer pointer may be NULL.
  pub init_buffer : InitCalls A → Option (Buffer A) → ℤ → Option (Buffer A) × ℤ
  unfolding cleared init_allocated
  init_buffer calls none size = (none, negsuc 0)
  init_buffer calls (some b) (negsuc k) = (some b, negsuc 0)
  init_buffer calls (some b) (pos zero) = (some b, negsuc 0)
  init_buffer calls (some b) (pos (suc k)) =
      let (b', code) = init_allocated calls (suc k) calls.storage (cleared b) in (some b', code)

  -- The writes after the wait loop of `add_to_buffer`.
  pub insert : Buffer A → A → Buffer A
  insert b line = record b {
    cells = set b.cells b.head (some line);
    head = (b.head + 1) % b.size;
    count = b.count + 1;
  }

  -- `add_to_buffer` from the test of its loop on; `running` is the read in the loop's body.
  pub add_to_buffer : Bool → Buffer A → A → Added A
  add_to_buffer running b line =
      if b.count == b.size
      then if not running then dropped else add_waits
      else inserted (insert b line)

  -- The same after `pthread_cond_wait` returns: a second read of `running`, then the loop again.
  pub add_after_wait : Bool → Bool → Buffer A → A → Added A
  add_after_wait woken running b line =
      if not woken && (b.count == b.size) then dropped else add_to_buffer running b line

  -- The reads and writes after the wait loop of `remove_from_buffer`.
  pub take_out : Buffer A → Option A × Buffer A
  take_out b = (
    get_or b.cells b.tail none,
    record b { cells = set b.cells b.tail none; tail = (b.tail + 1) % b.size; count = b.count - 1 },
  )

  pub remove_from_buffer : Bool → Buffer A → Removed A
  remove_from_buffer running b =
      if b.count == 0
      then if not running then returned none b else remove_waits
      else let (line, b') = take_out b in returned line b'

  pub remove_after_wait : Bool → Bool → Buffer A → Removed A
  remove_after_wait woken running b =
      if not woken && (b.count == 0) then returned none b else remove_from_buffer running b

  -- The entries that the loop of `free_buffer` frees, for the rounds `i ..< i + n`.
  freed_from : Buffer A → ℕ → ℕ → List A
  freed_from b i zero = []
  freed_from b i (suc n) = elim (get_or b.cells ((b.tail + i) % b.size) none) [
    | none ↦ freed_from b (i + 1) n
    | some line ↦ line ∷ freed_from b (i + 1) n
  ]

  -- `free_buffer`: the lines that are freed, and the buffer afterwards.
  pub free_buffer : Buffer A → List A × Buffer A
  unfolding freed_from
  free_buffer b = if not b.allocated then ([], b) else (
    freed_from b 0 b.count,
    record b { allocated = false; cells = []; mutex = false; not_full = false; not_empty = false },
  )
