-- ===== src/LogAnalyzer/Worker.antt =====
-- The worker threads of hw4/210104004042_main.c: each takes lines from the buffer and counts those
-- that hold the search term; worker 0 adds the counts up after the barrier.
pub mod Total
mod Tests
use system_hw.CString.{strcmp_eq, strstr}
use system_hw.LogAnalyzer.Manager.{eof_marker}
use system_hw.Prelude.{
  ℕ, ◌+◌, Bool, not, ◌&&◌, Option, none, some, List, [], ◌∷◌, ◌==◌, if◌then◌else◌,
}

-- One round of the worker's loop: the value of `running` that it reads, and what
-- `remove_from_buffer` returns to it.
pub record Round : Type 0 where
  pub running : Bool
  pub received : Option (List ℕ)

-- The body of the loop for a line; `continues` is the rest of the loop.
worker_line : List ℕ → ℕ → List ℕ → (ℕ → Option ℕ) → Option ℕ
worker_line search_term count line continues =
    let rest = continues (if strstr line search_term then count + 1 else count) in
    if strcmp_eq line eof_marker then some count else rest

worker_round : List ℕ → ℕ → Option (List ℕ) → (ℕ → Option ℕ) → Option ℕ
unfolding worker_line
worker_round search_term count none continues = some count
worker_round search_term count (some line) continues = worker_line search_term count line continues

-- The loop from a count on; `none` is a worker that is still in the loop.
pub worker_loop : List ℕ → List Round → ℕ → Option ℕ
unfolding worker_round
worker_loop search_term [] count = none
worker_loop search_term (r ∷ rounds) count =
    let next = worker_round search_term count r.received (worker_loop search_term rounds) in
    if not r.running then some count else next

-- `worker`: what it stores in `match_counts[id]`.
pub worker : List ℕ → List Round → Option ℕ
worker search_term rounds = worker_loop search_term rounds 0

add_counts : ℕ → List ℕ → ℕ
add_counts total [] = total
add_counts total (c ∷ counts) = add_counts (total + c) counts

-- The total that worker 0 prints, if it is still running.
pub report_total : List ℕ → ℕ
unfolding add_counts
report_total match_counts = add_counts 0 match_counts
