-- ===== src/LogAnalyzer/Manager.antt =====
-- The manager thread of hw4/210104004042_main.c: it cuts the log file into lines and hands them to
-- the buffer. What it does to the others is a list of actions, in order; what it reads from
-- `running` (written by the signal handler) and the results of its library calls are the
-- environment's.
pub mod Lines
pub mod Stream
mod Tests
use system_hw.CString.{c_string}
use system_hw.Prelude.{
  ℕ, zero, suc, ◌+◌, Bool, true, false, not, ◌&&◌, List, [], ◌∷◌, ◌++◌, length, ltb, ◌==◌,
  if◌then◌else◌,
}

-- `sizeof(current_line) - 1`
abbrev pub line_capacity : ℕ
line_capacity = 1023

-- `EOF_MARKER`, the bytes of "END"
abbrev pub eof_marker : List ℕ
eof_marker = b'E' ∷ b'N' ∷ b'D' ∷ []

-- A call of `add_to_buffer` with a copied line, `running = 0`, and the broadcast on `not_empty`
-- under the mutex.
pub data Action : Type 0 where
  add : List ℕ → Action
  clear_running : Action
  wake_workers : Action

-- The k-th read of `running`, as other threads left it, and whether the k-th `strdup` succeeds.
pub record Env : Type 0 where
  pub running_at : ℕ → Bool
  pub copy_ok : ℕ → Bool

-- One result of `read`, which is at least one byte or an error; the end of the file is the end of
-- the list of results.
pub data Read : Type 0 where
  chunk : ℕ → List ℕ → Read
  failure : Read

-- `bytes_read` after the loop.
pub data LastRead : Type 0 where
  unset positive eof error : LastRead

-- `stopped`: this thread has cleared `running`. The counters number the environment's answers.
pub record Manager : Type 0 where
  pub line : List ℕ
  pub stopped : Bool
  pub reads : ℕ
  pub copies : ℕ
  pub actions : List Action

abbrev pub start : Manager
start = record { line = []; stopped = false; reads = 0; copies = 0; actions = [] }

act : Action → Manager → Manager
act a m = record m { actions = m.actions ++ (a ∷ []) }

stop : Manager → Manager
unfolding act
stop m = act clear_running (record m { stopped = true })

-- The value of `running` and the state after reading it.
read_running : Env → Manager → Bool × Manager
read_running env m = (not m.stopped && env.running_at m.reads, record m { reads = m.reads + 1 })

-- `strdup` and `add_to_buffer`, or what follows a failed `strdup`.
hand_over : Env → List ℕ → Manager → Manager
unfolding act stop
hand_over env text m =
    let m' = record m { copies = m.copies + 1 } in
    if env.copy_ok m.copies then act (add (c_string text)) m' else act wake_workers (stop m')

-- The body of the loop over a chunk.
pub take_byte : Env → Manager → ℕ → Manager
unfolding hand_over
take_byte env m c =
    if c == b'\n'
    then (let m' = if ltb 0 (length m.line) then hand_over env m.line m else m in
        if m'.stopped then m' else record m' { line = [] })
    else if ltb (length m.line) line_capacity
    then record m { line = m.line ++ (c ∷ []) }
    else (let m' = hand_over env m.line m in if m'.stopped then m' else record m' { line = [] })

-- `for (i = 0; i < bytes_read && running; ++i)`, left by `break` after a failed copy.
pub scan_chunk : Env → Manager → List ℕ → Manager
scan_chunk env m [] = m
scan_chunk env m (c ∷ cs) =
    let (running, m') = read_running env m in
    let next = take_byte env m' c in
    let rest = scan_chunk env next cs in
    if not running then m' else if next.stopped then next else rest

is_eof : LastRead → Bool
is_eof eof = true
is_eof _ = false

is_error : LastRead → Bool
is_error error = true
is_error _ = false

-- `while (running && (bytes_read = read(...)) > 0)`; the second component is `bytes_read`.
pub read_loop : Env → LastRead → Manager → List Read → Manager × LastRead
read_loop env last m [] =
    let (running, m') = read_running env m in if not running then (m', last) else (m', eof)
read_loop env last m (failure ∷ reads) =
    let (running, m') = read_running env m in if not running then (m', last) else (m', error)
read_loop env last m (chunk c cs ∷ reads) =
    let (running, m') = read_running env m in
    let (still, scanned) = read_running env (scan_chunk env m' (c ∷ cs)) in
    let rest = read_loop env positive scanned reads in
    if not running then (m', last) else if not still then (scanned, positive) else rest

-- The last line of a file that does not end in a newline. A failed copy here wakes nobody.
pub last_line : Env → LastRead → Manager → Manager
last_line env last m =
    let (running, m') = read_running env m in
    if running && (ltb 0 (length m'.line) && is_eof last)
    then (let counted = record m' { copies = m'.copies + 1 } in
        if not (env.copy_ok m'.copies) then stop counted else act (add (c_string m'.line)) counted)
    else m'

-- `bytes_read == -1 && running`
pub check_error : Env → LastRead → Manager → Manager
check_error env last m =
    if is_error last
    then (let (running, m') = read_running env m in if running then stop m' else m')
    else m

-- `for (i = 0; i < num_workers && running; i++)`, for the rounds that are left.
pub send_markers : Env → ℕ → Manager → Manager
send_markers env zero m = m
send_markers env (suc n) m =
    let (running, m') = read_running env m in
    let sent = hand_over env eof_marker m' in
    let rest = send_markers env n sent in
    if not running then m' else if sent.stopped then sent else rest

-- The thread: `opened` says whether `open` succeeds.
pub manager : Env → Bool → List Read → ℕ → Manager
unfolding read_running take_byte scan_chunk is_eof is_error read_loop last_line check_error
    send_markers
manager env opened reads num_workers =
    if not opened
    then act wake_workers (stop start)
    else (let (m, last) = read_loop env unset start reads in
        send_markers env num_workers (check_error env last (last_line env last m)))
