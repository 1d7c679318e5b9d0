-- ===== src/Bank/Log.antt =====
-- The readers of the transaction log of midterm/bank_server.c: `load_state_from_log` at the start,
-- and the summary that `cleanup` puts in its place at shutdown. A line is taken as the value that
-- `fgets` and `sscanf` make of it, for lines that fit `fgets`'s buffer.
pub mod Replay
pub mod Overflow
pub mod Summary
pub mod Carried
mod Tests
use system_hw.Prelude.Int.{ℤ, pos, negsuc, ltb_ℤ, ◌+ℤ◌}
use system_hw.Prelude.{
  ℕ, zero, suc, ◌+◌, Bool, true, false, not, ◌&&◌, Option, none, some, List, [], ◌∷◌, ◌++◌, get_or,
  set, replicate, ltb, leb, max, ◌/◌, ◌==◌, if◌then◌else◌,
}
use system_hw.Bank.Account.{
  max_accounts, account_inactive, eqb_ℤ, LogEvent, create, deposit, withdraw, close, LogLine, note,
  event, summary, Database,
}

-- `balances` and `max_id_found` while the log is read; `none` stands for -1.
pub record Loading : Type 0 where
  pub balances : List ℤ
  pub max_id : Option ℕ

abbrev pub no_accounts : Loading
no_accounts = record { balances = replicate max_accounts account_inactive; max_id = none }

larger_id : ℕ → Option ℕ → Option ℕ
larger_id i none = some i
larger_id i (some m) = if ltb m i then some i else some m

-- The writes of one `case` of the reader's switch, for an account id in range.
put_balance : ℤ → ℤ → Loading → Loading
unfolding larger_id
put_balance (negsuc k) v s = s
put_balance (pos i) v s =
    if ltb i max_accounts
    then record s { balances = set s.balances i v; max_id = larger_id i s.max_id }
    else s

put_inactive : ℤ → Loading → Loading
put_inactive (negsuc k) s = s
put_inactive (pos i) s =
    if ltb i max_accounts then record s { balances = set s.balances i account_inactive } else s

-- One round of the loop of `load_state_from_log`.
pub load_line : Loading → LogLine → Loading
unfolding put_balance put_inactive
load_line s note = s
load_line s (event (create id amount)) = put_balance id amount s
load_line s (event (deposit id amount balance)) = put_balance id balance s
load_line s (event (withdraw id amount balance)) = put_balance id balance s
load_line s (event (close id)) = put_inactive id s
load_line s (summary id transactions final) = put_balance id final s

pub load_lines : Loading → List LogLine → Loading
load_lines s [] = s
load_lines s (l ∷ ls) = load_lines (load_line s l) ls

-- `max_id_found + 1`, or 0 when that is out of range or nothing was found.
pub next_hint : Option ℕ → ℕ
next_hint none = 0
next_hint (some m) = if leb max_accounts (m + 1) then 0 else m + 1

loaded : List LogLine → Loading → Database
unfolding next_hint
loaded log s = record { balances = s.balances; next_id = next_hint s.max_id; log = log }

-- `load_state_from_log`: without a log file it starts one with a comment line.
pub load_state_from_log : Option (List LogLine) → Database
unfolding loaded
load_state_from_log none = loaded (note ∷ []) no_accounts
load_state_from_log (some log) = loaded log (load_lines no_accounts log)

-- `AccountSummary`, without the id, which is its index.
pub record AccountSummary : Type 0 where
  pub active : Bool
  pub transactions : List (Bool × ℤ)
  pub final_balance : ℤ
  pub created : Bool

abbrev pub no_summary : AccountSummary
no_summary = record { active = false; transactions = []; final_balance = negsuc 0; created = false }

pub summary_at : List AccountSummary → ℕ → AccountSummary
summary_at summaries i = get_or summaries i no_summary

-- `CREATE` marks the account; the other events change an account that is marked.
summarise_create : ℤ → ℤ → List AccountSummary → List AccountSummary
summarise_create (negsuc k) amount ss = ss
summarise_create (pos i) amount ss =
    if ltb i max_accounts
    then set ss i (record (summary_at ss i) {
      active = true;
      created = true;
      final_balance = amount;
      transactions = (summary_at ss i).transactions ++ ((true, amount) ∷ []);
    })
    else ss

summarise_change : ℤ → List (Bool × ℤ) → ℤ → List AccountSummary → List AccountSummary
unfolding summary_at
summarise_change (negsuc k) entry final ss = ss
summarise_change (pos i) entry final ss =
    if ltb i max_accounts && (summary_at ss i).created
    then set ss i (record (summary_at ss i) {
      active = true;
      final_balance = final;
      transactions = (summary_at ss i).transactions ++ entry;
    })
    else ss

-- One round of the reading loop of `cleanup`; it knows nothing of summary lines.
pub summarise_line : List AccountSummary → LogLine → List AccountSummary
unfolding summarise_create summarise_change
summarise_line ss note = ss
summarise_line ss (event (create id amount)) = summarise_create id amount ss
summarise_line ss (event (deposit id amount balance)) =
    summarise_change id ((true, amount) ∷ []) balance ss
summarise_line ss (event (withdraw id amount balance)) =
    summarise_change id ((false, amount) ∷ []) balance ss
summarise_line ss (event (close id)) = summarise_change id [] (pos 0) ss
summarise_line ss (summary id transactions final) = ss

pub summarise_lines : List AccountSummary → List LogLine → List AccountSummary
summarise_lines ss [] = ss
summarise_lines ss (l ∷ ls) = summarise_lines (summarise_line ss l) ls

-- The line for one account; that of a closed account begins with "# ".
pub summary_line : ℕ → AccountSummary → List LogLine
summary_line i s =
    if s.active && s.created
    then (if eqb_ℤ s.final_balance (pos 0)
        then note ∷ []
        else summary (pos i) s.transactions s.final_balance ∷ [])
    else []

-- The writing loop, for the accounts from `i` on.
pub summary_lines : ℕ → List AccountSummary → List LogLine
summary_lines i [] = []
summary_lines i (s ∷ ss) = summary_line i s ++ summary_lines (i + 1) ss

-- The characters that `%ld` prints; 20 digits are enough for 64 bits.
digits : ℕ → ℕ → ℕ
digits zero n = 1
digits (suc fuel) n = let rest = digits fuel (n / 10) in if ltb n 10 then 1 else 1 + rest

decimal_width : ℤ → ℕ
unfolding digits
decimal_width (pos n) = digits 20 n
decimal_width (negsuc k) = 1 + digits 20 (k + 1)

-- `" D %ld"` and `" W %ld"`
transactions_width : List (Bool × ℤ) → ℕ
unfolding decimal_width
transactions_width [] = 0
transactions_width ((kind, amount) ∷ ts) = 3 + decimal_width amount + transactions_width ts

-- Whether a line fits the 255 characters that `fgets` takes at once, which is also within
-- `transaction_log`; a longer summary is read in parts that are outside the model.
line_fits : LogLine → Bool
unfolding transactions_width
line_fits note = true
line_fits (event e) = true
line_fits (summary id ts final) =
    leb (7 + max 2 (decimal_width id) + transactions_width ts + 1 + decimal_width final) 255

all_fit : List LogLine → Bool
unfolding line_fits
all_fit [] = true
all_fit (l ∷ ls) = line_fits l && all_fit ls

-- The log file after `cleanup`: a header, the summaries, and a last comment line; `none` when a
-- summary is too long to be read back as one line. Both `fopen` calls succeed.
unfoldable pub cleanup : List LogLine → Option (List LogLine)
unfolding all_fit
cleanup log =
    let lines = summary_lines 0 (summarise_lines (replicate max_accounts no_summary) log) in
    if all_fit lines then some (note ∷ (lines ++ (note ∷ []))) else none
