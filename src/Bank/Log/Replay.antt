-- ===== src/Bank/Log/Replay.antt =====
-- The log of midterm/bank_server.c against the balances in memory: what `load_state_from_log`
-- makes of it is what the server had.
use system_hw.Prelude.Int.{ℤ, pos, negsuc, ◌-ℤ◌}
use system_hw.Prelude.{
  ℕ, zero, suc, ◌<◌, ◌≡◌, refl, Bool, true, false, Option, none, some, List, [], ◌∷◌, ◌++◌, arith,
}
use system_hw.Bank.Account.{
  max_accounts, LogEvent, create, deposit, withdraw, close, LogLine, event, Database, Request,
  ReqType, req_deposit, req_withdraw, log_transaction, set_balance, balance_at, add_overflow,
  create_account, deposit_existing, process_deposit, withdraw_funds, withdraw_existing,
  process_withdraw, process_kind, process_request, would_overflow,
}
use system_hw.Bank.Account.Search.{Finds, find_free_account_id-Finds}
use system_hw.Bank.Log.{Loading, no_accounts, load_line, load_lines, load_state_from_log, next_hint}

pub load_lines-append :
    (s : Loading) (xs ys : List LogLine) → load_lines s (xs ++ ys) ≡ load_lines (load_lines s xs) ys
unfolding load_lines
load_lines-append s [] ys = refl
load_lines-append s (x ∷ xs) ys = load_lines-append (load_line s x) xs ys

-- The hint is in range, and the log gives the balances back.
pub record IsRecoverable (d : Database) : Type 0 where
  pub hint : d.next_id < max_accounts
  pub replays : (load_lines no_accounts d.log).balances ≡ d.balances

loaded_after :
    (d : Database) (e : LogEvent)
    → load_lines no_accounts (d.log ++ (event e ∷ []))
      ≡ load_line (load_lines no_accounts d.log) (event e)
unfolding load_lines
loaded_after d e = load_lines-append no_accounts d.log (event e ∷ [])

create_account-IsRecoverable :
    (amount : ℤ) (d : Database) (i : ℕ)
    → IsRecoverable d
    → i < max_accounts
    → IsRecoverable (create_account true amount (d, pos i)).0
unfolding create_account load_line
create_account-IsRecoverable amount d i r lt =
    ground (arith, loaded_after d (create (pos i) amount))

deposit_existing-IsRecoverable :
    (amount : ℤ) (id : ℕ) (d : Database)
    → IsRecoverable d
    → id < max_accounts
    → (add_overflow (balance_at d id) amount).1 ≡ false
    → IsRecoverable (deposit_existing true amount id d).0
unfolding deposit_existing load_line
deposit_existing-IsRecoverable amount id d r lt h =
    ground
      (arith, loaded_after d (deposit (pos id) amount (add_overflow (balance_at d id) amount).0))

withdraw_funds-IsRecoverable :
    (amount left : ℤ) (id : ℕ) (d : Database)
    → IsRecoverable d
    → id < max_accounts
    → IsRecoverable (withdraw_funds true true amount id left d).0
unfolding withdraw_funds load_line
withdraw_funds-IsRecoverable amount left id d r lt = ground (
  arith,
  loaded_after d (withdraw (pos id) amount left),
  loaded_after (log_transaction true (withdraw (pos id) amount left) (set_balance d id left))
      (close (pos id)),
)

withdraw_existing-IsRecoverable :
    (amount : ℤ) (id : ℕ) (d : Database)
    → IsRecoverable d
    → id < max_accounts
    → IsRecoverable (withdraw_existing true true amount id d).0
unfolding withdraw_existing
withdraw_existing-IsRecoverable amount id d r lt =
    ground (arith, withdraw_funds-IsRecoverable amount (balance_at d id -ℤ amount) id d r lt)

created_none :
    (amount : ℤ) (d : Database) (k : ℕ)
    → IsRecoverable d
    → IsRecoverable (create_account true amount (d, negsuc k)).0
unfolding create_account
created_none amount d k r = r

created-IsRecoverable :
    (amount : ℤ) (d : Database) (out : Database × ℤ)
    → IsRecoverable d
    → Finds d out
    → IsRecoverable (create_account true amount out).0
created-IsRecoverable amount d (d', pos i) r (j, less, at, free, used, same) =
    create_account-IsRecoverable amount d' i
      (rw same (record { hint = omega arith; replays = r.replays })) (omega arith)
created-IsRecoverable amount d (d', negsuc k) r (zero_code, same, full) =
    rw same (created_none amount d k r)

process-IsRecoverable :
    (kind : ReqType) (req : Request) (id : ℤ) (d : Database)
    → IsRecoverable d
    → req.bank_id ≡ id
    → would_overflow d req.amount kind id ≡ false
    → IsRecoverable (process_kind kind true true req d).0
unfolding process_kind process_deposit process_withdraw would_overflow
process-IsRecoverable req_deposit req (negsuc zero) d r e h =
    rw e (created-IsRecoverable req.amount d _ r (find_free_account_id-Finds d r.hint))
process-IsRecoverable req_deposit req (negsuc (suc k)) d r e h = rw e r
process-IsRecoverable req_deposit req (pos id) d r e h =
    rw e (ground (arith, deposit_existing-IsRecoverable req.amount id d r))
process-IsRecoverable req_withdraw req (negsuc k) d r e h = rw e r
process-IsRecoverable req_withdraw req (pos id) d r e h =
    rw e (ground (arith, withdraw_existing-IsRecoverable req.amount id d r))

pub process_request-IsRecoverable :
    (req : Request) (d : Database)
    → IsRecoverable d
    → would_overflow d req.amount req.kind req.bank_id ≡ false
    → IsRecoverable (process_request true true req d).0
unfolding process_request
process_request-IsRecoverable req d r h = process-IsRecoverable req.kind req req.bank_id d r refl h

-- The server's requests in order, each with whether the log file opens, the first and second time.
pub record Attempt : Type 0 where
  pub request : Request
  pub opens : Bool
  pub opens_again : Bool

pub serve : Database → List Attempt → Database
serve d [] = d
serve d (a ∷ rest) = serve (process_request a.opens a.opens_again a.request d).0 rest

-- Every log line is written, and no deposit overflows where it is made.
abbrev pub IsSmooth : Database → List Attempt → Type 0
IsSmooth d [] = Unit {0}
IsSmooth d (a ∷ rest) =
    (a.opens ≡ true)
    × (a.opens_again ≡ true)
    × (would_overflow d a.request.amount a.request.kind a.request.bank_id ≡ false)
    × IsSmooth (process_request a.opens a.opens_again a.request d).0 rest

serve-IsRecoverable :
    (d : Database) (attempts : List Attempt)
    → IsRecoverable d
    → IsSmooth d attempts
    → IsRecoverable (serve d attempts)
unfolding serve
serve-IsRecoverable d [] r h = r
serve-IsRecoverable d (a ∷ rest) r (opened, opened_again, fits, more) =
    serve-IsRecoverable (process_request a.opens a.opens_again a.request d).0 rest
      (rw (opened, opened_again) (process_request-IsRecoverable a.request d r fits)) more

next_hint_bounds : (m : Option ℕ) → next_hint m < max_accounts
unfolding next_hint
next_hint_bounds none = omega arith
next_hint_bounds (some m) = ground arith

load_state_from_log-IsRecoverable :
    (file : Option (List LogLine)) → IsRecoverable (load_state_from_log file)
unfolding load_state_from_log load_lines load_line
load_state_from_log-IsRecoverable none = record { hint = next_hint_bounds none; replays = refl }
load_state_from_log-IsRecoverable (some log) = record {
  hint = next_hint_bounds (load_lines no_accounts log).max_id;
  replays = refl;
}

-- Start the server on a log of any whole lines that fit the reader's buffer, or on none, and serve any
-- requests: as long as the log can be written and no deposit overflows, a server that starts from the
-- log as it then is, as after a crash and not through the shutdown that rewrites the log, has exactly
-- the balances of the first one.
pub restart_recovers :
    (file : Option (List LogLine)) (attempts : List Attempt)
    → IsSmooth (load_state_from_log file) attempts
    → let d = serve (load_state_from_log file) attempts in
      (load_state_from_log (some d.log)).balances ≡ d.balances
unfolding load_state_from_log
restart_recovers file attempts h =
    (serve-IsRecoverable (load_state_from_log file) attempts
      (load_state_from_log-IsRecoverable file) h).replays
