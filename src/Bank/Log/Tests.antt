-- ===== src/Bank/Log/Tests.antt =====
-- The theorems on the transaction log at concrete inputs.
use system_hw.Prelude.Int.{pos, negsuc}
use system_hw.Prelude.{if◌then◌else◌}
use system_hw.Prelude.{
  suc, ◌+◌, ◌-◌, ◌≡◌, refl, true, some, List, [], ◌∷◌, get_or, set, replicate, arith,
}
use system_hw.Bank.Account.{
  max_accounts, account_inactive, long_max, long_modulus, Database, Request, req_deposit,
  req_withdraw, LogLine, event, summary, note, create, process_deposit, balance_at, would_overflow,
}
use system_hw.Bank.Log.{
  load_state_from_log, load_lines, load_line, cleanup, summary_lines, summarise_lines,
  summarise_line, summary_line,
}
use system_hw.Bank.Log.Replay.{IsRecoverable, Attempt, serve, restart_recovers}
use system_hw.Bank.Log.Overflow.{deposit_overflow_is_stored}
use system_hw.Bank.Log.Carried.{has_create, last_balance, carried_over, restart_after_cleanup}

abbrev opening : Request
opening = record { client_pid = 7; bank_id = negsuc 0; kind = req_deposit; amount = pos 50 }

abbrev spending : Request
spending = record { client_pid = 8; bank_id = pos 3; kind = req_withdraw; amount = pos 20 }

-- A log that gives account 3 a balance of 20.
abbrev old_log : List LogLine
old_log = note ∷ summary (pos 3) ((true, pos 20) ∷ []) (pos 20) ∷ []

-- Account 4 is opened, and account 3 closed.
abbrev attempts : List Attempt
attempts =
    record { request = opening; opens = true; opens_again = true }
    ∷ record { request = spending; opens = true; opens_again = true }
    ∷ []

restart_recovers_example :
    let d = serve (load_state_from_log (some old_log)) attempts in
    (load_state_from_log (some d.log)).balances ≡ d.balances
unfolding would_overflow
restart_recovers_example =
    restart_recovers (some old_log) attempts (refl, refl, refl, (refl, refl, refl, tt))

-- Account 3 holds all that a long can.
abbrev full_log : List LogLine
full_log = event (create (pos 3) (pos long_max)) ∷ []

abbrev full_bank : Database
full_bank = record {
  balances = set (replicate max_accounts account_inactive) 3 (pos long_max);
  next_id = 4;
  log = full_log;
}

full_bank-IsRecoverable : IsRecoverable full_bank
unfolding load_lines load_line
full_bank-IsRecoverable = record { hint = omega arith; replays = refl }

abbrev one_more : Request
one_more = record { client_pid = 7; bank_id = pos 3; kind = req_deposit; amount = pos 1 }

deposit_overflow_is_stored_example :
    let out = process_deposit true one_more full_bank in
    (out.1.op_status ≡ 2)
    × (out.1.result_balance ≡ negsuc (long_modulus - suc (long_max + 1)))
    × (balance_at out.0 3 ≡ negsuc (long_modulus - suc (long_max + 1)))
    × (out.0.log ≡ full_bank.log)
    × (get_or (load_state_from_log (some out.0.log)).balances 3 account_inactive ≡ pos long_max)
unfolding balance_at
deposit_overflow_is_stored_example =
    deposit_overflow_is_stored true long_max 1 3 one_more full_bank refl full_bank-IsRecoverable
      (omega arith) refl (omega arith) (omega arith) (omega arith) refl refl

abbrev full_summary : List LogLine
full_summary = note ∷ summary (pos 3) ((true, pos long_max) ∷ []) (pos long_max) ∷ note ∷ []

restart_after_cleanup_example :
    get_or (load_state_from_log (some full_summary)).balances 3 account_inactive ≡ (
      if has_create 3 full_log
      then carried_over (last_balance 3 (pos 0) full_log)
      else account_inactive)
unfolding cleanup summary_lines summarise_lines summarise_line summary_line
restart_after_cleanup_example = restart_after_cleanup full_log full_summary 3 refl (omega arith)

-- The balance before the second shutdown, and after it.
old_balance : get_or (load_state_from_log (some old_log)).balances 3 account_inactive ≡ pos 20
unfolding load_state_from_log load_lines load_line
old_balance = refl
