-- ===== src/Bank/Account/Tests.antt =====
-- The theorems on the account database at concrete inputs.
use system_hw.Prelude.Int.{pos, negsuc}
use system_hw.Prelude.{◌≡◌, refl, true, replicate, [], arith}
use system_hw.Bank.Account.{
  max_accounts, account_inactive, Database, Request, req_deposit, found_id, probe, is_inactive,
  find_free_account_id, process_request, would_overflow,
}
use system_hw.Bank.Account.Search.{Finds, find_free_account_id-Finds}
use system_hw.Bank.Account.Invariant.{Accounted, process_request-Accounted, fresh-IsSound}

-- The last account is where the search begins.
abbrev empty_bank : Database
empty_bank = record { balances = replicate max_accounts account_inactive; next_id = 1023; log = [] }

find_free_account_id-Finds_example : Finds empty_bank (find_free_account_id empty_bank)
find_free_account_id-Finds_example = find_free_account_id-Finds empty_bank (omega arith)

last_account : (find_free_account_id empty_bank).1 ≡ pos 1023
unfolding find_free_account_id found_id probe is_inactive
last_account = refl

hint_wraps : (find_free_account_id empty_bank).0.next_id ≡ 0
unfolding find_free_account_id found_id probe is_inactive
hint_wraps = refl

abbrev opening : Request
opening = record { client_pid = 7; bank_id = negsuc 0; kind = req_deposit; amount = pos 50 }

process_request-Accounted_example :
    Accounted req_deposit 50 empty_bank (process_request true true opening empty_bank)
unfolding would_overflow
process_request-Accounted_example =
    process_request-Accounted true true 50 opening empty_bank (omega arith) (omega arith)
      (fresh-IsSound 1023 [] (omega arith)) refl refl
