-- ===== src/Bank/Account.antt =====
-- The account database of midterm/bank_server.c: `find_free_account_id`, `process_deposit` and
-- `process_withdraw`, with the transaction log that they append to. `dbmutex` is held over each
-- access, and the server is one process, so each function is one step of the state.
pub mod Search
pub mod Invariant
mod Tests
use system_hw.Prelude.Int.{ℤ, pos, negsuc, ◌+ℤ◌, ◌-ℤ◌, pos_part, neg_part, ltb_ℤ, sub_ℕ}
use system_hw.Prelude.{
  ℕ, zero, suc, ◌+◌, ◌-◌, ◌%◌, ◌^◌, Bool, true, false, not, ◌&&◌, ◌||◌, Option, none, some, List,
  [], ◌∷◌, ◌++◌, get_or, set, ltb, ◌==◌, if◌then◌else◌,
}

abbrev pub max_accounts : ℕ
max_accounts = 1024

-- `ACCOUNT_INACTIVE`
abbrev pub account_inactive : ℤ
account_inactive = negsuc 0

-- `LONG_MAX` and the modulus of a 64-bit long
abbrev pub long_max : ℕ
long_max = 2 ^ 63 - 1

abbrev pub long_modulus : ℕ
long_modulus = 2 ^ 64

pub data ReqType : Type 0 where
  req_deposit req_withdraw : ReqType

-- The client's fields of `request_t`.
pub record Request : Type 0 where
  pub client_pid : ℕ
  pub bank_id : ℤ
  pub kind : ReqType
  pub amount : ℤ

-- The server's fields of `request_t`.
pub record Response : Type 0 where
  pub bank_id : ℤ
  pub result_balance : ℤ
  pub op_status : ℕ

-- The lines that `log_transaction` writes, with the numbers that they print.
pub data LogEvent : Type 0 where
  create : (id : ℤ) (amount : ℤ) → LogEvent
  deposit : (id : ℤ) (amount : ℤ) (balance : ℤ) → LogEvent
  withdraw : (id : ℤ) (amount : ℤ) (balance : ℤ) → LogEvent
  close : (id : ℤ) → LogEvent

-- A line of the log file, as its readers take it apart: a comment, a blank line or one that they
-- cannot parse; a line of `log_transaction`; or a summary line that `cleanup` writes for an account
-- that is open, with its transactions (a deposit is `true`) and its final balance.
pub data LogLine : Type 0 where
  note : LogLine
  event : LogEvent → LogLine
  summary : (id : ℤ) (transactions : List (Bool × ℤ)) (final : ℤ) → LogLine

-- `balances` and `next_id` of the shared memory, and the log file.
pub record Database : Type 0 where
  pub balances : List ℤ
  pub next_id : ℕ
  pub log : List LogLine

-- `a == b` on long
abbrev pub eqb_ℤ : ℤ → ℤ → Bool
eqb_ℤ a b = pos_part a == pos_part b && neg_part a == neg_part b

unfoldable pub is_inactive : ℤ → Bool
is_inactive v = eqb_ℤ v account_inactive

unfoldable pub balance_at : Database → ℕ → ℤ
balance_at d i = get_or d.balances i account_inactive

unfoldable pub set_balance : Database → ℕ → ℤ → Database
set_balance d i v = record d { balances = set d.balances i v }

-- `log_transaction`: nothing is written when `fopen` fails.
pub log_transaction : Bool → LogEvent → Database → Database
log_transaction opens e d = if opens then record d { log = d.log ++ (event e ∷ []) } else d

-- How the search for a free account ends; `probing` is fuel that ran out.
pub data Probe : Type 0 where
  found : ℕ → Probe
  bank_full : Probe
  probing : Probe

-- The loop of `find_free_account_id`, for at most `fuel` rounds.
pub probe : ℕ → List ℤ → ℕ → ℕ → Probe
probe zero balances start current = probing
probe (suc fuel) balances start current =
    let next = (current + 1) % max_accounts in
    let rest = probe fuel balances start next in
    if is_inactive (get_or balances current account_inactive)
    then found current
    else if next == start
    then bank_full
    else rest

found_id : Database → Probe → Database × ℤ
found_id d (found i) = (record d { next_id = (i + 1) % max_accounts }, pos i)
found_id d bank_full = (d, negsuc 0)
found_id d probing = (d, negsuc 0)

-- `find_free_account_id`; one round for each account is enough (`Search.probe-Outcome`).
pub find_free_account_id : Database → Database × ℤ
find_free_account_id d = found_id d (probe max_accounts d.balances d.next_id d.next_id)

-- `__builtin_add_overflow` on long: the sum modulo 2^64, and whether it overflowed.
unfoldable pub add_overflow : ℤ → ℤ → ℤ × Bool
unfolding ◌+ℤ◌ ◌-ℤ◌
add_overflow a b =
    let sum = a +ℤ b in
    if ltb_ℤ (pos long_max) sum
    then (sum -ℤ pos long_modulus, true)
    else if ltb_ℤ sum (negsuc long_max)
    then (sum +ℤ pos long_modulus, true)
    else (sum, false)

abbrev pub reply : ℤ → ℤ → ℕ → Response
reply id balance status = record { bank_id = id; result_balance = balance; op_status = status }

-- A new account, when `find_free_account_id` has returned.
unfoldable pub create_account : Bool → ℤ → Database × ℤ → Database × Response
unfolding log_transaction set_balance
create_account opens amount (d, pos new_id) = (
  log_transaction opens (create (pos new_id) amount) (set_balance d new_id amount),
  reply (pos new_id) amount 0,
)
create_account opens amount (d, negsuc k) = (d, reply (negsuc 0) (pos 0) 2)

-- The sum is stored also when it overflows, and read back as the result.
unfoldable pub deposit_existing : Bool → ℤ → ℕ → Database → Database × Response
unfolding log_transaction set_balance balance_at
deposit_existing opens amount id d =
    let (sum, overflows) = add_overflow (balance_at d id) amount in
    let stored = set_balance d id sum in
    if is_inactive (balance_at d id)
    then (d, reply (pos id) (pos 0) 2)
    else if overflows
    then (stored, reply (pos id) (balance_at stored id) 2)
    else (log_transaction opens (deposit (pos id) amount sum) stored, reply (pos id) sum 0)

unfoldable pub deposit_by_id : Bool → ℤ → ℤ → Database → Database × Response
unfolding create_account deposit_existing
deposit_by_id opens amount (negsuc zero) d = create_account opens amount (find_free_account_id d)
deposit_by_id opens amount (negsuc (suc k)) d = (d, reply (negsuc (suc k)) (pos 0) 2)
deposit_by_id opens amount (pos id) d =
    if ltb id max_accounts
    then deposit_existing opens amount id d
    else (d, reply (pos id) (pos 0) 2)

-- `process_deposit`; the Boolean says whether the log file opens.
unfoldable pub process_deposit : Bool → Request → Database → Database × Response
unfolding deposit_by_id
process_deposit opens req d = deposit_by_id opens req.amount req.bank_id d

-- `WITHDRAW`, and `CLOSE` when nothing is left.
unfoldable pub withdraw_funds : Bool → Bool → ℤ → ℕ → ℤ → Database → Database × Response
unfolding log_transaction set_balance
withdraw_funds opens opens_again amount id left d =
    let paid = log_transaction opens (withdraw (pos id) amount left) (set_balance d id left) in
    (
      if eqb_ℤ left (pos 0)
          then log_transaction opens_again (close (pos id)) (set_balance paid id account_inactive)
          else paid,
      reply (pos id) left 0,
    )

unfoldable pub withdraw_existing : Bool → Bool → ℤ → ℕ → Database → Database × Response
unfolding withdraw_funds balance_at
withdraw_existing opens opens_again amount id d =
    let balance = balance_at d id in
    if is_inactive balance
    then (d, reply (pos id) (pos 0) 2)
    else if ltb_ℤ balance amount
    then (d, reply (pos id) balance 1)
    else withdraw_funds opens opens_again amount id (balance -ℤ amount) d

unfoldable pub withdraw_by_id : Bool → Bool → ℤ → ℤ → Database → Database × Response
unfolding withdraw_existing
withdraw_by_id opens opens_again amount (negsuc k) d = (d, reply (negsuc k) (pos 0) 2)
withdraw_by_id opens opens_again amount (pos id) d =
    if ltb id max_accounts
    then withdraw_existing opens opens_again amount id d
    else (d, reply (pos id) (pos 0) 2)

-- `process_withdraw`; the Booleans say whether the log file opens, each time.
unfoldable pub process_withdraw : Bool → Bool → Request → Database → Database × Response
unfolding withdraw_by_id
process_withdraw opens opens_again req d = withdraw_by_id opens opens_again req.amount req.bank_id d

unfoldable pub process_kind : ReqType → Bool → Bool → Request → Database → Database × Response
process_kind req_deposit opens opens_again req d = process_deposit opens req d
process_kind req_withdraw opens opens_again req d = process_withdraw opens opens_again req d

-- The dispatch of the main loop.
unfoldable pub process_request : Bool → Bool → Request → Database → Database × Response
unfolding process_kind
process_request opens opens_again req d = process_kind req.kind opens opens_again req d

-- Whether a request adds to a balance beyond the range of long.
unfoldable pub would_overflow : Database → ℤ → ReqType → ℤ → Bool
would_overflow d amount req_deposit (pos id) = (add_overflow (balance_at d id) amount).1
would_overflow d amount req_deposit (negsuc k) = false
would_overflow d amount req_withdraw id = false
