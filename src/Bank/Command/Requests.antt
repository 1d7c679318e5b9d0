-- ===== src/Bank/Command/Requests.antt =====
-- What the teller of midterm/teller.c sends on to the server.
use system_hw.Bank.Account.{Request, ReqType, req_deposit, req_withdraw, long_max, max_accounts}
use system_hw.Bank.Command.{
  Number, strtol, parse_bank_id, parse_kind, parse_amount, complete_request, request_kind,
  request_words, scan_words, parse_request,
}
use system_hw.Bank.Command.Ids.{IsBankId, parse_bank_id-IsBankId}
use system_hw.Prelude.Int.{ℤ, pos, negsuc}
use system_hw.Prelude.{
  ℕ, zero, suc, ◌≤◌, ◌<◌, ◌≡◌, refl, not, ◌||◌, Option, none, some, List, length, ltb, ◌==◌, arith,
  Bool-cases, inl, inr,
}

-- A positive amount that fits a long, into or out of one of the accounts, or into a new one.
abbrev pub IsServable : ℤ → ReqType → Type 0
IsServable (pos id) kind = id < max_accounts
IsServable (negsuc zero) req_deposit = Unit {0}
IsServable (negsuc zero) req_withdraw = ⊥
IsServable (negsuc (suc k)) kind = ⊥

abbrev pub IsWellFormed : ℕ → Option Request → Type 0
IsWellFormed pid none = Unit {0}
IsWellFormed pid (some r) =
    (r.client_pid ≡ pid)
    × IsServable r.bank_id r.kind
    × ((amount : ℕ) × (r.amount ≡ pos amount) × (0 < amount) × (amount ≤ long_max))

-- An amount that was parsed.
abbrev IsAmount : Option ℕ → Type 0
IsAmount none = Unit {0}
IsAmount (some n) = (0 < n) × (n ≤ long_max)

parse_amount-IsAmount : (n : Number) → IsAmount (parse_amount n)
unfolding parse_amount
parse_amount-IsAmount n =
    elim (Bool-cases
      (ltb long_max n.size || (not (length n.rest == 0) || (n.negative || n.size == 0)))) [
        | inl e ↦ rw e tt
        | inr e ↦ rw e (ground (arith, e), ground (arith, e))
      ]

complete_request-IsWellFormed :
    (pid : ℕ) (id : ℤ) (kind : ReqType) (amount : Option ℕ)
    → IsBankId id
    → IsAmount amount
    → IsWellFormed pid (complete_request pid id kind amount)
unfolding complete_request
complete_request-IsWellFormed pid (pos id) kind none lt a = tt
complete_request-IsWellFormed pid (negsuc k) kind none lt a = tt
complete_request-IsWellFormed pid (pos id) kind (some n) lt (some_money, fits) =
    (refl, lt, (n, refl, some_money, fits))
complete_request-IsWellFormed pid (negsuc zero) req_deposit (some n) lt (some_money, fits) =
    (refl, tt, (n, refl, some_money, fits))
complete_request-IsWellFormed pid (negsuc zero) req_withdraw (some n) lt a = tt
complete_request-IsWellFormed pid (negsuc (suc k)) kind (some n) lt a = tt

request_kind-IsWellFormed :
    (pid : ℕ) (id : ℤ) (kind : Option ReqType) (amount : List ℕ)
    → IsBankId id
    → IsWellFormed pid (request_kind pid id kind amount)
unfolding request_kind
request_kind-IsWellFormed pid id none amount h = tt
request_kind-IsWellFormed pid id (some kind) amount h =
    complete_request-IsWellFormed pid id kind (parse_amount (strtol amount)) h
      (parse_amount-IsAmount (strtol amount))

request_words-IsWellFormed :
    (pid : ℕ) (words : Option (List ℕ × List ℕ × List ℕ))
    → IsWellFormed pid (request_words pid words)
unfolding request_words
request_words-IsWellFormed pid none = tt
request_words-IsWellFormed pid (some (id, op, amount)) =
    request_kind-IsWellFormed pid (parse_bank_id id) (parse_kind op) amount
      (parse_bank_id-IsBankId id).0

-- Whatever line a client sends, the teller asks the server for nothing, or for a request of that
-- client with a positive amount that fits a long: on one of the 1024 accounts, or a deposit into a new
-- one.
pub parse_request-IsWellFormed :
    (pid : ℕ) (line : List ℕ) → IsWellFormed pid (parse_request pid line)
unfolding parse_request
parse_request-IsWellFormed pid line = request_words-IsWellFormed pid (scan_words line)
