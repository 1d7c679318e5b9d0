-- ===== src/Bank/Log/Overflow.antt =====
-- A deposit whose sum overflows (`process_deposit` of midterm/bank_server.c): memory and log part.
use system_hw.Prelude.Int.{ℤ, pos, negsuc}
use system_hw.Prelude.{
  ℕ, ◌+◌, ◌-◌, ◌≤◌, ◌<◌, ◌≡◌, refl, ap, ◌∙◌, Bool, true, some, List, suc, length, get_or,
  get_or-set_self, ltb, false, arith,
}
use system_hw.Bank.Account.{
  LogLine, max_accounts, account_inactive, long_max, long_modulus, Database, Request, balance_at,
  add_overflow, set_balance, deposit_existing, deposit_by_id, process_deposit, is_inactive, reply,
}
use system_hw.Bank.Log.{load_lines, no_accounts, load_state_from_log}
use system_hw.Bank.Log.Replay.{IsRecoverable}

wrapped :
    (n a : ℕ)
    → n ≤ long_max
    → a ≤ long_max
    → long_max < n + a
    → (add_overflow (pos n) (pos a) ≡ (negsuc (long_modulus - suc (n + a)), true))
unfolding add_overflow
wrapped n a h k o = ground arith

restarted :
    (d : Database) (log : List LogLine) (id : ℕ) (v : ℤ)
    → log ≡ d.log
    → get_or (load_lines no_accounts d.log).balances id account_inactive ≡ v
    → get_or (load_state_from_log (some log)).balances id account_inactive ≡ v
unfolding load_state_from_log
restarted d log id v e h =
    ap (λ l. get_or (load_lines no_accounts l).balances id account_inactive) e ∙ h

balance_at-set_balance :
    (d : Database) (id : ℕ) (w : ℤ)
    → length d.balances ≡ max_accounts
    → id < max_accounts
    → balance_at (set_balance d id w) id ≡ w
unfolding balance_at set_balance
balance_at-set_balance d id w size lt =
    get_or-set_self d.balances id w account_inactive (omega (arith, size))

log-set_balance : (d : Database) (id : ℕ) (w : ℤ) → (set_balance d id w).log ≡ d.log
unfolding set_balance
log-set_balance d id w = refl

open_lem : (n : ℕ) → is_inactive (pos n) ≡ false
unfolding is_inactive
open_lem n = ground arith

-- The wrapped sum is stored, and read back.
stored :
    (opens : Bool) (n a id : ℕ) (w : ℤ) (d : Database)
    → balance_at d id ≡ pos n
    → add_overflow (pos n) (pos a) ≡ (w, true)
    → deposit_existing opens (pos a) id d
      ≡ (set_balance d id w, reply (pos id) (balance_at (set_balance d id w) id) 2)
unfolding deposit_existing
stored opens n a id w d was sum = rw (was, open_lem n, sum) refl

overflow_lem :
    (opens : Bool) (n a id : ℕ) (d : Database)
    → length d.balances ≡ max_accounts
    → id < max_accounts
    → balance_at d id ≡ pos n
    → add_overflow (pos n) (pos a) ≡ (negsuc (long_modulus - suc (n + a)), true)
    → get_or (load_lines no_accounts d.log).balances id account_inactive ≡ pos n
    → let out = deposit_by_id opens (pos a) (pos id) d in
      (out.1.op_status ≡ 2)
      × (out.1.result_balance ≡ negsuc (long_modulus - suc (n + a)))
      × (balance_at out.0 id ≡ negsuc (long_modulus - suc (n + a)))
      × (out.0.log ≡ d.log)
      × (get_or (load_state_from_log (some out.0.log)).balances id account_inactive ≡ pos n)
unfolding deposit_by_id
overflow_lem opens n a id d size lt was sum log =
    let w = negsuc (long_modulus - suc (n + a)) in
    let inside : ltb id max_accounts ≡ true = ground arith in
    rw (inside, stored opens n a id w d was sum)
      (
        refl,
        balance_at-set_balance d id w size lt,
        balance_at-set_balance d id w size lt,
        log-set_balance d id w,
        restarted d (set_balance d id w).log id (pos n) (log-set_balance d id w) log,
      )

-- On a server whose log gives its balances back, an open account has n, and a deposit of a is
-- made, both within long, whose sum is not: the client is told that the deposit failed (status
-- 2), the log stays as it is, and yet the balance in memory and in the answer is the negative number
-- that the sum wraps to, while a server that starts from the log has n.
pub deposit_overflow_is_stored :
    (opens : Bool) (n a id : ℕ) (req : Request) (d : Database)
    → length d.balances ≡ max_accounts
    → IsRecoverable d
    → id < max_accounts
    → balance_at d id ≡ pos n
    → n ≤ long_max
    → a ≤ long_max
    → long_max < n + a
    → req.bank_id ≡ pos id
    → req.amount ≡ pos a
    → let out = process_deposit opens req d in
      (out.1.op_status ≡ 2)
      × (out.1.result_balance ≡ negsuc (long_modulus - suc (n + a)))
      × (balance_at out.0 id ≡ negsuc (long_modulus - suc (n + a)))
      × (out.0.log ≡ d.log)
      × (get_or (load_state_from_log (some out.0.log)).balances id account_inactive ≡ pos n)
unfolding process_deposit
deposit_overflow_is_stored opens n a id req d size r lt was h k o e ea =
    rw (e, ea)
      (overflow_lem opens n a id d size lt was (wrapped n a h k o)
        (ap (λ vs. get_or vs id account_inactive) r.replays ∙ was))
