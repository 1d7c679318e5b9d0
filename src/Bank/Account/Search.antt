-- ===== src/Bank/Account/Search.antt =====
-- The search of `find_free_account_id` (midterm/bank_server.c) goes once round the accounts.
use system_hw.Prelude.Int.{ℤ, pos, negsuc}
use system_hw.Prelude.{
  ℕ, zero, suc, ◌+◌, ◌-◌, ◌%◌, ◌<◌, ◌≡◌, refl, true, false, List, get_or, arith, ◌==◌, Bool-cases,
  inl, inr,
}
use native.Mathlib.Decide.{dec_lt}
use system_hw.Bank.Account.{
  max_accounts, account_inactive, Database, is_inactive, Probe, found, bank_full, probing, probe,
  find_free_account_id, found_id,
}

module _ (balances : List ℤ) (start : ℕ) where
  -- The first `k` accounts from `start` on, going round, are in use.
  abbrev pub UsedUpTo : ℕ → Type 0
  UsedUpTo k =
      (j : ℕ)
      → j < k
      → is_inactive (get_or balances ((start + j) % max_accounts) account_inactive) ≡ false

  -- The account found is free, and is the first free one from `start` on; or none is free.
  abbrev pub Outcome : Probe → Type 0
  Outcome (found i) =
      (j : ℕ) × (j < max_accounts)
      × (i ≡ (start + j) % max_accounts)
      × (is_inactive (get_or balances i account_inactive) ≡ true)
      × UsedUpTo j
  Outcome bank_full = UsedUpTo max_accounts
  Outcome probing = ⊥

  UsedUpTo-suc :
      (k : ℕ)
      → UsedUpTo k
      → is_inactive (get_or balances ((start + k) % max_accounts) account_inactive) ≡ false
      → UsedUpTo (suc k)
  UsedUpTo-suc k used here j h = elim (dec_lt j k) [
    | yes lt ↦ used j lt
    | no ge ↦ let same : k ≡ j = omega arith in rw (← same) here
  ]

  probe-Outcome_from :
      (fuel k current : ℕ)
      → suc k + fuel ≡ max_accounts
      → start < max_accounts
      → current ≡ (start + k) % max_accounts
      → UsedUpTo k
      → Outcome (probe (suc fuel) balances start current)
  unfolding probe
  probe-Outcome_from zero k current sum lt at used =
      let all : UsedUpTo (suc k) → UsedUpTo max_accounts = λ u j h. u j (omega arith) in
      elim (Bool-cases (is_inactive (get_or balances current account_inactive))) [
        | inl free ↦ rw free (k, omega arith, at, free, used)
        | inr busy ↦
            let round : ((current + 1) % max_accounts == start) ≡ true = ground arith in
            rw (busy, round) (all (UsedUpTo-suc k used (rw (← at) busy)))
      ]
  probe-Outcome_from (suc fuel) k current sum lt at used =
      elim (Bool-cases (is_inactive (get_or balances current account_inactive))) [
        | inl free ↦ rw free (k, omega arith, at, free, used)
        | inr busy ↦
            let more : ((current + 1) % max_accounts == start) ≡ false = ground arith in
            rw (busy, more)
              (probe-Outcome_from fuel (suc k) ((current + 1) % max_accounts) (omega arith) lt
                (omega arith) (UsedUpTo-suc k used (rw (← at) busy)))
      ]

  -- One round for each account is enough: the search ends with the first free account from
  -- `start` on, or after it has seen that all are in use.
  pub probe-Outcome : start < max_accounts → Outcome (probe max_accounts balances start start)
  probe-Outcome lt =
      probe-Outcome_from 1023 0 start refl lt (omega arith) (λ j h. absurd (omega arith))

  -- Going round from `start` passes every account.
  UsedUpTo-all :
      start < max_accounts
      → UsedUpTo max_accounts
      → (i : ℕ) → i < max_accounts
      → is_inactive (get_or balances i account_inactive) ≡ false
  UsedUpTo-all lt used i h =
      let at : (start + (i + max_accounts - start) % max_accounts) % max_accounts ≡ i =
        omega arith in
      rw at at (used ((i + max_accounts - start) % max_accounts) (omega arith))

-- What `find_free_account_id` may return, and the database that it leaves.
abbrev pub Finds : Database → Database × ℤ → Type 0
Finds d (d', pos i) =
    (j : ℕ) × (j < max_accounts)
    × (i ≡ (d.next_id + j) % max_accounts)
    × (is_inactive (get_or d.balances i account_inactive) ≡ true)
    × UsedUpTo d.balances d.next_id j
    × (d' ≡ record d { next_id = (i + 1) % max_accounts })
Finds d (d', negsuc k) =
    (k ≡ 0)
    × (d' ≡ d)
    × ((i : ℕ) → i < max_accounts → is_inactive (get_or d.balances i account_inactive) ≡ false)

found_id-Finds :
    (d : Database) (r : Probe)
    → d.next_id < max_accounts
    → Outcome d.balances d.next_id r
    → Finds d (found_id d r)
unfolding found_id
found_id-Finds d (found i) lt (j, less, at, free, used) = (j, less, at, free, used, refl)
found_id-Finds d bank_full lt used = (refl, refl, UsedUpTo-all d.balances d.next_id lt used)
found_id-Finds d probing lt o = elim o [ ]

-- With the hint in range, `find_free_account_id` either returns the first free account from the
-- hint on, going round, and moves the hint behind it; or it returns -1, changes nothing, and every
-- account is in use.
pub find_free_account_id-Finds :
    (d : Database) → d.next_id < max_accounts → Finds d (find_free_account_id d)
unfolding find_free_account_id
find_free_account_id-Finds d lt =
    found_id-Finds d (probe max_accounts d.balances d.next_id d.next_id) lt
      (probe-Outcome d.balances d.next_id lt)
