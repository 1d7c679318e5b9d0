-- ===== src/Bank/Log/Summary.antt =====
-- The shutdown of midterm/bank_server.c: what a server that starts from the log that `cleanup`
-- wrote has for each account.
use system_hw.Prelude.Int.{ℤ, pos, negsuc}
use system_hw.Prelude.{
  none, ◌++◌, ℕ, zero, suc, ◌+◌, ◌<◌, ◌≡◌, ◌≢◌, refl, sym, ap, ◌∙◌, Bool, true, false, ◌&&◌, some,
  List, [], ◌∷◌, length, length-set, length-replicate, get_or, get_or-set_self, get_or-set_ne,
  get_or-replicate, set, replicate, arith, ltb, if◌then◌else◌,
}
use system_hw.Bank.Account.{
  max_accounts, account_inactive, eqb_ℤ, create, deposit, withdraw, close, LogLine, note, event,
  summary,
}
use system_hw.Bank.Log.{
  Loading, no_accounts, load_line, load_lines, load_state_from_log, AccountSummary, no_summary,
  summary_at, summarise_change, summarise_line, summarise_lines, summary_line, summary_lines,
  cleanup,
}
use system_hw.Bank.Log.Replay.{load_lines-append}

-- What is restored of a summary: its final balance, if the account has a `CREATE` line and is open.
unfoldable pub restored : AccountSummary → ℤ
restored s =
    if s.active && s.created
    then (if eqb_ℤ s.final_balance (pos 0) then account_inactive else s.final_balance)
    else account_inactive

balance_of : Loading → ℕ → ℤ
balance_of s i = get_or s.balances i account_inactive

module _ (i : ℕ) (x : AccountSummary) (s : Loading) (size : length s.balances ≡ max_accounts) where
  length-summary_line : length (load_lines s (summary_line i x)).balances ≡ max_accounts
  unfolding summary_line load_lines load_line
  length-summary_line = ground (arith, length-set s.balances i x.final_balance)

  summary_line_self :
      i < max_accounts
      → balance_of s i ≡ account_inactive
      → balance_of (load_lines s (summary_line i x)) i ≡ restored x
  unfolding summary_line load_lines load_line balance_of restored
  summary_line_self lt was =
      ground
        (arith, get_or-set_self s.balances i x.final_balance account_inactive (omega (arith, size)))

  summary_line_ne :
      (j : ℕ) → i ≢ j → balance_of (load_lines s (summary_line i x)) j ≡ balance_of s j
  unfolding summary_line load_lines load_line balance_of
  summary_line_ne j ne =
      ground (arith, get_or-set_ne s.balances i j x.final_balance account_inactive ne)

-- The lines for the accounts from `i` on leave the others alone.
summary_lines_before :
    (ss : List AccountSummary) (i j : ℕ) (s : Loading)
    → length s.balances ≡ max_accounts
    → j < i
    → balance_of (load_lines s (summary_lines i ss)) j ≡ balance_of s j
unfolding summary_lines load_lines
summary_lines_before [] i j s size h = refl
summary_lines_before (x ∷ ss) i j s size h =
    ap (λ t. balance_of t j) (load_lines-append s (summary_line i x) (summary_lines (i + 1) ss))
    ∙ summary_lines_before ss (i + 1) j (load_lines s (summary_line i x))
        (length-summary_line i x s size) (omega arith)
    ∙ summary_line_ne i x s size j (omega arith)

summary_lines_at :
    (ss : List AccountSummary) (i k : ℕ) (s : Loading)
    → length s.balances ≡ max_accounts
    → k < length ss
    → i + k < max_accounts
    → balance_of s (i + k) ≡ account_inactive
    → balance_of (load_lines s (summary_lines i ss)) (i + k) ≡ restored (summary_at ss k)
unfolding summary_lines load_lines summary_at
summary_lines_at [] i k s size h lt was = elim h [ ]
summary_lines_at (x ∷ ss) i zero s size h lt was =
    let same : i + 0 ≡ i = omega arith in
    rw same (
      ap (λ t. balance_of t i) (load_lines-append s (summary_line i x) (summary_lines (i + 1) ss))
      ∙ summary_lines_before ss (i + 1) i (load_lines s (summary_line i x))
          (length-summary_line i x s size) (omega arith)
      ∙ summary_line_self i x s size (omega arith) (ap (balance_of s) (sym same) ∙ was))
summary_lines_at (x ∷ ss) i (suc k) s size h lt was =
    let same : (i + 1) + k ≡ i + suc k = omega arith in
    ap (λ t. balance_of t (i + suc k))
      (load_lines-append s (summary_line i x) (summary_lines (i + 1) ss))
    ∙ rw (← same) (
        summary_lines_at ss (i + 1) k (load_lines s (summary_line i x))
          (length-summary_line i x s size) (omega arith) (omega arith)
          (summary_line_ne i x s size ((i + 1) + k) (omega arith) ∙ rw same was))

length-set_if :
    (ss : List AccountSummary) (b : Bool) (i : ℕ) (x : AccountSummary)
    → length (if b then set ss i x else ss) ≡ length ss
length-set_if ss true i x = length-set ss i x
length-set_if ss false i x = refl

length-summarise_change :
    (id : ℤ) (entry : List (Bool × ℤ)) (final : ℤ) (ss : List AccountSummary)
    → length (summarise_change id entry final ss) ≡ length ss
unfolding summarise_change
length-summarise_change (pos i) entry final ss = length-set_if ss _ i _
length-summarise_change (negsuc k) entry final ss = refl

pub length-summarise_line :
    (ss : List AccountSummary) (l : LogLine) → length (summarise_line ss l) ≡ length ss
unfolding summarise_line
length-summarise_line ss note = refl
length-summarise_line ss (event (create (pos i) a)) = length-set_if ss (ltb i max_accounts) i _
length-summarise_line ss (event (create (negsuc k) a)) = refl
length-summarise_line ss (event (deposit id a b)) = length-summarise_change id _ _ ss
length-summarise_line ss (event (withdraw id a b)) = length-summarise_change id _ _ ss
length-summarise_line ss (event (close id)) = length-summarise_change id _ _ ss
length-summarise_line ss (summary id ts final) = refl

length-summarise_lines :
    (ss : List AccountSummary) (log : List LogLine) → length (summarise_lines ss log) ≡ length ss
unfolding summarise_lines
length-summarise_lines ss [] = refl
length-summarise_lines ss (l ∷ log) =
    length-summarise_lines (summarise_line ss l) log ∙ length-summarise_line ss l

-- The summary that the reading loop of `cleanup` has for account `i`.
unfoldable pub summary_of : List LogLine → ℕ → AccountSummary
summary_of log i = summary_at (summarise_lines (replicate max_accounts no_summary) log) i

-- What `cleanup` writes.
pub written : List LogLine → List LogLine
written log =
    note
    ∷ (summary_lines 0 (summarise_lines (replicate max_accounts no_summary) log) ++ (note ∷ []))

pub written_lem :
    (log : List LogLine) (i : ℕ)
    → i < max_accounts
    → get_or (load_state_from_log (some (written log))).balances i account_inactive
      ≡ restored (summary_of log i)
unfolding load_state_from_log load_lines load_line summary_of balance_of written
written_lem log i lt =
    let ss = summarise_lines (replicate max_accounts no_summary) log in
    let same : 0 + i ≡ i = omega arith in
    ap (λ t. balance_of t i) (load_lines-append no_accounts (summary_lines 0 ss) (note ∷ []))
    ∙ ap (balance_of (load_lines no_accounts (summary_lines 0 ss))) (sym same)
    ∙ summary_lines_at ss 0 i no_accounts (length-replicate max_accounts account_inactive)
        (omega (
          arith,
          length-summarise_lines (replicate max_accounts no_summary) log,
          length-replicate max_accounts no_summary,
        ))
        (omega arith)
        (ap (balance_of no_accounts) same ∙ get_or-replicate max_accounts i account_inactive)

some_if : {A : Type 0} → (b : Bool) (x y : A) → (if b then some x else none) ≡ some y → y ≡ x
some_if true x y e = cc
some_if false x y e = cc

pub cleanup_lem : (log after : List LogLine) → cleanup log ≡ some after → after ≡ written log
unfolding cleanup written
cleanup_lem log after e = some_if _ (written log) after e
