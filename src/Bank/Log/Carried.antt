-- ===== src/Bank/Log/Carried.antt =====
-- What the shutdown of midterm/bank_server.c carries over of a log, account by account.
use system_hw.Prelude.Int.{ℤ, pos, negsuc}
use system_hw.Prelude.{
  Option, none, ◌++◌, ℕ, ◌<◌, ◌≡◌, ◌≢◌, refl, sym, ap, ◌∙◌, Bool, true, false, ◌||◌, some, List, [],
  ◌∷◌, length, length-replicate, get_or, get_or-set_self, get_or-set_ne, get_or-replicate, set,
  replicate, arith, ltb, ◌==◌, if◌then◌else◌, inl, inr, Bool-cases,
}
use system_hw.Bank.Account.{
  max_accounts, account_inactive, eqb_ℤ, create, deposit, withdraw, close, LogLine, note, event,
  summary,
}
use system_hw.Bank.Log.{
  load_state_from_log, AccountSummary, no_summary, summary_at, summarise_create, summarise_change,
  summarise_line, summarise_lines, cleanup,
}
use system_hw.Bank.Log.Summary.{
  restored, length-summarise_line, summary_of, written_lem, cleanup_lem,
}

-- Whether a log has a `CREATE` line for account `i`.
unfoldable pub has_create : ℕ → List LogLine → Bool
has_create i [] = false
has_create i (event (create (pos k) amount) ∷ log) = k == i || has_create i log
has_create i (l ∷ log) = has_create i log

-- The balance that a line says account `i` has after it.
unfoldable pub balance_on : ℕ → LogLine → Option ℤ
balance_on i (event (create (pos k) amount)) = if k == i then some amount else none
balance_on i (event (deposit (pos k) amount balance)) = if k == i then some balance else none
balance_on i (event (withdraw (pos k) amount balance)) = if k == i then some balance else none
balance_on i (event (close (pos k))) = if k == i then some (pos 0) else none
balance_on i _ = none

pub or_else : Option ℤ → ℤ → ℤ
or_else none v = v
or_else (some v) w = v

-- The balance on the last event of account `i`, or `v` if it has none.
unfoldable pub last_balance : ℕ → ℤ → List LogLine → ℤ
unfolding balance_on or_else
last_balance i v [] = v
last_balance i v (l ∷ ls) = last_balance i (or_else (balance_on i l) v) ls

-- An account with balance 0 is not carried over.
abbrev pub carried_over : ℤ → ℤ
carried_over v = if eqb_ℤ v (pos 0) then account_inactive else v

-- What the summary of an account comes to with the rest of the log.
comes_to : Bool → ℤ → ℕ → List LogLine → ℤ
comes_to created v i log =
    if created || has_create i log then carried_over (last_balance i v log) else account_inactive

set_if_ne :
    (ss : List AccountSummary) (b : Bool) (k i : ℕ) (x : AccountSummary)
    → k ≢ i
    → summary_at (if b then set ss k x else ss) i ≡ summary_at ss i
unfolding summary_at
set_if_ne ss true k i x ne = get_or-set_ne ss k i x no_summary ne
set_if_ne ss false k i x ne = refl

set_if_self :
    (ss : List AccountSummary) (b : Bool) (k i : ℕ) (x : AccountSummary)
    → b ≡ true
    → k ≡ i
    → k < length ss
    → summary_at (if b then set ss k x else ss) i ≡ x
unfolding summary_at
set_if_self ss b k i x on at lt = rw (on, ← at) (get_or-set_self ss k x no_summary lt)

-- After a `CREATE` line it does not matter what was before.
forgotten :
    (i : ℕ) (log : List LogLine) (v w : ℤ)
    → has_create i log ≡ true
    → last_balance i v log ≡ last_balance i w log
unfolding has_create last_balance balance_on or_else
forgotten i [] v w h = absurd (cc h)
forgotten i (note ∷ log) v w h = forgotten i log v w h
forgotten i (event (create (pos k) a) ∷ log) v w h = elim (Bool-cases (k == i)) [
  | inl e ↦ rw e refl
  | inr e ↦ rw e (forgotten i log v w (rw e at h))
]
forgotten i (event (create (negsuc k) a) ∷ log) v w h = forgotten i log v w h
forgotten i (event (deposit (pos k) a b) ∷ log) v w h = forgotten i log _ _ h
forgotten i (event (deposit (negsuc k) a b) ∷ log) v w h = forgotten i log v w h
forgotten i (event (withdraw (pos k) a b) ∷ log) v w h = forgotten i log _ _ h
forgotten i (event (withdraw (negsuc k) a b) ∷ log) v w h = forgotten i log v w h
forgotten i (event (close (pos k)) ∷ log) v w h = forgotten i log _ _ h
forgotten i (event (close (negsuc k)) ∷ log) v w h = forgotten i log v w h
forgotten i (summary id ts final ∷ log) v w h = forgotten i log v w h

-- How the summary `x` of an account and the rest of the log come to the same as `x'` and `log`, when
-- a line in front of `log` says nothing, `none`, or a balance, and is no `CREATE` line.
abbrev Follows : ℕ → List LogLine → Option ℤ → AccountSummary → AccountSummary → Type 0
Follows i log said x x' =
    (x'.active ≡ x'.created)
    × (comes_to x'.created x'.final_balance i log
        ≡ comes_to x.created (or_else said x.final_balance) i log)

comes_to_fresh :
    (i : ℕ) (v w : ℤ) (log : List LogLine) → comes_to false v i log ≡ comes_to false w i log
unfolding comes_to
comes_to_fresh i v w log = elim (Bool-cases (has_create i log)) [
  | inl e ↦ rw e (ap carried_over (forgotten i log v w e))
  | inr e ↦ rw e refl
]

kept-Follows :
    (i : ℕ) (log : List LogLine) (x x' : AccountSummary)
    → x.active ≡ x.created
    → x' ≡ x
    → Follows i log none x x'
unfolding or_else
kept-Follows i log x x' same e = rw e (same, refl)

changed-Follows :
    (ss : List AccountSummary) (i : ℕ) (entry : List (Bool × ℤ)) (b : ℤ) (log : List LogLine)
    → i < length ss
    → (summary_at ss i).active ≡ (summary_at ss i).created
    → Follows i log (some b) (summary_at ss i) (
        summary_at
          (if (summary_at ss i).created
            then set ss i (record (summary_at ss i) {
              active = true;
              final_balance = b;
              transactions = (summary_at ss i).transactions ++ entry;
            })
            else ss)
          i)
unfolding summary_at or_else
changed-Follows ss i entry b log lt same = elim (Bool-cases (get_or ss i no_summary).created) [
  | inl c ↦
      rw
        (
          c,
          get_or-set_self ss i
              (record (get_or ss i no_summary) {
                active = true;
                final_balance = b;
                transactions = (get_or ss i no_summary).transactions ++ entry;
                created = true;
              })
              no_summary lt,
        )
        (refl, refl)
  | inr c ↦ rw c (
    same,
    ap (λ z. comes_to z (get_or ss i no_summary).final_balance i log) c
        ∙ comes_to_fresh i (get_or ss i no_summary).final_balance b log,
  )
]

change-Follows :
    (ss : List AccountSummary) (k i : ℕ) (entry : List (Bool × ℤ)) (b : ℤ) (log : List LogLine)
    → length ss ≡ max_accounts
    → i < max_accounts
    → (summary_at ss i).active ≡ (summary_at ss i).created
    → Follows i log
        (if k == i then some b else none)
        (summary_at ss i)
        (summary_at (summarise_change (pos k) entry b ss) i)
unfolding summarise_change
change-Follows ss k i entry b log size lt same = elim (Bool-cases (k == i)) [
  | inr ne ↦
      rw ne
        (kept-Follows i log (summary_at ss i) _ same (set_if_ne ss _ k i _ (ground (arith, ne))))
  | inl e ↦
      let at : k ≡ i = ground (arith, e) in
      let inside : ltb i max_accounts ≡ true = ground (arith, lt) in
      rw (e, at, inside) (changed-Follows ss i entry b log (omega (arith, size, lt)) same)
]

-- What `l` makes of the summaries comes, with the rest of the log, to the same.
abbrev Steps : ℕ → List AccountSummary → LogLine → List LogLine → Type 0
Steps i ss l log =
    let x = summary_at ss i in
    let x' = summary_at (summarise_line ss l) i in
    (x'.active ≡ x'.created)
    × (comes_to x'.created x'.final_balance i log ≡ comes_to x.created x.final_balance i (l ∷ log))

created_comes :
    (b : Bool) (v a : ℤ) (k i : ℕ) (log : List LogLine)
    → (k == i) ≡ true
    → comes_to true a i log ≡ comes_to b v i (event (create (pos k) a) ∷ log)
unfolding comes_to has_create last_balance balance_on or_else
created_comes true v a k i log e = rw e refl
created_comes false v a k i log e = rw e refl

passed_comes :
    (b : Bool) (v a : ℤ) (k i : ℕ) (log : List LogLine)
    → (k == i) ≡ false
    → comes_to b v i log ≡ comes_to b v i (event (create (pos k) a) ∷ log)
unfolding comes_to has_create last_balance balance_on or_else
passed_comes b v a k i log e = rw e refl

create-Steps :
    (ss : List AccountSummary) (k i : ℕ) (a : ℤ) (log : List LogLine)
    → length ss ≡ max_accounts
    → i < max_accounts
    → (summary_at ss i).active ≡ (summary_at ss i).created
    → Steps i ss (event (create (pos k) a)) log
unfolding summarise_line summarise_create
create-Steps ss k i a log size lt same = elim (Bool-cases (k == i)) [
  | inr ne ↦
      let x = summary_at ss i in
      let kept = set_if_ne ss (ltb k max_accounts) k i _ (ground (arith, ne)) in
      (
        ap (λ y. y.active) kept ∙ same ∙ ap (λ y. y.created) (sym kept),
        ap (λ y. comes_to y.created y.final_balance i log) kept
            ∙ passed_comes x.created x.final_balance a k i log ne,
      )
  | inl e ↦
      let at : k ≡ i = ground (arith, e) in
      let inside : ltb k max_accounts ≡ true = ground (arith, at, lt) in
      let x = summary_at ss i in
      let there : k < length ss = omega (arith, size, at, lt) in
      let made = set_if_self ss (ltb k max_accounts) k i _ inside at there in
      (
        ap (λ y. y.active) made ∙ sym (ap (λ y. y.created) made),
        ap (λ y. comes_to y.created y.final_balance i log) made
            ∙ created_comes x.created x.final_balance a k i log e,
      )
]

line-Steps :
    (ss : List AccountSummary) (i : ℕ) (l : LogLine) (log : List LogLine)
    → length ss ≡ max_accounts
    → i < max_accounts
    → (summary_at ss i).active ≡ (summary_at ss i).created
    → Steps i ss l log
unfolding summarise_line comes_to has_create last_balance balance_on or_else
line-Steps ss i note log size lt same = (same, refl)
line-Steps ss i (event (create (pos k) a)) log size lt same = create-Steps ss k i a log size lt same
line-Steps ss i (event (create (negsuc k) a)) log size lt same = (same, refl)
line-Steps ss i (event (deposit (pos k) a b)) log size lt same =
    change-Follows ss k i _ b log size lt same
line-Steps ss i (event (deposit (negsuc k) a b)) log size lt same = (same, refl)
line-Steps ss i (event (withdraw (pos k) a b)) log size lt same =
    change-Follows ss k i _ b log size lt same
line-Steps ss i (event (withdraw (negsuc k) a b)) log size lt same = (same, refl)
line-Steps ss i (event (close (pos k))) log size lt same =
    change-Follows ss k i _ (pos 0) log size lt same
line-Steps ss i (event (close (negsuc k))) log size lt same = (same, refl)
line-Steps ss i (summary id ts final) log size lt same = (same, refl)

restored_comes :
    (x : AccountSummary) (i : ℕ)
    → x.active ≡ x.created
    → restored x ≡ comes_to x.created x.final_balance i []
unfolding restored comes_to has_create last_balance
restored_comes x i same = elim (Bool-cases x.created) [
  | inl c ↦ rw (same, c) refl
  | inr c ↦ rw (same, c) refl
]

lines_come :
    (log : List LogLine) (ss : List AccountSummary) (i : ℕ)
    → length ss ≡ max_accounts
    → i < max_accounts
    → (summary_at ss i).active ≡ (summary_at ss i).created
    → restored (summary_at (summarise_lines ss log) i)
      ≡ comes_to (summary_at ss i).created (summary_at ss i).final_balance i log
unfolding summarise_lines
lines_come [] ss i size lt same = restored_comes (summary_at ss i) i same
lines_come (l ∷ log) ss i size lt same =
    let (here, comes) = line-Steps ss i l log size lt same in
    lines_come log (summarise_line ss l) i (length-summarise_line ss l ∙ size) lt here ∙ comes

summaries_come :
    (log : List LogLine) (i : ℕ)
    → i < max_accounts
    → restored (summary_of log i) ≡ comes_to false (negsuc 0) i log
unfolding summary_of summary_at
summaries_come log i lt =
    let empty = get_or-replicate max_accounts i no_summary in
    lines_come log (replicate max_accounts no_summary) i (length-replicate max_accounts no_summary)
      lt (ap (λ x. x.active) empty ∙ sym (ap (λ x. x.created) empty))
    ∙ ap (λ x. comes_to x.created x.final_balance i log) empty

-- A server that starts from the log that `cleanup` left has, for each account that the old log has a
-- `CREATE` line for, the balance on the last line of that log about the account: its amount if that is
-- a `CREATE`, the new balance if it is a deposit or a withdrawal; and the account is inactive if that
-- balance is 0, or if the line is a `CLOSE`. An account without a `CREATE` line, as one that only a
-- summary line of an earlier shutdown is about, is inactive: it is lost. The summary lines fit the
-- buffer of the reader.
pub restart_after_cleanup :
    (log after : List LogLine) (i : ℕ)
    → cleanup log ≡ some after
    → i < max_accounts
    → get_or (load_state_from_log (some after)).balances i account_inactive
      ≡ (if has_create i log then carried_over (last_balance i (pos 0) log) else account_inactive)
unfolding comes_to
restart_after_cleanup log after i e lt =
    ap (λ l. get_or (load_state_from_log (some l)).balances i account_inactive)
      (cleanup_lem log after e)
    ∙ written_lem log i lt
    ∙ summaries_come log i lt
    ∙ comes_to_fresh i (negsuc 0) (pos 0) log
