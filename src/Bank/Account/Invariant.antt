-- ===== src/Bank/Account/Invariant.antt =====
-- What holds of the balances of midterm/bank_server.c at every step: an account is inactive or
-- holds a positive amount within long; and how a request moves the sum of all balances.
use system_hw.Prelude.Int.{ℤ, pos, negsuc, ◌-ℤ◌, pos_part, ltb_ℤ}
use system_hw.Prelude.{
  ℕ, zero, suc, ◌+◌, ◌≤◌, ◌<◌, ◌≡◌, refl, ap, ◌∙◌, Bool, true, false, ◌&&◌, List, [], ◌∷◌, length,
  length-set, get_or, get_or-replicate, replicate, set, arith, ltb, leb, ◌==◌, ◌⊎◌, inl, inr,
  Bool-cases,
}
use system_hw.Bank.Account.{
  LogLine, max_accounts, account_inactive, long_max, Database, Request, Response, ReqType,
  req_deposit, req_withdraw, is_inactive, balance_at, add_overflow, create_account,
  deposit_existing, set_balance, log_transaction, deposit, reply, process_deposit, withdraw_funds,
  withdraw_existing, process_withdraw, process_kind, process_request, eqb_ℤ, would_overflow,
}
use system_hw.Bank.Account.Search.{Finds, find_free_account_id-Finds}

-- `ACCOUNT_INACTIVE`, or an amount from 1 to LONG_MAX.
pub is_sound : ℤ → Bool
is_sound (pos n) = ltb 0 n && leb n long_max
is_sound (negsuc k) = k == 0

pub record IsSound (d : Database) : Type 0 where
  pub accounts : length d.balances ≡ max_accounts
  pub hint : d.next_id < max_accounts
  pub sound : (i : ℕ) → is_sound (get_or d.balances i account_inactive) ≡ true

-- The money in the bank; an inactive account holds none.
pub total_of : List ℤ → ℕ
total_of [] = 0
total_of (v ∷ vs) = pos_part v + total_of vs

set_sound :
    (vs : List ℤ) (i : ℕ) (v : ℤ)
    → ((j : ℕ) → is_sound (get_or vs j account_inactive) ≡ true)
    → is_sound v ≡ true
    → (j : ℕ) → is_sound (get_or (set vs i v) j account_inactive) ≡ true
set_sound [] i v h hv j = h j
set_sound (w ∷ vs) zero v h hv zero = hv
set_sound (w ∷ vs) zero v h hv (suc j) = h (suc j)
set_sound (w ∷ vs) (suc i) v h hv zero = h zero
set_sound (w ∷ vs) (suc i) v h hv (suc j) = set_sound vs i v (λ k. h (suc k)) hv j

total_of-set :
    (vs : List ℤ) (i : ℕ) (v : ℤ)
    → i < length vs
    → total_of (set vs i v) + pos_part (get_or vs i account_inactive) ≡ total_of vs + pos_part v
unfolding total_of
total_of-set [] i v h = elim h [ ]
total_of-set (w ∷ vs) zero v h = omega arith
total_of-set (w ∷ vs) (suc i) v h = omega (arith, total_of-set vs i v (omega arith))

set-set : (vs : List ℤ) (i : ℕ) (v w : ℤ) → set (set vs i v) i w ≡ set vs i w
set-set [] i v w = refl
set-set (x ∷ vs) zero v w = refl
set-set (x ∷ vs) (suc i) v w = ap (λ r. x ∷ r) (set-set vs i v w)

-- What a request for `a` that succeeds puts into the bank, and what it takes out.
abbrev pub paid_in : ReqType → ℕ → ℕ
paid_in req_deposit a = a
paid_in req_withdraw a = 0

abbrev pub paid_out : ReqType → ℕ → ℕ
paid_out req_deposit a = 0
paid_out req_withdraw a = a

-- The database is sound; status 0 says that the money has moved, and otherwise nothing has.
pub record Accounted (kind : ReqType) (a : ℕ) (d : Database) (out : Database × Response)
    : Type 0 where
  pub sound_after : IsSound out.0
  pub moved :
      ((out.1.op_status ≡ 0)
        × (total_of out.0.balances + paid_out kind a ≡ total_of d.balances + paid_in kind a))
      ⊎ ((0 < out.1.op_status) × (out.0 ≡ d))

inactive_lem : (v : ℤ) → is_inactive v ≡ true → v ≡ account_inactive
unfolding is_inactive
inactive_lem v h = ground arith

deposit_sum :
    (v : ℤ) (a : ℕ)
    → 0 < a
    → is_sound v ≡ true
    → is_inactive v ≡ false
    → (add_overflow v (pos a)).1 ≡ false
    → (is_sound (add_overflow v (pos a)).0 ≡ true)
      × (pos_part (add_overflow v (pos a)).0 ≡ pos_part v + a)
unfolding is_sound is_inactive add_overflow
deposit_sum v a h s i f = ground arith

withdraw_left :
    (v : ℤ) (a : ℕ)
    → 0 < a
    → is_sound v ≡ true
    → is_inactive v ≡ false
    → ltb_ℤ v (pos a) ≡ false
    → ((eqb_ℤ (v -ℤ pos a) (pos 0) ≡ true) ⊎ (is_sound (v -ℤ pos a) ≡ true))
      × (pos_part (v -ℤ pos a) + a ≡ pos_part v)
unfolding is_sound is_inactive ◌-ℤ◌
withdraw_left v a h s i f = ground arith

inactive_sound : is_sound account_inactive ≡ true
unfolding is_sound
inactive_sound = refl

-- A server without a log file starts sound.
pub fresh-IsSound :
    (hint : ℕ) (log : List LogLine)
    → hint < max_accounts
    → IsSound
        (record { balances = replicate max_accounts account_inactive; next_id = hint; log = log })
fresh-IsSound hint log lt = record {
  accounts = refl;
  hint = lt;
  sound = λ i. ap is_sound (get_or-replicate max_accounts i account_inactive) ∙ inactive_sound;
}

sound_amount : (a : ℕ) → 0 < a → a ≤ long_max → is_sound (pos a) ≡ true
unfolding is_sound
sound_amount a h k = ground arith

stays :
    (kind : ReqType) (a : ℕ) (d : Database) (r : Response)
    → IsSound d
    → 0 < r.op_status
    → Accounted kind a d (d, r)
stays kind a d r s h = record { sound_after = s; moved = inr (h, refl) }

-- A database after one write of a sound balance.
written-IsSound :
    (d d' : Database) (i : ℕ) (v : ℤ)
    → IsSound d
    → d'.balances ≡ set d.balances i v
    → d'.next_id < max_accounts
    → is_sound v ≡ true
    → IsSound d'
written-IsSound d d' i v s e lt sv = record {
  accounts = ap length e ∙ length-set d.balances i v ∙ s.accounts;
  hint = lt;
  sound = λ j.
      ap (λ vs. is_sound (get_or vs j account_inactive)) e ∙ set_sound d.balances i v s.sound sv j;
}

written-total :
    (d d' : Database) (i : ℕ) (v : ℤ)
    → IsSound d
    → i < max_accounts
    → d'.balances ≡ set d.balances i v
    → total_of d'.balances + pos_part (balance_at d i) ≡ total_of d.balances + pos_part v
unfolding balance_at
written-total d d' i v s lt e =
    omega (arith, ap total_of e, total_of-set d.balances i v (omega (arith, s.accounts)))

create-Accounted :
    (opens : Bool) (a : ℕ) (d : Database) (out : Database × ℤ)
    → 0 < a
    → a ≤ long_max
    → IsSound d
    → Finds d out
    → Accounted req_deposit a d (create_account opens (pos a) out)
unfolding create_account balance_at
create-Accounted opens a d (d', pos i) h k s (j, less, at, free, used, same) =
    let out = (create_account opens (pos a) (d', pos i)).0 in
    let stored : out.balances ≡ set d.balances i (pos a) = ground arith in
    let at : i < max_accounts = omega arith in
    let was : balance_at d i ≡ account_inactive = inactive_lem _ free in
    record {
      sound_after = written-IsSound d out i (pos a) s stored (ground arith) (sound_amount a h k);
      moved = inl (refl, omega (arith, written-total d out i (pos a) s at stored, ap pos_part was));
    }
create-Accounted opens a d (d', negsuc k) h m s (zero_code, same, full) =
    rw same (stays req_deposit a d _ s (omega arith))

-- A deposit that fits, into an account that is open.
deposit_made-Accounted :
    (opens : Bool) (a id : ℕ) (d : Database)
    → 0 < a
    → IsSound d
    → id < max_accounts
    → is_inactive (balance_at d id) ≡ false
    → (add_overflow (balance_at d id) (pos a)).1 ≡ false
    → Accounted req_deposit a d (
      log_transaction opens
          (deposit (pos id) (pos a) (add_overflow (balance_at d id) (pos a)).0)
          (set_balance d id (add_overflow (balance_at d id) (pos a)).0),
      reply (pos id) (add_overflow (balance_at d id) (pos a)).0 0,
    )
unfolding log_transaction set_balance balance_at
deposit_made-Accounted opens a id d h s lt is_open f =
    let v = (add_overflow (balance_at d id) (pos a)).0 in
    let out = log_transaction opens (deposit (pos id) (pos a) v) (set_balance d id v) in
    let stored : out.balances ≡ set d.balances id v = ground arith in
    let (sound, sum) = deposit_sum (balance_at d id) a h (s.sound id) is_open f in
    record {
      sound_after = written-IsSound d out id v s stored (ground (arith, s.hint)) sound;
      moved = inl (refl, omega (arith, written-total d out id v s lt stored, sum));
    }

deposit_existing-Accounted :
    (opens : Bool) (a id : ℕ) (d : Database)
    → 0 < a
    → IsSound d
    → id < max_accounts
    → (add_overflow (balance_at d id) (pos a)).1 ≡ false
    → Accounted req_deposit a d (deposit_existing opens (pos a) id d)
unfolding deposit_existing
deposit_existing-Accounted opens a id d h s lt f =
    elim (Bool-cases (is_inactive (balance_at d id))) [
      | inl gone ↦ rw gone (stays req_deposit a d _ s (omega arith))
      | inr is_open ↦ rw (is_open, f) (deposit_made-Accounted opens a id d h s lt is_open f)
    ]

-- A withdrawal that leaves `left`, which closes the account when it is 0.
withdraw_funds-Accounted :
    (opens opens_again : Bool) (a id : ℕ) (left : ℤ) (d : Database)
    → IsSound d
    → id < max_accounts
    → ((eqb_ℤ left (pos 0) ≡ true) ⊎ (is_sound left ≡ true))
    → pos_part left + a ≡ pos_part (balance_at d id)
    → Accounted req_withdraw a d (withdraw_funds opens opens_again (pos a) id left d)
unfolding withdraw_funds log_transaction set_balance
withdraw_funds-Accounted opens opens_again a id left d s lt sound sum =
    let out = (withdraw_funds opens opens_again (pos a) id left d).0 in
    elim (Bool-cases (eqb_ℤ left (pos 0))) [
      | inl empty ↦
          let stored : out.balances ≡ set d.balances id account_inactive =
            ground (arith, set-set d.balances id left account_inactive) in
          record {
            sound_after =
                written-IsSound d out id account_inactive s stored (ground (arith, s.hint))
                  inactive_sound;
            moved = inl (refl, ground (arith, written-total d out id account_inactive s lt stored));
          }
      | inr some_left ↦
          let stored : out.balances ≡ set d.balances id left = ground arith in
          record {
            sound_after =
                written-IsSound d out id left s stored (ground (arith, s.hint))
                  (ground (arith, sound));
            moved = inl (refl, omega (arith, written-total d out id left s lt stored));
          }
    ]

withdraw_existing-Accounted :
    (opens opens_again : Bool) (a id : ℕ) (d : Database)
    → 0 < a
    → IsSound d
    → id < max_accounts
    → Accounted req_withdraw a d (withdraw_existing opens opens_again (pos a) id d)
unfolding withdraw_existing
withdraw_existing-Accounted opens opens_again a id d h s lt =
    elim (Bool-cases (is_inactive (balance_at d id))) [
      | inl gone ↦ rw gone (stays req_withdraw a d _ s (omega arith))
      | inr is_open ↦ elim (Bool-cases (ltb_ℤ (balance_at d id) (pos a))) [
        | inl low ↦ rw (is_open, low) (stays req_withdraw a d _ s (omega arith))
        | inr covered ↦
            let (sound, sum) = withdraw_left (balance_at d id) a h (s.sound id) is_open covered in
            rw (is_open, covered)
              (withdraw_funds-Accounted opens opens_again a id (balance_at d id -ℤ pos a) d s lt
                sound sum)
      ]
    ]

process-Accounted :
    (kind : ReqType) (opens opens_again : Bool) (a : ℕ) (req : Request) (id : ℤ) (d : Database)
    → 0 < a
    → a ≤ long_max
    → IsSound d
    → req.amount ≡ pos a
    → req.bank_id ≡ id
    → would_overflow d (pos a) kind id ≡ false
    → Accounted kind a d (process_kind kind opens opens_again req d)
unfolding process_kind process_deposit process_withdraw would_overflow
process-Accounted req_deposit opens opens_again a req (negsuc zero) d h m s ea e f =
    rw (ea, e) (create-Accounted opens a d _ h m s (find_free_account_id-Finds d s.hint))
process-Accounted req_deposit opens opens_again a req (negsuc (suc k)) d h m s ea e f =
    rw (ea, e) (stays req_deposit a d _ s (omega arith))
process-Accounted req_deposit opens opens_again a req (pos id) d h m s ea e f =
    elim (Bool-cases (ltb id max_accounts)) [
      | inl lt ↦ rw (ea, e, lt) (deposit_existing-Accounted opens a id d h s (ground arith) f)
      | inr out ↦ rw (ea, e, out) (stays req_deposit a d _ s (omega arith))
    ]
process-Accounted req_withdraw opens opens_again a req (negsuc k) d h m s ea e f =
    rw (ea, e) (stays req_withdraw a d _ s (omega arith))
process-Accounted req_withdraw opens opens_again a req (pos id) d h m s ea e f =
    elim (Bool-cases (ltb id max_accounts)) [
      | inl lt ↦
          rw (ea, e, lt) (withdraw_existing-Accounted opens opens_again a id d h s (ground arith))
      | inr out ↦ rw (ea, e, out) (stays req_withdraw a d _ s (omega arith))
    ]

-- From a sound database, a request for a positive amount within long leaves a sound database,
-- unless it is a deposit whose sum overflows. Status 0 means that exactly the amount has been added
-- to the sum of all balances, or taken from it, and any other status that nothing has changed.
pub process_request-Accounted :
    (opens opens_again : Bool) (a : ℕ) (req : Request) (d : Database)
    → 0 < a
    → a ≤ long_max
    → IsSound d
    → req.amount ≡ pos a
    → would_overflow d (pos a) req.kind req.bank_id ≡ false
    → Accounted req.kind a d (process_request opens opens_again req d)
unfolding process_request
process_request-Accounted opens opens_again a req d h m s e f =
    process-Accounted req.kind opens opens_again a req req.bank_id d h m s e refl f
