-- ===== src/Bank/Command/Ids.antt =====
-- Which account `parse_bank_id` of midterm/teller.c finds in a word.
use system_hw.Bank.Account.{max_accounts}
use system_hw.Bank.Command.{
  Number, is_digit, is_blank, take_digits, number_of, unsigned, signed, skip_blanks, strtol,
  in_range, bank_prefix, after_prefix, number_after, new_account, bank_id_none, parse_bank_id,
}
use system_hw.CString.{strcmp_eq, strcmp_eq_iff}
use system_hw.Prelude.Int.{ℤ, pos, negsuc}
use system_hw.Prelude.{
  ℕ, zero, suc, ◌+◌, ◌*◌, ◌-◌, ◌<◌, ◌≡◌, ◌≢◌, refl, ap, ◌∙◌, Bool, true, false, ◌&&◌, Option, none,
  some, List, [], ◌∷◌, ◌++◌, length, arith, ltb, ◌==◌, ◌⊎◌, inl, inr, Bool-cases,
}

-- The number that decimal digits stand for, by their places.
abbrev pub ten_to : ℕ → ℕ
ten_to zero = 1
ten_to (suc k) = 10 * ten_to k

abbrev pub value : List ℕ → ℕ
value [] = 0
value (d ∷ ds) = (d - b'0') * ten_to (length ds) + value ds

abbrev pub all_digits : List ℕ → Bool
all_digits [] = true
all_digits (d ∷ ds) = is_digit d && all_digits ds

shift : (n x t v : ℕ) → (n * 10 + x) * t + v ≡ n * (10 * t) + (x * t + v)
shift n x t v = grind arith

take_digits_all :
    (n : ℕ) (ds : List ℕ)
    → all_digits ds ≡ true
    → take_digits n ds ≡ (n * ten_to (length ds) + value ds, [])
unfolding take_digits
take_digits_all n [] h = ap (λ m. (m, [])) (grind arith)
take_digits_all n (d ∷ ds) h =
    let here : is_digit d ≡ true = ground (arith, h) in
    rw here (
      take_digits_all (n * 10 + (d - b'0')) ds (ground (arith, h))
      ∙ ap (λ m. (m, [])) (shift n (d - b'0') (ten_to (length ds)) (value ds)))

skip_blanks_digits : (ds : List ℕ) → all_digits ds ≡ true → skip_blanks ds ≡ ds
unfolding skip_blanks
skip_blanks_digits [] h = refl
skip_blanks_digits (d ∷ ds) h = let dark : is_blank d ≡ false = ground (arith, h) in rw dark refl

strtol_digits :
    (ds : List ℕ)
    → all_digits ds ≡ true
    → strtol ds ≡ record { negative = false; size = value ds; rest = [] }
unfolding strtol signed unsigned number_of
strtol_digits [] h = refl
strtol_digits (d ∷ ds) h =
    let plain : (d == b'-') ≡ false = ground (arith, h) in
    let plain' : (d == b'+') ≡ false = ground (arith, h) in
    let here : is_digit d ≡ true = ground (arith, h) in
    rw (skip_blanks_digits (d ∷ ds) h, plain, plain', here, take_digits_all 0 (d ∷ ds) h)
      (ap (λ m. record { negative = false; size = m; rest = [] }) (grind arith))

in_range_size :
    (n : ℕ) → n < max_accounts → in_range (record { negative = false; size = n; rest = [] }) ≡ pos n
unfolding in_range
in_range_size n lt = let fits : ltb n max_accounts ≡ true = ground (arith, lt) in rw fits refl

-- A word of digits does not begin like another one that begins with `x`.
other_word :
    (x : ℕ) (ds xs : List ℕ)
    → is_digit x ≡ false
    → all_digits ds ≡ true
    → strcmp_eq ds (x ∷ xs) ≡ false
unfolding strcmp_eq
other_word x [] xs letter h = refl
other_word x (d ∷ ds) xs letter h =
    let differ : (d == x) ≡ false = ground (arith, h, letter) in rw differ refl

no_prefix : (ds : List ℕ) → all_digits ds ≡ true → after_prefix bank_prefix ds ≡ none
unfolding after_prefix
no_prefix [] h = refl
no_prefix (d ∷ ds) h = let differ : (b'B' == d) ≡ false = ground (arith, h) in rw differ refl

prefix_none :
    (ds : List ℕ) → all_digits ds ≡ true → strcmp_eq (bank_prefix ++ ds) bank_id_none ≡ false
unfolding strcmp_eq
prefix_none ds h = other_word b'N' ds (b'o' ∷ b'n' ∷ b'e' ∷ []) refl h

after_prefix_digits : (ds : List ℕ) → after_prefix bank_prefix (bank_prefix ++ ds) ≡ some ds
unfolding after_prefix
after_prefix_digits ds = refl

numbered :
    (text : List ℕ) (r : Option (List ℕ))
    → strcmp_eq text new_account ≡ false
    → strcmp_eq text bank_id_none ≡ false
    → after_prefix bank_prefix text ≡ r
    → parse_bank_id text ≡ number_after text r
unfolding parse_bank_id
numbered text r e f g = rw (e, f) (ap (number_after text) g)

prefix_new : (ds : List ℕ) → strcmp_eq (bank_prefix ++ ds) new_account ≡ false
unfolding strcmp_eq
prefix_new ds = refl

-- A word of digits, alone or behind "BankID_", is the account with that number if there are so many
-- accounts; leading zeros are allowed, and no digits at all stand for account 0.
parse_bank_id-digits :
    (ds : List ℕ)
    → all_digits ds ≡ true
    → value ds < max_accounts
    → (parse_bank_id ds ≡ pos (value ds)) × (parse_bank_id (bank_prefix ++ ds) ≡ pos (value ds))
unfolding number_after
parse_bank_id-digits ds h lt =
    let found : in_range (strtol ds) ≡ pos (value ds) =
      ap in_range (strtol_digits ds h) ∙ in_range_size (value ds) lt in
    (
      numbered ds none (other_word b'N' ds [] refl h) (other_word b'B' ds _ refl h) (no_prefix ds h)
          ∙ found,
      numbered (bank_prefix ++ ds) (some ds) (prefix_new ds) (prefix_none ds h)
            (after_prefix_digits ds)
          ∙ found,
    )

-- What the teller makes of a word: -2, -1, or the number of an account.
abbrev pub IsBankId : ℤ → Type 0
IsBankId (pos n) = n < max_accounts
IsBankId (negsuc k) = k < 2

in_range-IsBankId : (n : Number) → IsBankId (in_range n)
unfolding in_range
in_range-IsBankId n = elim (Bool-cases (length n.rest == 0)) [
  | inr e ↦ rw e (omega arith)
  | inl e ↦ elim (Bool-cases (n.negative && ltb 0 n.size)) [
    | inl f ↦ rw (e, f) (omega arith)
    | inr f ↦ elim (Bool-cases (ltb n.size max_accounts)) [
      | inl g ↦ rw (e, f, g) (ground (arith, g))
      | inr g ↦ rw (e, f, g) (omega arith)
    ]
  ]
]

number_after-IsBankId : (text : List ℕ) (r : Option (List ℕ)) → IsBankId (number_after text r)
unfolding number_after
number_after-IsBankId text none = in_range-IsBankId (strtol text)
number_after-IsBankId text (some digits) = in_range-IsBankId (strtol digits)

-- A number is never -1.
in_range_old : (n : Number) → in_range n ≢ negsuc 0
unfolding in_range
in_range_old n = elim (Bool-cases (length n.rest == 0)) [
  | inr e ↦ rw e (λ g. cc)
  | inl e ↦ elim (Bool-cases (n.negative && ltb 0 n.size)) [
    | inl f ↦ rw (e, f) (λ g. cc)
    | inr f ↦ elim (Bool-cases (ltb n.size max_accounts)) [
      | inl g ↦ rw (e, f, g) (λ k. cc)
      | inr g ↦ rw (e, f, g) (λ k. cc)
    ]
  ]
]

number_after_old : (text : List ℕ) (r : Option (List ℕ)) → number_after text r ≢ negsuc 0
unfolding number_after
number_after_old text none = in_range_old (strtol text)
number_after_old text (some digits) = in_range_old (strtol digits)

-- Whatever the word, the result is -2, or -1, which only the words "N" and "BankID_None" give, or the
-- number of one of the 1024 accounts.
pub parse_bank_id-IsBankId :
    (text : List ℕ)
    → IsBankId (parse_bank_id text)
      × ((parse_bank_id text ≡ negsuc 0) → (text ≡ new_account) ⊎ (text ≡ bank_id_none))
unfolding parse_bank_id
parse_bank_id-IsBankId text = elim (Bool-cases (strcmp_eq text new_account)) [
  | inl e ↦ rw e (omega arith, λ f. inl ((strcmp_eq_iff text new_account).0 e))
  | inr e ↦ elim (Bool-cases (strcmp_eq text bank_id_none)) [
    | inl f ↦ rw (e, f) (omega arith, λ g. inr ((strcmp_eq_iff text bank_id_none).0 f))
    | inr f ↦
        rw (e, f)
          (
            number_after-IsBankId text (after_prefix bank_prefix text),
            λ g. absurd (number_after_old text (after_prefix bank_prefix text) g),
          )
  ]
]
