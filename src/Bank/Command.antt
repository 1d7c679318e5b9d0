-- ===== src/Bank/Command.antt =====
-- The commands that midterm/teller.c reads: `parse_bank_id`, and the parsing of a line in
-- `teller_main_inner`, over C strings as lists of bytes.
pub mod Ids
pub mod Requests
mod Tests
use system_hw.Bank.Account.{max_accounts, long_max, Request, ReqType, req_deposit, req_withdraw}
use system_hw.CString.{strcmp_eq}
use system_hw.Prelude.Int.{ℤ, pos, negsuc}
use system_hw.Prelude.{
  ℕ, zero, suc, ◌+◌, ◌*◌, ◌-◌, Bool, true, false, not, ◌&&◌, ◌||◌, Option, none, some, List, [],
  ◌∷◌, length, ltb, leb, ◌==◌, if◌then◌else◌,
}

-- What `strtol` gives with base 10 in the C locale: the size of the number, whether there is a minus
-- sign, and what follows it.
pub record Number : Type 0 where
  pub negative : Bool
  pub size : ℕ
  pub rest : List ℕ

abbrev pub is_digit : ℕ → Bool
is_digit c = leb b'0' c && leb c b'9'

abbrev pub is_blank : ℕ → Bool
is_blank c = c == 32 || (leb 9 c && leb c 13)

-- The digits, after a number.
pub take_digits : ℕ → List ℕ → ℕ × List ℕ
take_digits n [] = (n, [])
take_digits n (c ∷ cs) =
    let further = take_digits (n * 10 + (c - b'0')) cs in
    if is_digit c then further else (n, c ∷ cs)

number_of : Bool → ℕ × List ℕ → Number
number_of negative (n, rest) = record { negative = negative; size = n; rest = rest }

-- Without a digit nothing of the text is used.
unsigned : List ℕ → Bool → List ℕ → Number
unfolding number_of
unsigned text negative [] = record { negative = false; size = 0; rest = text }
unsigned text negative (c ∷ cs) =
    if is_digit c
    then number_of negative (take_digits 0 (c ∷ cs))
    else record { negative = false; size = 0; rest = text }

signed : List ℕ → List ℕ → Number
unfolding unsigned
signed text [] = unsigned text false []
signed text (c ∷ cs) =
    if c == b'-'
    then unsigned text true cs
    else if c == b'+'
    then unsigned text false cs
    else unsigned text false (c ∷ cs)

skip_blanks : List ℕ → List ℕ
skip_blanks [] = []
skip_blanks (c ∷ cs) = let rest = skip_blanks cs in if is_blank c then rest else c ∷ cs

pub strtol : List ℕ → Number
unfolding signed skip_blanks
strtol text = signed text (skip_blanks text)

-- An account number, or -2; a number beyond `long` sets `errno`, and is beyond the accounts as well.
in_range : Number → ℤ
in_range n =
    if not (length n.rest == 0)
    then negsuc 1
    else if n.negative && ltb 0 n.size
    then negsuc 1
    else if ltb n.size max_accounts
    then pos n.size
    else negsuc 1

abbrev pub bank_prefix : List ℕ
bank_prefix = b'B' ∷ b'a' ∷ b'n' ∷ b'k' ∷ b'I' ∷ b'D' ∷ b'_' ∷ []

-- What follows the prefix, as `strncmp` and the addition of 7 find it.
after_prefix : List ℕ → List ℕ → Option (List ℕ)
after_prefix [] text = some text
after_prefix (p ∷ ps) [] = none
after_prefix (p ∷ ps) (c ∷ cs) = let rest = after_prefix ps cs in if p == c then rest else none

number_after : List ℕ → Option (List ℕ) → ℤ
unfolding in_range
number_after text (some digits) = in_range (strtol digits)
number_after text none = in_range (strtol text)

abbrev pub new_account : List ℕ
new_account = b'N' ∷ []

abbrev pub bank_id_none : List ℕ
bank_id_none = b'B' ∷ b'a' ∷ b'n' ∷ b'k' ∷ b'I' ∷ b'D' ∷ b'_' ∷ b'N' ∷ b'o' ∷ b'n' ∷ b'e' ∷ []

-- `parse_bank_id`
pub parse_bank_id : List ℕ → ℤ
unfolding number_after after_prefix
parse_bank_id text =
    if strcmp_eq text new_account || strcmp_eq text bank_id_none
    then negsuc 0
    else number_after text (after_prefix bank_prefix text)

-- `%<limit>s` of `sscanf`: a word, and what follows it.
take_word : ℕ → List ℕ → List ℕ × List ℕ
take_word zero text = ([], text)
take_word (suc limit) [] = ([], [])
take_word (suc limit) (c ∷ cs) =
    let (word, rest) = take_word limit cs in if is_blank c then ([], c ∷ cs) else (c ∷ word, rest)

-- The three words of a line, if it has so many.
words_of : List ℕ × List ℕ → List ℕ × List ℕ → List ℕ × List ℕ → Option (List ℕ × List ℕ × List ℕ)
words_of (a, _) (b, _) (c, _) = if length c == 0 then none else some (a, b, c)

scan_words : List ℕ → Option (List ℕ × List ℕ × List ℕ)
unfolding take_word words_of
scan_words line =
    let a = take_word 63 (skip_blanks line) in
    let b = take_word 31 (skip_blanks a.1) in
    let c = take_word 31 (skip_blanks b.1) in words_of a b c

abbrev pub deposit_word : List ℕ
deposit_word = b'd' ∷ b'e' ∷ b'p' ∷ b'o' ∷ b's' ∷ b'i' ∷ b't' ∷ []

abbrev pub withdraw_word : List ℕ
withdraw_word = b'w' ∷ b'i' ∷ b't' ∷ b'h' ∷ b'd' ∷ b'r' ∷ b'a' ∷ b'w' ∷ []

parse_kind : List ℕ → Option ReqType
parse_kind op =
    if strcmp_eq op deposit_word
    then some req_deposit
    else if strcmp_eq op withdraw_word
    then some req_withdraw
    else none

-- A positive number that is a `long`, with nothing behind it.
parse_amount : Number → Option ℕ
parse_amount n =
    if ltb long_max n.size || (not (length n.rest == 0) || (n.negative || n.size == 0))
    then none
    else some n.size

-- The last check: nothing is withdrawn from a new account.
complete_request : ℕ → ℤ → ReqType → Option ℕ → Option Request
complete_request pid id kind none = none
complete_request pid (pos id) kind (some amount) =
    some (record { client_pid = pid; bank_id = pos id; kind = kind; amount = pos amount })
complete_request pid (negsuc zero) req_deposit (some amount) =
    some (record { client_pid = pid; bank_id = negsuc 0; kind = req_deposit; amount = pos amount })
complete_request pid (negsuc zero) req_withdraw (some amount) = none
complete_request pid (negsuc (suc k)) kind (some amount) = none

request_kind : ℕ → ℤ → Option ReqType → List ℕ → Option Request
unfolding complete_request parse_amount
request_kind pid id none amount = none
request_kind pid id (some kind) amount = complete_request pid id kind (parse_amount (strtol amount))

request_words : ℕ → Option (List ℕ × List ℕ × List ℕ) → Option Request
unfolding request_kind parse_kind
request_words pid none = none
request_words pid (some (id, op, amount)) =
    request_kind pid (parse_bank_id id) (parse_kind op) amount

-- The parsing of a line in `teller_main_inner`; `none` is the answer that something went wrong.
pub parse_request : ℕ → List ℕ → Option Request
unfolding request_words scan_words
parse_request pid line = request_words pid (scan_words line)
