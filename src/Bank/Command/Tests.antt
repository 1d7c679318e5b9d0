-- ===== src/Bank/Command/Tests.antt =====
-- The theorems on the words of a command at concrete ones.
use system_hw.Bank.Account.{req_deposit}
use system_hw.Bank.Command.{
  deposit_word, parse_request, scan_words, take_word, words_of, skip_blanks, request_words,
  request_kind, parse_kind, parse_amount, complete_request, strtol, signed, unsigned, number_of,
  take_digits,
}
use system_hw.Bank.Command.Requests.{IsWellFormed, parse_request-IsWellFormed}
use system_hw.CString.{strcmp_eq}
use system_hw.Prelude.{some}
use system_hw.Bank.Command.{new_account, parse_bank_id}
use system_hw.Prelude.Int.{pos, negsuc}
use system_hw.Prelude.{◌≡◌, refl, List, ℕ, [], ◌∷◌, ◌++◌}

-- "042"
abbrev forty_two : List ℕ
forty_two = b'0' ∷ b'4' ∷ b'2' ∷ []

-- "N deposit 042"
abbrev deposit_line : List ℕ
deposit_line = new_account ++ (32 ∷ (deposit_word ++ (32 ∷ forty_two)))

deposit_line_request :
    parse_request 7 deposit_line
    ≡ some (record { client_pid = 7; bank_id = negsuc 0; kind = req_deposit; amount = pos 42 })
unfolding parse_request scan_words take_word words_of skip_blanks request_words request_kind
    parse_kind parse_amount complete_request parse_bank_id strtol signed unsigned number_of
    take_digits strcmp_eq
deposit_line_request = refl

parse_request-IsWellFormed_example : IsWellFormed 7 (parse_request 7 deposit_line)
parse_request-IsWellFormed_example = parse_request-IsWellFormed 7 deposit_line
