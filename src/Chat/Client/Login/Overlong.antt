-- ===== src/Chat/Client/Login/Overlong.antt =====
-- What `performClientLogin` of final/client/network.c makes of a line that is longer than a name.
use system_hw.CString.{c_string}
use system_hw.Chat.Client.{ClientState, login_packet}
use system_hw.Chat.Client.Login.{
  username_len, fgets, without_newline, name_in, ask_username, LoginNet, Response, login_success,
  login_failure, unexpected, finish_login, log_in_as, perform_client_login,
}
use system_hw.Chat.Names.{isalnum, all_alnum, is_valid_username}
use system_hw.Chat.Rooms.Find.{take_all}
use system_hw.Prelude.{
  ℕ, suc, ◌≡◌, refl, sym, ap, ◌∙◌, true, false, Option, none, some, Bool, inl, inr, Bool-cases, ◌≢◌,
  take, subst, List, [], ◌∷◌, ◌++◌, length, ◌==◌, arith,
}

alnum_bytes : (c : ℕ) → isalnum c ≡ true → ((c == b'\n') ≡ false) × ((c == 0) ≡ false)
unfolding isalnum
alnum_bytes c h = (ground arith, ground arith)

alnum_parts :
    (c : ℕ) (cs : List ℕ) → all_alnum (c ∷ cs) ≡ true → (isalnum c ≡ true) × (all_alnum cs ≡ true)
unfolding all_alnum isalnum
alnum_parts c cs h = (ground arith, ground arith)

fgets-alnum :
    (name rest : List ℕ) → all_alnum name ≡ true → fgets (length name) (name ++ rest) ≡ (name, rest)
unfolding fgets
fgets-alnum [] rest h = refl
fgets-alnum (c ∷ cs) rest h =
    let (here, there) = alnum_parts c cs h in
    rw ((alnum_bytes c here).0, fgets-alnum cs rest there) refl

name_in-alnum : (name : List ℕ) → all_alnum name ≡ true → name_in name ≡ name
unfolding c_string without_newline
name_in-alnum [] h = refl
name_in-alnum (c ∷ cs) h =
    let (here, there) = alnum_parts c cs h in
    rw ((alnum_bytes c here).1, (alnum_bytes c here).0) (ap (λ xs. c ∷ xs) (name_in-alnum cs there))

full_name-IsValid :
    (name : List ℕ)
    → length name ≡ username_len
    → all_alnum name ≡ true
    → is_valid_username name ≡ true
unfolding is_valid_username
full_name-IsValid name full h = rw (full, h) refl

ask_taken :
    (fuel : ℕ) (input name rest : List ℕ)
    → ((length input == 0) ≡ false)
    → fgets username_len input ≡ (name, rest)
    → name_in name ≡ name
    → is_valid_username name ≡ true
    → ask_username (suc fuel) input ≡ some (name, rest)
unfolding ask_username
ask_taken fuel [] name rest nonempty line same valid = cc
ask_taken fuel (c ∷ cs) name rest nonempty line same valid = rw (line, same, valid) refl

full_nonempty :
    (name rest : List ℕ) → length name ≡ username_len → (length (name ++ rest) == 0) ≡ false
full_nonempty [] rest full = ground arith
full_nonempty (c ∷ cs) rest full = ground arith

cut_name :
    (net : LoginNet) (name rest : List ℕ) (s : ClientState)
    → length name ≡ username_len
    → all_alnum name ≡ true
    → perform_client_login net (name ++ rest) s ≡ log_in_as net s (some (name, rest))
unfolding perform_client_login
cut_name net name rest s full h = ap (log_in_as net s) (
    ap (λ n. ask_username n (name ++ rest)) {y = suc (length (name ++ rest))} (omega arith)
    ∙ ask_taken (length (name ++ rest)) (name ++ rest) name rest (full_nonempty name rest full)
        (ap (λ n. fgets n (name ++ rest)) (sym full) ∙ fgets-alnum name rest h)
        (name_in-alnum name h) (full_name-IsValid name full h))

abbrev pub LogsInAs :
    LoginNet → ClientState → List ℕ → List ℕ → (Bool × ClientState) × List ℕ → Type 0
LogsInAs net s name rest out =
    let asking = record s { sent = s.sent ++ (login_packet name ∷ []) } in
    (out.1 ≡ rest)
    × (net.send_ok ≡ true
        → net.response ≡ some login_success
        → out.0 ≡ (true, record asking { username = name }))
    × (net.send_ok ≡ true → net.response ≢ some login_success → out.0 ≡ (false, asking))
    × (net.send_ok ≡ false → out.0 ≡ (false, s))

finish_success :
    (r : Option Response) (name : List ℕ) (s : ClientState)
    → r ≡ some login_success
    → take 16 name ≡ name
    → finish_login r name s ≡ (true, record s { username = name })
unfolding finish_login
finish_success r name s e whole = rw (e, whole) refl

finish_failure :
    (r : Option Response) (name : List ℕ) (s : ClientState)
    → r ≢ some login_success
    → finish_login r name s ≡ (false, s)
unfolding finish_login
finish_failure (some login_success) name s ne = absurd (ne refl)
finish_failure (some login_failure) name s ne = refl
finish_failure (some unexpected) name s ne = refl
finish_failure none name s ne = refl

log_in_as-LogsInAs :
    (net : LoginNet) (s : ClientState) (name rest : List ℕ)
    → take 16 name ≡ name
    → LogsInAs net s name rest (log_in_as net s (some (name, rest)))
unfolding log_in_as
log_in_as-LogsInAs net s name rest whole = elim (Bool-cases net.send_ok) [
  | inl on ↦ rw on (
    refl,
    λ _ e.
        finish_success net.response name _ e whole
        ∙ ap (λ n. (true, record s { sent = s.sent ++ (login_packet n ∷ []); username = name }))
            whole,
    λ _ ne.
        finish_failure net.response name _ ne
        ∙ ap (λ n. (false, record s { sent = s.sent ++ (login_packet n ∷ []) })) whole,
    λ off. absurd (cc off),
  )
  | inr off ↦ rw off (refl, λ on. absurd (cc on), λ on. absurd (cc on), λ _. refl)
]

-- Of a line that begins with 16 letters and digits, however it goes on, the first 16 bytes are the name
-- that the client asks for, and the rest is left for the reader of commands. If the request is sent and
-- the answer is a success, the client has that name; if it is sent and the answer is another one, or
-- there is none, the login fails; and if it is not sent, it fails and nothing was sent.
pub perform_client_login-cuts_name :
    (net : LoginNet) (name rest : List ℕ) (s : ClientState)
    → length name ≡ 16
    → all_alnum name ≡ true
    → LogsInAs net s name rest (perform_client_login net (name ++ rest) s)
perform_client_login-cuts_name net name rest s full h =
    subst (LogsInAs net s name rest) (sym (cut_name net name rest s full h))
      (log_in_as-LogsInAs net s name rest (take_all 16 name (omega (arith, full))))
