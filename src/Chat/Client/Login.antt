-- ===== src/Chat/Client/Login.antt =====
-- `performClientLogin` of final/client/network.c, over the bytes of the standard input. What `send`
-- and the server answer is given; what is printed is left out.
pub mod Asks
pub mod Overlong
use system_hw.CString.{c_string}
use system_hw.Chat.Client.{ClientState, login_packet}
use system_hw.Chat.Names.{is_valid_username}
use system_hw.Prelude.{
  ℕ, zero, suc, ◌+◌, Bool, true, false, Option, none, some, List, [], ◌∷◌, ◌++◌, length, take, ◌==◌,
  if◌then◌else◌,
}

-- `USERNAME_BUF_SIZE` less one
abbrev pub username_len : ℕ
username_len = 16

-- `fgets` of at most so many bytes, with what is left of the input.
unfoldable pub fgets : ℕ → List ℕ → List ℕ × List ℕ
fgets zero input = ([], input)
fgets (suc n) [] = ([], [])
fgets (suc n) (c ∷ cs) =
    let (line, rest) = fgets n cs in if c == b'\n' then (c ∷ [], cs) else (c ∷ line, rest)

-- `line[strcspn(line, "\n")] = '\0'`
unfoldable pub without_newline : List ℕ → List ℕ
without_newline [] = []
without_newline (c ∷ cs) = if c == b'\n' then [] else c ∷ without_newline cs

abbrev pub name_in : List ℕ → List ℕ
name_in line = without_newline (c_string line)

-- The loop that asks for a name: the name and the rest of the input, or nothing at its end.
pub ask_username : ℕ → List ℕ → Option (List ℕ × List ℕ)
ask_username zero input = none
ask_username (suc fuel) [] = none
ask_username (suc fuel) (c ∷ cs) =
    let (line, rest) = fgets username_len (c ∷ cs) in
    let again = ask_username fuel rest in
    if is_valid_username (name_in line) then some (name_in line, rest) else again

-- The server's message, by its type.
pub data Response : Type 0 where
  login_success login_failure unexpected : Response

-- Whether `sendMessage` succeeds, and what `receiveMessage` gives.
pub record LoginNet : Type 0 where
  pub send_ok : Bool
  pub response : Option Response

-- After the server's answer.
pub finish_login : Option Response → List ℕ → ClientState → Bool × ClientState
finish_login (some login_success) name s = (true, record s { username = take 16 name })
finish_login (some login_failure) name s = (false, s)
finish_login (some unexpected) name s = (false, s)
finish_login none name s = (false, s)

pub log_in_as : LoginNet → ClientState → Option (List ℕ × List ℕ) → (Bool × ClientState) × List ℕ
unfolding finish_login
log_in_as net s none = ((false, s), [])
log_in_as net s (some (name, rest)) =
    if net.send_ok
    then (
      finish_login net.response name
          (record s { sent = s.sent ++ (login_packet (take 16 name) ∷ []) }),
      rest,
    )
    else ((false, s), rest)

-- `performClientLogin`: its result, the client, and the rest of the input. Each round reads a byte, so
-- one more than there are is enough.
pub perform_client_login : LoginNet → List ℕ → ClientState → (Bool × ClientState) × List ℕ
unfolding ask_username log_in_as
perform_client_login net input s = log_in_as net s (ask_username (length input + 1) input)
