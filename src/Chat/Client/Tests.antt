-- ===== src/Chat/Client/Tests.antt =====
-- The theorems on final/client/commands.c and the login at lines that a user may type.
use system_hw.CString.{codes, strcmp_eq}
use system_hw.Chat.Client.{
  broadcast_packet, whisper_packet, Net, ClientState, isspace, process_user_command,
}
use system_hw.Chat.Client.Sends.{Sends}
use system_hw.Chat.Client.Lines.{process_user_command-Sends}
use system_hw.Chat.Client.Whispers.{process_user_command-whispers, overlong_name-whispers}
use system_hw.Chat.Client.Broadcasts.{process_user_command-cuts_broadcast}
use system_hw.Chat.Client.Login.{ask_username, login_success, LoginNet, perform_client_login}
use system_hw.Chat.Client.Login.Asks.{Asks, ask_username-Asks}
use system_hw.Chat.Client.Login.Overlong.{LogsInAs, perform_client_login-cuts_name}
use system_hw.Chat.Names.{isalnum, all_alnum, is_valid_username}
use system_hw.Prelude.Int.{pos}
use system_hw.Prelude.{ℕ, ◌≡◌, refl, true, none, some, List, [], ◌∷◌, ◌++◌, take, arith}

abbrev net : Net
net = record { send_ok = true; file_size = λ _. pos 10; answer = none }

abbrev ann : ClientState
ann = record {
  socket_fd = pos 3;
  username = codes "ann";
  current_room = codes "lobby";
  connected = true;
  sent = [];
  printed = [];
}

process_user_command-Sends_example :
    Sends ann (process_user_command net (codes "/sendfile a/b.txt bob") ann)
process_user_command-Sends_example =
    process_user_command-Sends net (codes "/sendfile a/b.txt bob") ann

-- "/whisper bob hi"
process_user_command-whispers_example :
    process_user_command net (codes "/whisper " ++ (codes "bob" ++ (32 ∷ b'h' ∷ b'i' ∷ []))) ann
    ≡ record ann {
      sent =
          []
          ++ (whisper_packet (take 16 (codes "ann")) (codes "bob") (take 1023 (b'h' ∷ b'i' ∷ []))
              ∷ []);
    }
unfolding is_valid_username all_alnum isalnum isspace strcmp_eq codes
process_user_command-whispers_example =
    process_user_command-whispers net (codes "bob") b'h' (b'i' ∷ []) ann refl refl refl refl

abbrev long_name : List ℕ
long_name = codes "abcdefghijklmnop"

overlong_name-whispers_example :
    process_user_command net (codes "/whisper " ++ (long_name ++ (b'q' ∷ b' ' ∷ b'x' ∷ []))) ann
    ≡ record ann {
      sent =
          []
          ++ (whisper_packet (take 16 (codes "ann")) long_name (take 1023 (b'q' ∷ b' ' ∷ b'x' ∷ []))
              ∷ []);
    }
unfolding is_valid_username all_alnum isalnum isspace strcmp_eq codes
overlong_name-whispers_example =
    overlong_name-whispers net long_name b'q' (b' ' ∷ b'x' ∷ []) ann refl refl refl refl refl

process_user_command-cuts_broadcast_example :
    process_user_command net (codes "/broadcast " ++ (b'h' ∷ b'i' ∷ [])) ann ≡ record ann {
      sent =
          []
          ++ (broadcast_packet
                (take 16 (codes "ann"))
                (take 32 (codes "lobby"))
                (take 256 (b'h' ∷ b'i' ∷ []))
              ∷ []);
    }
unfolding isspace codes
process_user_command-cuts_broadcast_example =
    process_user_command-cuts_broadcast net b'h' (b'i' ∷ []) ann (omega arith) refl refl

-- A name that is not valid, then one that is, then a command.
abbrev typed : List ℕ
typed = codes "a b" ++ (b'\n' ∷ (codes "ann" ++ (b'\n' ∷ codes "/list")))

ask_username-Asks_example : Asks typed (ask_username 15 typed)
unfolding codes
ask_username-Asks_example = ask_username-Asks 15 typed (omega arith)

abbrev welcome : LoginNet
welcome = record { send_ok = true; response = some login_success }

perform_client_login-cuts_name_example :
    LogsInAs welcome ann long_name
      (codes "qr")
      (perform_client_login welcome (long_name ++ codes "qr") ann)
unfolding all_alnum isalnum codes
perform_client_login-cuts_name_example =
    perform_client_login-cuts_name welcome long_name (codes "qr") ann refl refl
