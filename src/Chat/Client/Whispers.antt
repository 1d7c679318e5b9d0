-- ===== src/Chat/Client/Whispers.antt =====
-- Private messages as the user types them, in final/client/commands.c.
use system_hw.CString.{codes, strcmp_eq}
use system_hw.Chat.Client.{
  whisper_packet, Net, ClientState, isspace, take_token, trim_leading_whitespace, send_or,
  send_whisper_command, whisper_line, process_user_command,
}
use system_hw.Chat.Client.Sends.{take_all, username-length}
use system_hw.Chat.Client.Words.{
  username-Solid, username-some, Ends, take_token-word, trim-solid, isspace-blank, trim_blank,
  trim-word,
}
use system_hw.Chat.Client.Chosen.{whisper_command}
use system_hw.Chat.Names.{max_username_len, is_valid_username}
use system_hw.Prelude.{
  ℕ, ◌≤◌, ◌<◌, ◌≡◌, refl, ap₂, ◌∙◌, inl, inr, true, false, List, [], ◌∷◌, ◌++◌, length, take,
  length-take, ltb, leb, ◌==◌, arith,
}

sent_whisper :
    (net : Net) (name content : List ℕ) (s : ClientState)
    → is_valid_username name ≡ true
    → strcmp_eq s.username name ≡ false
    → 0 < length content
    → length content ≤ 1023
    → net.send_ok ≡ true
    → send_whisper_command net name content s
      ≡ record s { sent = s.sent ++ (whisper_packet (take 16 s.username) name content ∷ []) }
unfolding send_whisper_command send_or
sent_whisper net name content s valid other some_bytes short ok =
    let full : (length content == 0) ≡ false = ground (arith, some_bytes) in
    let fits : leb 1024 (length content) ≡ false = ground (arith, short) in
    rw (valid, other, full, fits, ok)
      (ap₂ (λ n c. record s { sent = s.sent ++ (whisper_packet (take 16 s.username) n c ∷ []) })
        (take_all 16 name (username-length name valid)) (take_all 1023 content short))

whispered :
    (net : Net) (text name rest message : List ℕ) (s : ClientState)
    → take_token max_username_len text ≡ (name, rest)
    → trim_leading_whitespace rest ≡ message
    → 0 < length message
    → is_valid_username name ≡ true
    → strcmp_eq s.username name ≡ false
    → net.send_ok ≡ true
    → whisper_line net text s ≡ record s {
      sent = s.sent ++ (whisper_packet (take 16 s.username) name (take 1023 message) ∷ []);
    }
unfolding whisper_line
whispered net text name rest message s e f some_bytes valid other ok =
    let named : ltb 0 (length name) ≡ true = ground (arith, username-some name valid) in
    let told : ltb 0 (length message) ≡ true = ground (arith, some_bytes) in
    rw (e, f, named, told)
      (sent_whisper net name (take 1023 message) s valid other
        (omega (arith, length-take 1023 message, some_bytes))
        (omega (arith, length-take 1023 message)) ok)

-- What follows the command is a valid name and something that begins with a blank or, if the name is
-- as long as names may be, with anything.
typed :
    (net : Net) (name rest message : List ℕ) (s : ClientState)
    → Ends max_username_len name rest
    → trim_leading_whitespace rest ≡ message
    → 0 < length message
    → is_valid_username name ≡ true
    → strcmp_eq s.username name ≡ false
    → net.send_ok ≡ true
    → process_user_command net (codes "/whisper " ++ (name ++ rest)) s ≡ record s {
      sent = s.sent ++ (whisper_packet (take 16 s.username) name (take 1023 message) ∷ []);
    }
typed net name rest message s ends f some_bytes valid other ok =
    let solid = username-Solid name valid in
    whisper_command net (name ++ rest) s (trim-word name rest (username-some name valid) solid)
    ∙ whispered net (name ++ rest) name rest message s
        (take_token-word max_username_len name rest solid ends) f some_bytes valid other ok

-- "/whisper NAME MESSAGE", with a valid name that is not the user's own and a message that does not
-- begin with a blank, sends the message, up to 1023 bytes, to that name and to nobody else, and prints
-- nothing, if `send` succeeds.
pub process_user_command-whispers :
    (net : Net) (name : List ℕ) (c : ℕ) (cs : List ℕ) (s : ClientState)
    → is_valid_username name ≡ true
    → strcmp_eq s.username name ≡ false
    → isspace c ≡ false
    → net.send_ok ≡ true
    → process_user_command net (codes "/whisper " ++ (name ++ (32 ∷ c ∷ cs))) s ≡ record s {
      sent = s.sent ++ (whisper_packet (take 16 s.username) name (take 1023 (c ∷ cs)) ∷ []);
    }
process_user_command-whispers net name c cs s valid other dark ok =
    typed net name (32 ∷ c ∷ cs) (c ∷ cs) s
      (inr (username-length name valid, 32, c ∷ cs, refl, isspace-blank))
      (trim_blank (c ∷ cs) ∙ trim-solid c cs dark) (omega arith) valid other ok

-- A name that is too long is not refused: its first 16 bytes, if they are a valid name that is not the
-- user's own, are taken for the receiver, and the rest of the name for the beginning of the message.
pub overlong_name-whispers :
    (net : Net) (name : List ℕ) (c : ℕ) (cs : List ℕ) (s : ClientState)
    → length name ≡ 16
    → is_valid_username name ≡ true
    → strcmp_eq s.username name ≡ false
    → isspace c ≡ false
    → net.send_ok ≡ true
    → process_user_command net (codes "/whisper " ++ (name ++ (c ∷ cs))) s ≡ record s {
      sent = s.sent ++ (whisper_packet (take 16 s.username) name (take 1023 (c ∷ cs)) ∷ []);
    }
overlong_name-whispers net name c cs s long valid other dark ok =
    typed net name (c ∷ cs) (c ∷ cs) s (inl long) (trim-solid c cs dark) (omega arith) valid other
      ok
