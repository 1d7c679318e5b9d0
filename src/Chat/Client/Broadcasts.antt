-- ===== src/Chat/Client/Broadcasts.antt =====
-- Broadcasts as the user types them, in final/client/commands.c.
use system_hw.CString.{codes}
use system_hw.Chat.Client.{
  broadcast_packet, Net, ClientState, isspace, send_or, send_broadcast_command, broadcast_line,
  process_user_command,
}
use system_hw.Chat.Client.Sends.{take_all}
use system_hw.Chat.Client.Words.{trim-solid}
use system_hw.Chat.Client.Chosen.{broadcast_command}
use system_hw.Prelude.{
  ℕ, ◌≤◌, ◌<◌, ◌≡◌, refl, ap, ◌∙◌, true, false, List, [], ◌∷◌, ◌++◌, length, take, length-take, ltb,
  leb, ◌==◌, arith,
}

sent_broadcast :
    (net : Net) (content : List ℕ) (s : ClientState)
    → 0 < length s.current_room
    → 0 < length content
    → length content ≤ 1023
    → net.send_ok ≡ true
    → send_broadcast_command net content s ≡ record s {
      sent =
          s.sent ++ (broadcast_packet (take 16 s.username) (take 32 s.current_room) content ∷ []);
    }
unfolding send_broadcast_command send_or
sent_broadcast net content s inside some_bytes short ok =
    let room : (length s.current_room == 0) ≡ false = ground (arith, inside) in
    let full : (length content == 0) ≡ false = ground (arith, some_bytes) in
    let fits : leb 1024 (length content) ≡ false = ground (arith, short) in
    rw (room, full, fits, ok)
      (ap
        (λ t. record s {
          sent = s.sent ++ (broadcast_packet (take 16 s.username) (take 32 s.current_room) t ∷ []);
        })
        (take_all 1023 content short))

broadcast_some :
    (net : Net) (text : List ℕ) (s : ClientState)
    → 0 < length text
    → broadcast_line net text s ≡ send_broadcast_command net (take 256 text) s
unfolding broadcast_line
broadcast_some net text s some_bytes =
    let told : ltb 0 (length text) ≡ true = ground (arith, some_bytes) in rw told refl

-- A broadcast is cut after 256 bytes, without a word: the client's own check for messages that are too
-- long comes after the cut and never fails.
pub process_user_command-cuts_broadcast :
    (net : Net) (c : ℕ) (cs : List ℕ) (s : ClientState)
    → 0 < length s.current_room
    → isspace c ≡ false
    → net.send_ok ≡ true
    → process_user_command net (codes "/broadcast " ++ (c ∷ cs)) s ≡ record s {
      sent =
          s.sent
          ++ (broadcast_packet (take 16 s.username) (take 32 s.current_room) (take 256 (c ∷ cs))
              ∷ []);
    }
process_user_command-cuts_broadcast net c cs s inside dark ok =
    broadcast_command net (c ∷ cs) s (trim-solid c cs dark)
    ∙ broadcast_some net (c ∷ cs) s (omega arith)
    ∙ sent_broadcast net (take 256 (c ∷ cs)) s inside (omega (arith, length-take 256 (c ∷ cs)))
        (omega (arith, length-take 256 (c ∷ cs))) ok
