-- ===== src/Chat/Client/Lines.antt =====
-- What a line that the user types makes the client of final/client/commands.c send.
use system_hw.CString.{codes, strcmp_eq}
use system_hw.Chat.Client.{
  disconnect_packet, Net, ClientState, command_len, arg1_len, is_open, usage_whisper, usage_join,
  usage_sendfile, arg2_len, take_token, trim_leading_whitespace, send_disconnect_signal,
  broadcast_line, whisper_line, other_line, process_user_command,
}
use system_hw.Chat.Client.Sends.{
  Sends, if-Sends, print-Sends, join-Sends, leave-Sends, broadcast-Sends, whisper-Sends, file-Sends,
}
use system_hw.Chat.Names.{max_username_len}
use system_hw.Prelude.{
  ℕ, refl, inl, inr, Bool, true, false, ◌&&◌, List, [], ◌∷◌, ◌++◌, length, take, length-take, ltb,
  if◌then◌else◌, arith,
}

exit-Sends :
    (net : Net) (s : ClientState)
    → Sends s (record (send_disconnect_signal net s) { connected = false })
unfolding send_disconnect_signal
exit-Sends net s = by_test (is_open s.socket_fd && net.send_ok)
  where
    by_test :
        (b : Bool)
        → Sends s
            (record (if b
              then record s { sent = s.sent ++ (disconnect_packet (take 16 s.username) ∷ []) }
              else s) { connected = false })
    by_test true = record {
      messages = inr (_, refl, refl);
      same_name = refl;
      same_room = refl;
      same_socket = refl;
    }
    by_test false = record {
      messages = inl refl;
      same_name = refl;
      same_room = refl;
      same_socket = refl;
    }

broadcast_line-Sends :
    (net : Net) (text : List ℕ) (s : ClientState) → Sends s (broadcast_line net text s)
unfolding broadcast_line
broadcast_line-Sends net text s =
    if-Sends s (ltb 0 (length text)) _ _
      (λ _. broadcast-Sends net (take arg1_len text) s (omega (arith, length-take arg1_len text)))
      (λ _. print-Sends _ s)

whisper_line-Sends :
    (net : Net) (text : List ℕ) (s : ClientState) → Sends s (whisper_line net text s)
unfolding whisper_line
whisper_line-Sends net text s =
    let target = (take_token max_username_len text).0 in
    let message = trim_leading_whitespace (take_token max_username_len text).1 in
    if-Sends s (ltb 0 (length target) && ltb 0 (length message)) _ _
      (λ _. whisper-Sends net target (take arg2_len message) s) (λ _. print-Sends usage_whisper s)

other_line-Sends :
    (net : Net) (command text : List ℕ) (s : ClientState) → Sends s (other_line net command text s)
unfolding other_line
other_line-Sends net command text s =
    let arg1 = (take_token arg1_len text).0 in
    let rest = trim_leading_whitespace (take_token arg1_len text).1 in
    let arg2 = (take_token arg2_len rest).0 in
    if-Sends s (strcmp_eq command (codes "/join")) _ _
      (λ _.
        if-Sends s (ltb 0 (length arg1)) _ _ (λ _. join-Sends net arg1 s)
          (λ _. print-Sends usage_join s))
      λ _.
        if-Sends s (strcmp_eq command (codes "/leave")) _ _ (λ _. leave-Sends net s)
          λ _.
            if-Sends s (strcmp_eq command (codes "/sendfile")) _ _
              (λ _.
                if-Sends s (ltb 0 (length arg1) && ltb 0 (length arg2)) _ _
                  (λ _. file-Sends net arg1 arg2 s) (λ _. print-Sends usage_sendfile s))
              λ _.
                if-Sends s (strcmp_eq command (codes "/exit")) _ _ (λ _. exit-Sends net s)
                  λ _.
                    if-Sends s (strcmp_eq command (codes "/help")) _ _ (λ _. print-Sends _ s)
                      (λ _. print-Sends _ s)

-- Whatever the user types, the client sends at most one message, under its own name, and one that is
-- proper: names and file types are valid, contents and files neither empty nor too long, nobody
-- whispers or sends a file to himself, and a broadcast or a leave comes from inside a room.
pub process_user_command-Sends :
    (net : Net) (input : List ℕ) (s : ClientState) → Sends s (process_user_command net input s)
unfolding process_user_command
process_user_command-Sends net input s =
    let command = (take_token command_len input).0 in
    let text = trim_leading_whitespace (take_token command_len input).1 in
    if-Sends s (strcmp_eq command (codes "/broadcast")) _ _ (λ _. broadcast_line-Sends net text s)
      λ _.
        if-Sends s (strcmp_eq command (codes "/whisper")) _ _ (λ _. whisper_line-Sends net text s)
          (λ _. other_line-Sends net command text s)
