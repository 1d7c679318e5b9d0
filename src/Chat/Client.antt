-- ===== src/Chat/Client.antt =====
-- final/client/commands.c: from a line that the user types to what the client sends and prints. What
-- the network and the file system answer is the environment's. A message is given by the fields that
-- its sender sets, the others are zero, and what is printed by the message that it is.
pub mod Sends
pub mod Lines
pub mod Words
pub mod Chosen
pub mod Whispers
pub mod Broadcasts
pub mod Login
mod Tests
use system_hw.CString.{codes, strcmp_eq, strrchr}
use system_hw.Chat.Names.{
  max_username_len, is_valid_username, is_valid_room_name, is_valid_file_type,
}
use system_hw.Chat.Transfer.{max_file_size}
use system_hw.Prelude.Int.{ℤ, pos, negsuc}
use system_hw.Prelude.{
  ℕ, zero, suc, ◌⊎◌, inl, inr, Bool, true, false, ◌&&◌, ◌||◌, not, Option, none, some, List, [],
  ◌∷◌, ◌++◌, length, take, drop, ltb, leb, ◌==◌, if◌then◌else◌,
}

-- The sizes of `command_buffer`, `arg1_buffer` and `arg2_buffer`, less one.
abbrev pub command_len : ℕ
command_len = 63

abbrev pub arg1_len : ℕ
arg1_len = 256

abbrev pub arg2_len : ℕ
arg2_len = 1023

-- Messages to the server, the sender's name first.
pub data Packet : Type 0 where
  join_packet : (sender room : List ℕ) → Packet
  leave_packet : (sender : List ℕ) → Packet
  broadcast_packet : (sender room content : List ℕ) → Packet
  whisper_packet : (sender receiver content : List ℕ) → Packet
  file_packet : (sender receiver filename : List ℕ) (size : ℕ) → Packet
  disconnect_packet : (sender : List ℕ) → Packet
  login_packet : (sender : List ℕ) → Packet

-- What the server answers to a request for a file transfer.
pub data Answer : Type 0 where
  rejected accepted unexpected : Answer

pub data Notice : Type 0 where
  usage_broadcast usage_whisper usage_join usage_sendfile help_message : Notice
  unknown_command : List ℕ → Notice
  invalid_room not_in_room empty_message message_too_long invalid_user to_yourself : Notice
  send_failed filename_too_long invalid_file_type file_not_found empty_file file_too_large : Notice
  no_answer : Notice
  answered : Answer → Notice

-- Whether `send` succeeds, what `getFileSizeFromPath` gives, and the next message from the server.
pub record Net : Type 0 where
  pub send_ok : Bool
  pub file_size : List ℕ → ℤ
  pub answer : Option Answer

pub record ClientState : Type 0 where
  pub socket_fd : ℤ
  pub username : List ℕ
  pub current_room : List ℕ
  pub connected : Bool
  pub sent : List Packet
  pub printed : List Notice

-- `isspace` in the C locale
unfoldable pub isspace : ℕ → Bool
isspace c = c == 32 || leb 9 c && leb c 13

unfoldable pub trim_leading_whitespace : List ℕ → List ℕ
unfolding isspace
trim_leading_whitespace [] = []
trim_leading_whitespace (c ∷ cs) = if isspace c then trim_leading_whitespace cs else c ∷ cs

-- The loops that copy a word of at most so many bytes; with what is left of the line.
unfoldable pub take_token : ℕ → List ℕ → List ℕ × List ℕ
unfolding isspace
take_token zero text = ([], text)
take_token (suc n) [] = ([], [])
take_token (suc n) (c ∷ cs) =
    let (word, rest) = take_token n cs in if isspace c then ([], c ∷ cs) else (c ∷ word, rest)

pub print : Notice → ClientState → ClientState
print notice s = record s { printed = s.printed ++ (notice ∷ []) }

-- `sendMessage`, and the message that is printed when it fails.
pub send_or : Net → Packet → ClientState → ClientState
unfolding print
send_or net packet s =
    if net.send_ok then record s { sent = s.sent ++ (packet ∷ []) } else print send_failed s

pub send_join_room_command : Net → List ℕ → ClientState → ClientState
unfolding send_or
send_join_room_command net room s =
    if not (is_valid_room_name room)
    then print invalid_room s
    else send_or net (join_packet (take 16 s.username) (take 32 room)) s

pub send_leave_room_command : Net → ClientState → ClientState
unfolding send_or
send_leave_room_command net s =
    if length s.current_room == 0
    then print not_in_room s
    else send_or net (leave_packet (take 16 s.username)) s

pub send_broadcast_command : Net → List ℕ → ClientState → ClientState
unfolding send_or
send_broadcast_command net content s =
    if length s.current_room == 0
    then print not_in_room s
    else if length content == 0
    then print empty_message s
    else if leb 1024 (length content)
    then print message_too_long s
    else send_or net
        (broadcast_packet (take 16 s.username) (take 32 s.current_room) (take 1023 content)) s

pub send_whisper_command : Net → List ℕ → List ℕ → ClientState → ClientState
unfolding send_or
send_whisper_command net target content s =
    if not (is_valid_username target)
    then print invalid_user s
    else if strcmp_eq s.username target
    then print to_yourself s
    else if length content == 0
    then print empty_message s
    else if leb 1024 (length content)
    then print message_too_long s
    else send_or net (whisper_packet (take 16 s.username) (take 16 target) (take 1023 content)) s

-- `prepareLocalFile`: the message that it prints, or the size.
pub prepared_size : ℤ → Notice ⊎ ℕ
prepared_size (negsuc k) = inl file_not_found
prepared_size (pos n) =
    if n == 0 then inl empty_file else if ltb max_file_size n then inl file_too_large else inr n

pub prepare_local_file : Net → List ℕ → List ℕ → Notice ⊎ ℕ
unfolding prepared_size
prepare_local_file net path filename =
    if leb 257 (length filename)
    then inl filename_too_long
    else if not (is_valid_file_type filename)
    then inl invalid_file_type
    else prepared_size (net.file_size path)

pub answer_notice : Option Answer → Notice
answer_notice none = no_answer
answer_notice (some answer) = answered answer

-- The part of a path after its last slash.
pub filename_of : List ℕ → Option (List ℕ) → List ℕ
filename_of path none = path
filename_of path (some slash) = drop 1 slash

pub request_file : Net → List ℕ → List ℕ → Notice ⊎ ℕ → ClientState → ClientState
unfolding print answer_notice
request_file net target filename (inl notice) s = print notice s
request_file net target filename (inr size) s =
    if net.send_ok
    then print (answer_notice net.answer) (record s {
      sent =
          s.sent
          ++ (file_packet (take 16 s.username) (take 16 target) (take 256 filename) size ∷ []);
    })
    else print send_failed s

pub send_file_request_command : Net → List ℕ → List ℕ → ClientState → ClientState
unfolding request_file prepare_local_file filename_of
send_file_request_command net path target s =
    if not (is_valid_username target)
    then print invalid_user s
    else if strcmp_eq s.username target
    then print to_yourself s
    else (let filename = filename_of path (strrchr b'/' path) in
        request_file net target filename (prepare_local_file net path filename) s)

pub is_open : ℤ → Bool
is_open (pos fd) = true
is_open (negsuc k) = false

pub send_disconnect_signal : Net → ClientState → ClientState
unfolding is_open
send_disconnect_signal net s =
    if is_open s.socket_fd && net.send_ok
    then record s { sent = s.sent ++ (disconnect_packet (take 16 s.username) ∷ []) }
    else s

-- The part of `processUserCommand` for each command, on what follows the command on the line.
pub broadcast_line : Net → List ℕ → ClientState → ClientState
unfolding send_broadcast_command
broadcast_line net text s =
    if ltb 0 (length text)
    then send_broadcast_command net (take arg1_len text) s
    else print usage_broadcast s

pub whisper_line : Net → List ℕ → ClientState → ClientState
unfolding send_whisper_command take_token
whisper_line net text s =
    let (target, rest) = take_token max_username_len text in
    let message = trim_leading_whitespace rest in
    if ltb 0 (length target) && ltb 0 (length message)
    then send_whisper_command net target (take arg2_len message) s
    else print usage_whisper s

pub other_line : Net → List ℕ → List ℕ → ClientState → ClientState
unfolding send_join_room_command send_leave_room_command send_file_request_command
    send_disconnect_signal take_token
other_line net command text s =
    let (arg1, rest) = take_token arg1_len text in
    let (arg2, _) = take_token arg2_len (trim_leading_whitespace rest) in
    if strcmp_eq command (codes "/join")
    then (if ltb 0 (length arg1) then send_join_room_command net arg1 s else print usage_join s)
    else if strcmp_eq command (codes "/leave")
    then send_leave_room_command net s
    else if strcmp_eq command (codes "/sendfile")
    then (if ltb 0 (length arg1) && ltb 0 (length arg2)
        then send_file_request_command net arg1 arg2 s
        else print usage_sendfile s)
    else if strcmp_eq command (codes "/exit")
    then record (send_disconnect_signal net s) { connected = false }
    else if strcmp_eq command (codes "/help")
    then print help_message s
    else print (unknown_command command) s

-- `processUserCommand`
pub process_user_command : Net → List ℕ → ClientState → ClientState
unfolding broadcast_line whisper_line other_line take_token
process_user_command net input s =
    let (command, rest) = take_token command_len input in
    let text = trim_leading_whitespace rest in
    if strcmp_eq command (codes "/broadcast")
    then broadcast_line net text s
    else if strcmp_eq command (codes "/whisper")
    then whisper_line net text s
    else other_line net command text s
