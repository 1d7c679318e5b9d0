-- ===== src/Chat/Whisper.antt =====
-- Private messages of the chat server: `findClientByUsername` of final/server/utils_server.c and
-- `handleWhisperRequest` of final/server/room_manager.c.
pub mod Lookup
pub mod Privacy
mod Tests
use system_hw.CString.{strcmp_eq}
use system_hw.Chat.Names.{is_valid_username}
use system_hw.Chat.Rooms.{
  Server, Message, client_at, message_buf_size, reply_to, invalid_recipient, invalid_whisper,
  whisper_to_self, recipient_offline, whisper_failed, whisper_sent_to, whisper,
}
use system_hw.Prelude.Int.{ℤ, pos, negsuc}
use system_hw.Prelude.{
  ℕ, Bool, true, false, not, ◌&&◌, ◌||◌, Option, none, some, List, [], ◌∷◌, ◌++◌, length, take, leb,
  ◌==◌, if◌then◌else◌,
}

-- The test of one slot of `connected_clients`.
matches : Server → List ℕ → Option ℕ → Bool
matches s name none = false
matches s name (some c) = (client_at s c).is_active && strcmp_eq (client_at s c).username name

-- The loop over the slots.
pub find_in_slots : Server → List (Option ℕ) → List ℕ → Option ℕ
unfolding matches
find_in_slots s [] name = none
find_in_slots s (slot ∷ slots) name =
    let rest = find_in_slots s slots name in if matches s name slot then slot else rest

-- `findClientByUsername`
pub find_client_by_username : Server → List ℕ → Option ℕ
find_client_by_username s name = find_in_slots s s.connected_clients name

-- `sendMessage` and the two answers; `delivers` is whether `send` takes the whole message.
deliver_whisper : Bool → Server → ℕ → ℕ → List ℕ → List ℕ → ℤ → Server
deliver_whisper delivers s c d receiver content (negsuc k) = reply_to c whisper_failed s
deliver_whisper delivers s c d receiver content (pos fd) =
    if delivers
    then reply_to c (whisper_sent_to receiver) (record s {
      sent =
          s.sent ++ ((pos fd, whisper (client_at s c).username receiver (take 1023 content)) ∷ []);
    })
    else reply_to c whisper_failed s

whisper_to : Bool → Server → ℕ → List ℕ → List ℕ → Option ℕ → Server
unfolding deliver_whisper
whisper_to delivers s c receiver content none = reply_to c recipient_offline s
whisper_to delivers s c receiver content (some d) =
    if not (client_at s d).is_active
    then reply_to c recipient_offline s
    else deliver_whisper delivers s c d receiver content (client_at s d).socket_fd

-- `handleWhisperRequest`
pub handle_whisper_request : Bool → Server → ℕ → List ℕ → List ℕ → Server
unfolding whisper_to
handle_whisper_request delivers s c receiver content =
    if not (client_at s c).is_active
    then s
    else if not (is_valid_username receiver)
    then reply_to c invalid_recipient s
    else if length content == 0 || leb message_buf_size (length content)
    then reply_to c invalid_whisper s
    else if strcmp_eq (client_at s c).username receiver
    then reply_to c whisper_to_self s
    else whisper_to delivers s c receiver content (find_client_by_username s receiver)
