-- ===== src/Chat/Rooms.antt =====
-- The rooms of the chat server, final/server/room_manager.c, for requests that are served one after
-- the other. A pointer to a client is its index in `clients`, a pointer to a room its index in
-- `chat_rooms`; of the arrays the entries up to their counts are kept. Log entries are left out.
pub mod Find
pub mod Members
pub mod Moves
pub mod Create
pub mod Steps
pub mod Requests
pub mod Frame
pub mod Handlers
pub mod Spread
pub mod Delivery
mod Tests
use system_hw.CString.{strcmp_eq}
use system_hw.Chat.Names.{is_valid_room_name}
use system_hw.Prelude.Int.{ℤ, pos, negsuc}
use system_hw.Prelude.{
  ℕ, zero, suc, ◌+◌, Bool, true, false, not, ◌&&◌, ◌||◌, Option, none, some, List, [], ◌∷◌, ◌++◌,
  length, get_or, set, take, ltb, leb, ◌==◌, if◌then◌else◌,
}

abbrev pub max_rooms : ℕ
max_rooms = 30

abbrev pub max_members_per_room : ℕ
max_members_per_room = 15

abbrev pub message_buf_size : ℕ
message_buf_size = 1024

-- `ClientInfo`, without the thread, the address and the received files.
pub record ClientInfo : Type 0 where
  pub socket_fd : ℤ
  pub username : List ℕ
  pub current_room_name : List ℕ
  pub is_active : Bool

-- `ChatRoom`; `member_count` is the length of `members`.
pub record ChatRoom : Type 0 where
  pub name : List ℕ
  pub members : List ℕ

-- `action_verb`
pub data Verb : Type 0 where
  has_joined has_left disconnected_and_left : Verb

-- What the server sends here; each constructor stands for one text of the source.
pub data Message : Type 0 where
  invalid_room_name no_room_available room_full not_in_any_room left_the_room : Message
  must_be_in_room invalid_content invalid_current_room : Message
  already_in_room joined_room : List ℕ → Message
  message_sent_to : List ℕ → Message
  user_has : (username : List ℕ) → Verb → (room : List ℕ) → Message
  invalid_recipient invalid_whisper whisper_to_self recipient_offline whisper_failed : Message
  whisper_sent_to : List ℕ → Message
  whisper : (sender receiver content : List ℕ) → Message
  broadcast : (sender room content : List ℕ) → Message
  server_full invalid_login bad_username username_taken login_successful : Message
  goodbye unknown_command shutting_down : Message
  invalid_file_type empty_file recipient_not_found file_to_self backlog_full : Message
  file_too_large file_accepted : (filename : List ℕ) → Message

-- `FileTransferTask`, without the time and the data.
pub record FileTransferTask : Type 0 where
  pub filename : List ℕ
  pub sender_username : List ℕ
  pub receiver_username : List ℕ
  pub file_size : ℕ

-- `ServerMainState`, with the clients that its pointers point to, the list that `head` begins for the
-- file queue, and the messages sent, in order, each with its socket.
pub record Server : Type 0 where
  pub clients : List ClientInfo
  pub connected_clients : List (Option ℕ)
  pub chat_rooms : List ChatRoom
  pub active_client_count : ℕ
  pub file_transfer_manager : List FileTransferTask
  pub server_is_running : Bool
  pub sent : List (ℤ × Message)

abbrev pub no_client : ClientInfo
no_client = record {
  socket_fd = negsuc 0;
  username = [];
  current_room_name = [];
  is_active = false;
}

abbrev pub no_room : ChatRoom
no_room = record { name = []; members = [] }

abbrev pub client_at : Server → ℕ → ClientInfo
client_at s c = get_or s.clients c no_client

abbrev pub room_at : Server → ℕ → ChatRoom
room_at s r = get_or s.chat_rooms r no_room

unfoldable pub set_room_name : Server → ℕ → List ℕ → Server
set_room_name s c name = record s {
  clients = set s.clients c (record (client_at s c) { current_room_name = name });
}

unfoldable pub set_members : Server → ℕ → List ℕ → Server
set_members s r members = record s {
  chat_rooms = set s.chat_rooms r (record (room_at s r) { members = members });
}

-- `sendMessage` and the helpers that call it: nothing is sent to a negative descriptor.
unfoldable pub send_message : ℤ → Message → Server → Server
send_message (pos fd) m s = record s { sent = s.sent ++ ((pos fd, m) ∷ []) }
send_message (negsuc k) m s = s

-- The index of the first room of this name, from number `i` on.
pub find_room : ℕ → List ChatRoom → List ℕ → Option ℕ
find_room i [] name = none
find_room i (room ∷ rooms) name =
    let rest = find_room (i + 1) rooms name in if strcmp_eq room.name name then some i else rest

create_room : Server → List ℕ → Option ℕ → Server × Option ℕ
create_room s name (some r) = (s, some r)
create_room s name none =
    if ltb (length s.chat_rooms) max_rooms
    then (
      record s { chat_rooms = s.chat_rooms ++ (record { name = take 32 name; members = [] } ∷ []) },
      some (length s.chat_rooms),
    )
    else (s, none)

-- `findOrCreateChatRoom`
unfoldable pub find_or_create_chat_room : Server → List ℕ → Server × Option ℕ
unfolding create_room
find_or_create_chat_room s name =
    if not (is_valid_room_name name)
    then (s, none)
    else create_room s name (find_room 0 s.chat_rooms name)

pub is_member : ℕ → List ℕ → Bool
is_member c [] = false
is_member c (m ∷ ms) = m == c || is_member c ms

-- `addClientToRoom`
unfoldable pub add_client_to_room : Server → ℕ → ℕ → Server × Bool
unfolding set_members set_room_name
add_client_to_room s c r =
    let members = (room_at s r).members in
    if leb max_members_per_room (length members)
    then (s, false)
    else if is_member c members
    then (s, true)
    else (
      set_room_name (set_members s r (members ++ (c ∷ []))) c (take 32 (room_at s r).name),
      true,
    )

-- The shift that closes the gap of the first entry for the client.
pub remove_first : ℕ → List ℕ → List ℕ
remove_first c [] = []
remove_first c (m ∷ ms) = if m == c then ms else m ∷ remove_first c ms

remove_from : Server → ℕ → Option ℕ → Server
unfolding set_members set_room_name
remove_from s c none = set_room_name s c []
remove_from s c (some r) =
    set_room_name (set_members s r (remove_first c (room_at s r).members)) c []

-- `removeClientFromTheirRoom`
unfoldable pub remove_client_from_their_room : Server → ℕ → Server
unfolding remove_from
remove_client_from_their_room s c =
    if length (client_at s c).current_room_name == 0
    then s
    else remove_from s c (find_room 0 s.chat_rooms (client_at s c).current_room_name)

-- Whether `exclude_username` names this client.
is_excluded : Option (List ℕ) → ClientInfo → Bool
is_excluded none client = false
is_excluded (some name) client = strcmp_eq client.username name

-- The loop of `broadcastMessageToRoomMembers`.
pub broadcast_loop : List ℕ → Message → Option (List ℕ) → Server → Server
unfolding is_excluded send_message
broadcast_loop [] m exclude s = s
broadcast_loop (c ∷ cs) m exclude s =
    let client = client_at s c in
    broadcast_loop cs m exclude (
      if client.is_active && not (is_excluded exclude client)
      then send_message client.socket_fd m s
      else s)

unfoldable pub broadcast_to_room_members : Server → ℕ → Message → Option (List ℕ) → Server
broadcast_to_room_members s r m exclude = broadcast_loop (room_at s r).members m exclude s

-- `notifyRoomOfClientAction`
unfoldable pub notify_room_of_client_action : Server → ℕ → ℕ → Verb → Server
unfolding broadcast_to_room_members
notify_room_of_client_action s c r verb =
    if not s.server_is_running
    then s
    else broadcast_to_room_members s r (user_has (client_at s c).username verb (room_at s r).name)
        (some (client_at s c).username)

notify_if_found : Server × Option ℕ → ℕ → Server
unfolding notify_room_of_client_action
notify_if_found (s, none) c = s
notify_if_found (s, some r) c = notify_room_of_client_action s c r has_left

-- Leaving the old room: those in it are told first.
leave_room : Server → ℕ → Server
unfolding notify_if_found
leave_room s c =
    remove_client_from_their_room
      (notify_if_found (find_or_create_chat_room s (client_at s c).current_room_name) c) c

unfoldable pub reply_to : ℕ → Message → Server → Server
unfolding send_message
reply_to c m s = send_message (client_at s c).socket_fd m s

after_adding : ℕ → ℕ → Server × Bool → Server
unfolding reply_to notify_room_of_client_action
after_adding c r (s, true) =
    notify_room_of_client_action (reply_to c (joined_room (room_at s r).name) s) c r has_joined
after_adding c r (s, false) = reply_to c room_full s

enter_found : ℕ → Server × Option ℕ → Server
unfolding after_adding
enter_found c (s, none) = reply_to c no_room_available s
enter_found c (s, some r) = after_adding c r (add_client_to_room s c r)

enter_room : Server → ℕ → List ℕ → Server
unfolding enter_found
enter_room s c name = enter_found c (find_or_create_chat_room s name)

-- `handleJoinRoomRequest`
unfoldable pub handle_join_room_request : Server → ℕ → List ℕ → Server
unfolding enter_room leave_room reply_to
handle_join_room_request s c name =
    let current = (client_at s c).current_room_name in
    if not (client_at s c).is_active
    then s
    else if not (is_valid_room_name name)
    then reply_to c invalid_room_name s
    else if length current == 0
    then enter_room s c name
    else if strcmp_eq current name
    then reply_to c (already_in_room name) s
    else enter_room (leave_room s c) c name

-- `handleLeaveRoomRequest`
unfoldable pub handle_leave_room_request : Server → ℕ → Server
unfolding leave_room reply_to
handle_leave_room_request s c =
    if not (client_at s c).is_active
    then s
    else if length (client_at s c).current_room_name == 0
    then reply_to c not_in_any_room s
    else reply_to c left_the_room (leave_room s c)

broadcast_found : ℕ → List ℕ → Server × Option ℕ → Server
unfolding broadcast_to_room_members reply_to
broadcast_found c content (s, none) = reply_to c invalid_current_room s
broadcast_found c content (s, some r) =
    let message = broadcast (client_at s c).username (room_at s r).name (take 1023 content) in
    reply_to c (message_sent_to (room_at s r).name) (broadcast_to_room_members s r message none)

-- `handleBroadcastRequest`
unfoldable pub handle_broadcast_request : Server → ℕ → List ℕ → Server
unfolding broadcast_found reply_to
handle_broadcast_request s c content =
    if not (client_at s c).is_active
    then s
    else if length (client_at s c).current_room_name == 0
    then reply_to c must_be_in_room s
    else if length content == 0 || leb message_buf_size (length content)
    then reply_to c invalid_content s
    else broadcast_found c content (find_or_create_chat_room s (client_at s c).current_room_name)
