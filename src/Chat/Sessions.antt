-- ===== src/Chat/Sessions.antt =====
-- The sessions of the chat server, final/server/client_handler.c: a connection is registered in a
-- slot, its first message logs it in, its later ones are dispatched, and at the end it is
-- unregistered. A freed client keeps its entry in `clients`. One request is served at a time.
pub mod Fade
pub mod Sound
pub mod Dispatch
pub mod Register
pub mod Login
pub mod Welcome
pub mod Unregister
pub mod Reachable
mod Tests
use system_hw.Chat.Names.{is_valid_username}
use system_hw.Chat.Rooms.{
  Server, ClientInfo, no_client, client_at, reply_to, send_message, find_or_create_chat_room,
  notify_room_of_client_action, remove_client_from_their_room, handle_join_room_request,
  handle_leave_room_request, handle_broadcast_request, disconnected_and_left, server_full,
  invalid_login, bad_username, username_taken, login_successful, goodbye, unknown_command,
  shutting_down,
}
use system_hw.Chat.Whisper.{find_client_by_username, handle_whisper_request}
use system_hw.Chat.Transfer.{FileRequest, Transfer, handle_file_transfer_request}
use system_hw.Prelude.Int.{ℤ, pos, negsuc}
use system_hw.Prelude.{
  ℕ, zero, suc, ◌+◌, ◌-◌, Bool, true, false, not, ◌&&◌, ◌||◌, Option, none, some, List, [], ◌∷◌,
  ◌++◌, length, set, replicate, take, ltb, ◌==◌, if◌then◌else◌,
}

abbrev pub max_server_clients : ℕ
max_server_clients = 30

-- The first slot that is NULL.
pub find_empty_slot : ℕ → List (Option ℕ) → Option ℕ
find_empty_slot i [] = none
find_empty_slot i (none ∷ slots) = some i
find_empty_slot i (some c ∷ slots) = find_empty_slot (i + 1) slots

abbrev pub new_client : ℤ → ClientInfo
new_client fd = record { socket_fd = fd; username = []; current_room_name = []; is_active = false }

-- The new client in its slot, or the answer that there is none.
register_in : Server → ℤ → Option ℕ → Server × Option ℕ
register_in s fd none = (send_message fd server_full s, none)
register_in s fd (some i) = (
  record s {
    clients = s.clients ++ (new_client fd ∷ []);
    connected_clients = set s.connected_clients i (some (length s.clients));
  },
  some (length s.clients),
)

-- `registerNewClientOnServer`; `prepared` is whether `malloc` and the initialisation of the mutex
-- succeed.
unfoldable pub register_new_client_on_server : Bool → Server → ℤ → Server × Option ℕ
unfolding register_in
register_new_client_on_server prepared s fd =
    if not prepared then (s, none) else register_in s fd (find_empty_slot 0 s.connected_clients)

unfoldable pub set_client : Server → ℕ → ClientInfo → Server
set_client s c client = record s { clients = set s.clients c client }

log_in : Server → ℕ → List ℕ → Option ℕ → Server × Bool
unfolding set_client
log_in s c sender (some d) = (reply_to c username_taken s, false)
log_in s c sender none =
    let named = record (client_at s c) { username = take 16 sender; is_active = true } in
    (
      reply_to c login_successful
          (record (set_client s c named) { active_client_count = s.active_client_count + 1 }),
      true,
    )

-- `processClientLogin` of a message whose type is `MSG_LOGIN` or not.
unfoldable pub process_client_login : Server → ℕ → Bool → List ℕ → Server × Bool
unfolding log_in
process_client_login s c is_login sender =
    if not is_login
    then (reply_to c invalid_login s, false)
    else if not (is_valid_username sender)
    then (reply_to c bad_username s, false)
    else log_in s c sender (find_client_by_username s sender)

-- What a logged in client sends, with what happens in the world while it is served.
pub data ClientMessage : Type 0 where
  join_room : (room : List ℕ) → ClientMessage
  leave : ClientMessage
  broadcast_to_room : (content : List ℕ) → ClientMessage
  whisper_to_user : (delivers : Bool) → (receiver content : List ℕ) → ClientMessage
  file_transfer : Transfer → FileRequest → ClientMessage
  disconnect : ClientMessage
  other : ClientMessage

dispatch : Server → ℕ → ClientMessage → Server
unfolding set_client
dispatch s c (join_room room) = handle_join_room_request s c room
dispatch s c leave = handle_leave_room_request s c
dispatch s c (broadcast_to_room content) = handle_broadcast_request s c content
dispatch s c (whisper_to_user delivers receiver content) =
    handle_whisper_request delivers s c receiver content
dispatch s c (file_transfer env req) = handle_file_transfer_request env s c req
dispatch s c disconnect =
    reply_to c goodbye (set_client s c (record (client_at s c) { is_active = false }))
dispatch s c other = reply_to c unknown_command s

-- `handleClientMessage`
unfoldable pub handle_client_message : Server → ℕ → ClientMessage → Server
unfolding dispatch
handle_client_message s c message =
    if not (client_at s c).is_active || not s.server_is_running then s else dispatch s c message

-- The room is told that a client is gone.
tell_room : ℕ → Server × Option ℕ → Server
tell_room c (s, none) = s
tell_room c (s, some r) =
    if s.server_is_running then notify_room_of_client_action s c r disconnected_and_left else s

quit_room : Server → ℕ → Server
unfolding tell_room
quit_room s c =
    if length (client_at s c).current_room_name == 0
    then s
    else remove_client_from_their_room
        (tell_room c (find_or_create_chat_room s (client_at s c).current_room_name)) c

holds_client : ℕ → Option ℕ → Bool
holds_client c none = false
holds_client c (some d) = d == c

-- The first slot of a client.
pub find_slot : ℕ → ℕ → List (Option ℕ) → Option ℕ
unfolding holds_client
find_slot c i [] = none
find_slot c i (slot ∷ slots) =
    let rest = find_slot c (i + 1) slots in if holds_client c slot then some i else rest

clear_slot : Server → ℕ → Option ℕ → Server
clear_slot s c none = s
clear_slot s c (some i) = record s {
  connected_clients = set s.connected_clients i none;
  active_client_count =
      if ltb 0 (length (client_at s c).username) && ltb 0 s.active_client_count
      then s.active_client_count - 1
      else s.active_client_count;
}

pub close_socket : Server → ℕ → Server
unfolding set_client
close_socket s c = set_client s c (record (client_at s c) { socket_fd = negsuc 0 })

-- `unregisterClient`, in its order: inactive, out of its room, the socket, the slot.
unfoldable pub unregister_client : Server → ℕ → Server
unfolding quit_room close_socket clear_slot
unregister_client s c =
    let inactive = set_client s c (record (client_at s c) { is_active = false }) in
    let closed = close_socket (quit_room inactive c) c in
    clear_slot closed c (find_slot c 0 closed.connected_clients)

-- The login phase of `clientConnectionThreadHandler`, where the first message may fail to come.
after_login : ℕ → Server × Bool → Server
after_login c (s, true) = s
after_login c (s, false) = unregister_client s c

unfoldable pub first_message : Server → ℕ → Option (Bool × List ℕ) → Server
unfolding after_login
first_message s c none = unregister_client s c
first_message s c (some (is_login, sender)) =
    after_login c (process_client_login s c is_login sender)

-- The cleanup phase of `clientConnectionThreadHandler`.
unfoldable pub end_session : Server → ℕ → Server
end_session s c =
    unregister_client
      (if not s.server_is_running && (client_at s c).is_active
        then reply_to c shutting_down s
        else s)
      c

-- `initializeServerState`, as far as it concerns these variables.
unfoldable pub initialize_server_state : Server
initialize_server_state = record {
  clients = [];
  connected_clients = replicate max_server_clients none;
  chat_rooms = [];
  active_client_count = 0;
  file_transfer_manager = [];
  server_is_running = true;
  sent = [];
}
