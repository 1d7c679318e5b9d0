-- ===== src/Chat/Whisper/Tests.antt =====
-- The theorems on whispers at a concrete server.
use system_hw.CString.{strcmp_eq}
use system_hw.Chat.Rooms.{Server}
use system_hw.Chat.Whisper.Privacy.{IsPrivate, handle_whisper_request-IsPrivate}
use system_hw.Chat.Whisper.{handle_whisper_request, matches, find_in_slots, find_client_by_username}
use system_hw.Prelude.Int.{pos}
use system_hw.Prelude.{◌≡◌, refl, true, false, none, some, [], ◌∷◌}

-- Clients 0 and 1 have the same name, and client 0 has left; client 2 is there as well.
abbrev two_clients : Server
two_clients = record {
  clients =
      record { socket_fd = pos 4; username = b'x' ∷ []; current_room_name = []; is_active = false }
      ∷ record { socket_fd = pos 5; username = b'x' ∷ []; current_room_name = []; is_active = true }
      ∷ record { socket_fd = pos 6; username = b'z' ∷ []; current_room_name = []; is_active = true }
      ∷ [];
  connected_clients = some 0 ∷ none ∷ some 1 ∷ some 2 ∷ [];
  chat_rooms = [];
  server_is_running = true;
  active_client_count = 2;
  file_transfer_manager = [];
  sent = [];
}

finds_active : find_client_by_username two_clients (b'x' ∷ []) ≡ some 1
unfolding find_client_by_username find_in_slots matches strcmp_eq
finds_active = refl

handle_whisper_request-IsPrivate_example :
    IsPrivate two_clients 1
      (b'z' ∷ [])
      (b'h' ∷ [])
      (handle_whisper_request true two_clients 1 (b'z' ∷ []) (b'h' ∷ []))
handle_whisper_request-IsPrivate_example =
    handle_whisper_request-IsPrivate true two_clients 1 (b'z' ∷ []) (b'h' ∷ [])
