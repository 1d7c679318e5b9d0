-- ===== src/Chat/Transfer/Tests.antt =====
-- The theorem on file transfers at a concrete server.
use system_hw.Chat.Rooms.{Server}
use system_hw.Chat.Transfer.{FileRequest, Transfer, Leftovers, handle_file_transfer_request}
use system_hw.Chat.Transfer.Queue.{Queues, handle_file_transfer_request-Queues}
use system_hw.Prelude.Int.{pos}
use system_hw.Prelude.{true, some, [], ◌∷◌}

abbrev two_users : Server
two_users = record {
  clients =
      record { socket_fd = pos 4; username = b'x' ∷ []; current_room_name = []; is_active = true }
      ∷ record { socket_fd = pos 5; username = b'y' ∷ []; current_room_name = []; is_active = true }
      ∷ [];
  connected_clients = some 0 ∷ some 1 ∷ [];
  chat_rooms = [];
  active_client_count = 2;
  file_transfer_manager = [];
  server_is_running = true;
  sent = [];
}

abbrev picture : FileRequest
picture = record {
  filename = b'a' ∷ b'.' ∷ b'j' ∷ b'p' ∷ b'g' ∷ [];
  receiver = b'y' ∷ [];
  file_size = 2000;
}

abbrev zeroed : Leftovers
zeroed = record { after_filename = []; after_sender = []; after_receiver = [] }

abbrev all_well : Transfer
all_well = record { delivers = true; receives = true; allocates = some zeroed }

handle_file_transfer_request-Queues_example :
    Queues two_users 0 picture (handle_file_transfer_request all_well two_users 0 picture)
handle_file_transfer_request-Queues_example =
    handle_file_transfer_request-Queues all_well two_users 0 picture
