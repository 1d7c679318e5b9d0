-- ===== src/Chat/Rooms/Tests.antt =====
-- The theorems on the rooms of the chat server at concrete inputs.
use system_hw.CString.{strcmp_eq}
use system_hw.Chat.Names.{is_valid_room_name, all_alnum}
use system_hw.Chat.Rooms.{
  Server, room_at, max_members_per_room, client_at, handle_join_room_request,
}
use system_hw.Chat.Rooms.Members.{IsConsistent, occurrences, belongs}
use system_hw.Chat.Rooms.Requests.{handle_join_room_request-IsConsistent}
use system_hw.Prelude.Int.{pos}
use system_hw.Chat.Rooms.Delivery.{Delivers, handle_broadcast_request-Delivers}
use system_hw.Chat.Rooms.{handle_broadcast_request}
use system_hw.Prelude.{
  ℕ, zero, suc, none, some, ◌≡◌, ◌<◌, ◌≤◌, refl, true, [], ◌∷◌, length, arith, ◌⊎◌, inl, inr,
}

-- Client 0 is in room "a", client 1 in none.
abbrev server : Server
server = record {
  clients =
      record {
        socket_fd = pos 4;
        username = b'x' ∷ [];
        current_room_name = b'a' ∷ [];
        is_active = true;
      }
      ∷ record { socket_fd = pos 5; username = b'y' ∷ []; current_room_name = []; is_active = true }
      ∷ [];
  connected_clients = some 0 ∷ none ∷ some 1 ∷ [];
  chat_rooms = record { name = b'a' ∷ []; members = 0 ∷ [] } ∷ [];
  server_is_running = true;
  active_client_count = 2;
  file_transfer_manager = [];
  sent = [];
}

server-bounded : (r : ℕ) → length (room_at server r).members ≤ max_members_per_room
server-bounded zero = omega arith
server-bounded (suc r) = omega arith

server-named : (r : ℕ) → r < 1 → is_valid_room_name (room_at server r).name ≡ true
unfolding is_valid_room_name all_alnum
server-named zero lt = refl
server-named (suc r) lt = absurd (omega arith)

server-listed :
    (r c : ℕ)
    → r < 1
    → occurrences c (room_at server r).members
      ≡ belongs (client_at server c).current_room_name (room_at server r).name
unfolding occurrences belongs strcmp_eq
server-listed zero zero lt = refl
server-listed zero (suc zero) lt = refl
server-listed zero (suc (suc c)) lt = ground arith
server-listed (suc r) c lt = absurd (omega arith)

server-housed :
    (c : ℕ)
    → (length (client_at server c).current_room_name ≡ 0)
      ⊎ ((r : ℕ) × (r < 1) × ((room_at server r).name ≡ (client_at server c).current_room_name))
server-housed zero = inr (0, omega arith, refl)
server-housed (suc zero) = inl refl
server-housed (suc (suc c)) = inl refl

server-IsConsistent : IsConsistent server
server-IsConsistent = record {
  few = omega arith;
  bounded = server-bounded;
  named = server-named;
  distinct = λ r q lt lt' e. omega arith;
  listed = server-listed;
  housed = server-housed;
}

-- Client 0 switches to a new room.
handle_join_room_request-IsConsistent_example :
    IsConsistent (handle_join_room_request server 0 (b'b' ∷ []))
handle_join_room_request-IsConsistent_example =
    handle_join_room_request-IsConsistent server 0 (b'b' ∷ []) server-IsConsistent (omega arith)

handle_broadcast_request-Delivers_example :
    Delivers server 0 (b'h' ∷ []) (handle_broadcast_request server 0 (b'h' ∷ []))
handle_broadcast_request-Delivers_example =
    handle_broadcast_request-Delivers server 0 (b'h' ∷ []) server-IsConsistent refl (omega arith)
      (omega arith) (omega arith)
