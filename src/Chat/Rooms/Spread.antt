-- ===== src/Chat/Rooms/Spread.antt =====
-- The consistency of the rooms of final/server/room_manager.c after a broadcast and after leaving.
use system_hw.Chat.Rooms.{
  Server, client_at, room_at, message_buf_size, broadcast_to_room_members, broadcast_found,
  handle_broadcast_request, handle_leave_room_request, reply_to, invalid_current_room,
  must_be_in_room, invalid_content,
}
use system_hw.Chat.Rooms.Members.{IsConsistent}
use system_hw.Chat.Rooms.Steps.{Same-trans, Same-IsConsistent, broadcast_loop-Same, reply_to-Same}
use system_hw.Chat.Rooms.Requests.{
  Provides, room-Provides, either, replied-IsConsistent, handle_leave_room_request-IsOutside,
}
use system_hw.Prelude.{
  ℕ, ◌≡◌, ◌<◌, not, Option, none, some, List, length, ◌||◌, ◌==◌, leb, Bool-cases, inl, inr,
}

-- The consistency is about the rooms and the room names of the clients.
pub alike-IsConsistent :
    (s s' : Server)
    → s'.chat_rooms ≡ s.chat_rooms
    → ((d : ℕ) → (client_at s' d).current_room_name ≡ (client_at s d).current_room_name)
    → IsConsistent s
    → IsConsistent s'
alike-IsConsistent s s' rooms names h = record {
  few = rw rooms h.few;
  bounded = λ r. rw rooms (h.bounded r);
  named = λ r. rw rooms (h.named r);
  distinct = λ r q. rw rooms (h.distinct r q);
  listed = λ r c. rw (rooms, names c) (h.listed r c);
  housed = λ c. rw (rooms, names c) (h.housed c);
}

broadcast_found-IsConsistent :
    (s : Server) (c : ℕ) (content : List ℕ) (out : Server × Option ℕ)
    → Provides s out
    → IsConsistent (broadcast_found c content out)
unfolding broadcast_found broadcast_to_room_members
broadcast_found-IsConsistent s c content (t, none) (h, same) =
    replied-IsConsistent t c invalid_current_room h
broadcast_found-IsConsistent s c content (t, some r) (h, same, less) =
    Same-IsConsistent t _
      (Same-trans (broadcast_loop-Same (room_at t r).members _ none t) (reply_to-Same c _ _)) h

pub handle_broadcast_request-IsConsistent :
    (s : Server) (c : ℕ) (content : List ℕ)
    → IsConsistent s
    → IsConsistent (handle_broadcast_request s c content)
unfolding handle_broadcast_request
handle_broadcast_request-IsConsistent s c content h =
    let current = (client_at s c).current_room_name in
    either IsConsistent (not (client_at s c).is_active) s _ (λ e. h)
      (λ e.
        either IsConsistent (length current == 0) (reply_to c must_be_in_room s) _
          (λ f. replied-IsConsistent s c must_be_in_room h)
          (λ f.
            either IsConsistent (length content == 0 || leb message_buf_size (length content))
              (reply_to c invalid_content s) _ (λ g. replied-IsConsistent s c invalid_content h)
              (λ g. broadcast_found-IsConsistent s c content _ (room-Provides s current h))))

pub handle_leave_room_request-IsConsistent :
    (s : Server) (c : ℕ)
    → IsConsistent s
    → c < length s.clients
    → IsConsistent (handle_leave_room_request s c)
handle_leave_room_request-IsConsistent s c h known = elim (Bool-cases (client_at s c).is_active) [
  | inl e ↦ (handle_leave_room_request-IsOutside s c h known e).0
  | inr e ↦ unfold handle_leave_room_request in rw e h
]
