-- ===== src/Chat/Rooms/Handlers.antt =====
-- The requests to join, to leave and to broadcast of final/server/room_manager.c leave alone what
-- Rooms/Frame says.
use system_hw.CString.{strcmp_eq}
use system_hw.Chat.Names.{is_valid_room_name}
use system_hw.Chat.Rooms.{
  Server, client_at, room_at, broadcast_to_room_members, notify_if_found, leave_room, after_adding,
  enter_found, enter_room, handle_join_room_request, handle_leave_room_request, broadcast_found,
  handle_broadcast_request, has_left, has_joined, room_full, no_room_available, invalid_room_name,
  already_in_room, not_in_any_room, left_the_room, invalid_current_room, must_be_in_room,
  invalid_content,
}
use system_hw.Prelude.{ℕ, Bool, true, false, not, Option, none, some, List, length, ◌==◌}
use system_hw.Chat.Rooms.Frame.{
  Framed, Framed-refl, Framed-trans, if-Framed, reply_to-Framed, broadcast_loop-Framed,
  notify-Framed, find_or_create_chat_room-Framed, add-Framed, remove-Framed,
}

module _ (c : ℕ) where
  notify_if_found-Framed :
      (s : Server) (out : Server × Option ℕ) → Framed c s out.0 → Framed c s (notify_if_found out c)
  unfolding notify_if_found
  notify_if_found-Framed s (t, none) p = p
  notify_if_found-Framed s (t, some r) p = Framed-trans c s t _ p (notify-Framed c t c r has_left)

  leave_room-Framed : (s : Server) → Framed c s (leave_room s c)
  unfolding leave_room
  leave_room-Framed s =
      Framed-trans c s _ _
        (notify_if_found-Framed s _
          (find_or_create_chat_room-Framed c s (client_at s c).current_room_name))
        (remove-Framed c _)

  after_adding-Framed :
      (s : Server) (r : ℕ) (out : Server × Bool)
      → Framed c s out.0
      → Framed c s (after_adding c r out)
  unfolding after_adding
  after_adding-Framed s r (t, true) p =
      Framed-trans c s t _ p
        (Framed-trans c t _ _ (reply_to-Framed c c _ t) (notify-Framed c _ c r has_joined))
  after_adding-Framed s r (t, false) p = Framed-trans c s t _ p (reply_to-Framed c c room_full t)

  enter_found-Framed :
      (s : Server) (out : Server × Option ℕ) → Framed c s out.0 → Framed c s (enter_found c out)
  unfolding enter_found
  enter_found-Framed s (t, none) p =
      Framed-trans c s t _ p (reply_to-Framed c c no_room_available t)
  enter_found-Framed s (t, some r) p =
      after_adding-Framed s r _ (Framed-trans c s t _ p (add-Framed c t r))

  enter_room-Framed : (s : Server) (name : List ℕ) → Framed c s (enter_room s c name)
  unfolding enter_room
  enter_room-Framed s name = enter_found-Framed s _ (find_or_create_chat_room-Framed c s name)

  pub handle_join_room_request-Framed :
      (s : Server) (name : List ℕ) → Framed c s (handle_join_room_request s c name)
  unfolding handle_join_room_request
  handle_join_room_request-Framed s name =
      let current = (client_at s c).current_room_name in
      if-Framed c (not (client_at s c).is_active) s s _ (Framed-refl c s) (
        if-Framed c (not (is_valid_room_name name)) s _ _ (reply_to-Framed c c invalid_room_name s)
          (if-Framed c (length current == 0) s _ _ (enter_room-Framed s name) (
            if-Framed c (strcmp_eq current name) s _ _
              (reply_to-Framed c c (already_in_room name) s)
              (Framed-trans c s _ _ (leave_room-Framed s) (enter_room-Framed _ name)))))

  pub handle_leave_room_request-Framed : (s : Server) → Framed c s (handle_leave_room_request s c)
  unfolding handle_leave_room_request
  handle_leave_room_request-Framed s =
      if-Framed c (not (client_at s c).is_active) s s _ (Framed-refl c s) (
        if-Framed c (length (client_at s c).current_room_name == 0) s _ _
          (reply_to-Framed c c not_in_any_room s)
          (Framed-trans c s _ _ (leave_room-Framed s) (reply_to-Framed c c left_the_room _)))

  broadcast_found-Framed :
      (s : Server) (content : List ℕ) (out : Server × Option ℕ)
      → Framed c s out.0
      → Framed c s (broadcast_found c content out)
  unfolding broadcast_found broadcast_to_room_members
  broadcast_found-Framed s content (t, none) p =
      Framed-trans c s t _ p (reply_to-Framed c c invalid_current_room t)
  broadcast_found-Framed s content (t, some r) p = Framed-trans c s t _ p (
      Framed-trans c t _ _ (broadcast_loop-Framed c (room_at t r).members _ none t)
        (reply_to-Framed c c _ _))

  pub handle_broadcast_request-Framed :
      (s : Server) (content : List ℕ) → Framed c s (handle_broadcast_request s c content)
  unfolding handle_broadcast_request
  handle_broadcast_request-Framed s content =
      if-Framed c (not (client_at s c).is_active) s s _ (Framed-refl c s) (
        if-Framed c (length (client_at s c).current_room_name == 0) s _ _
          (reply_to-Framed c c must_be_in_room s)
          (if-Framed c _ s _ _ (reply_to-Framed c c invalid_content s) (
            broadcast_found-Framed s content _
              (find_or_create_chat_room-Framed c s (client_at s c).current_room_name))))
