-- ===== src/Chat/Rooms/Requests.antt =====
-- The requests of final/server/room_manager.c keep the rooms and the clients consistent.
use system_hw.CString.{strcmp_eq}
use system_hw.Chat.Names.{is_valid_room_name}
use system_hw.Chat.Rooms.{
  Server, Message, already_in_room, invalid_room_name, not_in_any_room, left_the_room, has_joined,
  has_left, no_client, client_at, find_or_create_chat_room, notify_if_found, leave_room, reply_to,
  after_adding, enter_found, enter_room, handle_join_room_request, handle_leave_room_request,
}
use system_hw.Chat.Rooms.Find.{FindsRoom, find_or_create_chat_room-FindsRoom}
use system_hw.Chat.Rooms.Members.{IsConsistent}
use system_hw.Prelude.{
  ℕ, ◌<◌, ◌≡◌, refl, sym, ap, subst, ◌∙◌, Bool, true, false, not, Option, none, some, List, [], ◌∷◌,
  length, length-append, get_or, arith, ◌==◌, if◌then◌else◌, inl, inr,
}
use system_hw.Chat.Rooms.Create.{create-IsConsistent}
use system_hw.Chat.Rooms.Steps.{
  Same-trans, Same-IsConsistent, notify-Same, reply_to-Same, add-IsConsistent, remove-IsOutside,
  IsOutside, length-remove,
}

-- What `findOrCreateChatRoom` leaves of a consistent server.
abbrev pub Provides : Server → Server × Option ℕ → Type 0
Provides s (s', none) = IsConsistent s' × (s'.clients ≡ s.clients)
Provides s (s', some r) = IsConsistent s' × (s'.clients ≡ s.clients) × (r < length s'.chat_rooms)

finds-Provides :
    (s : Server) (name : List ℕ) (out : Server × Option ℕ)
    → IsConsistent s
    → FindsRoom s name out
    → Provides s out
finds-Provides s name (s', none) h (same, why) =
    (subst IsConsistent (sym same) h, ap (λ x. x.clients) same)
finds-Provides s name (s', some r) h (v, inl (same, less, named)) = (
  subst IsConsistent (sym same) h,
  ap (λ x. x.clients) same,
  omega (arith, ap (λ x. length x.chat_rooms) same),
)
finds-Provides s name (s', some r) h (v, inr (room, missing, at, same)) = (
  subst IsConsistent (sym same) (create-IsConsistent s name h v room missing),
  ap (λ x. x.clients) same,
  omega (
    arith,
    ap (λ x. length x.chat_rooms) same,
    length-append s.chat_rooms (record { name = name; members = [] } ∷ []),
  ),
)

pub room-Provides :
    (s : Server) (name : List ℕ) → IsConsistent s → Provides s (find_or_create_chat_room s name)
room-Provides s name h = finds-Provides s name _ h (find_or_create_chat_room-FindsRoom s name)

-- Telling the old room changes nothing.
Told : Server → Server → Type 0
Told s s' = IsConsistent s' × (length s'.clients ≡ length s.clients)

notify_if_found-Told :
    (s : Server) (c : ℕ) (out : Server × Option ℕ) → Provides s out → Told s (notify_if_found out c)
unfolding notify_if_found Told
notify_if_found-Told s c (s', none) (h, same) = (h, ap length same)
notify_if_found-Told s c (s', some r) (h, same, less) =
    let quiet = notify-Same s' c r has_left in
    (Same-IsConsistent _ _ quiet h, ap length (quiet.clients ∙ same))

-- After leaving, the server is consistent and the client in no room.
leave_room-IsOutside :
    (s : Server) (c : ℕ)
    → IsConsistent s
    → c < length s.clients
    → IsOutside (leave_room s c) c × (length (leave_room s c).clients ≡ length s.clients)
unfolding leave_room Told
leave_room-IsOutside s c h known =
    let current = (client_at s c).current_room_name in
    let told = notify_if_found (find_or_create_chat_room s current) c in
    let (good, same) = notify_if_found-Told s c _ (room-Provides s current h) in
    (remove-IsOutside told c good (omega (arith, same)), length-remove told c ∙ same)

after_adding-IsConsistent :
    (c r : ℕ) (out : Server × Bool) → IsConsistent out.0 → IsConsistent (after_adding c r out)
unfolding after_adding
after_adding-IsConsistent c r (s, true) h =
    Same-IsConsistent _ _ (Same-trans (reply_to-Same c _ s) (notify-Same _ c r has_joined)) h
after_adding-IsConsistent c r (s, false) h = Same-IsConsistent _ _ (reply_to-Same c _ s) h

enter_found-IsConsistent :
    (s : Server) (c : ℕ) (out : Server × Option ℕ)
    → c < length s.clients
    → length (client_at s c).current_room_name ≡ 0
    → Provides s out
    → IsConsistent (enter_found c out)
unfolding enter_found
enter_found-IsConsistent s c (s', none) known free (h, same) =
    Same-IsConsistent _ _ (reply_to-Same c _ s') h
enter_found-IsConsistent s c (s', some r) known free (h, same, less) =
    after_adding-IsConsistent c r _ (
      add-IsConsistent s' c r h (omega (arith, ap length same)) less
        (ap (λ cs. length (get_or cs c no_client).current_room_name) same ∙ free))

enter_room-IsConsistent :
    (s : Server) (c : ℕ) (name : List ℕ)
    → IsOutside s c
    → c < length s.clients
    → IsConsistent (enter_room s c name)
unfolding enter_room
enter_room-IsConsistent s c name (h, free) known =
    enter_found-IsConsistent s c _ known free (room-Provides s name h)

-- Both branches of a test.
pub either :
    (P : Server → Type 0) (b : Bool) (s s' : Server)
    → (b ≡ true → P s)
    → (b ≡ false → P s')
    → P (if b then s else s')
either P true s s' yes_case no_case = yes_case refl
either P false s s' yes_case no_case = no_case refl

pub replied-IsConsistent :
    (s : Server) (c : ℕ) (m : Message) → IsConsistent s → IsConsistent (reply_to c m s)
replied-IsConsistent s c m h = Same-IsConsistent _ _ (reply_to-Same c m s) h

replied-IsOutside :
    (s : Server) (c : ℕ) (m : Message) → IsOutside s c → IsOutside (reply_to c m s) c
replied-IsOutside s c m (h, free) = (
  replied-IsConsistent s c m h,
  ap (λ cs. length (get_or cs c no_client).current_room_name) (reply_to-Same c m s).clients ∙ free,
)

-- A client that is in a room asks for one.
elsewhere_lem :
    (s : Server) (c : ℕ) (name : List ℕ)
    → IsConsistent s
    → c < length s.clients
    → IsConsistent (
        if strcmp_eq (client_at s c).current_room_name name
        then reply_to c (already_in_room name) s
        else enter_room (leave_room s c) c name)
elsewhere_lem s c name h known =
    let (outside, same) = leave_room-IsOutside s c h known in
    either IsConsistent (strcmp_eq (client_at s c).current_room_name name) _ _
      (λ e. replied-IsConsistent s c (already_in_room name) h)
      (λ e. enter_room-IsConsistent (leave_room s c) c name outside (omega (arith, same)))

-- From a consistent server, a request of one of its clients to join any room leaves a consistent
-- one: whatever the answer is, every client is a member, once, of exactly the room whose name it
-- carries, and the rooms keep their bounds and their distinct valid names.
pub handle_join_room_request-IsConsistent :
    (s : Server) (c : ℕ) (name : List ℕ)
    → IsConsistent s
    → c < length s.clients
    → IsConsistent (handle_join_room_request s c name)
unfolding handle_join_room_request
handle_join_room_request-IsConsistent s c name h known =
    let current = (client_at s c).current_room_name in
    either IsConsistent (not (client_at s c).is_active) s _ (λ e. h)
      (λ e.
        either IsConsistent (not (is_valid_room_name name)) (reply_to c invalid_room_name s) _
          (λ f. replied-IsConsistent s c invalid_room_name h)
          (λ f.
            either IsConsistent (length current == 0) (enter_room s c name) _
              (λ g. enter_room-IsConsistent s c name (h, ground (arith, g)) known)
              (λ g. elsewhere_lem s c name h known)))

-- From a consistent server, a request of an active client to leave leaves a consistent one, in
-- which the client is in no room.
pub handle_leave_room_request-IsOutside :
    (s : Server) (c : ℕ)
    → IsConsistent s
    → c < length s.clients
    → (client_at s c).is_active ≡ true
    → IsOutside (handle_leave_room_request s c) c
unfolding handle_leave_room_request
handle_leave_room_request-IsOutside s c h known active =
    let left = leave_room-IsOutside s c h known in
    either (λ t. IsOutside t c) (not (client_at s c).is_active) s _
      (λ e. absurd (ground (arith, e, active)))
      (λ e.
        either (λ t. IsOutside t c) (length (client_at s c).current_room_name == 0)
          (reply_to c not_in_any_room s) (reply_to c left_the_room (leave_room s c))
          (λ f. replied-IsOutside s c not_in_any_room (h, ground (arith, f)))
          (λ f. replied-IsOutside (leave_room s c) c left_the_room left.0))
