-- ===== src/Chat/Rooms/Steps.antt =====
-- The operations of final/server/room_manager.c that the requests are made of keep the rooms and the
-- clients consistent.
use system_hw.CString.{strcmp_eq_iff}
use system_hw.Chat.Rooms.{
  Server, Message, Verb, max_members_per_room, client_at, room_at, is_member, remove_first,
  add_client_to_room, remove_from, remove_client_from_their_room, find_room, broadcast_loop,
  send_message, broadcast_to_room_members, notify_room_of_client_action, reply_to,
}
use system_hw.Chat.Rooms.Find.{FoundAt, find_room-FoundAt, take_valid}
use system_hw.Chat.Rooms.Members.{
  IsConsistent, occurrences-append_self, occurrences-remove_first, length-remove_first,
  belongs_same, belongs_other, belongs_none,
}
use system_hw.Chat.Rooms.Moves.{moved, Moves, moved-IsConsistent, client_moved}
use system_hw.Prelude.Int.{ℤ, pos, negsuc}
use system_hw.Prelude.{
  ℕ, ◌<◌, ◌≡◌, refl, sym, ap, ◌∙◌, Bool, true, false, not, Option, none, some, List, [], ◌∷◌, ◌++◌,
  length, length-append, length-set, arith, leb, ◌==◌, if◌then◌else◌, inl, inr, Bool-cases,
}

-- Messages change neither the clients nor the rooms.
pub record Same (s s' : Server) : Type 0 where
  pub clients : s'.clients ≡ s.clients
  pub rooms : s'.chat_rooms ≡ s.chat_rooms

pub Same-trans : {a b c : Server} → Same a b → Same b c → Same a c
Same-trans p q = record { clients = q.clients ∙ p.clients; rooms = q.rooms ∙ p.rooms }

pub Same-IsConsistent : (s s' : Server) → Same s s' → IsConsistent s → IsConsistent s'
Same-IsConsistent s s' e h = record {
  few = rw (e.rooms) h.few;
  bounded = λ r. rw (e.rooms) (h.bounded r);
  named = λ r. rw (e.rooms) (h.named r);
  distinct = λ r q. rw (e.rooms) (h.distinct r q);
  listed = λ r c. rw (e.rooms, e.clients) (h.listed r c);
  housed = λ c. rw (e.rooms, e.clients) (h.housed c);
}

send_message-Same : (fd : ℤ) (m : Message) (s : Server) → Same s (send_message fd m s)
unfolding send_message
send_message-Same (pos fd) m s = record { clients = refl; rooms = refl }
send_message-Same (negsuc k) m s = record { clients = refl; rooms = refl }

if-Same : (b : Bool) (s s' : Server) → Same s s' → Same s (if b then s' else s)
if-Same true s s' e = e
if-Same false s s' e = record { clients = refl; rooms = refl }

else-Same : (b : Bool) (s s' : Server) → Same s s' → Same s (if not b then s else s')
else-Same true s s' e = e
else-Same false s s' e = record { clients = refl; rooms = refl }

pub broadcast_loop-Same :
    (cs : List ℕ) (m : Message) (exclude : Option (List ℕ)) (s : Server)
    → Same s (broadcast_loop cs m exclude s)
unfolding broadcast_loop
broadcast_loop-Same [] m exclude s = record { clients = refl; rooms = refl }
broadcast_loop-Same (c ∷ cs) m exclude s =
    Same-trans (if-Same _ s _ (send_message-Same (client_at s c).socket_fd m s))
      (broadcast_loop-Same cs m exclude _)

pub notify-Same :
    (s : Server) (c r : ℕ) (verb : Verb) → Same s (notify_room_of_client_action s c r verb)
unfolding notify_room_of_client_action broadcast_to_room_members
notify-Same s c r verb =
    else-Same s.server_is_running s _ (broadcast_loop-Same (room_at s r).members _ _ s)

pub reply_to-Same : (c : ℕ) (m : Message) (s : Server) → Same s (reply_to c m s)
unfolding reply_to
reply_to-Same c m s = send_message-Same (client_at s c).socket_fd m s

-- A client without a room enters one.
enters-Moves :
    (s : Server) (c r : ℕ)
    → IsConsistent s
    → c < length s.clients
    → r < length s.chat_rooms
    → length (client_at s c).current_room_name ≡ 0
    → length (room_at s r).members < max_members_per_room
    → Moves s c r ((room_at s r).members ++ (c ∷ [])) (room_at s r).name
enters-Moves s c r h known inside free room =
    let none_yet = belongs_none (client_at s c).current_room_name in
    record {
      known = known;
      inside = inside;
      fits = omega (arith, room, length-append (room_at s r).members (c ∷ []));
      others = λ d ne. ground (arith, ne, occurrences-append_self d c (room_at s r).members);
      mine = ground (
        arith,
        occurrences-append_self c c (room_at s r).members,
        h.listed r c inside,
        none_yet (room_at s r).name (h.named r inside) free,
        belongs_same (room_at s r).name (room_at s r).name refl,
      );
      elsewhere = λ q lt ne. (
        none_yet (room_at s q).name (h.named q lt) free,
        belongs_other _ _ (λ e. ne (h.distinct r q inside lt (sym e))),
      );
      house = inr refl;
    }

pub add-IsConsistent :
    (s : Server) (c r : ℕ)
    → IsConsistent s
    → c < length s.clients
    → r < length s.chat_rooms
    → length (client_at s c).current_room_name ≡ 0
    → IsConsistent (add_client_to_room s c r).0
unfolding add_client_to_room moved
add-IsConsistent s c r h known inside free =
    elim (Bool-cases (leb max_members_per_room (length (room_at s r).members))) [
      | inl full ↦ rw full h
      | inr room ↦ elim (Bool-cases (is_member c (room_at s r).members)) [
        | inl here ↦ rw (room, here) h
        | inr new ↦
            rw (room, new, take_valid (room_at s r).name (h.named r inside))
              (moved-IsConsistent s c r _ _ h
                (enters-Moves s c r h known inside free (ground (arith, room))))
      ]
    ]

-- A client leaves the room whose name it carries.
leaves-Moves :
    (s : Server) (c r : ℕ)
    → IsConsistent s
    → c < length s.clients
    → r < length s.chat_rooms
    → (room_at s r).name ≡ (client_at s c).current_room_name
    → Moves s c r (remove_first c (room_at s r).members) []
leaves-Moves s c r h known inside same = record {
  known = known;
  inside = inside;
  fits = omega (arith, length-remove_first c (room_at s r).members, h.bounded r);
  others = λ d ne. ground (arith, ne, occurrences-remove_first d c (room_at s r).members);
  mine = ground (
    arith,
    occurrences-remove_first c c (room_at s r).members,
    h.listed r c inside,
    belongs_same (client_at s c).current_room_name (room_at s r).name same,
    belongs_none [] (room_at s r).name (h.named r inside) refl,
  );
  elsewhere = λ q lt ne. (
    belongs_other _ _ (λ e. ne (h.distinct r q inside lt (same ∙ sym e))),
    belongs_none [] (room_at s q).name (h.named q lt) refl,
  );
  house = inl refl;
}

-- A consistent server on which client `c` is in no room.
abbrev pub IsOutside : Server → ℕ → Type 0
IsOutside s c = IsConsistent s × (length (client_at s c).current_room_name ≡ 0)

remove_from-IsOutside :
    (s : Server) (c : ℕ) (r : Option ℕ)
    → IsConsistent s
    → c < length s.clients
    → (length (client_at s c).current_room_name == 0) ≡ false
    → FoundAt 0 s.chat_rooms (client_at s c).current_room_name r
    → IsOutside (remove_from s c r) c
unfolding remove_from moved
remove_from-IsOutside s c (some r) h known busy (k, lt, at, same) =
    let here : r ≡ k = omega arith in
    let named : (room_at s r).name ≡ (client_at s c).current_room_name =
      ap (λ q. (room_at s q).name) here ∙ (strcmp_eq_iff _ _).0 same in
    let ms = remove_first c (room_at s r).members in
    (
      moved-IsConsistent s c r ms [] h (leaves-Moves s c r h known (omega arith) named),
      ap length (client_moved s c r ms [] known),
    )
remove_from-IsOutside s c none h known busy missing = elim (h.housed c) [
  | inl e ↦ absurd (ground (arith, busy, e))
  | inr (q, lt, same) ↦ absurd (ground (arith, missing q lt, (strcmp_eq_iff _ _).1 same))
]

pub remove-IsOutside :
    (s : Server) (c : ℕ)
    → IsConsistent s
    → c < length s.clients
    → IsOutside (remove_client_from_their_room s c) c
unfolding remove_client_from_their_room
remove-IsOutside s c h known =
    let current = (client_at s c).current_room_name in
    elim (Bool-cases (length current == 0)) [
      | inl e ↦ rw e (h, ground (arith, e))
      | inr e ↦ rw e (
          remove_from-IsOutside s c (find_room 0 s.chat_rooms current) h known e
            (find_room-FoundAt 0 s.chat_rooms current))
    ]

length-remove_from :
    (s : Server) (c : ℕ) (r : Option ℕ) → length (remove_from s c r).clients ≡ length s.clients
unfolding remove_from
length-remove_from s c none = length-set s.clients c _
length-remove_from s c (some r) = length-set s.clients c _

pub length-remove :
    (s : Server) (c : ℕ) → length (remove_client_from_their_room s c).clients ≡ length s.clients
unfolding remove_client_from_their_room
length-remove s c =
    ground
      (arith, length-remove_from s c (find_room 0 s.chat_rooms (client_at s c).current_room_name))
