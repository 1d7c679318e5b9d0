-- ===== src/Chat/Rooms/Frame.antt =====
-- What the requests of final/server/room_manager.c leave alone: the slots, the names, who is logged
-- in, and the room of every client but the one that asks.
use system_hw.Chat.Names.{is_valid_room_name}
use system_hw.Chat.Rooms.{
  Server, ClientInfo, Message, Verb, no_client, client_at, room_at, max_members_per_room, max_rooms,
  is_member, remove_first, set_room_name, set_members, send_message, find_room, create_room,
  find_or_create_chat_room, add_client_to_room, remove_from, remove_client_from_their_room,
  broadcast_loop, broadcast_to_room_members, notify_room_of_client_action, reply_to,
}
use system_hw.Prelude.Int.{ℤ, pos, negsuc}
use system_hw.Prelude.{
  ℕ, zero, suc, ◌≡◌, ◌≢◌, refl, ap, ◌∙◌, Bool, true, false, not, Option, none, some, List, [], ◌∷◌,
  ◌++◌, length, length-set, get_or, get_or-set_ne, set, take, ◌==◌, ltb, leb, if◌then◌else◌,
  Bool-cases, inl, inr,
}

-- A request of client `c` takes the server from `s` to `s'`.
pub record Framed (c : ℕ) (s s' : Server) : Type 0 where
  pub slots : s'.connected_clients ≡ s.connected_clients
  pub count : s'.active_client_count ≡ s.active_client_count
  pub size : length s'.clients ≡ length s.clients
  pub names : (d : ℕ) → (client_at s' d).username ≡ (client_at s d).username
  pub actives : (d : ℕ) → (client_at s' d).is_active ≡ (client_at s d).is_active
  pub elsewhere :
      (d : ℕ) → c ≢ d → (client_at s' d).current_room_name ≡ (client_at s d).current_room_name

module _ (c : ℕ) where
  pub Framed-refl : (s : Server) → Framed c s s
  Framed-refl s = record {
    slots = refl;
    count = refl;
    size = refl;
    names = λ d. refl;
    actives = λ d. refl;
    elsewhere = λ d ne. refl;
  }

  pub Framed-trans : (a b e : Server) → Framed c a b → Framed c b e → Framed c a e
  Framed-trans a b e p q = record {
    slots = q.slots ∙ p.slots;
    count = q.count ∙ p.count;
    size = q.size ∙ p.size;
    names = λ d. q.names d ∙ p.names d;
    actives = λ d. q.actives d ∙ p.actives d;
    elsewhere = λ d ne. q.elsewhere d ne ∙ p.elsewhere d ne;
  }

  -- Both branches of a test.
  pub if-Framed :
      (b : Bool) (s t t' : Server) → Framed c s t → Framed c s t' → Framed c s (if b then t else t')
  if-Framed true s t t' p q = p
  if-Framed false s t t' p q = q

  pub send_message-Framed : (fd : ℤ) (m : Message) (s : Server) → Framed c s (send_message fd m s)
  unfolding send_message
  send_message-Framed (pos fd) m s = record {
    slots = refl;
    count = refl;
    size = refl;
    names = λ d. refl;
    actives = λ d. refl;
    elsewhere = λ d ne. refl;
  }
  send_message-Framed (negsuc k) m s = Framed-refl s

  pub reply_to-Framed : (d : ℕ) (m : Message) (s : Server) → Framed c s (reply_to d m s)
  unfolding reply_to
  reply_to-Framed d m s = send_message-Framed (client_at s d).socket_fd m s

  pub broadcast_loop-Framed :
      (ms : List ℕ) (m : Message) (exclude : Option (List ℕ)) (s : Server)
      → Framed c s (broadcast_loop ms m exclude s)
  unfolding broadcast_loop
  broadcast_loop-Framed [] m exclude s = Framed-refl s
  broadcast_loop-Framed (d ∷ ms) m exclude s =
      Framed-trans s _ _
        (if-Framed _ s (send_message (client_at s d).socket_fd m s) s
          (send_message-Framed (client_at s d).socket_fd m s) (Framed-refl s))
        (broadcast_loop-Framed ms m exclude _)

  pub notify-Framed :
      (s : Server) (d r : ℕ) (verb : Verb) → Framed c s (notify_room_of_client_action s d r verb)
  unfolding notify_room_of_client_action broadcast_to_room_members
  notify-Framed s d r verb =
      if-Framed (not s.server_is_running) s s _ (Framed-refl s)
        (broadcast_loop-Framed (room_at s r).members _ _ s)

  create_room-Framed :
      (s : Server) (name : List ℕ) (r : Option ℕ) → Framed c s (create_room s name r).0
  unfolding create_room
  create_room-Framed s name (some r) = Framed-refl s
  create_room-Framed s name none = elim (Bool-cases (ltb (length s.chat_rooms) max_rooms)) [
    | inl e ↦ rw e (record {
      slots = refl;
      count = refl;
      size = refl;
      names = λ d. refl;
      actives = λ d. refl;
      elsewhere = λ d ne. refl;
    })
    | inr e ↦ rw e (Framed-refl s)
  ]

  pub find_or_create_chat_room-Framed :
      (s : Server) (name : List ℕ) → Framed c s (find_or_create_chat_room s name).0
  unfolding find_or_create_chat_room
  find_or_create_chat_room-Framed s name = elim (Bool-cases (is_valid_room_name name)) [
    | inl e ↦ rw e (create_room-Framed s name (find_room 0 s.chat_rooms name))
    | inr e ↦ rw e (Framed-refl s)
  ]

-- The entry `d` after the room name of entry `c` is set.
renamed : List ClientInfo → ℕ → List ℕ → List ClientInfo
renamed cs c n = set cs c (record (get_or cs c no_client) { current_room_name = n })

username-renamed :
    (cs : List ClientInfo) (c d : ℕ) (n : List ℕ)
    → (get_or (renamed cs c n) d no_client).username ≡ (get_or cs d no_client).username
unfolding renamed
username-renamed [] c d n = refl
username-renamed (x ∷ xs) zero zero n = refl
username-renamed (x ∷ xs) zero (suc d) n = refl
username-renamed (x ∷ xs) (suc c) zero n = refl
username-renamed (x ∷ xs) (suc c) (suc d) n = username-renamed xs c d n

is_active-renamed :
    (cs : List ClientInfo) (c d : ℕ) (n : List ℕ)
    → (get_or (renamed cs c n) d no_client).is_active ≡ (get_or cs d no_client).is_active
unfolding renamed
is_active-renamed [] c d n = refl
is_active-renamed (x ∷ xs) zero zero n = refl
is_active-renamed (x ∷ xs) zero (suc d) n = refl
is_active-renamed (x ∷ xs) (suc c) zero n = refl
is_active-renamed (x ∷ xs) (suc c) (suc d) n = is_active-renamed xs c d n

set_room_name-Framed : (s : Server) (c : ℕ) (n : List ℕ) → Framed c s (set_room_name s c n)
unfolding set_room_name renamed
set_room_name-Framed s c n = record {
  slots = refl;
  count = refl;
  size = length-set s.clients c _;
  names = λ d. username-renamed s.clients c d n;
  actives = λ d. is_active-renamed s.clients c d n;
  elsewhere = λ d ne. ap (λ x. x.current_room_name) (get_or-set_ne s.clients c d _ no_client ne);
}

module _ (c : ℕ) where
  set_members-Framed : (s : Server) (r : ℕ) (ms : List ℕ) → Framed c s (set_members s r ms)
  unfolding set_members
  set_members-Framed s r ms = record {
    slots = refl;
    count = refl;
    size = refl;
    names = λ d. refl;
    actives = λ d. refl;
    elsewhere = λ d ne. refl;
  }

  resettled :
      (s : Server) (r : ℕ) (ms n : List ℕ) → Framed c s (set_room_name (set_members s r ms) c n)
  resettled s r ms n =
      Framed-trans c s (set_members s r ms) _ (set_members-Framed s r ms)
        (set_room_name-Framed (set_members s r ms) c n)

  pub add-Framed : (s : Server) (r : ℕ) → Framed c s (add_client_to_room s c r).0
  unfolding add_client_to_room
  add-Framed s r = elim (Bool-cases (leb max_members_per_room (length (room_at s r).members))) [
    | inl full ↦ rw full (Framed-refl c s)
    | inr space ↦ elim (Bool-cases (is_member c (room_at s r).members)) [
      | inl here ↦ rw (space, here) (Framed-refl c s)
      | inr new ↦
          rw (space, new)
            (resettled s r ((room_at s r).members ++ (c ∷ [])) (take 32 (room_at s r).name))
    ]
  ]

  remove_from-Framed : (s : Server) (r : Option ℕ) → Framed c s (remove_from s c r)
  unfolding remove_from
  remove_from-Framed s none = set_room_name-Framed s c []
  remove_from-Framed s (some r) = resettled s r (remove_first c (room_at s r).members) []

  pub remove-Framed : (s : Server) → Framed c s (remove_client_from_their_room s c)
  unfolding remove_client_from_their_room
  remove-Framed s =
      if-Framed c (length (client_at s c).current_room_name == 0) s s _ (Framed-refl c s)
        (remove_from-Framed s (find_room 0 s.chat_rooms (client_at s c).current_room_name))
