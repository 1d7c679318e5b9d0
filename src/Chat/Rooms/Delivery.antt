-- ===== src/Chat/Rooms/Delivery.antt =====
-- Who gets a broadcast of final/server/room_manager.c.
use system_hw.CString.{strcmp_eq_iff}
use system_hw.Chat.Names.{is_valid_room_name}
use system_hw.Chat.Rooms.{
  Server, Message, ClientInfo, client_at, room_at, message_buf_size, is_excluded, send_message,
  broadcast_loop, broadcast_to_room_members, broadcast, broadcast_found, handle_broadcast_request,
  reply_to, message_sent_to,
}
use system_hw.Chat.Rooms.Find.{FindsRoom, find_or_create_chat_room-FindsRoom}
use system_hw.Chat.Rooms.Members.{IsConsistent, occurrences, belongs}
use system_hw.Prelude.Int.{ℤ, pos, negsuc}
use system_hw.Prelude.{
  ℕ, ◌<◌, ◌≡◌, refl, sym, ap, ◌∙◌, subst, Bool, true, false, not, ◌&&◌, ◌||◌, Option, none, some,
  List, [], ◌∷◌, ◌++◌, length, take, leb, ◌==◌, arith, inl, inr, if◌then◌else◌,
}

-- What goes to one socket.
abbrev pub posted : ℤ → Message → List (ℤ × Message)
posted (pos fd) m = (pos fd, m) ∷ []
posted (negsuc k) m = []

abbrev pub letter : ClientInfo → Message → List (ℤ × Message)
letter client m = if client.is_active then posted client.socket_fd m else []

-- What goes to the active ones of some clients, in their order.
abbrev pub letters : Server → Message → List ℕ → List (ℤ × Message)
letters s m [] = []
letters s m (c ∷ cs) = letter (client_at s c) m ++ letters s m cs

append-empty : {A : Type 0} → (xs : List A) → xs ++ [] ≡ xs
append-empty [] = refl
append-empty (x ∷ xs) = ap (λ r. x ∷ r) (append-empty xs)

append_assoc : {A : Type 0} → (xs ys zs : List A) → (xs ++ ys) ++ zs ≡ xs ++ (ys ++ zs)
append_assoc [] ys zs = refl
append_assoc (x ∷ xs) ys zs = ap (λ r. x ∷ r) (append_assoc xs ys zs)

send_message_posted :
    (fd : ℤ) (m : Message) (s : Server)
    → send_message fd m s ≡ record s { sent = s.sent ++ posted fd m }
unfolding send_message
send_message_posted (pos fd) m s = refl
send_message_posted (negsuc k) m s = ap (λ x. record s { sent = x }) (sym (append-empty s.sent))

loop_step :
    (s : Server) (c : ℕ) (m : Message) (active : Bool)
    → (if active && not (is_excluded none (client_at s c))
        then send_message (client_at s c).socket_fd m s
        else s)
      ≡ record s { sent = s.sent ++ (if active then posted (client_at s c).socket_fd m else []) }
unfolding is_excluded
loop_step s c m true = send_message_posted (client_at s c).socket_fd m s
loop_step s c m false = ap (λ x. record s { sent = x }) (sym (append-empty s.sent))

broadcast_loop-letters :
    (cs : List ℕ) (m : Message) (s : Server)
    → broadcast_loop cs m none s ≡ record s { sent = s.sent ++ letters s m cs }
unfolding broadcast_loop
broadcast_loop-letters [] m s = ap (λ x. record s { sent = x }) (sym (append-empty s.sent))
broadcast_loop-letters (c ∷ cs) m s =
    ap (broadcast_loop cs m none) (loop_step s c m (client_at s c).is_active)
    ∙ broadcast_loop-letters cs m (record s { sent = s.sent ++ letter (client_at s c) m })
    ∙ ap (λ x. record s { sent = x })
        (append_assoc s.sent (letter (client_at s c) m) (letters s m cs))

-- The message goes, in the order of the member list, to the active clients whose room this is, each
-- of them once, and the confirmation to the sender; nothing else changes.
pub record Delivers (s : Server) (c : ℕ) (content : List ℕ) (t : Server) : Type 0 where
  pub room : ℕ
  pub inside : room < length s.chat_rooms
  pub mine : (room_at s room).name ≡ (client_at s c).current_room_name
  pub members :
      (d : ℕ)
      → occurrences d (room_at s room).members
        ≡ belongs (client_at s d).current_room_name (room_at s room).name
  pub result : t ≡ record s {
    sent =
        (s.sent
          ++ letters s
              (broadcast (client_at s c).username (room_at s room).name (take 1023 content))
              (room_at s room).members)
        ++ posted (client_at s c).socket_fd (message_sent_to (room_at s room).name);
  }

found-Delivers :
    (s : Server) (c r : ℕ) (content : List ℕ)
    → IsConsistent s
    → r < length s.chat_rooms
    → (room_at s r).name ≡ (client_at s c).current_room_name
    → Delivers s c content (broadcast_found c content (s, some r))
unfolding broadcast_found broadcast_to_room_members reply_to
found-Delivers s c r content h lt same =
    let message = broadcast (client_at s c).username (room_at s r).name (take 1023 content) in
    let after = record s { sent = s.sent ++ letters s message (room_at s r).members } in
    record {
      room = r;
      inside = lt;
      mine = same;
      members = λ d. h.listed r d lt;
      result =
          ap (λ x. send_message (client_at x c).socket_fd (message_sent_to (room_at s r).name) x)
            (broadcast_loop-letters (room_at s r).members message s)
          ∙ send_message_posted (client_at s c).socket_fd (message_sent_to (room_at s r).name)
              after;
    }

room-Delivers :
    (s : Server) (c q : ℕ) (content : List ℕ) (out : Server × Option ℕ)
    → IsConsistent s
    → q < length s.chat_rooms
    → (room_at s q).name ≡ (client_at s c).current_room_name
    → FindsRoom s (client_at s c).current_room_name out
    → Delivers s c content (broadcast_found c content out)
room-Delivers s c q content (t, none) h lt at (same, inl invalid) =
    absurd (cc (h.named q lt, ap is_valid_room_name at, invalid))
room-Delivers s c q content (t, none) h lt at (same, inr (full, missing)) =
    absurd (cc (missing q lt, (strcmp_eq_iff _ _).1 at))
room-Delivers s c q content (t, some r) h lt at (v, inl (same, less, named)) =
    subst (λ x. Delivers s c content (broadcast_found c content (x, some r))) (sym same)
      (found-Delivers s c r content h less named)
room-Delivers s c q content (t, some r) h lt at (v, inr (room_left, missing, _, _)) =
    absurd (cc (missing q lt, (strcmp_eq_iff _ _).1 at))

-- On a consistent server, a broadcast of an active client that is in a room, with a content of 1 to
-- 1023 bytes, goes to exactly the active clients that are in the same room, to each of them once, and
-- is confirmed to the sender; nothing else changes.
pub handle_broadcast_request-Delivers :
    (s : Server) (c : ℕ) (content : List ℕ)
    → IsConsistent s
    → (client_at s c).is_active ≡ true
    → 0 < length (client_at s c).current_room_name
    → 0 < length content
    → length content < message_buf_size
    → Delivers s c content (handle_broadcast_request s c content)
unfolding handle_broadcast_request
handle_broadcast_request-Delivers s c content h active roomy some_text short =
    let inside : (length (client_at s c).current_room_name == 0) ≡ false = ground (arith, roomy) in
    let fits : (length content == 0 || leb message_buf_size (length content)) ≡ false =
      ground (arith, some_text, short) in
    let (q, lt, at) = room_of in
    rw (active, inside, fits)
      (room-Delivers s c q content _ h lt at
        (find_or_create_chat_room-FindsRoom s (client_at s c).current_room_name))
  where
    room_of :
        (q : ℕ) × (q < length s.chat_rooms)
        × ((room_at s q).name ≡ (client_at s c).current_room_name)
    room_of = elim (h.housed c) [
      | inl empty ↦ absurd (omega (arith, roomy, empty))
      | inr there ↦ there
    ]
