-- ===== src/Chat/Rooms/Find.antt =====
-- `findOrCreateChatRoom` of final/server/room_manager.c on every branch.
use system_hw.CString.{strcmp_eq, strcmp_eq_iff}
use system_hw.Chat.Names.{is_valid_room_name}
use system_hw.Chat.Rooms.{
  ChatRoom, Server, max_rooms, room_at, no_room, find_room, create_room, find_or_create_chat_room,
}
use system_hw.Prelude.{
  ℕ, zero, suc, ◌+◌, ◌≤◌, ◌<◌, ◌≡◌, refl, ap, ◌∙◌, true, false, Option, none, some, List, [], ◌∷◌,
  ◌++◌, length, get_or, take, arith, ltb, ◌⊎◌, inl, inr, Bool-cases,
}

-- No room has this name.
abbrev pub NoRoom : List ChatRoom → List ℕ → Type 0
NoRoom rooms name =
    (q : ℕ) → q < length rooms → strcmp_eq (get_or rooms q no_room).name name ≡ false

abbrev pub FoundAt : ℕ → List ChatRoom → List ℕ → Option ℕ → Type 0
FoundAt i rooms name none = NoRoom rooms name
FoundAt i rooms name (some r) =
    (k : ℕ) × (k < length rooms)
    × (r ≡ i + k)
    × (strcmp_eq (get_or rooms k no_room).name name ≡ true)

NoRoom-cons :
    (room : ChatRoom) (rooms : List ChatRoom) (name : List ℕ)
    → strcmp_eq room.name name ≡ false
    → NoRoom rooms name
    → NoRoom (room ∷ rooms) name
NoRoom-cons room rooms name e h zero lt = e
NoRoom-cons room rooms name e h (suc q) lt = h q (omega arith)

FoundAt-cons :
    (i : ℕ) (room : ChatRoom) (rooms : List ChatRoom) (name : List ℕ) (r : Option ℕ)
    → strcmp_eq room.name name ≡ false
    → FoundAt (i + 1) rooms name r
    → FoundAt i (room ∷ rooms) name r
FoundAt-cons i room rooms name none e h = NoRoom-cons room rooms name e h
FoundAt-cons i room rooms name (some r) e (k, lt, at, same) =
    (suc k, omega arith, omega arith, same)

pub find_room-FoundAt :
    (i : ℕ) (rooms : List ChatRoom) (name : List ℕ) → FoundAt i rooms name (find_room i rooms name)
unfolding find_room
find_room-FoundAt i [] name = λ q lt. absurd (omega arith)
find_room-FoundAt i (room ∷ rooms) name = elim (Bool-cases (strcmp_eq room.name name)) [
  | inl e ↦ rw e (0, omega arith, omega arith, e)
  | inr e ↦ rw e (FoundAt-cons i room rooms name _ e (find_room-FoundAt (i + 1) rooms name))
]

-- What `findOrCreateChatRoom` may return, and the server that it leaves.
abbrev pub FindsRoom : Server → List ℕ → Server × Option ℕ → Type 0
FindsRoom s name (s', none) =
    (s' ≡ s)
    × ((is_valid_room_name name ≡ false)
        ⊎ ((max_rooms ≤ length s.chat_rooms) × NoRoom s.chat_rooms name))
FindsRoom s name (s', some r) =
    (is_valid_room_name name ≡ true)
    × (((s' ≡ s) × (r < length s.chat_rooms) × ((room_at s r).name ≡ name))
        ⊎ ((length s.chat_rooms < max_rooms)
            × NoRoom s.chat_rooms name
            × (r ≡ length s.chat_rooms)
            × (s' ≡ record s {
              chat_rooms = s.chat_rooms ++ (record { name = name; members = [] } ∷ []);
            })))

pub take_all : (n : ℕ) (xs : List ℕ) → length xs ≤ n → take n xs ≡ xs
take_all zero [] h = refl
take_all zero (x ∷ xs) h = absurd (omega arith)
take_all (suc n) [] h = refl
take_all (suc n) (x ∷ xs) h = ap (λ r. x ∷ r) (take_all n xs (omega arith))

pub take_valid : (name : List ℕ) → is_valid_room_name name ≡ true → take 32 name ≡ name
unfolding is_valid_room_name
take_valid name h = take_all 32 name (ground arith)

create_room-FindsRoom :
    (s : Server) (name : List ℕ) (r : Option ℕ)
    → is_valid_room_name name ≡ true
    → FoundAt 0 s.chat_rooms name r
    → FindsRoom s name (create_room s name r)
unfolding create_room
create_room-FindsRoom s name (some r) v (k, lt, at, same) =
    let here : r ≡ k = omega arith in
    (v, inl (refl, omega arith, ap (λ q. (room_at s q).name) here ∙ (strcmp_eq_iff _ name).0 same))
create_room-FindsRoom s name none v h = elim (Bool-cases (ltb (length s.chat_rooms) max_rooms)) [
  | inl room_left ↦ rw (room_left, take_valid name v) (v, inr (ground arith, h, refl, refl))
  | inr full ↦ rw full (refl, inr (ground arith, h))
]

-- For a valid name, `findOrCreateChatRoom` returns a room that has it, unchanged; without such a
-- room it returns a new one of that name, empty and behind the others, if there are fewer than 30.
-- It returns NULL, and changes nothing, exactly for an invalid name or when a room is missing and 30
-- are there.
pub find_or_create_chat_room-FindsRoom :
    (s : Server) (name : List ℕ) → FindsRoom s name (find_or_create_chat_room s name)
unfolding find_or_create_chat_room
find_or_create_chat_room-FindsRoom s name = elim (Bool-cases (is_valid_room_name name)) [
  | inl v ↦ rw v (create_room-FindsRoom s name _ v (find_room-FoundAt 0 s.chat_rooms name))
  | inr bad ↦ rw bad (refl, inl bad)
]
