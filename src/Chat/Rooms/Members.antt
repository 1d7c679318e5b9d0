-- ===== src/Chat/Rooms/Members.antt =====
-- Who is in which room: the member lists of final/server/room_manager.c against the room name that
-- each client carries.
use system_hw.CString.{strcmp_eq, strcmp_eq_iff}
use system_hw.Chat.Names.{is_valid_room_name}
use system_hw.Chat.Rooms.{Server, max_rooms, max_members_per_room, client_at, room_at, remove_first}
use system_hw.Prelude.{
  ℕ, ◌+◌, ◌-◌, ◌≤◌, ◌<◌, ◌≡◌, ◌≢◌, refl, ap, true, List, [], ◌∷◌, ◌++◌, length, arith, ◌==◌,
  if◌then◌else◌, ◌⊎◌, inl, inr, Bool-cases,
}

-- How often a member list holds client `c`.
unfoldable pub occurrences : ℕ → List ℕ → ℕ
occurrences c [] = 0
occurrences c (m ∷ ms) = (if m == c then 1 else 0) + occurrences c ms

-- 1 if the name that a client carries is that of the room, and 0 otherwise.
unfoldable pub belongs : List ℕ → List ℕ → ℕ
belongs current name = if strcmp_eq name current then 1 else 0

-- The rooms are within their bounds and have distinct valid names, each client is a member, once,
-- of the room whose name it carries and of no other, and that room exists.
pub record IsConsistent (s : Server) : Type 0 where
  pub few : length s.chat_rooms ≤ max_rooms
  pub bounded : (r : ℕ) → length (room_at s r).members ≤ max_members_per_room
  pub named : (r : ℕ) → r < length s.chat_rooms → is_valid_room_name (room_at s r).name ≡ true
  pub distinct :
      (r q : ℕ)
      → r < length s.chat_rooms
      → q < length s.chat_rooms
      → (room_at s r).name ≡ (room_at s q).name
      → r ≡ q
  pub listed :
      (r c : ℕ)
      → r < length s.chat_rooms
      → occurrences c (room_at s r).members
        ≡ belongs (client_at s c).current_room_name (room_at s r).name
  pub housed :
      (c : ℕ)
      → (length (client_at s c).current_room_name ≡ 0)
        ⊎ ((r : ℕ) × (r < length s.chat_rooms)
            × ((room_at s r).name ≡ (client_at s c).current_room_name))

pub occurrences-append_self :
    (c d : ℕ) (ms : List ℕ)
    → occurrences c (ms ++ (d ∷ [])) ≡ occurrences c ms + (if d == c then 1 else 0)
unfolding occurrences
occurrences-append_self c d [] = omega arith
occurrences-append_self c d (m ∷ ms) = omega (arith, occurrences-append_self c d ms)

pub occurrences-remove_first :
    (c d : ℕ) (ms : List ℕ)
    → occurrences c (remove_first d ms) ≡ occurrences c ms - (if d == c then 1 else 0)
unfolding occurrences remove_first
occurrences-remove_first c d [] = ground arith
occurrences-remove_first c d (m ∷ ms) = ground (arith, occurrences-remove_first c d ms)

pub length-remove_first : (d : ℕ) (ms : List ℕ) → length (remove_first d ms) ≤ length ms
unfolding remove_first
length-remove_first d [] = omega arith
length-remove_first d (m ∷ ms) = ground (arith, length-remove_first d ms)

pub belongs_same : (current name : List ℕ) → name ≡ current → belongs current name ≡ 1
unfolding belongs
belongs_same current name e = rw ((strcmp_eq_iff name current).1 e) refl

pub belongs_other : (current name : List ℕ) → name ≢ current → belongs current name ≡ 0
unfolding belongs
belongs_other current name ne = elim (Bool-cases (strcmp_eq name current)) [
  | inl e ↦ absurd (ne ((strcmp_eq_iff name current).0 e))
  | inr e ↦ rw e refl
]

valid_length : (name : List ℕ) → is_valid_room_name name ≡ true → 0 < length name
unfolding is_valid_room_name
valid_length name v = ground arith

pub belongs_none :
    (current name : List ℕ)
    → is_valid_room_name name ≡ true
    → length current ≡ 0
    → belongs current name ≡ 0
belongs_none current name v e =
    belongs_other current name (λ same. absurd (omega (arith, valid_length name v, ap length same)))
