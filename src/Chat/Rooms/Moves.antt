-- ===== src/Chat/Rooms/Moves.antt =====
-- One client of final/server/room_manager.c enters or leaves one room.
use system_hw.Chat.Names.{is_valid_room_name}
use system_hw.Chat.Rooms.{
  ChatRoom, Server, max_members_per_room, no_client, client_at, room_at, no_room, set_members,
  set_room_name,
}
use system_hw.Prelude.{
  ℕ, zero, suc, ◌≤◌, ◌<◌, ◌≡◌, ◌≢◌, refl, sym, ap, ap₂, subst, ◌∙◌, List, [], ◌∷◌, length,
  length-set, get_or, get_or-set_self, get_or-set_ne, set, arith, ◌==◌, ◌⊎◌, inl, inr, Bool-cases,
}
use system_hw.Chat.Rooms.Members.{IsConsistent, occurrences, belongs}

name_set :
    (rooms : List ChatRoom) (r q : ℕ) (ms : List ℕ)
    → (get_or (set rooms r (record (get_or rooms r no_room) { members = ms })) q no_room).name
      ≡ (get_or rooms q no_room).name
name_set [] r q ms = refl
name_set (x ∷ xs) zero zero ms = refl
name_set (x ∷ xs) zero (suc q) ms = refl
name_set (x ∷ xs) (suc r) zero ms = refl
name_set (x ∷ xs) (suc r) (suc q) ms = name_set xs r q ms

-- Client `c` gets the name `n`, and room `r` the members `ms`.
unfoldable pub moved : Server → ℕ → ℕ → List ℕ → List ℕ → Server
moved s c r ms n = set_room_name (set_members s r ms) c n

module _ (s : Server) (c r : ℕ) (ms n : List ℕ) where
  pub length-moved : length (moved s c r ms n).chat_rooms ≡ length s.chat_rooms
  unfolding moved set_room_name set_members
  length-moved = length-set s.chat_rooms r _

  name_moved : (q : ℕ) → (room_at (moved s c r ms n) q).name ≡ (room_at s q).name
  unfolding moved set_room_name set_members
  name_moved q = name_set s.chat_rooms r q ms

  members_moved : r < length s.chat_rooms → (room_at (moved s c r ms n) r).members ≡ ms
  unfolding moved set_room_name set_members
  members_moved lt = ap (λ x. x.members) (get_or-set_self s.chat_rooms r _ no_room lt)

  members_moved_ne :
      (q : ℕ) → r ≢ q → (room_at (moved s c r ms n) q).members ≡ (room_at s q).members
  unfolding moved set_room_name set_members
  members_moved_ne q ne = ap (λ x. x.members) (get_or-set_ne s.chat_rooms r q _ no_room ne)

  pub client_moved : c < length s.clients → (client_at (moved s c r ms n) c).current_room_name ≡ n
  unfolding moved set_room_name set_members
  client_moved lt = ap (λ x. x.current_room_name) (get_or-set_self s.clients c _ no_client lt)

  client_moved_ne : (d : ℕ) → c ≢ d → client_at (moved s c r ms n) d ≡ client_at s d
  unfolding moved set_room_name set_members
  client_moved_ne d ne = get_or-set_ne s.clients c d _ no_client ne

-- Client `c` moves in or out of room `r`, and is in no other.
pub record Moves (s : Server) (c r : ℕ) (ms n : List ℕ) : Type 0 where
  pub known : c < length s.clients
  pub inside : r < length s.chat_rooms
  pub fits : length ms ≤ max_members_per_room
  pub others : (d : ℕ) → c ≢ d → occurrences d ms ≡ occurrences d (room_at s r).members
  pub mine : occurrences c ms ≡ belongs n (room_at s r).name
  pub elsewhere :
      (q : ℕ)
      → q < length s.chat_rooms
      → r ≢ q
      → (belongs (client_at s c).current_room_name (room_at s q).name ≡ 0)
        × (belongs n (room_at s q).name ≡ 0)
  pub house : (length n ≡ 0) ⊎ ((room_at s r).name ≡ n)

module _ (s : Server) (c r : ℕ) (ms n : List ℕ) (h : IsConsistent s) (m : Moves s c r ms n) where
  moved-bounded : (q : ℕ) → length (room_at (moved s c r ms n) q).members ≤ max_members_per_room
  moved-bounded q = elim (Bool-cases (r == q)) [
    | inl e ↦
        let at : r ≡ q = ground arith in
        omega (
          arith,
          m.fits,
          ap (λ p. length (room_at (moved s c r ms n) p).members) at,
          ap length (members_moved s c r ms n m.inside),
        )
    | inr e ↦
        omega (arith, h.bounded q, ap length (members_moved_ne s c r ms n q (ground (arith, e))))
  ]

  -- The member list of room `q` says of client `d` what the client's name says.
  abbrev Listed : ℕ → ℕ → Type 0
  Listed q d =
      occurrences d (room_at (moved s c r ms n) q).members
      ≡ belongs (client_at (moved s c r ms n) d).current_room_name
          (room_at (moved s c r ms n) q).name

  same_entry :
      (q d : ℕ) (ns current : List ℕ)
      → (room_at (moved s c r ms n) q).members ≡ ns
      → (client_at (moved s c r ms n) d).current_room_name ≡ current
      → occurrences d ns ≡ belongs current (room_at s q).name
      → Listed q d
  same_entry q d ns current e f g =
      ap (occurrences d) e ∙ g ∙ sym (ap₂ belongs f (name_moved s c r ms n q))

  unmoved :
      (d : ℕ)
      → c ≢ d
      → (client_at (moved s c r ms n) d).current_room_name ≡ (client_at s d).current_room_name
  unmoved d ne = ap (λ x. x.current_room_name) (client_moved_ne s c r ms n d ne)

  entry_in : (d : ℕ) → Listed r d
  entry_in d = elim (Bool-cases (c == d)) [
    | inl f ↦
        let same : c ≡ d = ground arith in
        subst (λ x. Listed r x) same
          (same_entry r c ms n (members_moved s c r ms n m.inside) (client_moved s c r ms n m.known)
            m.mine)
    | inr f ↦
        let ne : c ≢ d = ground arith in
        same_entry r d ms _ (members_moved s c r ms n m.inside) (unmoved d ne)
          (m.others d ne ∙ h.listed r d m.inside)
  ]

  entry_out : (q d : ℕ) → q < length s.chat_rooms → r ≢ q → Listed q d
  entry_out q d lt ne = elim (Bool-cases (c == d)) [
    | inl f ↦
        let same : c ≡ d = ground arith in
        let (was, is) = m.elsewhere q lt ne in
        subst (λ x. Listed q x) same
          (same_entry q c _ n (members_moved_ne s c r ms n q ne) (client_moved s c r ms n m.known)
            (h.listed q c lt ∙ was ∙ sym is))
    | inr f ↦
        let other : c ≢ d = ground arith in
        same_entry q d _ _ (members_moved_ne s c r ms n q ne) (unmoved d other) (h.listed q d lt)
  ]

  moved-Listed : (q d : ℕ) → q < length s.chat_rooms → Listed q d
  moved-Listed q d lt = elim (Bool-cases (r == q)) [
    | inl e ↦ let at : r ≡ q = ground arith in subst (λ p. Listed p d) at (entry_in d)
    | inr e ↦ entry_out q d lt (ground (arith, e))
  ]

  -- Client `d` has no room, or one that is there.
  abbrev Housed : ℕ → Type 0
  Housed d =
      (length (client_at (moved s c r ms n) d).current_room_name ≡ 0)
      ⊎ ((q : ℕ) × (q < length (moved s c r ms n).chat_rooms)
          × ((room_at (moved s c r ms n) q).name
              ≡ (client_at (moved s c r ms n) d).current_room_name))

  home_at :
      (d : ℕ) (current : List ℕ)
      → (client_at (moved s c r ms n) d).current_room_name ≡ current
      → (length current ≡ 0)
        ⊎ ((q : ℕ) × (q < length s.chat_rooms) × ((room_at s q).name ≡ current))
      → Housed d
  home_at d current e (inl none_left) = inl (ap length e ∙ none_left)
  home_at d current e (inr (q, lt, same)) =
      inr (q, omega (arith, lt, length-moved s c r ms n), name_moved s c r ms n q ∙ same ∙ sym e)

  house_for :
      (length n ≡ 0) ⊎ ((room_at s r).name ≡ n)
      → (length n ≡ 0) ⊎ ((q : ℕ) × (q < length s.chat_rooms) × ((room_at s q).name ≡ n))
  house_for (inl e) = inl e
  house_for (inr e) = inr (r, m.inside, e)

  moved-Housed : (d : ℕ) → Housed d
  moved-Housed d = elim (Bool-cases (c == d)) [
    | inl f ↦
        let same : c ≡ d = ground arith in
        subst Housed same (home_at c n (client_moved s c r ms n m.known) (house_for m.house))
    | inr f ↦ home_at d _ (unmoved d (ground (arith, f))) (h.housed d)
  ]

  -- Such a move keeps the server consistent.
  pub moved-IsConsistent : IsConsistent (moved s c r ms n)
  moved-IsConsistent = record {
    few = omega (arith, h.few, length-moved s c r ms n);
    bounded = moved-bounded;
    named = λ q lt.
        ap is_valid_room_name (name_moved s c r ms n q)
        ∙ h.named q (omega (arith, length-moved s c r ms n));
    distinct = λ p q lt lt' e.
        h.distinct p q (omega (arith, length-moved s c r ms n))
          (omega (arith, length-moved s c r ms n))
          (sym (name_moved s c r ms n p) ∙ e ∙ name_moved s c r ms n q);
    listed = λ q d lt. moved-Listed q d (omega (arith, length-moved s c r ms n));
    housed = moved-Housed;
  }
