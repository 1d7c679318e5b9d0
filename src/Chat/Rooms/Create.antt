-- ===== src/Chat/Rooms/Create.antt =====
-- A new room of final/server/room_manager.c in a consistent server.
use system_hw.CString.{strcmp_eq_iff}
use system_hw.Chat.Names.{is_valid_room_name}
use system_hw.Chat.Rooms.{Server, max_rooms, max_members_per_room, client_at, room_at, no_room}
use system_hw.Chat.Rooms.Find.{NoRoom}
use system_hw.Chat.Rooms.Members.{IsConsistent, occurrences, belongs, belongs_other, belongs_none}
use system_hw.Prelude.{
  ℕ, zero, suc, ◌+◌, ◌≤◌, ◌<◌, ◌≡◌, ◌≢◌, refl, sym, ap, ◌∙◌, true, List, [], ◌∷◌, ◌++◌, length,
  length-append, get_or, arith, ◌⊎◌, inl, inr,
}

-- An entry of a list with one more at its end.
append_cases :
    {A : Type 0}
    → (xs : List A) (y d : A) (r : ℕ)
    → ((r < length xs) × (get_or (xs ++ (y ∷ [])) r d ≡ get_or xs r d))
      ⊎ ((r ≡ length xs) × (get_or (xs ++ (y ∷ [])) r d ≡ y))
      ⊎ ((length xs < r) × (get_or (xs ++ (y ∷ [])) r d ≡ d))
append_cases [] y d zero = inr (inl (refl, refl))
append_cases [] y d (suc r) = inr (inr (omega arith, refl))
append_cases (x ∷ xs) y d zero = inl (omega arith, refl)
append_cases (x ∷ xs) y d (suc r) = elim (append_cases xs y d r) [
  | inl (lt, e) ↦ inl (omega arith, e)
  | inr (inl (at, e)) ↦ inr (inl (omega arith, e))
  | inr (inr (gt, e)) ↦ inr (inr (omega arith, e))
]

nothing : (c : ℕ) → occurrences c [] ≡ 0
unfolding occurrences
nothing c = refl

-- The server with one more room, empty and of a new name.
with_room : Server → List ℕ → Server
with_room s name = record s {
  chat_rooms = s.chat_rooms ++ (record { name = name; members = [] } ∷ []);
}

module _ (s : Server) (name : List ℕ) (h : IsConsistent s) (v : is_valid_room_name name ≡ true)
    (lt : length s.chat_rooms < max_rooms) (missing : NoRoom s.chat_rooms name) where
  size : length (with_room s name).chat_rooms ≡ length s.chat_rooms + 1
  unfolding with_room
  size = length-append s.chat_rooms _

  entry :
      (r : ℕ)
      → r < length (with_room s name).chat_rooms
      → ((r < length s.chat_rooms) × (room_at (with_room s name) r ≡ room_at s r))
        ⊎ ((r ≡ length s.chat_rooms)
            × (room_at (with_room s name) r ≡ record { name = name; members = [] }))
  unfolding with_room
  entry r less = elim (append_cases s.chat_rooms (record { name = name; members = [] }) no_room r) [
    | inl e ↦ inl e
    | inr (inl e) ↦ inr e
    | inr (inr (gt, e)) ↦ absurd (omega (arith, size))
  ]

  -- No client carries the new name.
  unused : (c : ℕ) → belongs (client_at s c).current_room_name name ≡ 0
  unused c = elim (h.housed c) [
    | inl e ↦ belongs_none _ name v e
    | inr (q, less, same) ↦ belongs_other _ name (λ e.
        absurd (
          ground (arith, missing q less, (strcmp_eq_iff (room_at s q).name name).1 (same ∙ sym e))))
  ]

  new-bounded : (r : ℕ) → length (room_at (with_room s name) r).members ≤ max_members_per_room
  unfolding with_room
  new-bounded r =
      elim (append_cases s.chat_rooms (record { name = name; members = [] }) no_room r) [
        | inl (less, e) ↦ omega (arith, h.bounded r, ap (λ x. length x.members) e)
        | inr (inl (at, e)) ↦ omega (arith, ap (λ x. length x.members) e)
        | inr (inr (gt, e)) ↦ omega (arith, ap (λ x. length x.members) e)
      ]

  new-named :
      (r : ℕ)
      → r < length (with_room s name).chat_rooms
      → is_valid_room_name (room_at (with_room s name) r).name ≡ true
  new-named r less = elim (entry r less) [
    | inl (old, e) ↦ ap (λ x. is_valid_room_name x.name) e ∙ h.named r old
    | inr (at, e) ↦ ap (λ x. is_valid_room_name x.name) e ∙ v
  ]

  -- No old room has the new name.
  old_name : (r : ℕ) → r < length s.chat_rooms → (room_at s r).name ≢ name
  old_name r less e =
      absurd (ground (arith, missing r less, (strcmp_eq_iff (room_at s r).name name).1 e))

  new-distinct :
      (r q : ℕ)
      → r < length (with_room s name).chat_rooms
      → q < length (with_room s name).chat_rooms
      → (room_at (with_room s name) r).name ≡ (room_at (with_room s name) q).name
      → r ≡ q
  new-distinct r q less less' same = elim (entry r less) [
    | inl (old, e) ↦ elim (entry q less') [
      | inl (old', e') ↦
          h.distinct r q old old' (sym (ap (λ x. x.name) e) ∙ same ∙ ap (λ x. x.name) e')
      | inr (at', e') ↦
          absurd (old_name r old (sym (ap (λ x. x.name) e) ∙ same ∙ ap (λ x. x.name) e'))
    ]
    | inr (at, e) ↦ elim (entry q less') [
      | inl (old', e') ↦
          absurd (old_name q old' (sym (ap (λ x. x.name) e') ∙ sym same ∙ ap (λ x. x.name) e))
      | inr (at', e') ↦ at ∙ sym at'
    ]
  ]

  new-listed :
      (r c : ℕ)
      → r < length (with_room s name).chat_rooms
      → occurrences c (room_at (with_room s name) r).members
        ≡ belongs (client_at s c).current_room_name (room_at (with_room s name) r).name
  new-listed r c less = elim (entry r less) [
    | inl (old, e) ↦
        ap (λ x. occurrences c x.members) e
        ∙ h.listed r c old
        ∙ sym (ap (λ x. belongs (client_at s c).current_room_name x.name) e)
    | inr (at, e) ↦
        ap (λ x. occurrences c x.members) e
        ∙ nothing c
        ∙ sym (unused c)
        ∙ sym (ap (λ x. belongs (client_at s c).current_room_name x.name) e)
  ]

  new-housed :
      (c : ℕ)
      → (length (client_at s c).current_room_name ≡ 0)
        ⊎ ((r : ℕ) × (r < length (with_room s name).chat_rooms)
            × ((room_at (with_room s name) r).name ≡ (client_at s c).current_room_name))
  unfolding with_room
  new-housed c = elim (h.housed c) [
    | inl e ↦ inl e
    | inr (q, less, same) ↦
        elim (append_cases s.chat_rooms (record { name = name; members = [] }) no_room q) [
          | inl (old, e) ↦ inr (q, omega (arith, size), ap (λ x. x.name) e ∙ same)
          | inr (inl (at, e)) ↦ absurd (omega arith)
          | inr (inr (gt, e)) ↦ absurd (omega arith)
        ]
  ]

  pub create-IsConsistent :
      IsConsistent
        (record s { chat_rooms = s.chat_rooms ++ (record { name = name; members = [] } ∷ []) })
  unfolding with_room
  create-IsConsistent = record {
    few = omega (arith, size);
    bounded = new-bounded;
    named = new-named;
    distinct = new-distinct;
    listed = new-listed;
    housed = new-housed;
  }
