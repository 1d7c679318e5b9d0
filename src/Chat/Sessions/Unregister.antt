-- ===== src/Chat/Sessions/Unregister.antt =====
-- `unregisterClient` of final/server/client_handler.c takes a client out of its room and its slot.
use system_hw.Chat.Rooms.{
  Server, client_at, room_at, find_or_create_chat_room, disconnected_and_left,
}
use system_hw.Chat.Rooms.Frame.{
  Framed, Framed-refl, Framed-trans, if-Framed, notify-Framed, find_or_create_chat_room-Framed,
  remove-Framed,
}
use system_hw.Chat.Rooms.Members.{IsConsistent, occurrences, belongs_none}
use system_hw.Chat.Rooms.Requests.{Provides, room-Provides, either}
use system_hw.Chat.Rooms.Spread.{alike-IsConsistent}
use system_hw.Chat.Rooms.Steps.{Same-IsConsistent, notify-Same, remove-IsOutside, IsOutside}
use system_hw.Chat.Sessions.{
  set_client, tell_room, quit_room, holds_client, find_slot, clear_slot, close_socket,
  unregister_client,
}
use system_hw.Chat.Sessions.Fade.{Fades-IsSound, inactive-Fades, close_socket-Fades}
use system_hw.Chat.Sessions.Sound.{IsSound, At, named, has_name, Framed-IsSound}
use system_hw.Prelude.Tally.{tally, tally-set, outside}
use system_hw.Prelude.{
  ℕ, zero, suc, ◌+◌, ◌-◌, ◌<◌, ◌≡◌, ◌≢◌, refl, sym, ap, subst, ◌∙◌, true, false, ◌&&◌, Option, none,
  some, List, [], ◌∷◌, length, length-set, get_or, get_or-set_self, get_or-set_ne, set, arith, ltb,
  ◌==◌, ◌⊎◌, inl, inr, Bool-cases, if◌then◌else◌,
}

tell_room-Told :
    (s : Server) (c : ℕ) (out : Server × Option ℕ)
    → Provides s out
    → Framed c s out.0
    → IsConsistent (tell_room c out) × Framed c s (tell_room c out)
unfolding tell_room
tell_room-Told s c (t, none) (h, same) f = (h, f)
tell_room-Told s c (t, some r) (h, same, less) f = (
  either IsConsistent t.server_is_running _ t
      (λ e. Same-IsConsistent t _ (notify-Same t c r disconnected_and_left) h) (λ e. h),
  if-Framed c t.server_is_running s _ t
      (Framed-trans c s t _ f (notify-Framed c t c r disconnected_and_left)) f,
)

-- The client is in no room after it, and nobody else moves.
quit_room-Quits :
    (s : Server) (c : ℕ)
    → IsConsistent s
    → c < length s.clients
    → IsOutside (quit_room s c) c × Framed c s (quit_room s c)
unfolding quit_room
quit_room-Quits s c h known =
    let current = (client_at s c).current_room_name in
    elim (Bool-cases (length current == 0)) [
      | inl e ↦ rw e ((h, ground (arith, e)), Framed-refl c s)
      | inr e ↦
          let (good, f) =
            tell_room-Told s c (find_or_create_chat_room s current) (room-Provides s current h)
              (find_or_create_chat_room-Framed c s current) in
          let told = tell_room c (find_or_create_chat_room s current) in
          rw e (
            remove-IsOutside told c good (omega (arith, f.size, known)),
            Framed-trans c s told _ f (remove-Framed c told),
          )
    ]

-- The loop over the slots finds the client.
find_slot-finds :
    (c k : ℕ) (slots : List (Option ℕ)) (i : ℕ)
    → get_or slots i none ≡ some c
    → (j : ℕ) × (find_slot c k slots ≡ some (k + j)) × (get_or slots j none ≡ some c)
unfolding find_slot holds_client
find_slot-finds c k [] i at = absurd cc
find_slot-finds c k (slot ∷ slots) zero at =
    let here : (c == c) ≡ true = ground arith in
    (0, rw (at, here) (ap (λ x. some x) (omega arith)), at)
find_slot-finds c k (none ∷ slots) (suc i) at =
    let (j, found, there) = find_slot-finds c (k + 1) slots i at in
    (suc j, found ∙ ap (λ x. some x) (omega arith), there)
find_slot-finds c k (some d ∷ slots) (suc i) at = elim (Bool-cases (d == c)) [
  | inl e ↦ (0, rw e (ap (λ x. some x) (omega arith)), ap (λ x. some x) (ground (arith, e)))
  | inr e ↦
      let (j, found, there) = find_slot-finds c (k + 1) slots i at in
      (suc j, rw e (found ∙ ap (λ x. some x) (omega arith)), there)
]

counted_after :
    (name : List ℕ) (count rest : ℕ)
    → count ≡ rest + has_name name
    → (if ltb 0 (length name) && ltb 0 count then count - 1 else count) ≡ rest
counted_after [] count rest e = ground (arith, e)
counted_after (x ∷ xs) count rest e = ground (arith, e)

module _ (s : Server) (i c : ℕ) (h : IsSound s) (at : At s i c)
    (free : length (client_at s c).current_room_name ≡ 0) where
  slot_lt : i < length s.connected_clients
  slot_lt = elim (outside s.connected_clients i none) [
    | inl lt ↦ lt
    | inr out ↦ absurd (cc (sym out, at))
  ]

  slot_cleared : get_or (set s.connected_clients i none) i none ≡ none
  slot_cleared = get_or-set_self s.connected_clients i none none slot_lt

  slot_back :
      (j d : ℕ) → get_or (set s.connected_clients i none) j none ≡ some d → (i ≢ j) × At s j d
  slot_back j d e = elim (Bool-cases (i == j)) [
    | inl same ↦
        let here : i ≡ j = ground (arith, same) in
        absurd
          (cc (sym slot_cleared, ap (λ k. get_or (set s.connected_clients i none) k none) here, e))
    | inr other ↦
        let ne : i ≢ j = ground (arith, other) in
        (ne, sym (get_or-set_ne s.connected_clients i j none none ne) ∙ e)
  ]

  resident_after :
      (d : ℕ)
      → (length (client_at s d).current_room_name ≡ 0)
        ⊎ ((j : ℕ) × (get_or (set s.connected_clients i none) j none ≡ some d))
  resident_after d = elim (h.resident d) [
    | inl empty ↦ inl empty
    | inr (j, there) ↦ elim (Bool-cases (i == j)) [
      | inl same ↦
          let here : i ≡ j = ground (arith, same) in
          let me : c ≡ d = cc (sym at, ap (λ k. get_or s.connected_clients k none) here, there) in
          inl (ap (λ x. length (client_at s x).current_room_name) (sym me) ∙ free)
      | inr other ↦
          inr (j, get_or-set_ne s.connected_clients i j none none (ground (arith, other)) ∙ there)
    ]
  ]

  clear_slot-IsSound : IsSound (clear_slot s c (some i))
  unfolding clear_slot
  clear_slot-IsSound = record {
    rooms = alike-IsConsistent s (clear_slot s c (some i)) refl (λ d. refl) h.rooms;
    slots_n = length-set s.connected_clients i none ∙ h.slots_n;
    known = λ j d e. h.known j d (slot_back j d e).1;
    single = λ j k d e f. h.single j k d (slot_back j d e).1 (slot_back k d f).1;
    unique = λ j k d d' e f. h.unique j k d d' (slot_back j d e).1 (slot_back k d' f).1;
    called = h.called;
    counted =
        counted_after (client_at s c).username s.active_client_count
          (tally (named s) (set s.connected_clients i none))
          (omega (
            arith,
            h.counted,
            tally-set (named s) s.connected_clients i none none slot_lt,
            ap (named s) at,
          ));
    resident = resident_after;
  }

  nobody_after : (j : ℕ) → get_or (set s.connected_clients i none) j none ≢ some c
  nobody_after j e = let (ne, there) = slot_back j c e in ne (h.single i j c at there)

-- The server stays sound; the client is in no slot and in no room; and the other clients keep their
-- slots.
pub record Unregisters (s : Server) (c : ℕ) (t : Server) : Type 0 where
  pub sound : IsSound t
  pub absent : (j : ℕ) → get_or t.connected_clients j none ≢ some c
  pub in_no_room : (r : ℕ) → r < length t.chat_rooms → occurrences c (room_at t r).members ≡ 0
  pub others : (j d : ℕ) → c ≢ d → At s j d → At t j d

cleared-Unregisters :
    (s : Server) (i c : ℕ)
    → IsSound s
    → At s i c
    → length (client_at s c).current_room_name ≡ 0
    → Unregisters s c (clear_slot s c (some i))
unfolding clear_slot
cleared-Unregisters s i c h at free = record {
  sound = clear_slot-IsSound s i c h at free;
  absent = nobody_after s i c h at free;
  in_no_room = λ r lt.
      h.rooms.listed r c lt
      ∙ belongs_none (client_at s c).current_room_name (room_at s r).name (h.rooms.named r lt) free;
  others = λ j d ne there.
      get_or-set_ne s.connected_clients i j none none
        (λ here. ne (cc (sym at, ap (λ k. get_or s.connected_clients k none) here, there)))
      ∙ there;
}

slots_kept :
    (s t u : Server) (c : ℕ)
    → t.connected_clients ≡ s.connected_clients
    → Unregisters t c u
    → Unregisters s c u
slots_kept s t u c same h = record {
  sound = h.sound;
  absent = h.absent;
  in_no_room = h.in_no_room;
  others = λ j d ne there. h.others j d ne (ap (λ slots. get_or slots j none) same ∙ there);
}

-- Unregistering a client that is in a slot keeps the server sound: whether it was logged in or not,
-- the count of active clients is right, no slot and no room has a pointer to the freed client, and
-- the other clients keep their slots.
pub unregister_client-Unregisters :
    (s : Server) (i c : ℕ) → IsSound s → At s i c → Unregisters s c (unregister_client s c)
unfolding unregister_client
unregister_client-Unregisters s i c h at =
    let s1 = set_client s c (record (client_at s c) { is_active = false }) in
    let f1 = inactive-Fades s c in
    let h1 = Fades-IsSound s s1 h f1 in
    let at1 : At s1 i c = ap (λ slots. get_or slots i none) f1.slots ∙ at in
    let s2 = quit_room s1 c in
    let ((good, free), f2) = quit_room-Quits s1 c h1.rooms (h1.known i c at1) in
    let h2 = Framed-IsSound s1 s2 i c h1 at1 good f2 in
    let s3 = close_socket s2 c in
    let f3 = close_socket-Fades s2 c in
    let h3 = Fades-IsSound s2 s3 h2 f3 in
    let same : s3.connected_clients ≡ s.connected_clients = f3.slots ∙ f2.slots ∙ f1.slots in
    let at3 : At s3 i c = ap (λ slots. get_or slots i none) same ∙ at in
    let (j, found, there) = find_slot-finds c 0 s3.connected_clients i at3 in
    slots_kept s s3 (clear_slot s3 c (find_slot c 0 s3.connected_clients)) c same (
      subst (λ r. Unregisters s3 c (clear_slot s3 c r))
        (sym (found ∙ ap (λ x. some x) (omega arith)))
        (cleared-Unregisters s3 j c h3 there (ap length (f3.places c) ∙ free)))
