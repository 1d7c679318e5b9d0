-- ===== src/Chat/Sessions/Login.antt =====
-- `processClientLogin` of final/server/client_handler.c gives a client a name that no other has.
use system_hw.Chat.Names.{is_valid_username}
use system_hw.Chat.Rooms.{
  Server, Message, no_client, client_at, reply_to, invalid_login, bad_username, username_taken,
  login_successful,
}
use system_hw.Chat.Rooms.Spread.{alike-IsConsistent}
use system_hw.Chat.Rooms.Find.{take_all}
use system_hw.Chat.Rooms.Steps.{reply_to-Same}
use system_hw.Chat.Sessions.{set_client, log_in, process_client_login}
use system_hw.Chat.Sessions.Fade.{Fades-IsSound, reply_to-Fades}
use system_hw.Chat.Sessions.Sound.{IsSound, At, named, has_name}
use system_hw.Chat.Whisper.{find_client_by_username}
use system_hw.Chat.Whisper.Lookup.{IsOther, FirstOf, find_client_by_username-FirstOf}
use system_hw.Prelude.Tally.{tally-except, outside}
use system_hw.Prelude.{
  ℕ, ◌+◌, ◌<◌, ◌≡◌, ◌≢◌, refl, sym, ap, subst, ◌∙◌, Bool, true, false, Option, none, some, List, [],
  ◌∷◌, length, length-set, get_or, get_or-set_self, get_or-set_ne, take, arith, ◌==◌, inl, inr,
  Bool-cases,
}

-- The client with its name.
logged : Server → ℕ → List ℕ → Server
logged s c name =
    record (set_client s c (record (client_at s c) { username = name; is_active = true })) {
      active_client_count = s.active_client_count + 1;
    }

has_name_valid : (name : List ℕ) → is_valid_username name ≡ true → has_name name ≡ 1
unfolding is_valid_username
has_name_valid [] v = absurd (ground (arith, v))
has_name_valid (x ∷ xs) v = refl

module _ (s : Server) (i c : ℕ) (name : List ℕ) (h : IsSound s) (at : At s i c)
    (fresh : (client_at s c).username ≡ []) (valid : is_valid_username name ≡ true)
    (free : (j : ℕ)
      → j < length s.connected_clients
      → IsOther s name (get_or s.connected_clients j none)) where
  self_at :
      client_at (logged s c name) c ≡ record (client_at s c) { username = name; is_active = true }
  unfolding logged set_client
  self_at = get_or-set_self s.clients c _ no_client (h.known i c at)

  other_at : (d : ℕ) → c ≢ d → client_at (logged s c name) d ≡ client_at s d
  unfolding logged set_client
  other_at d ne = get_or-set_ne s.clients c d _ no_client ne

  place_at :
      (d : ℕ)
      → (client_at (logged s c name) d).current_room_name ≡ (client_at s d).current_room_name
  place_at d = elim (Bool-cases (c == d)) [
    | inl e ↦
        let same : c ≡ d = ground (arith, e) in
        subst
          (λ x.
            (client_at (logged s c name) x).current_room_name ≡ (client_at s x).current_room_name)
          same (ap (λ x. x.current_room_name) self_at)
    | inr e ↦ ap (λ x. x.current_room_name) (other_at d (ground (arith, e)))
  ]

  slot_lt : (j d : ℕ) → At s j d → j < length s.connected_clients
  slot_lt j d e = elim (outside s.connected_clients j none) [
    | inl lt ↦ lt
    | inr out ↦ absurd (cc (sym out, e))
  ]

  -- No other client that is logged in has the name.
  apart :
      (j d : ℕ)
      → c ≢ d
      → At s j d
      → (client_at (logged s c name) d).is_active ≡ true
      → name ≢ (client_at (logged s c name) d).username
  apart j d ne e on same =
      free j (slot_lt j d e) d e (ap (λ x. x.is_active) (sym (other_at d ne)) ∙ on)
        (sym (same ∙ ap (λ x. x.username) (other_at d ne)))

  my_name : (client_at (logged s c name) c).username ≡ name
  my_name = ap (λ x. x.username) self_at

  unique_after :
      (j k d e : ℕ)
      → At s j d
      → At s k e
      → (client_at (logged s c name) d).is_active ≡ true
      → (client_at (logged s c name) e).is_active ≡ true
      → (client_at (logged s c name) d).username ≡ (client_at (logged s c name) e).username
      → d ≡ e
  unique_after j k d e p q on on' same = elim (Bool-cases (c == d)) [
    | inl f ↦
        let me : c ≡ d = ground (arith, f) in
        elim (Bool-cases (c == e)) [
          | inl g ↦ sym me ∙ ground (arith, g)
          | inr g ↦ absurd (
              apart k e (ground (arith, g)) q on'
                (sym my_name ∙ ap (λ x. (client_at (logged s c name) x).username) me ∙ same))
        ]
    | inr f ↦
        let ne : c ≢ d = ground (arith, f) in
        elim (Bool-cases (c == e)) [
          | inl g ↦
              let me : c ≡ e = ground (arith, g) in
              absurd (
                apart j d ne p on
                  (sym my_name ∙ ap (λ x. (client_at (logged s c name) x).username) me ∙ sym same))
          | inr g ↦
              let ne' : c ≢ e = ground (arith, g) in
              h.unique j k d e p q (ap (λ x. x.is_active) (sym (other_at d ne)) ∙ on)
                (ap (λ x. x.is_active) (sym (other_at e ne')) ∙ on')
                (sym (ap (λ x. x.username) (other_at d ne))
                  ∙ same
                  ∙ ap (λ x. x.username) (other_at e ne'))
        ]
  ]

  valid_after :
      (d : ℕ)
      → (client_at (logged s c name) d).is_active ≡ true
      → is_valid_username (client_at (logged s c name) d).username ≡ true
  valid_after d on = elim (Bool-cases (c == d)) [
    | inl e ↦
        let me : c ≡ d = ground (arith, e) in
        subst (λ x. is_valid_username (client_at (logged s c name) x).username ≡ true) me
          (subst (λ n. is_valid_username n ≡ true) (sym my_name) valid)
    | inr e ↦
        let ne : c ≢ d = ground (arith, e) in
        subst (λ x. is_valid_username x.username ≡ true) (sym (other_at d ne))
          (h.called d (ap (λ x. x.is_active) (sym (other_at d ne)) ∙ on))
  ]

  named_after :
      (j : ℕ)
      → i ≢ j
      → named (logged s c name) (get_or s.connected_clients j none)
        ≡ named s (get_or s.connected_clients j none)
  named_after j ne = by_slot (get_or s.connected_clients j none) refl
    where
      by_slot :
          (slot : Option ℕ)
          → get_or s.connected_clients j none ≡ slot
          → named (logged s c name) slot ≡ named s slot
      by_slot none e = refl
      by_slot (some d) e =
          ap (λ x. has_name x.username)
            (other_at d (λ me. ne (h.single i j d (at ∙ ap (λ x. some x) me) e)))

  logged-IsSound : IsSound (logged s c name)
  unfolding logged set_client
  logged-IsSound = record {
    rooms = alike-IsConsistent s (logged s c name) refl place_at h.rooms;
    slots_n = h.slots_n;
    known = λ j d e. omega (
      arith,
      h.known j d e,
      length-set s.clients c (record (client_at s c) { username = name; is_active = true }),
    );
    single = h.single;
    unique = unique_after;
    called = valid_after;
    counted = omega (
      arith,
      h.counted,
      tally-except (named (logged s c name)) (named s) s.connected_clients i none (slot_lt i c at)
          named_after,
      ap (named s) at,
      ap (named (logged s c name)) at,
      ap has_name fresh,
      ap has_name my_name,
      has_name_valid name valid,
    );
    resident = λ d. elim (h.resident d) [
      | inl empty ↦ inl (ap length (place_at d) ∙ empty)
      | inr (j, there) ↦ inr (j, there)
    ];
  }

-- The server stays sound. A login that succeeds makes the client active under the name that it asked
-- for, and nothing else changes of the slots; one that fails changes only the messages.
abbrev pub Enters : Server → ℕ → List ℕ → Server × Bool → Type 0
Enters s c sender (t, true) =
    IsSound t
    × (t.connected_clients ≡ s.connected_clients)
    × ((client_at t c).is_active ≡ true)
    × ((client_at t c).username ≡ sender)
    × (is_valid_username sender ≡ true)
    × (t.active_client_count ≡ s.active_client_count + 1)
Enters s c sender (t, false) =
    IsSound t
    × (t.connected_clients ≡ s.connected_clients)
    × (t.clients ≡ s.clients)
    × (t.active_client_count ≡ s.active_client_count)

slots_logged :
    (s : Server) (c : ℕ) (name : List ℕ) → (logged s c name).connected_clients ≡ s.connected_clients
unfolding logged set_client
slots_logged s c name = refl

refused :
    (s : Server) (c : ℕ) (m : Message) (sender : List ℕ)
    → IsSound s
    → Enters s c sender (reply_to c m s, false)
refused s c m sender h =
    let f = reply_to-Fades c m s in
    (Fades-IsSound s (reply_to c m s) h f, f.slots, (reply_to-Same c m s).clients, f.count)

pub take_name : (name : List ℕ) → is_valid_username name ≡ true → take 16 name ≡ name
unfolding is_valid_username
take_name name v = take_all 16 name (ground (arith, v))

replied_after :
    (s t : Server) (c : ℕ) (m : Message) (sender : List ℕ)
    → Enters s c sender (t, true)
    → Enters s c sender (reply_to c m t, true)
replied_after s t c m sender (sound, slots, on, name, valid, count) =
    let f = reply_to-Fades c m t in
    let same = (reply_to-Same c m t).clients in
    (
      Fades-IsSound t (reply_to c m t) sound f,
      f.slots ∙ slots,
      ap (λ cs. (get_or cs c no_client).is_active) same ∙ on,
      ap (λ cs. (get_or cs c no_client).username) same ∙ name,
      valid,
      f.count ∙ count,
    )

log_in-Enters :
    (s : Server) (i c : ℕ) (sender : List ℕ) (r : Option ℕ)
    → IsSound s
    → At s i c
    → (client_at s c).username ≡ []
    → is_valid_username sender ≡ true
    → FirstOf s s.connected_clients sender r
    → Enters s c sender (log_in s c sender r)
unfolding log_in logged
log_in-Enters s i c sender (some d) h at fresh v first = refused s c username_taken sender h
log_in-Enters s i c sender none h at fresh v free =
    let me = self_at s i c sender h at fresh v free in
    rw (take_name sender v) (
      replied_after s (logged s c sender) c login_successful sender (
        logged-IsSound s i c sender h at fresh v free,
        slots_logged s c sender,
        ap (λ x. x.is_active) me,
        ap (λ x. x.username) me,
        v,
        refl,
      ))

-- The first message of a registered client keeps the server sound; the client may be logged in then.
pub process_client_login-Enters :
    (s : Server) (i c : ℕ) (is_login : Bool) (sender : List ℕ)
    → IsSound s
    → At s i c
    → (client_at s c).username ≡ []
    → Enters s c sender (process_client_login s c is_login sender)
unfolding process_client_login
process_client_login-Enters s i c false sender h at fresh = refused s c invalid_login sender h
process_client_login-Enters s i c true sender h at fresh =
    elim (Bool-cases (is_valid_username sender)) [
      | inr e ↦ rw e (refused s c bad_username sender h)
      | inl e ↦ rw e (
          log_in-Enters s i c sender (find_client_by_username s sender) h at fresh e
            (find_client_by_username-FirstOf s sender))
    ]
