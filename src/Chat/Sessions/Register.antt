-- ===== src/Chat/Sessions/Register.antt =====
-- `registerNewClientOnServer` of final/server/client_handler.c puts a new client into a free slot.
use system_hw.Chat.Rooms.{Server, ClientInfo, no_client, client_at, server_full}
use system_hw.Chat.Rooms.Spread.{alike-IsConsistent}
use system_hw.Chat.Sessions.{
  max_server_clients, find_empty_slot, new_client, register_in, register_new_client_on_server,
}
use system_hw.Chat.Sessions.Fade.{Fades-IsSound, send_message-Fades}
use system_hw.Chat.Sessions.Sound.{IsSound, At, named, has_name}
use system_hw.Chat.Names.{is_valid_username}
use system_hw.Prelude.Int.{ℤ}
use system_hw.Prelude.Tally.{tally-set, tally-same}
use system_hw.Prelude.{
  ℕ, zero, suc, ◌+◌, ◌<◌, ◌≡◌, ◌≢◌, refl, sym, ap, subst, ◌∙◌, Bool, true, false, Option, none,
  some, List, [], ◌∷◌, ◌++◌, length, length-set, length-append, get_or, get_or-set_self,
  get_or-set_ne, set, arith, ◌==◌, ◌⊎◌, inl, inr, Bool-cases,
}

-- The slot found is the first free one.
abbrev pub FreeAt : ℕ → List (Option ℕ) → Option ℕ → Type 0
FreeAt i slots none = (j : ℕ) → j < length slots → (c : ℕ) × (get_or slots j none ≡ some c)
FreeAt i slots (some k) =
    (j : ℕ) × (k ≡ i + j)
    × (j < length slots)
    × (get_or slots j none ≡ none)
    × ((m : ℕ) → m < j → (c : ℕ) × (get_or slots m none ≡ some c))

FreeAt-later :
    (i c : ℕ) (slots : List (Option ℕ)) (r : Option ℕ)
    → FreeAt (i + 1) slots r
    → FreeAt i (some c ∷ slots) r
FreeAt-later i c slots none h = all
  where
    all : (j : ℕ) → j < suc (length slots) → (e : ℕ) × (get_or (some c ∷ slots) j none ≡ some e)
    all zero lt = (c, refl)
    all (suc j) lt = h j (omega arith)
FreeAt-later i c slots (some k) (j, at, lt, free, full) =
    (suc j, omega (arith, at), omega arith, free, before)
  where
    before : (m : ℕ) → m < suc j → (e : ℕ) × (get_or (some c ∷ slots) m none ≡ some e)
    before zero less = (c, refl)
    before (suc m) less = full m (omega arith)

pub find_empty_slot-FreeAt :
    (i : ℕ) (slots : List (Option ℕ)) → FreeAt i slots (find_empty_slot i slots)
unfolding find_empty_slot
find_empty_slot-FreeAt i [] = λ j lt. absurd (omega arith)
find_empty_slot-FreeAt i (none ∷ slots) =
    (0, omega arith, omega arith, refl, λ m less. absurd (omega arith))
find_empty_slot-FreeAt i (some c ∷ slots) =
    FreeAt-later i c slots (find_empty_slot (i + 1) slots) (find_empty_slot-FreeAt (i + 1) slots)

-- A new client is like a client that is not there.
like_none :
    (cs : List ClientInfo) (fd : ℤ) (d : ℕ)
    → let x = get_or (cs ++ (new_client fd ∷ [])) d no_client in
      let y = get_or cs d no_client in
      (x.username ≡ y.username)
      × (x.is_active ≡ y.is_active)
      × (x.current_room_name ≡ y.current_room_name)
like_none [] fd zero = (refl, refl, refl)
like_none [] fd (suc d) = (refl, refl, refl)
like_none (y ∷ ys) fd zero = (refl, refl, refl)
like_none (y ∷ ys) fd (suc d) = like_none ys fd d

-- Past the end of the list there is nobody.
beyond : (cs : List ClientInfo) → get_or cs (length cs) no_client ≡ no_client
beyond [] = refl
beyond (y ∷ ys) = beyond ys

with_client : Server → ℤ → ℕ → Server
with_client s fd i = record s {
  clients = s.clients ++ (new_client fd ∷ []);
  connected_clients = set s.connected_clients i (some (length s.clients));
}

module _ (s : Server) (fd : ℤ) (i : ℕ) (h : IsSound s) (lt : i < length s.connected_clients)
    (free : get_or s.connected_clients i none ≡ none) where
  -- A slot after the change.
  slot-At :
      (j c : ℕ)
      → At (with_client s fd i) j c
      → ((j ≡ i) × (c ≡ length s.clients)) ⊎ ((i ≢ j) × At s j c)
  unfolding with_client
  slot-At j c e = elim (Bool-cases (i == j)) [
    | inl same ↦
        let here : i ≡ j = ground (arith, same) in
        inl (
          sym here,
          cc (
              sym (get_or-set_self s.connected_clients i (some (length s.clients)) none lt)
              ∙ ap (λ k. get_or (set s.connected_clients i (some (length s.clients))) k none) here
              ∙ e),
        )
    | inr other ↦
        let ne : i ≢ j = ground (arith, other) in
        inr (ne, sym (get_or-set_ne s.connected_clients i j (some (length s.clients)) none ne) ∙ e)
  ]

  -- The clients in the slots are not the new one.
  old : (j c : ℕ) → At s j c → c ≢ length s.clients
  old j c e same = absurd (omega (arith, h.known j c e, same))

  nobody : (client_at s (length s.clients)).is_active ≡ false
  nobody = ap (λ x. x.is_active) (beyond s.clients)

  named_with : (slot : Option ℕ) → named (with_client s fd i) slot ≡ named s slot
  unfolding with_client
  named_with none = refl
  named_with (some c) = ap has_name (like_none s.clients fd c).0

  single_with : (j k c : ℕ) → At (with_client s fd i) j c → At (with_client s fd i) k c → j ≡ k
  single_with j k c e f = elim (slot-At j c e) [
    | inl (at, new) ↦ elim (slot-At k c f) [
      | inl (at', new') ↦ at ∙ sym at'
      | inr (ne, there) ↦ absurd (old k c there new)
    ]
    | inr (ne, there) ↦ elim (slot-At k c f) [
      | inl (at', new') ↦ absurd (old j c there new')
      | inr (ne', there') ↦ h.single j k c there there'
    ]
  ]

  active_with :
      (c : ℕ)
      → (client_at (with_client s fd i) c).is_active ≡ true
      → (client_at s c).is_active ≡ true
  unfolding with_client
  active_with c on = sym (like_none s.clients fd c).1 ∙ on

  -- The client in a slot, if it is active, was there before.
  was-At : (j c : ℕ) → At (with_client s fd i) j c → (client_at s c).is_active ≡ true → At s j c
  was-At j c e on = elim (slot-At j c e) [
    | inl (at, new) ↦ absurd (cc (on, ap (λ x. (client_at s x).is_active) new, nobody))
    | inr (ne, there) ↦ there
  ]

  kept-At : (j c : ℕ) → At s j c → At (with_client s fd i) j c
  unfolding with_client
  kept-At j c there = elim (Bool-cases (i == j)) [
    | inl same ↦
        let here : i ≡ j = ground (arith, same) in
        absurd (cc (sym free, ap (λ k. get_or s.connected_clients k none) here, there))
    | inr other ↦
        get_or-set_ne s.connected_clients i j (some (length s.clients)) none (ground (arith, other))
        ∙ there
  ]

  with_client-IsSound : IsSound (with_client s fd i)
  unfolding with_client
  with_client-IsSound = record {
    rooms =
        alike-IsConsistent s (with_client s fd i) refl (λ d. (like_none s.clients fd d).2) h.rooms;
    slots_n = length-set s.connected_clients i _ ∙ h.slots_n;
    known = λ j c e. elim (slot-At j c e) [
      | inl (at, new) ↦ omega (arith, new, length-append s.clients (new_client fd ∷ []))
      | inr (ne, there) ↦
          omega (arith, h.known j c there, length-append s.clients (new_client fd ∷ []))
    ];
    single = single_with;
    unique = λ j k c d e f on on' same.
        h.unique j k c d (was-At j c e (active_with c on)) (was-At k d f (active_with d on'))
          (active_with c on) (active_with d on')
          (sym (like_none s.clients fd c).0 ∙ same ∙ (like_none s.clients fd d).0);
    called = λ c on.
        subst (λ n. is_valid_username n ≡ true) (sym (like_none s.clients fd c).0)
          (h.called c (active_with c on));
    counted = omega (
      arith,
      h.counted,
      tally-set (named s) s.connected_clients i (some (length s.clients)) none lt,
      ap (named s) free,
      ap (λ x. has_name x.username) (beyond s.clients),
      tally-same (named (with_client s fd i)) (named s)
          (set s.connected_clients i (some (length s.clients))) none
          (λ j less.
            named_with (get_or (set s.connected_clients i (some (length s.clients))) j none)),
    );
    resident = λ c. elim (h.resident c) [
      | inl empty ↦ inl (ap length (like_none s.clients fd c).2 ∙ empty)
      | inr (j, there) ↦ inr (j, kept-At j c there)
    ];
  }

-- The server stays sound. Without a new client nothing but the messages changes, and the preparation
-- failed or every slot is taken; a new client is in the first free slot, not logged in.
abbrev pub Registers : Bool → Server → Server × Option ℕ → Type 0
Registers prepared s (t, none) =
    IsSound t
    × (t.connected_clients ≡ s.connected_clients)
    × ((prepared ≡ false) ⊎ ((j : ℕ) → j < max_server_clients → (c : ℕ) × At s j c))
Registers prepared s (t, some c) =
    IsSound t
    × ((client_at t c).is_active ≡ false)
    × ((client_at t c).username ≡ [])
    × (i : ℕ) × At t i c
    × (get_or s.connected_clients i none ≡ none)
    × ((j : ℕ) → j < i → (d : ℕ) × At s j d)

new_at :
    (cs : List ClientInfo) (fd : ℤ)
    → get_or (cs ++ (new_client fd ∷ [])) (length cs) no_client ≡ new_client fd
new_at [] fd = refl
new_at (y ∷ ys) fd = new_at ys fd

register_in-Registers :
    (s : Server) (fd : ℤ) (r : Option ℕ)
    → IsSound s
    → FreeAt 0 s.connected_clients r
    → Registers true s (register_in s fd r)
unfolding register_in with_client
register_in-Registers s fd none h full = (
  Fades-IsSound s _ h (send_message-Fades fd server_full s),
  (send_message-Fades fd server_full s).slots,
  inr (λ j lt. full j (omega (arith, h.slots_n))),
)
register_in-Registers s fd (some k) h (j, at, lt, free, full) =
    let here : j ≡ k = omega (arith, at) in
    let (lt', free', full') =
      subst
        (λ x.
          (x < length s.connected_clients)
          × (get_or s.connected_clients x none ≡ none)
          × ((m : ℕ) → m < x → (d : ℕ) × At s m d))
        here (lt, free, full) in
    (
      with_client-IsSound s fd k h lt' free',
      ap (λ x. x.is_active) (new_at s.clients fd),
      ap (λ x. x.username) (new_at s.clients fd),
      k,
      get_or-set_self s.connected_clients k (some (length s.clients)) none lt',
      free',
      full',
    )

-- Registering keeps the server sound. A new client gets the first free slot, without a name and not
-- logged in; there is none only if the preparation failed or all 30 slots are taken, and then the
-- slots stay as they are.
pub register_new_client_on_server-Registers :
    (prepared : Bool) (s : Server) (fd : ℤ)
    → IsSound s
    → Registers prepared s (register_new_client_on_server prepared s fd)
unfolding register_new_client_on_server
register_new_client_on_server-Registers false s fd h = (h, refl, inl refl)
register_new_client_on_server-Registers true s fd h =
    register_in-Registers s fd (find_empty_slot 0 s.connected_clients) h
      (find_empty_slot-FreeAt 0 s.connected_clients)
