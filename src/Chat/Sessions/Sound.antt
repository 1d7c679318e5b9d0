-- ===== src/Chat/Sessions/Sound.antt =====
-- What holds of the clients and the slots of final/server/client_handler.c between two requests.
use system_hw.Chat.Names.{is_valid_username}
use system_hw.Chat.Rooms.{Server, client_at}
use system_hw.Chat.Rooms.Frame.{Framed}
use system_hw.Chat.Rooms.Members.{IsConsistent}
use system_hw.Chat.Sessions.{max_server_clients}
use system_hw.Prelude.Tally.{tally, tally-same}
use system_hw.Prelude.{
  ℕ, ◌<◌, ◌≡◌, refl, sym, ap, subst, ◌∙◌, true, Option, none, some, List, [], ◌∷◌, length, get_or,
  arith, ◌==◌, ◌⊎◌, inl, inr, Bool-cases,
}

-- 1 for a slot whose client has logged in at some time.
abbrev pub has_name : List ℕ → ℕ
has_name [] = 0
has_name (x ∷ xs) = 1

abbrev pub named : Server → Option ℕ → ℕ
named s none = 0
named s (some c) = has_name (client_at s c).username

-- Client `c` is in slot `i`.
abbrev pub At : Server → ℕ → ℕ → Type 0
At s i c = get_or s.connected_clients i none ≡ some c

pub record IsSound (s : Server) : Type 0 where
  pub rooms : IsConsistent s
  pub slots_n : length s.connected_clients ≡ max_server_clients
  pub known : (i c : ℕ) → At s i c → c < length s.clients
  pub single : (i j c : ℕ) → At s i c → At s j c → i ≡ j
  pub unique :
      (i j c d : ℕ)
      → At s i c
      → At s j d
      → (client_at s c).is_active ≡ true
      → (client_at s d).is_active ≡ true
      → (client_at s c).username ≡ (client_at s d).username
      → c ≡ d
  pub called :
      (c : ℕ) → (client_at s c).is_active ≡ true → is_valid_username (client_at s c).username ≡ true
  pub counted : s.active_client_count ≡ tally (named s) s.connected_clients
  pub resident : (c : ℕ) → (length (client_at s c).current_room_name ≡ 0) ⊎ ((i : ℕ) × At s i c)

pub named-same :
    (s s' : Server) (slot : Option ℕ)
    → ((d : ℕ) → (client_at s' d).username ≡ (client_at s d).username)
    → named s' slot ≡ named s slot
named-same s s' none same = refl
named-same s s' (some c) same = ap has_name (same c)

-- A request of a registered client that only moves it between rooms keeps all of this.
pub Framed-IsSound :
    (s s' : Server) (i c : ℕ) → IsSound s → At s i c → IsConsistent s' → Framed c s s' → IsSound s'
Framed-IsSound s s' i c h at good f =
    let back : (j d : ℕ) → At s' j d → At s j d =
      λ j d e. ap (λ slots. get_or slots j none) (sym f.slots) ∙ e in
    record {
      rooms = good;
      slots_n = ap length f.slots ∙ h.slots_n;
      known = λ j d e. omega (arith, f.size, h.known j d (back j d e));
      single = λ j k d e e'. h.single j k d (back j d e) (back k d e');
      unique = λ j k d d' e e' on on' same.
          h.unique j k d d' (back j d e) (back k d' e') (sym (f.actives d) ∙ on)
            (sym (f.actives d') ∙ on') (sym (f.names d) ∙ same ∙ f.names d');
      called = λ d on.
          subst (λ n. is_valid_username n ≡ true) (sym (f.names d))
            (h.called d (sym (f.actives d) ∙ on));
      counted =
          f.count
          ∙ h.counted
          ∙ ap (tally (named s)) (sym f.slots)
          ∙ sym (
              tally-same (named s') (named s) s'.connected_clients none
                (λ j lt. named-same s s' (get_or s'.connected_clients j none) f.names));
      resident = λ d. elim (Bool-cases (c == d)) [
        | inl e ↦ inr (
          i,
          ap (λ slots. get_or slots i none) f.slots ∙ at ∙ ap (λ x. some x) (ground (arith, e)),
        )
        | inr e ↦ elim (h.resident d) [
          | inl empty ↦ inl (ap length (f.elsewhere d (ground (arith, e))) ∙ empty)
          | inr (j, there) ↦ inr (j, ap (λ slots. get_or slots j none) f.slots ∙ there)
        ]
      ];
    }
