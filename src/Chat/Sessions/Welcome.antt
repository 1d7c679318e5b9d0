-- ===== src/Chat/Sessions/Welcome.antt =====
-- What `processClientLogin` of final/server/client_handler.c makes of a client's first message.
use system_hw.Chat.Names.{is_valid_username}
use system_hw.Chat.Rooms.{
  Server, Message, client_at, send_message, reply_to, invalid_login, bad_username, username_taken,
  login_successful,
}
use system_hw.Chat.Sessions.{set_client, log_in, process_client_login}
use system_hw.Chat.Sessions.Login.{Enters, take_name, process_client_login-Enters}
use system_hw.Chat.Sessions.Sound.{IsSound, At}
use system_hw.Chat.Whisper.{find_client_by_username}
use system_hw.Chat.Whisper.Lookup.{IsOther, FirstOf, find_client_by_username-FirstOf}
use system_hw.Prelude.Int.{ℤ, pos, negsuc}
use system_hw.Prelude.{
  ℕ, ◌+◌, ◌<◌, ◌≡◌, refl, Bool, true, false, Option, none, some, List, [], length, set, get_or, ◌⊎◌,
  inl, inr, Bool-cases,
}

-- From `s` to `t` only the messages have changed.
abbrev pub OnlySends : Server → Server → Type 0
OnlySends s t = t ≡ record s { sent = t.sent }

-- A client in a slot is logged in under the name.
abbrev pub IsTaken : Server → List ℕ → Type 0
IsTaken s name =
    (j d : ℕ) × At s j d × ((client_at s d).is_active ≡ true) × ((client_at s d).username ≡ name)

abbrev pub IsFree : Server → List ℕ → Type 0
IsFree s name =
    (j : ℕ) → j < length s.connected_clients → IsOther s name (get_or s.connected_clients j none)

abbrev pub named : Server → ℕ → List ℕ → Server
named s c name = record s {
  clients = set s.clients c (record (client_at s c) { username = name; is_active = true });
  active_client_count = s.active_client_count + 1;
}

-- The message is a login with a valid name that is free, and the client has that name afterwards; or
-- it is not, and only messages change.
abbrev pub LogsIn : Server → ℕ → Bool → List ℕ → Server × Bool → Type 0
LogsIn s c is_login name (t, true) =
    (is_login ≡ true)
    × (is_valid_username name ≡ true)
    × IsFree s name
    × OnlySends (named s c name) t
LogsIn s c is_login name (t, false) =
    ((is_login ≡ false) ⊎ ((is_valid_username name ≡ false) ⊎ IsTaken s name)) × OnlySends s t

send_message-OnlySends : (fd : ℤ) (m : Message) (s : Server) → OnlySends s (send_message fd m s)
unfolding send_message
send_message-OnlySends (pos fd) m s = refl
send_message-OnlySends (negsuc k) m s = refl

reply_to-OnlySends : (c : ℕ) (m : Message) (s : Server) → OnlySends s (reply_to c m s)
unfolding reply_to
reply_to-OnlySends c m s = send_message-OnlySends (client_at s c).socket_fd m s

log_in-LogsIn :
    (s : Server) (c : ℕ) (name : List ℕ) (r : Option ℕ)
    → is_valid_username name ≡ true
    → FirstOf s s.connected_clients name r
    → LogsIn s c true name (log_in s c name r)
unfolding log_in set_client
log_in-LogsIn s c name (some d) v (on, called, i, lt, at, _) =
    (inr (inr (i, d, at, on, called)), reply_to-OnlySends c username_taken s)
log_in-LogsIn s c name none v free =
    rw (take_name name v) (refl, v, free, reply_to-OnlySends c login_successful (named s c name))

decides :
    (s : Server) (c : ℕ) (is_login : Bool) (name : List ℕ)
    → LogsIn s c is_login name (process_client_login s c is_login name)
unfolding process_client_login
decides s c false name = (inl refl, reply_to-OnlySends c invalid_login s)
decides s c true name = elim (Bool-cases (is_valid_username name)) [
  | inr e ↦ rw e (inr (inl e), reply_to-OnlySends c bad_username s)
  | inl e ↦ rw e (
      log_in-LogsIn s c name (find_client_by_username s name) e
        (find_client_by_username-FirstOf s name))
]

Enters-IsSound :
    (s : Server) (c : ℕ) (name : List ℕ) (out : Server × Bool) → Enters s c name out → IsSound out.0
Enters-IsSound s c name (t, true) (sound, _, _, _, _, _) = sound
Enters-IsSound s c name (t, false) (sound, _, _, _) = sound

-- The first message of a registered client logs it in exactly if it is a login with a valid name that
-- no client in a slot is logged in under: the client then has that name and is active, the count of
-- active clients grows by one, and nothing else changes but the messages. Otherwise nothing but the
-- messages changes. The server stays sound.
pub process_client_login-LogsIn :
    (s : Server) (i c : ℕ) (is_login : Bool) (name : List ℕ)
    → IsSound s
    → At s i c
    → (client_at s c).username ≡ []
    → LogsIn s c is_login name (process_client_login s c is_login name)
      × IsSound (process_client_login s c is_login name).0
process_client_login-LogsIn s i c is_login name h at fresh = (
  decides s c is_login name,
  Enters-IsSound s c name _ (process_client_login-Enters s i c is_login name h at fresh),
)
