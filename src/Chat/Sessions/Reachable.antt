-- ===== src/Chat/Sessions/Reachable.antt =====
-- The states that the chat server of final/server reaches, one request after the other.
use system_hw.Chat.Rooms.{Server, client_at, reply_to, shutting_down}
use system_hw.Chat.Rooms.Members.{IsConsistent, occurrences}
use system_hw.Chat.Sessions.{
  ClientMessage, register_new_client_on_server, after_login, first_message, handle_client_message,
  unregister_client, end_session, initialize_server_state, max_server_clients,
}
use system_hw.Chat.Sessions.Dispatch.{handle_client_message-IsSound}
use system_hw.Chat.Sessions.Fade.{Fades, Fades-IsSound, reply_to-Fades}
use system_hw.Chat.Sessions.Login.{Enters, process_client_login-Enters}
use system_hw.Chat.Sessions.Register.{Registers, register_new_client_on_server-Registers}
use system_hw.Chat.Sessions.Sound.{IsSound, At, named}
use system_hw.Chat.Sessions.Unregister.{unregister_client-Unregisters}
use system_hw.Prelude.Int.{ℤ}
use system_hw.Prelude.Tally.{tally-replicate}
use system_hw.Prelude.{
  ℕ, zero, suc, ◌≡◌, refl, sym, ap, ◌∙◌, Bool, true, false, not, ◌&&◌, Option, none, some, List, [],
  length-replicate, get_or, replicate, arith, inl, if◌then◌else◌,
}

-- The states between the requests of a server that serves them one at a time, each to its end; the
-- threads of the server may also come between the parts of each other's requests, which these states
-- do not show. A connection is accepted, the first message of a client comes or fails to come, a later one is
-- served, a session ends, or the server is told to stop.
pub data Reachable : Server → Type 0 where
  starts : Reachable initialize_server_state
  accepts :
      (s : Server) (prepared : Bool) (fd : ℤ)
      → Reachable s
      → Reachable (register_new_client_on_server prepared s fd).0
  begins :
      (s : Server) (i c : ℕ) (first : Option (Bool × List ℕ))
      → Reachable s
      → At s i c
      → (client_at s c).username ≡ []
      → Reachable (first_message s c first)
  serves :
      (s : Server) (i c : ℕ) (message : ClientMessage)
      → Reachable s
      → At s i c
      → Reachable (handle_client_message s c message)
  ends : (s : Server) (i c : ℕ) → Reachable s → At s i c → Reachable (end_session s c)
  stops : (s : Server) → Reachable s → Reachable (record s { server_is_running = false })

abbrev no_slot : Option ℕ
no_slot = none

empty_slot : (n i : ℕ) → get_or (replicate n no_slot) i none ≡ none
empty_slot zero i = refl
empty_slot (suc n) zero = refl
empty_slot (suc n) (suc i) = empty_slot n i

start-IsConsistent : IsConsistent initialize_server_state
unfolding initialize_server_state occurrences
start-IsConsistent = record {
  few = omega arith;
  bounded = λ r. omega arith;
  named = λ r lt. absurd (omega arith);
  distinct = λ r q lt lt' e. absurd (omega arith);
  listed = λ r c lt. absurd (omega arith);
  housed = λ c. inl refl;
}

start-IsSound : IsSound initialize_server_state
unfolding initialize_server_state
start-IsSound = record {
  rooms = start-IsConsistent;
  slots_n = length-replicate max_server_clients no_slot;
  known = λ i c e. absurd (cc (sym (empty_slot max_server_clients i) ∙ e));
  single = λ i j c e f. absurd (cc (sym (empty_slot max_server_clients i) ∙ e));
  unique = λ i j c d e f on on' same. absurd (cc (sym (empty_slot max_server_clients i) ∙ e));
  called = λ c on. absurd cc;
  counted = sym (tally-replicate (named initialize_server_state) max_server_clients no_slot refl);
  resident = λ c. inl refl;
}

registered :
    (prepared : Bool) (s : Server) (out : Server × Option ℕ)
    → Registers prepared s out
    → IsSound out.0
registered prepared s (t, none) h = h.0
registered prepared s (t, some c) h = h.0

logged_in :
    (s : Server) (i c : ℕ) (sender : List ℕ) (out : Server × Bool)
    → At s i c
    → Enters s c sender out
    → IsSound (after_login c out)
unfolding after_login
logged_in s i c sender (t, true) at h = h.0
logged_in s i c sender (t, false) at (sound, slots, _, _) =
    (unregister_client-Unregisters t i c sound (ap (λ cs. get_or cs i none) slots ∙ at)).sound

first_message-IsSound :
    (s : Server) (i c : ℕ) (first : Option (Bool × List ℕ))
    → IsSound s
    → At s i c
    → (client_at s c).username ≡ []
    → IsSound (first_message s c first)
unfolding first_message
first_message-IsSound s i c none h at fresh = (unregister_client-Unregisters s i c h at).sound
first_message-IsSound s i c (some (is_login, sender)) h at fresh =
    logged_in s i c sender _ at (process_client_login-Enters s i c is_login sender h at fresh)

end_session-IsSound : (s : Server) (i c : ℕ) → IsSound s → At s i c → IsSound (end_session s c)
unfolding end_session
end_session-IsSound s i c h at = told (not s.server_is_running && (client_at s c).is_active)
  where
    told : (b : Bool) → IsSound (unregister_client (if b then reply_to c shutting_down s else s) c)
    told true =
        let f = reply_to-Fades c shutting_down s in
        (unregister_client-Unregisters (reply_to c shutting_down s) i c (Fades-IsSound s _ h f)
          (ap (λ cs. get_or cs i none) f.slots ∙ at)).sound
    told false = (unregister_client-Unregisters s i c h at).sound

-- In every state between requests of a server that serves one request at a time, each to its end, in
-- any order, whoever connects and whatever is sent: each client is a
-- member, once, of exactly the room that it is in; a client is in one slot at most; no two clients
-- that are logged in have the same name, and their names are valid; the count of active clients is
-- the number of slots whose client has a name; and every member of a room is in a slot.
pub Reachable-IsSound : (s : Server) → Reachable s → IsSound s
Reachable-IsSound s starts = start-IsSound
Reachable-IsSound s (accepts t prepared fd r) =
    registered prepared t _
      (register_new_client_on_server-Registers prepared t fd (Reachable-IsSound t r))
Reachable-IsSound s (begins t i c first r at fresh) =
    first_message-IsSound t i c first (Reachable-IsSound t r) at fresh
Reachable-IsSound s (serves t i c message r at) =
    handle_client_message-IsSound t i c message (Reachable-IsSound t r) at
Reachable-IsSound s (ends t i c r at) = end_session-IsSound t i c (Reachable-IsSound t r) at
Reachable-IsSound s (stops t r) = Fades-IsSound t _ (Reachable-IsSound t r) (stopped t)
  where
    stopped : (t : Server) → Fades t (record t { server_is_running = false })
    stopped t = record {
      slots = refl;
      count = refl;
      size = refl;
      chat_rooms = refl;
      names = λ d. refl;
      actives = λ d e. e;
      places = λ d. refl;
    }
