-- ===== src/Chat/Sessions/Fade.antt =====
-- A client of final/server/client_handler.c is marked inactive, or its socket is closed.
use system_hw.Chat.Names.{is_valid_username}
use system_hw.Chat.Rooms.{Server, ClientInfo, Message, no_client, client_at, send_message, reply_to}
use system_hw.Chat.Rooms.Spread.{alike-IsConsistent}
use system_hw.Chat.Sessions.{set_client, close_socket}
use system_hw.Chat.Sessions.Sound.{IsSound, At, named, named-same}
use system_hw.Prelude.Int.{ℤ, pos, negsuc}
use system_hw.Prelude.Tally.{tally, tally-same}
use system_hw.Prelude.{
  ℕ, zero, suc, ◌≡◌, refl, sym, ap, subst, ◌∙◌, true, false, none, List, [], ◌∷◌, length,
  length-set, get_or, set, inl, inr,
}

-- Nobody becomes active, and nothing else changes but the sockets.
pub record Fades (s s' : Server) : Type 0 where
  pub slots : s'.connected_clients ≡ s.connected_clients
  pub count : s'.active_client_count ≡ s.active_client_count
  pub size : length s'.clients ≡ length s.clients
  pub chat_rooms : s'.chat_rooms ≡ s.chat_rooms
  pub names : (d : ℕ) → (client_at s' d).username ≡ (client_at s d).username
  pub actives : (d : ℕ) → (client_at s' d).is_active ≡ true → (client_at s d).is_active ≡ true
  pub places : (d : ℕ) → (client_at s' d).current_room_name ≡ (client_at s d).current_room_name

pub Fades-IsSound : (s s' : Server) → IsSound s → Fades s s' → IsSound s'
Fades-IsSound s s' h f =
    let back : (j d : ℕ) → At s' j d → At s j d =
      λ j d e. ap (λ slots. get_or slots j none) (sym f.slots) ∙ e in
    record {
      rooms = alike-IsConsistent s s' f.chat_rooms f.places h.rooms;
      slots_n = ap length f.slots ∙ h.slots_n;
      known = λ j d e. rw (f.size) (h.known j d (back j d e));
      single = λ j k d e e'. h.single j k d (back j d e) (back k d e');
      unique = λ j k d d' e e' on on' same.
          h.unique j k d d' (back j d e) (back k d' e') (f.actives d on) (f.actives d' on')
            (sym (f.names d) ∙ same ∙ f.names d');
      called = λ d on.
          subst (λ n. is_valid_username n ≡ true) (sym (f.names d)) (h.called d (f.actives d on));
      counted =
          f.count
          ∙ h.counted
          ∙ ap (tally (named s)) (sym f.slots)
          ∙ sym (
              tally-same (named s') (named s) s'.connected_clients none
                (λ j lt. named-same s s' (get_or s'.connected_clients j none) f.names));
      resident = λ d. elim (h.resident d) [
        | inl empty ↦ inl (ap length (f.places d) ∙ empty)
        | inr (j, there) ↦ inr (j, ap (λ slots. get_or slots j none) f.slots ∙ there)
      ];
    }

-- The entry `d` after entry `c` is set to one that differs in the socket and may be less active.
record Dims (x y : ClientInfo) : Type 0 where
  name : y.username ≡ x.username
  room : y.current_room_name ≡ x.current_room_name
  active : y.is_active ≡ true → x.is_active ≡ true

Dims-refl : (x : ClientInfo) → Dims x x
Dims-refl x = record { name = refl; room = refl; active = λ e. e }

set-Dims :
    (cs : List ClientInfo) (c d : ℕ) (x : ClientInfo)
    → Dims (get_or cs c no_client) x
    → Dims (get_or cs d no_client) (get_or (set cs c x) d no_client)
set-Dims [] c d x h = Dims-refl no_client
set-Dims (y ∷ ys) zero zero x h = h
set-Dims (y ∷ ys) zero (suc d) x h = Dims-refl (get_or ys d no_client)
set-Dims (y ∷ ys) (suc c) zero x h = Dims-refl y
set-Dims (y ∷ ys) (suc c) (suc d) x h = set-Dims ys c d x h

set-Fades :
    (s : Server) (c : ℕ) (x : ClientInfo) → Dims (client_at s c) x → Fades s (set_client s c x)
unfolding set_client
set-Fades s c x h = record {
  slots = refl;
  count = refl;
  size = length-set s.clients c x;
  chat_rooms = refl;
  names = λ d. (set-Dims s.clients c d x h).name;
  actives = λ d. (set-Dims s.clients c d x h).active;
  places = λ d. (set-Dims s.clients c d x h).room;
}

pub inactive-Fades :
    (s : Server) (c : ℕ) → Fades s (set_client s c (record (client_at s c) { is_active = false }))
inactive-Fades s c =
    set-Fades s c (record (client_at s c) { is_active = false })
      (record { name = refl; room = refl; active = λ e. absurd cc })

pub close_socket-Fades : (s : Server) (c : ℕ) → Fades s (close_socket s c)
unfolding close_socket
close_socket-Fades s c =
    set-Fades s c (record (client_at s c) { socket_fd = negsuc 0 })
      (record { name = refl; room = refl; active = λ e. e })

pub send_message-Fades : (fd : ℤ) (m : Message) (s : Server) → Fades s (send_message fd m s)
unfolding send_message
send_message-Fades (pos fd) m s = record {
  slots = refl;
  count = refl;
  size = refl;
  chat_rooms = refl;
  names = λ d. refl;
  actives = λ d e. e;
  places = λ d. refl;
}
send_message-Fades (negsuc k) m s = record {
  slots = refl;
  count = refl;
  size = refl;
  chat_rooms = refl;
  names = λ d. refl;
  actives = λ d e. e;
  places = λ d. refl;
}

pub reply_to-Fades : (c : ℕ) (m : Message) (s : Server) → Fades s (reply_to c m s)
unfolding reply_to
reply_to-Fades c m s = send_message-Fades (client_at s c).socket_fd m s
