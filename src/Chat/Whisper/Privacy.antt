-- ===== src/Chat/Whisper/Privacy.antt =====
-- Whom `handleWhisperRequest` of final/server/room_manager.c sends anything to.
use system_hw.CString.{strcmp_eq}
use system_hw.Chat.Names.{is_valid_username}
use system_hw.Chat.Rooms.{
  invalid_recipient, invalid_whisper, whisper_to_self, Server, Message, client_at, message_buf_size,
  reply_to, recipient_offline, whisper_failed, whisper_sent_to, whisper,
}
use system_hw.Chat.Whisper.{
  deliver_whisper, whisper_to, find_client_by_username, handle_whisper_request,
}
use system_hw.Chat.Whisper.Lookup.{FirstOf, find_client_by_username-FirstOf}
use system_hw.Prelude.Int.{ℤ, pos, negsuc}
use system_hw.Prelude.{
  ℕ, ◌≡◌, refl, sym, ap, Bool, true, false, not, Option, none, some, List, [], ◌∷◌, ◌++◌, ◌||◌,
  ◌==◌, length, leb, take, ◌⊎◌, inl, inr, if◌then◌else◌,
}

-- The server with the whisper sent to a socket.
abbrev pub whispered : Server → ℕ → ℤ → List ℕ → List ℕ → Server
whispered s c fd receiver content = record s {
  sent = s.sent ++ ((fd, whisper (client_at s c).username receiver (take 1023 content)) ∷ []);
}

-- At most an answer to the sender; or the whisper to an active client of the receiver's name, and the
-- confirmation to the sender.
abbrev pub IsPrivate : Server → ℕ → List ℕ → List ℕ → Server → Type 0
IsPrivate s c receiver content t =
    (t ≡ s)
    ⊎ ((m : Message) × (t ≡ reply_to c m s))
    ⊎ ((d : ℕ) × ((client_at s d).is_active ≡ true)
        × ((client_at s d).username ≡ receiver)
        × (t
            ≡ reply_to c (whisper_sent_to receiver)
                (whispered s c (client_at s d).socket_fd receiver content)))

answered :
    (s : Server) (c : ℕ) (receiver content : List ℕ) (m : Message)
    → IsPrivate s c receiver content (reply_to c m s)
answered s c receiver content m = inr (inl (m, refl))

deliver-IsPrivate :
    (delivers : Bool) (s : Server) (c d : ℕ) (receiver content : List ℕ) (fd : ℤ)
    → (client_at s d).is_active ≡ true
    → (client_at s d).username ≡ receiver
    → (client_at s d).socket_fd ≡ fd
    → IsPrivate s c receiver content (deliver_whisper delivers s c d receiver content fd)
unfolding deliver_whisper
deliver-IsPrivate delivers s c d receiver content (negsuc k) active same e =
    answered s c receiver content whisper_failed
deliver-IsPrivate true s c d receiver content (pos fd) active same e = inr (
    inr (
      d,
      active,
      same,
      ap (λ k. reply_to c (whisper_sent_to receiver) (whispered s c k receiver content)) (sym e),
    ))
deliver-IsPrivate false s c d receiver content (pos fd) active same e =
    answered s c receiver content whisper_failed

whisper_to-IsPrivate :
    (delivers : Bool) (s : Server) (c : ℕ) (receiver content : List ℕ) (r : Option ℕ)
    → FirstOf s s.connected_clients receiver r
    → IsPrivate s c receiver content (whisper_to delivers s c receiver content r)
unfolding whisper_to
whisper_to-IsPrivate delivers s c receiver content none h =
    answered s c receiver content recipient_offline
whisper_to-IsPrivate delivers s c receiver content (some d) (active, same, i, lt, at, before) =
    rw active
      (deliver-IsPrivate delivers s c d receiver content (client_at s d).socket_fd active same refl)

if-IsPrivate :
    (b : Bool) (s : Server) (c : ℕ) (receiver content : List ℕ) (t t' : Server)
    → IsPrivate s c receiver content t
    → IsPrivate s c receiver content t'
    → IsPrivate s c receiver content (if b then t else t')
if-IsPrivate true s c receiver content t t' h h' = h
if-IsPrivate false s c receiver content t t' h h' = h'

-- A test that answers the sender.
refused :
    (b : Bool) (s : Server) (c : ℕ) (receiver content : List ℕ) (m : Message) (t : Server)
    → IsPrivate s c receiver content t
    → IsPrivate s c receiver content (if b then reply_to c m s else t)
refused b s c receiver content m t h =
    if-IsPrivate b s c receiver content (reply_to c m s) t (answered s c receiver content m) h

-- Whatever a whisper is asked to be, the server sends nothing, or one answer to the sender, or the
-- whisper to an active client with exactly the receiver's name and a confirmation to the sender.
pub handle_whisper_request-IsPrivate :
    (delivers : Bool) (s : Server) (c : ℕ) (receiver content : List ℕ)
    → IsPrivate s c receiver content (handle_whisper_request delivers s c receiver content)
unfolding handle_whisper_request
handle_whisper_request-IsPrivate delivers s c receiver content =
    let d = find_client_by_username s receiver in
    let named = find_client_by_username-FirstOf s receiver in
    let long = length content == 0 || leb message_buf_size (length content) in
    let itself = strcmp_eq (client_at s c).username receiver in
    if-IsPrivate (not (client_at s c).is_active) s c receiver content s _ (inl refl) (
      refused (not (is_valid_username receiver)) s c receiver content invalid_recipient _ (
        refused long s c receiver content invalid_whisper _ (
          refused itself s c receiver content whisper_to_self _
            (whisper_to-IsPrivate delivers s c receiver content d named))))
