-- ===== src/Chat/Client/Sends.antt =====
-- What the client of final/client/commands.c may send.
use system_hw.CString.{strcmp_eq}
use system_hw.Chat.Client.{
  Packet, join_packet, leave_packet, broadcast_packet, whisper_packet, file_packet,
  disconnect_packet, login_packet, Notice, Net, ClientState, print, send_or, send_join_room_command,
  send_leave_room_command, send_broadcast_command, send_whisper_command, prepared_size,
  prepare_local_file, request_file, send_file_request_command,
}
use system_hw.Chat.Names.{is_valid_username, is_valid_room_name, is_valid_file_type}
use system_hw.Chat.Transfer.{max_file_size}
use system_hw.Prelude.Int.{ℤ, pos, negsuc}
use system_hw.Prelude.{
  ℕ, zero, suc, ◌≤◌, ◌<◌, ◌≡◌, refl, sym, ap, subst, ◌⊎◌, inl, inr, Bool, true, false, not, List,
  [], ◌∷◌, ◌++◌, length, take, length-take, leb, ◌==◌, if◌then◌else◌, arith,
}

-- What the server asks of a message, and its sender's name as the client has it.
abbrev pub IsProper : ClientState → Packet → Type 0
IsProper s (join_packet sender room) =
    (sender ≡ take 16 s.username) × (is_valid_room_name room ≡ true)
IsProper s (leave_packet sender) = (sender ≡ take 16 s.username) × (0 < length s.current_room)
IsProper s (broadcast_packet sender room content) =
    (sender ≡ take 16 s.username)
    × (0 < length s.current_room)
    × (room ≡ take 32 s.current_room)
    × (0 < length content)
    × (length content ≤ 256)
IsProper s (whisper_packet sender receiver content) =
    (sender ≡ take 16 s.username)
    × (is_valid_username receiver ≡ true)
    × (strcmp_eq s.username receiver ≡ false)
    × (0 < length content)
    × (length content ≤ 1023)
IsProper s (file_packet sender receiver filename size) =
    (sender ≡ take 16 s.username)
    × (is_valid_username receiver ≡ true)
    × (strcmp_eq s.username receiver ≡ false)
    × (is_valid_file_type filename ≡ true)
    × (length filename ≤ 256)
    × (0 < size)
    × (size ≤ max_file_size)
IsProper s (disconnect_packet sender) = sender ≡ take 16 s.username
IsProper s (login_packet sender) = ⊥

-- From `s` to `t` at most one message was sent, a proper one, and the client is who and where it was.
pub record Sends (s t : ClientState) : Type 0 where
  pub messages : (t.sent ≡ s.sent) ⊎ ((p : Packet) × (t.sent ≡ s.sent ++ (p ∷ [])) × IsProper s p)
  pub same_name : t.username ≡ s.username
  pub same_room : t.current_room ≡ s.current_room
  pub same_socket : t.socket_fd ≡ s.socket_fd

pub take_all : {A : Type 0} → (n : ℕ) (xs : List A) → length xs ≤ n → take n xs ≡ xs
take_all zero [] h = refl
take_all zero (x ∷ xs) h = absurd (omega arith)
take_all (suc n) [] h = refl
take_all (suc n) (x ∷ xs) h = ap (λ r. x ∷ r) (take_all n xs (omega arith))

pub if-Sends :
    (s : ClientState) (b : Bool) (x y : ClientState)
    → (b ≡ true → Sends s x)
    → (b ≡ false → Sends s y)
    → Sends s (if b then x else y)
if-Sends s true x y h k = h refl
if-Sends s false x y h k = k refl

pub print-Sends : (notice : Notice) (s : ClientState) → Sends s (print notice s)
unfolding print
print-Sends notice s = record {
  messages = inl refl;
  same_name = refl;
  same_room = refl;
  same_socket = refl;
}

send_or-Sends :
    (net : Net) (p : Packet) (s : ClientState) → IsProper s p → Sends s (send_or net p s)
unfolding send_or
send_or-Sends net p s proper =
    if-Sends s net.send_ok _ _
      (λ _. record {
        messages = inr (p, refl, proper);
        same_name = refl;
        same_room = refl;
        same_socket = refl;
      })
      (λ _. print-Sends _ s)

room_name-length : (room : List ℕ) → is_valid_room_name room ≡ true → length room ≤ 32
unfolding is_valid_room_name
room_name-length room e = ground arith

pub username-length : (name : List ℕ) → is_valid_username name ≡ true → length name ≤ 16
unfolding is_valid_username
username-length name e = ground arith

not-false : (b : Bool) → not b ≡ false → b ≡ true
not-false true e = refl
not-false false e = cc

pub join-Sends :
    (net : Net) (room : List ℕ) (s : ClientState) → Sends s (send_join_room_command net room s)
unfolding send_join_room_command
join-Sends net room s =
    if-Sends s (not (is_valid_room_name room)) _ _ (λ _. print-Sends _ s)
      λ e.
        let valid = not-false (is_valid_room_name room) e in
        send_or-Sends net _ s (
          refl,
          subst (λ r. is_valid_room_name r ≡ true)
              (sym (take_all 32 room (room_name-length room valid))) valid,
        )

pub leave-Sends : (net : Net) (s : ClientState) → Sends s (send_leave_room_command net s)
unfolding send_leave_room_command
leave-Sends net s =
    if-Sends s (length s.current_room == 0) _ _ (λ _. print-Sends _ s)
      λ e. send_or-Sends net _ s (refl, ground arith)

-- The commands are given at most 256 bytes.
pub broadcast-Sends :
    (net : Net) (content : List ℕ) (s : ClientState)
    → length content ≤ 256
    → Sends s (send_broadcast_command net content s)
unfolding send_broadcast_command
broadcast-Sends net content s short =
    if-Sends s (length s.current_room == 0) _ _ (λ _. print-Sends _ s)
      λ e.
        if-Sends s (length content == 0) _ _ (λ _. print-Sends _ s)
          λ f.
            if-Sends s (leb 1024 (length content)) _ _ (λ _. print-Sends _ s)
              λ g. send_or-Sends net _ s (
                refl,
                ground arith,
                refl,
                ground (arith, length-take 1023 content),
                ground (arith, length-take 1023 content),
              )

pub whisper-Sends :
    (net : Net) (target content : List ℕ) (s : ClientState)
    → Sends s (send_whisper_command net target content s)
unfolding send_whisper_command
whisper-Sends net target content s =
    if-Sends s (not (is_valid_username target)) _ _ (λ _. print-Sends _ s)
      λ e.
        if-Sends s (strcmp_eq s.username target) _ _ (λ _. print-Sends _ s)
          λ other.
            if-Sends s (length content == 0) _ _ (λ _. print-Sends _ s)
              λ f.
                if-Sends s (leb 1024 (length content)) _ _ (λ _. print-Sends _ s)
                  λ g.
                    let valid = not-false (is_valid_username target) e in
                    let whole = sym (take_all 16 target (username-length target valid)) in
                    send_or-Sends net _ s (
                      refl,
                      subst (λ r. is_valid_username r ≡ true) whole valid,
                      subst (λ r. strcmp_eq s.username r ≡ false) whole other,
                      ground (arith, length-take 1023 content),
                      ground (arith, length-take 1023 content),
                    )

-- A local file that may be offered: its type, the length of its name and its size are right.
prepared-size :
    (net : Net) (path filename : List ℕ) (size : ℕ)
    → prepare_local_file net path filename ≡ inr size
    → (is_valid_file_type filename ≡ true)
      × (length filename ≤ 256)
      × (0 < size)
      × (size ≤ max_file_size)
unfolding prepare_local_file prepared_size
prepared-size net path filename size e = by_size (net.file_size path) e
  where
    by_size :
        (z : ℤ)
        → (if leb 257 (length filename)
            then inl Notice.filename_too_long
            else if not (is_valid_file_type filename)
            then inl Notice.invalid_file_type
            else prepared_size z)
          ≡ inr size
        → (is_valid_file_type filename ≡ true)
          × (length filename ≤ 256)
          × (0 < size)
          × (size ≤ max_file_size)
    by_size (negsuc k) f = ground arith
    by_size (pos n) f = ground arith

request_file-Sends :
    (net : Net) (path target filename : List ℕ) (r : Notice ⊎ ℕ) (s : ClientState)
    → prepare_local_file net path filename ≡ r
    → is_valid_username target ≡ true
    → strcmp_eq s.username target ≡ false
    → Sends s (request_file net target filename r s)
unfolding request_file
request_file-Sends net path target filename (inl notice) s e valid other = print-Sends notice s
request_file-Sends net path target filename (inr size) s e valid other =
    let (kind, short, some_bytes, fits) = prepared-size net path filename size e in
    let whole = sym (take_all 16 target (username-length target valid)) in
    let all_of = sym (take_all 256 filename short) in
    if-Sends s net.send_ok _ _
      (λ _. record {
        messages = inr (
          file_packet (take 16 s.username) (take 16 target) (take 256 filename) size,
          refl,
          (
            refl,
            subst (λ r. is_valid_username r ≡ true) whole valid,
            subst (λ r. strcmp_eq s.username r ≡ false) whole other,
            subst (λ r. is_valid_file_type r ≡ true) all_of kind,
            subst (λ r. length r ≤ 256) all_of short,
            some_bytes,
            fits,
          ),
        );
        same_name = refl;
        same_room = refl;
        same_socket = refl;
      })
      (λ _. print-Sends _ s)

pub file-Sends :
    (net : Net) (path target : List ℕ) (s : ClientState)
    → Sends s (send_file_request_command net path target s)
unfolding send_file_request_command
file-Sends net path target s =
    if-Sends s (not (is_valid_username target)) _ _ (λ _. print-Sends _ s)
      λ e.
        if-Sends s (strcmp_eq s.username target) _ _ (λ _. print-Sends _ s)
          λ other.
            request_file-Sends net path target _ _ s refl (not-false (is_valid_username target) e)
              other
