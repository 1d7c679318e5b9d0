-- ===== src/Chat/Sessions/Dispatch.antt =====
-- `handleClientMessage` of final/server/client_handler.c keeps the server sound.
use system_hw.Chat.Rooms.{Server, Message, client_at, reply_to, goodbye, unknown_command}
use system_hw.Chat.Rooms.Frame.{Framed, reply_to-Framed}
use system_hw.Chat.Rooms.Handlers.{
  handle_join_room_request-Framed, handle_leave_room_request-Framed,
  handle_broadcast_request-Framed,
}
use system_hw.Chat.Rooms.Requests.{handle_join_room_request-IsConsistent, replied-IsConsistent}
use system_hw.Chat.Rooms.Spread.{
  handle_broadcast_request-IsConsistent, handle_leave_room_request-IsConsistent, alike-IsConsistent,
}
use system_hw.Chat.Rooms.Steps.{Same-IsConsistent}
use system_hw.Chat.Transfer.Queue.{handle_file_transfer_request-Queues}
use system_hw.Chat.Whisper.Privacy.{IsPrivate, whispered, handle_whisper_request-IsPrivate}
use system_hw.Chat.Sessions.{
  ClientMessage, join_room, leave, broadcast_to_room, whisper_to_user, file_transfer, disconnect,
  other, set_client, dispatch, handle_client_message,
}
use system_hw.Chat.Sessions.Fade.{Fades-IsSound, inactive-Fades}
use system_hw.Chat.Sessions.Sound.{IsSound, At, Framed-IsSound}
use system_hw.Prelude.Int.{ℤ}
use system_hw.Prelude.{
  ℕ, refl, sym, ap, subst, ◌∙◌, false, not, ◌||◌, List, inl, inr, Bool-cases, get_or, none,
}

pub replied-IsSound :
    (s : Server) (i c : ℕ) (m : Message) → IsSound s → At s i c → IsSound (reply_to c m s)
replied-IsSound s i c m h at =
    Framed-IsSound s _ i c h at (replied-IsConsistent s c m h.rooms) (reply_to-Framed c c m s)

whispered-Framed :
    (s : Server) (c : ℕ) (fd : ℤ) (receiver content : List ℕ)
    → Framed c s (whispered s c fd receiver content)
whispered-Framed s c fd receiver content = record {
  slots = refl;
  count = refl;
  size = refl;
  names = λ d. refl;
  actives = λ d. refl;
  elsewhere = λ d ne. refl;
}

private_lem :
    (s t : Server) (i c : ℕ) (receiver content : List ℕ)
    → IsSound s
    → At s i c
    → IsPrivate s c receiver content t
    → IsSound t
private_lem s t i c receiver content h at p = elim p [
  | inl same ↦ subst IsSound (sym same) h
  | inr (inl (m, same)) ↦ subst IsSound (sym same) (replied-IsSound s i c m h at)
  | inr (inr (d, on, named, same)) ↦ subst IsSound (sym same) (
      replied-IsSound (whispered s c (client_at s d).socket_fd receiver content) i c _
        (Framed-IsSound s _ i c h at (alike-IsConsistent s _ refl (λ e. refl) h.rooms)
          (whispered-Framed s c (client_at s d).socket_fd receiver content))
        at)
]

dispatch-IsSound :
    (s : Server) (i c : ℕ) (message : ClientMessage)
    → IsSound s
    → At s i c
    → IsSound (dispatch s c message)
unfolding dispatch
dispatch-IsSound s i c (join_room room) h at =
    Framed-IsSound s _ i c h at
      (handle_join_room_request-IsConsistent s c room h.rooms (h.known i c at))
      (handle_join_room_request-Framed c s room)
dispatch-IsSound s i c leave h at =
    Framed-IsSound s _ i c h at
      (handle_leave_room_request-IsConsistent s c h.rooms (h.known i c at))
      (handle_leave_room_request-Framed c s)
dispatch-IsSound s i c (broadcast_to_room content) h at =
    Framed-IsSound s _ i c h at (handle_broadcast_request-IsConsistent s c content h.rooms)
      (handle_broadcast_request-Framed c s content)
dispatch-IsSound s i c (whisper_to_user delivers receiver content) h at =
    private_lem s _ i c receiver content h at
      (handle_whisper_request-IsPrivate delivers s c receiver content)
dispatch-IsSound s i c (file_transfer env req) h at =
    let q = handle_file_transfer_request-Queues env s c req in
    Framed-IsSound s _ i c h at (Same-IsConsistent s _ q.same h.rooms) q.framed
dispatch-IsSound s i c disconnect h at =
    replied-IsSound (set_client s c (record (client_at s c) { is_active = false })) i c goodbye
      (Fades-IsSound s _ h (inactive-Fades s c))
      (ap (λ slots. get_or slots i none) (inactive-Fades s c).slots ∙ at)
dispatch-IsSound s i c other h at = replied-IsSound s i c unknown_command h at

pub handle_client_message-IsSound :
    (s : Server) (i c : ℕ) (message : ClientMessage)
    → IsSound s
    → At s i c
    → IsSound (handle_client_message s c message)
unfolding handle_client_message
handle_client_message-IsSound s i c message h at =
    elim (Bool-cases (not (client_at s c).is_active || not s.server_is_running)) [
      | inl e ↦ rw e h
      | inr e ↦ rw e (dispatch-IsSound s i c message h at)
    ]
