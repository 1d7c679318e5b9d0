-- ===== src/Chat/Transfer/Queue.antt =====
-- What `handleFileTransferRequest` of final/server/file_transfer.c puts into the queue of files.
use system_hw.CString.{strcmp_eq, strcmp_eq_iff}
use system_hw.Chat.Names.{is_valid_file_type}
use system_hw.Chat.Rooms.{
  Server, Message, FileTransferTask, client_at, reply_to, send_message, invalid_file_type,
  empty_file, file_too_large, recipient_not_found, file_to_self, backlog_full, file_accepted,
}
use system_hw.Chat.Rooms.Frame.{Framed, Framed-refl}
use system_hw.Chat.Rooms.Steps.{Same}
use system_hw.Chat.Whisper.{find_client_by_username}
use system_hw.Chat.Whisper.Lookup.{FirstOf, find_client_by_username-FirstOf}
use system_hw.Chat.Transfer.{
  FileRequest, Transfer, Leftovers, strncpy, max_file_size, max_total_queued_files, receiver_ok,
  validate_file_transfer_meta, add_file_to_upload_queue, accept_transfer, transfer_checked,
  handle_file_transfer_request,
}
use system_hw.Prelude.Int.{ℤ, pos, negsuc}
use system_hw.Prelude.{
  ℕ, ◌≤◌, ◌<◌, ◌≡◌, ◌≢◌, refl, Bool, true, false, Option, none, some, List, [], ◌∷◌, ◌++◌, length,
  take, arith, ltb, leb, ◌==◌, Bool-cases, ◌⊎◌, inl, inr,
}

-- The file may be sent: its type and its size are allowed, and its receiver is another client that is
-- there.
pub record IsAllowed (s : Server) (c : ℕ) (req : FileRequest) : Type 0 where
  pub kind : is_valid_file_type req.filename ≡ true
  pub some_data : 0 < req.file_size
  pub fits : req.file_size ≤ max_file_size
  pub receiver : ℕ
  pub present : (client_at s receiver).is_active ≡ true
  pub called : (client_at s receiver).username ≡ req.receiver
  pub another : (client_at s c).username ≢ req.receiver

-- A name that is shorter than `n` is in the array as it is; of a longer one the first `n` bytes are,
-- and what follows them in memory.
abbrev pub Copied : ℕ → List ℕ → List ℕ → Type 0
Copied n name text =
    (length name < n → text ≡ name)
    × (n ≤ length name → (after : List ℕ) × (text ≡ take n name ++ after))

pub record IsTaskOf (s : Server) (c : ℕ) (req : FileRequest) (task : FileTransferTask)
    : Type 0 where
  pub filename : Copied 256 req.filename task.filename
  pub sender : Copied 16 (client_at s c).username task.sender_username
  pub receiver : Copied 16 req.receiver task.receiver_username
  pub size : task.file_size ≡ req.file_size

strncpy-Copied : (n : ℕ) (name after : List ℕ) → Copied n name (strncpy n name after)
unfolding strncpy
strncpy-Copied n name after = elim (Bool-cases (ltb (length name) n)) [
  | inl e ↦ rw e (λ _. refl, λ le. absurd (ground (arith, e, le)))
  | inr e ↦ rw e (λ lt. absurd (ground (arith, e, lt)), λ _. (after, refl))
]

-- Everything but the queue and the messages is as before, and the queue is as before, or has one more
-- task at its end, for a file that may be sent, when it held fewer than 50.
pub record Queues (s : Server) (c : ℕ) (req : FileRequest) (t : Server) : Type 0 where
  pub framed : Framed c s t
  pub same : Same s t
  pub running : t.server_is_running ≡ s.server_is_running
  pub queue :
      (t.file_transfer_manager ≡ s.file_transfer_manager)
      ⊎ (IsAllowed s c req
          × (length s.file_transfer_manager < max_total_queued_files)
          × (task : FileTransferTask) × IsTaskOf s c req task
          × (t.file_transfer_manager ≡ s.file_transfer_manager ++ (task ∷ [])))

kept-Framed :
    (s : Server) (c : ℕ) (tasks : List FileTransferTask) (sent : List (ℤ × Message))
    → Framed c s (record s { file_transfer_manager = tasks; sent = sent })
kept-Framed s c tasks sent = record {
  slots = refl;
  count = refl;
  size = refl;
  names = λ d. refl;
  actives = λ d. refl;
  elsewhere = λ d ne. refl;
}

sent_only :
    (s : Server) (c : ℕ) (req : FileRequest) (fd : ℤ) (m : Message)
    → Queues s c req (send_message fd m s)
unfolding send_message
sent_only s c req (pos fd) m = record {
  framed = kept-Framed s c _ _;
  same = record { clients = refl; rooms = refl };
  running = refl;
  queue = inl refl;
}
sent_only s c req (negsuc k) m = record {
  framed = Framed-refl c s;
  same = record { clients = refl; rooms = refl };
  running = refl;
  queue = inl refl;
}

replied : (s : Server) (c : ℕ) (req : FileRequest) (m : Message) → Queues s c req (reply_to c m s)
unfolding reply_to
replied s c req m = sent_only s c req (client_at s c).socket_fd m

unchanged : (s : Server) (c : ℕ) (req : FileRequest) → Queues s c req s
unchanged s c req = record {
  framed = Framed-refl c s;
  same = record { clients = refl; rooms = refl };
  running = refl;
  queue = inl refl;
}

copied :
    (s : Server) (c : ℕ) (req : FileRequest) (memory : Leftovers)
    → IsTaskOf s c req (record {
      filename = strncpy 256 req.filename memory.after_filename;
      sender_username = strncpy 16 (client_at s c).username memory.after_sender;
      receiver_username = strncpy 16 req.receiver memory.after_receiver;
      file_size = req.file_size;
    })
copied s c req memory = record {
  filename = strncpy-Copied 256 req.filename memory.after_filename;
  sender = strncpy-Copied 16 (client_at s c).username memory.after_sender;
  receiver = strncpy-Copied 16 req.receiver memory.after_receiver;
  size = refl;
}

queued :
    (allocates : Option Leftovers) (s : Server) (c : ℕ) (req : FileRequest) (m : Message) (fd : ℤ)
    → IsAllowed s c req
    → length s.file_transfer_manager < max_total_queued_files
    → Queues s c req (
        add_file_to_upload_queue allocates
          (send_message fd m s)
          req.filename
          (client_at s c).username
          req.receiver
          req.file_size)
unfolding add_file_to_upload_queue send_message
queued none s c req m fd ok room = sent_only s c req fd m
queued (some memory) s c req m (pos fd) ok room = record {
  framed = kept-Framed s c _ _;
  same = record { clients = refl; rooms = refl };
  running = refl;
  queue = inr (ok, room, _, copied s c req memory, refl);
}
queued (some memory) s c req m (negsuc k) ok room = record {
  framed = kept-Framed s c _ _;
  same = record { clients = refl; rooms = refl };
  running = refl;
  queue = inr (ok, room, _, copied s c req memory, refl);
}

accept-Queues :
    (env : Transfer) (s : Server) (c : ℕ) (req : FileRequest) (fd : ℤ)
    → IsAllowed s c req
    → length s.file_transfer_manager < max_total_queued_files
    → Queues s c req (accept_transfer env s c req fd)
unfolding accept_transfer reply_to
accept-Queues env s c req (negsuc k) ok room = unchanged s c req
accept-Queues env s c req (pos fd) ok room = elim (Bool-cases env.delivers) [
  | inr e ↦ rw e (unchanged s c req)
  | inl e ↦ elim (Bool-cases env.receives) [
    | inr f ↦ rw (e, f) (replied s c req (file_accepted (take 256 req.filename)))
    | inl f ↦
        rw (e, f)
          (queued env.allocates s c req (file_accepted (take 256 req.filename))
            (client_at s c).socket_fd ok room)
  ]
]

-- A check gives the server as it was and a file that may be sent, or an answer.
abbrev Checks : Server → ℕ → FileRequest → Server × Bool → Type 0
Checks s c req (t, false) = Queues s c req t
Checks s c req (t, true) = IsAllowed s c req × (t ≡ s)

checked-Queues :
    (env : Transfer) (s : Server) (c : ℕ) (req : FileRequest) (out : Server × Bool)
    → Checks s c req out
    → Queues s c req (transfer_checked env c req out)
unfolding transfer_checked
checked-Queues env s c req (t, false) q = q
checked-Queues env s c req (t, true) (ok, same) =
    rw same (elim (Bool-cases (leb max_total_queued_files (length s.file_transfer_manager))) [
      | inl e ↦ rw e (replied s c req backlog_full)
      | inr e ↦ rw e (accept-Queues env s c req (client_at s c).socket_fd ok (ground (arith, e)))
    ])

receiver-Checks :
    (s : Server) (c : ℕ) (req : FileRequest) (r : Option ℕ)
    → FirstOf s s.connected_clients req.receiver r
    → is_valid_file_type req.filename ≡ true
    → 0 < req.file_size
    → req.file_size ≤ max_file_size
    → Checks s c req (receiver_ok s c req r)
unfolding receiver_ok
receiver-Checks s c req none first kind some_data fits = replied s c req recipient_not_found
receiver-Checks s c req (some d) (present, called, _, _, _, _) kind some_data fits =
    elim (Bool-cases (strcmp_eq (client_at s c).username req.receiver)) [
      | inl e ↦ rw (present, e) (replied s c req file_to_self)
      | inr e ↦
          rw (present, e)
            (
              record {
                kind = kind;
                some_data = some_data;
                fits = fits;
                receiver = d;
                present = present;
                called = called;
                another = λ f. absurd (ground (arith, e, (strcmp_eq_iff _ _).1 f));
              },
              refl,
            )
    ]

validate-Checks :
    (s : Server) (c : ℕ) (req : FileRequest) → Checks s c req (validate_file_transfer_meta s c req)
unfolding validate_file_transfer_meta
validate-Checks s c req = elim (Bool-cases (is_valid_file_type req.filename)) [
  | inr e ↦ rw e (replied s c req invalid_file_type)
  | inl e ↦ elim (Bool-cases (req.file_size == 0)) [
    | inl f ↦ rw (e, f) (replied s c req empty_file)
    | inr f ↦ elim (Bool-cases (ltb max_file_size req.file_size)) [
      | inl g ↦ rw (e, f, g) (replied s c req (file_too_large (take 50 req.filename)))
      | inr g ↦
          rw (e, f, g)
            (receiver-Checks s c req (find_client_by_username s req.receiver)
              (find_client_by_username-FirstOf s req.receiver) e (ground (arith, f))
              (ground (arith, g)))
    ]
  ]
]

-- Whatever the request and whatever fails, only the queue and the messages change; and the queue has
-- at most one more task, at its end: for a file of an allowed type, of 1 byte to 3 MB, to another
-- client that is logged in, when fewer than 50 files were waiting. The task has the size and the names
-- of the request and its client, except that behind a user name of 16 bytes or more, or a file name of
-- 256 or more, which are cut there, stands what memory holds.
pub handle_file_transfer_request-Queues :
    (env : Transfer) (s : Server) (c : ℕ) (req : FileRequest)
    → Queues s c req (handle_file_transfer_request env s c req)
unfolding handle_file_transfer_request
handle_file_transfer_request-Queues env s c req =
    checked-Queues env s c req _ (validate-Checks s c req)
