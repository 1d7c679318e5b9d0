-- ===== src/Chat/Transfer.antt =====
-- The file transfers of the chat server, final/server/file_transfer.c: the checks of a request and the
-- queue of files. Whether `send`, the receiving of the data and
-- `malloc` succeed are arguments.
pub mod Queue
mod Tests
use system_hw.CString.{strcmp_eq}
use system_hw.Chat.Names.{is_valid_file_type}
use system_hw.Chat.Rooms.{
  Server, FileTransferTask, client_at, reply_to, invalid_file_type, empty_file, file_too_large,
  recipient_not_found, file_to_self, backlog_full, file_accepted,
}
use system_hw.Chat.Whisper.{find_client_by_username}
use system_hw.Prelude.Int.{ℤ, pos, negsuc}
use system_hw.Prelude.{
  ℕ, Bool, true, false, not, Option, none, some, List, [], ◌∷◌, ◌++◌, length, take, ltb, leb, ◌==◌,
  if◌then◌else◌,
}

abbrev pub max_file_size : ℕ
max_file_size = 3145728

abbrev pub max_total_queued_files : ℕ
max_total_queued_files = 50

-- What the header of a request says.
pub record FileRequest : Type 0 where
  pub filename : List ℕ
  pub receiver : List ℕ
  pub file_size : ℕ

-- The part of `validateFileTransferMeta` after the search for the receiver.
receiver_ok : Server → ℕ → FileRequest → Option ℕ → Server × Bool
receiver_ok s c req none = (reply_to c recipient_not_found s, false)
receiver_ok s c req (some d) =
    if not (client_at s d).is_active
    then (reply_to c recipient_not_found s, false)
    else if strcmp_eq (client_at s c).username req.receiver
    then (reply_to c file_to_self s, false)
    else (s, true)

-- `validateFileTransferMeta`
validate_file_transfer_meta : Server → ℕ → FileRequest → Server × Bool
unfolding receiver_ok
validate_file_transfer_meta s c req =
    if not (is_valid_file_type req.filename)
    then (reply_to c invalid_file_type s, false)
    else if req.file_size == 0
    then (reply_to c empty_file s, false)
    else if ltb max_file_size req.file_size
    then (reply_to c (file_too_large (take 50 req.filename)) s, false)
    else receiver_ok s c req (find_client_by_username s req.receiver)

-- What the memory that `malloc` gave for a task reads as, from the last byte of each name's array to
-- the next NUL.
pub record Leftovers : Type 0 where
  pub after_filename : List ℕ
  pub after_sender : List ℕ
  pub after_receiver : List ℕ

-- The text in an array after `strncpy` of at most `n` bytes, which writes a NUL only if the text is
-- shorter.
unfoldable pub strncpy : ℕ → List ℕ → List ℕ → List ℕ
strncpy n text after = if ltb (length text) n then text else take n text ++ after

-- `addFileToUploadQueue`: the task goes to the tail. Without memory there is none.
pub add_file_to_upload_queue : Option Leftovers → Server → List ℕ → List ℕ → List ℕ → ℕ → Server
unfolding strncpy
add_file_to_upload_queue none s filename sender receiver size = s
add_file_to_upload_queue (some memory) s filename sender receiver size = record s {
  file_transfer_manager =
      s.file_transfer_manager
      ++ (record {
        filename = strncpy 256 filename memory.after_filename;
        sender_username = strncpy 16 sender memory.after_sender;
        receiver_username = strncpy 16 receiver memory.after_receiver;
        file_size = size;
      }
          ∷ []);
}

-- What happens in the world during a request.
pub record Transfer : Type 0 where
  pub delivers : Bool
  pub receives : Bool
  pub allocates : Option Leftovers

-- The acceptance is sent, the data received, and the file queued.
accept_transfer : Transfer → Server → ℕ → FileRequest → ℤ → Server
unfolding add_file_to_upload_queue
accept_transfer env s c req (negsuc k) = s
accept_transfer env s c req (pos fd) =
    if not env.delivers
    then s
    else if not env.receives
    then reply_to c (file_accepted (take 256 req.filename)) s
    else add_file_to_upload_queue env.allocates
        (reply_to c (file_accepted (take 256 req.filename)) s) req.filename (client_at s c).username
        req.receiver req.file_size

transfer_checked : Transfer → ℕ → FileRequest → Server × Bool → Server
unfolding accept_transfer
transfer_checked env c req (s, false) = s
transfer_checked env c req (s, true) =
    if leb max_total_queued_files (length s.file_transfer_manager)
    then reply_to c backlog_full s
    else accept_transfer env s c req (client_at s c).socket_fd

-- `handleFileTransferRequest`
unfoldable pub handle_file_transfer_request : Transfer → Server → ℕ → FileRequest → Server
unfolding validate_file_transfer_meta transfer_checked
handle_file_transfer_request env s c req =
    transfer_checked env c req (validate_file_transfer_meta s c req)
