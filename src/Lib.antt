-- ===== src/Lib.antt =====
-- The coursework programs of the repository, each a component of its own:
--
-- LogAnalyzer (hw4): a manager thread reads a log file and hands its lines to worker threads over a
-- bounded buffer; the workers count the lines that hold a search term.
--   LogAnalyzer/Buffer.antt models hw4/buffer.c. A call of `add_to_buffer` or `remove_from_buffer`
--     is cut into the sections between its condition waits, each of which holds the mutex and is
--     one step: `add_to_buffer` up to the wait, `add_after_wait` from there on, and so for
--     removing. A section ends by returning or by going to sleep. A buffer entry is a line or NULL.
--     `malloc` and the initialisations of `init_buffer` are given by their results. Buffer/Inv is
--     the invariant, Window the entries in order, Fifo the sections against a queue, Schedule any
--     interleaving of them, Lifecycle `init_buffer` and `free_buffer`.
--   LogAnalyzer/Manager.antt models the function `manager` of hw4/210104004042_main.c as the list
--     of its actions on the other threads. What it reads from `running` and what `read` and
--     `strdup` return are the environment's. Manager/Lines says what the lines of a file are, with
--     those that are cut at 1023 bytes; Stream and its child Failures compare the two.
--   LogAnalyzer/Worker.antt models `worker`: the lines that it is given in, its count out.
--
-- Bank (midterm): a server process that serves deposits and withdrawals from shared memory.
--   Bank/Account.antt models `find_free_account_id`, `log_transaction`, `process_deposit`,
--     `process_withdraw` and the dispatch of midterm/bank_server.c over `balances`, `next_id` and
--     the log. A 64-bit long is an integer, with the wrap-around written out where the code adds;
--     the search for a free account has fuel for one round for each of the 1024 accounts, which
--     Search proves to be enough. Account/Invariant says what holds of the balances.
--   Bank/Log.antt models `load_state_from_log` and the summary of `cleanup`. A line of the log is
--     the value that its readers take from it. A summary line that is longer than the 255
--     characters that `fgets` takes at once is outside the model. Log/Replay and Overflow
--     compare the log with the balances in memory, Summary and Carried are about what the shutdown
--     carries over.
--   Bank/Exchange.antt models the request queue between the tellers of midterm/teller.c
--     (`push_request` and the wait for the answer) and the server loop of midterm/bank_server.c,
--     with the database of Bank/Account in the shared memory: any number of tellers and any order
--     of moves. The queue has 64 slots, as in the source. Exchange/Inv is what the semaphores
--     count, Runs proves it of every run, Race is about the answers.
--   Bank/Command.antt models `parse_bank_id` of midterm/teller.c and the parsing of a line in
--     `teller_main_inner`, with `strtol` for base 10; Command/Ids is about the words for accounts,
--     Command/Requests about whole lines.
--
-- Station (hw3): satellites wait for one of the engineers, each a thread of one process.
--   Station/Queue.antt models `addRequestToQueue`, `findAndRemoveHighestPriority` and the walk of
--     `satellite` after its timeout over an explicit heap; a loop has fuel for one round for each
--     node, which the theorems ask for. Queue/Seg says what a list on the heap is; Pick, Best and
--     Unlink are the lemmas of Remove; Add and Mark are about the other two.
--   Station/System.antt models the threads `satellite` and `engineer` and the part of `main` that
--     runs beside them as a step relation: a move of a thread is a critical section, a semaphore
--     operation or a write of its own, and a run is any order of moves. The numbers of satellites
--     and of engineers are arguments. The queue is the list of the requests, as the theorems on the
--     heap give it. System/Tally counts threads; Inv is the invariant, which Satellites, Turn,
--     Engineers and Runs keep; Costs and Measure bound the runs; Able and Progress are about what
--     can still move.
--
-- Chat (final): a chat server with rooms.
--   Chat/Names.antt models the validation of final/shared/utils.c.
--   Chat/Rooms.antt models the rooms of final/server/room_manager.c and the requests to join, to
--     leave and to broadcast, served one after the other. Clients and rooms are entries of lists,
--     pointers to them are indices, and a sent message is an entry of a list. Rooms/Find is about
--     `findOrCreateChatRoom`; Members says what a consistent server is; Moves, Create and Steps are
--     about its changes, Requests about whole requests.
--   Chat/Whisper.antt models private messages: `handleWhisperRequest`, with whether `send` succeeds
--     as an argument, and `findClientByUsername` of final/server/utils_server.c, which
--     Whisper/Lookup is about; Whisper/Privacy is about the request.
--   Chat/Transfer.antt models `handleFileTransferRequest` of final/server/file_transfer.c up to the
--     queue of files, with whether `send`, the receiving of the data and `malloc` succeed as
--     arguments, and what stands in the memory that `malloc` gives; Transfer/Queue is about it.
--   Chat/Sessions.antt models final/server/client_handler.c: registering a connection in a slot,
--     the login, the dispatch of the messages, and unregistering, over the same server. One request
--     is served at a time, and a freed client keeps its entry. Sessions/Sound says what a sound
--     server is; Register, Login, Dispatch, Fade and Unregister keep it, Reachable is about all
--     states between requests, Welcome about the answer to a first message. Rooms/Frame, Rooms/Handlers and Rooms/Spread are what the requests of the rooms leave
--     alone and that they keep the rooms consistent; Rooms/Delivery is about who gets a broadcast.
--   Chat/Client.antt models final/client/commands.c, from a line that the user types to what is sent
--     and printed; the answers of the network and the file system are arguments. Client/Sends and
--     Client/Lines are about what may be sent, Words and Chosen are lemmas on the cutting of a line,
--     Whispers and Broadcasts about two commands as they are typed. Client/Login.antt models
--     `performClientLogin` of final/client/network.c over the bytes of the standard input; its loop
--     has one round more than there are bytes, each round reads one at least (Login/Asks).
--     Login/Overlong is about a line that is too long.
--
-- FileManager (hw1): a program that performs one command on files for each run and keeps a log.
--   FileManager/Calls.antt is the operating system as a parameter (the record `Os`: the calls that
--     hw1/fileManager.c makes, over a state of its own) and the programs over it. Tree says what
--     the calls do to a tree of names, as laws: a `write` writes a first part of the bytes, or none,
--     another call that fails changes nothing, and a call that changes a name leaves those alone
--     that are apart from it; which names are apart, that is, lead through no dots or links to one
--     another, is part of the parameter. Memory is a small file system that meets the laws.
--   Create, List, Read and Delete model the functions of hw1/fileManager.c and `logOperation` of
--     hw1/utils.c; Main models `main` of hw1/main.c, with the tests on the arguments apart from the
--     calls they choose. A child process and the parent that waits for it are one program. The
--     copying loop has fuel for one round more than the descriptor has bytes. Below them, each file
--     is about one function: Create/Log about the log, Create/Ends about the ways a command can
--     end, Main/Spares about what a run leaves alone.
--
-- Relay (hw2): a parent sends two numbers to a child, which sends the larger one on to a second
-- child.
--   Relay.antt models the parent, the two children and `sigchld_handler` of hw2/main.c as a step
--     relation, from where all processes have been created: a move is a system call of one of them,
--     or a test of a variable that the handler writes; a round of the loop that waits for the
--     children is the move `polls`, which can come any number of times. A FIFO is opened in two moves, since each
--     side waits for the other; the handler runs between any two moves of the parent, one `waitpid`
--     at a time. The daemon is modelled by its end only, which can come at any time. Relay/Inv is
--     what holds in every run, Measure how long one can be, Progress where it ends, Race about the
--     `kill` of the daemon.
--
-- CString.antt has C strings as lists of bytes, with `strcmp`, `strstr` and `strrchr`; Prelude.antt
-- and the files below it are the shared helpers.
--
-- Not modelled: the rest of hw4/210104004042_main.c (start and end of the program, the signal
-- handler); the FIFOs of the tellers and the clients of midterm, and the text of log lines; of hw2
-- the setting up, calls that fail, and what the daemon does with the log; the initialisations and
-- failed thread creations of hw3, a failed `sem_wait`, and the reuse of an address that an engineer
-- has freed; of final the listening socket, the loops around `select`, the workers that send files,
-- the clean-up, the logs, interleavings of the client threads, and of the client everything but its commands
-- and its login; and the wording of
-- the messages of the other programs. In hw1, texts longer than the arrays that they are built in,
-- and other processes that change files at the same time.
pub mod Bank
pub mod CString
pub mod Chat
pub mod FileManager
pub mod LogAnalyzer
pub mod Prelude
pub mod Relay
pub mod Station
