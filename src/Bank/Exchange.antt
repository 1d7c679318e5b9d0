-- ===== src/Bank/Exchange.antt =====
-- The request queue in shared memory between the tellers of midterm/teller.c and the server loop of
-- midterm/bank_server.c. Each move of a process is one semaphore operation, the section under
-- `qmutex`, one access to a slot, or the work on the database under `dbmutex`.
pub mod Inv
pub mod Runs
pub mod Race
mod Tests
use system_hw.Bank.Account.{Request, Response, Database, process_request}
use system_hw.Prelude.Int.{ℤ, pos}
use system_hw.Prelude.{
  ℕ, zero, suc, ◌+◌, ◌-◌, ◌%◌, Bool, true, false, Option, none, some, List, [], ◌∷◌, get_or, set,
  replicate, ltb, if◌then◌else◌,
}

abbrev pub req_queue_len : ℕ
req_queue_len = 64

-- `request_t`: the server's answer reuses the `bank_id` of the request.
pub record Slot : Type 0 where
  pub request : Request
  pub result_balance : ℤ
  pub op_status : ℕ

-- `shm_region_t` without the two mutexes and the log's semaphore.
pub record Region : Type 0 where
  pub queue : List Slot
  pub head : ℕ
  pub tail : ℕ
  pub slots : ℕ
  pub items : ℕ
  pub resp_ready : List ℕ
  pub database : Database

-- A teller: between commands; with a slot claimed for a request; with it placed in a slot; waiting
-- for the answer of a slot; told an answer; ended.
pub data Teller : Type 0 where
  idle : Teller
  claimed : Request → Teller
  placed : (idx : ℕ) → Teller
  waiting : (idx : ℕ) → Teller
  told : Response → Teller
  quit : Teller

-- The server: at `sem_trywait`; with an item taken; with the request of a slot copied; about to
-- process it; about to write its answer; about to post it; or stopped with the item put back.
pub data BankServer : Type 0 where
  listening : BankServer
  taken : BankServer
  copied : (idx : ℕ) → Request → BankServer
  serving : (idx : ℕ) → Request → BankServer
  replying : (idx : ℕ) → Response → BankServer
  posting : (idx : ℕ) → BankServer
  stopped : BankServer

pub record Exchange : Type 0 where
  pub region : Region
  pub server : BankServer
  pub tellers : List Teller

-- What a teller does: it asks for a request of its client, goes on, or has been told to stop.
pub data Act : Type 0 where
  asks : Request → Act
  goes : Act
  stops : Act

abbrev pub slot_of : Request → Slot
slot_of r = record { request = r; result_balance = pos 0; op_status = 0 }

-- The section of `push_request` under `qmutex`.
unfoldable pub place : Region → Request → Region
place m r = record m { queue = set m.queue m.tail (slot_of r); tail = (m.tail + 1) % req_queue_len }

abbrev pub answer_of : Slot → Response
answer_of slot = record {
  bank_id = slot.request.bank_id;
  result_balance = slot.result_balance;
  op_status = slot.op_status;
}

-- `sem_wait(slots)` at the start of `push_request`.
claim : Region → Request → Option (Region × Teller)
claim m r = if ltb 0 m.slots then some (record m { slots = m.slots - 1 }, claimed r) else none

-- `push_request` and what `teller_main_inner` does around it; `none` where the teller cannot move.
-- `spare` is what a read past the queue would give.
pub teller_step : Slot → Act → Teller → Region → Option (Region × Teller)
unfolding claim
teller_step spare (asks r) idle m = claim m r
teller_step spare (asks r) (told x) m = claim m r
teller_step spare goes (claimed r) m = some (place m r, placed m.tail)
teller_step spare stops (claimed r) m = some (record m { slots = m.slots + 1 }, quit)
teller_step spare goes (placed idx) m = some (record m { items = m.items + 1 }, waiting idx)
teller_step spare goes (waiting idx) m =
    if ltb 0 (get_or m.resp_ready idx 0)
    then some (
      record m { resp_ready = set m.resp_ready idx (get_or m.resp_ready idx 0 - 1) },
      told (answer_of (get_or m.queue idx spare)),
    )
    else none
teller_step spare stops (waiting idx) m = some (m, quit)
teller_step spare stops idle m = some (m, quit)
teller_step spare stops (told x) m = some (m, quit)
teller_step spare _ _ m = none

-- The answer in a slot.
unfoldable pub write_answer : Slot → Region → ℕ → Response → Region
write_answer spare m idx x =
    let slot = get_or m.queue idx spare in
    record m {
      queue = set m.queue idx (record {
        request = record slot.request { bank_id = x.bank_id };
        result_balance = x.result_balance;
        op_status = x.op_status;
      });
    }

-- What the server finds: whether it is still to run, and whether the log file opens.
pub record Serve : Type 0 where
  pub running : Bool
  pub opens : Bool
  pub opens_again : Bool

-- The processing of items in the server's loop; `none` where there is no item.
pub server_step : Slot → Serve → BankServer → Region → Option (Region × BankServer)
server_step spare env listening m =
    if ltb 0 m.items then some (record m { items = m.items - 1 }, taken) else none
server_step spare env taken m =
    if env.running
    then some (
      record m { head = (m.head + 1) % req_queue_len },
      copied m.head (get_or m.queue m.head spare).request,
    )
    else some (record m { items = m.items + 1 }, stopped)
server_step spare env (copied idx r) m = some (record m { slots = m.slots + 1 }, serving idx r)
server_step spare env (serving idx r) m =
    let out = process_request env.opens env.opens_again r m.database in
    some (record m { database = out.0 }, replying idx out.1)
server_step spare env (replying idx x) m = some (write_answer spare m idx x, posting idx)
server_step spare env (posting idx) m =
    some (record m { resp_ready = set m.resp_ready idx (get_or m.resp_ready idx 0 + 1) }, listening)
server_step spare env stopped m = none

pub data Move : Type 0 where
  server_moves : Serve → Move
  teller_moves : (i : ℕ) → Act → Move

after_server : Exchange → Option (Region × BankServer) → Option Exchange
after_server e none = none
after_server e (some (m, phase)) = some (record e { region = m; server = phase })

after_teller : Exchange → ℕ → Option (Region × Teller) → Option Exchange
after_teller e i none = none
after_teller e i (some (m, phase)) = some (record e { region = m; tellers = set e.tellers i phase })

pub step : Slot → Exchange → Move → Option Exchange
unfolding after_server after_teller
step spare e (server_moves env) = after_server e (server_step spare env e.server e.region)
step spare e (teller_moves i act) =
    after_teller e i (teller_step spare act (get_or e.tellers i quit) e.region)

pub run : Slot → Exchange → List Move → Option Exchange
run spare e [] = some e
run spare e (mv ∷ mvs) = elim (step spare e mv) [ none ↦ none | some e' ↦ run spare e' mvs ]

-- The state after the set-up of the server, with `n` tellers.
pub set_up : Slot → Database → ℕ → Exchange
set_up spare d n = record {
  region = record {
    queue = replicate req_queue_len spare;
    head = 0;
    tail = 0;
    slots = req_queue_len;
    items = 0;
    resp_ready = replicate req_queue_len 0;
    database = d;
  };
  server = listening;
  tellers = replicate n idle;
}
