-- ===== src/Bank/Exchange/Tests.antt =====
-- The theorems on the request queue at a run of 65 tellers that comes round to the first slot.
use system_hw.Bank.Account.{Request, Database, req_deposit, process_request}
use system_hw.Bank.Exchange.{
  req_queue_len, Slot, Teller, claimed, placed, waiting, quit, replying, Exchange, asks, goes,
  Serve, place, claim, teller_step, server_step, Move, server_moves, teller_moves, after_server,
  after_teller, step, run, set_up, slot_of,
}
use system_hw.Bank.Exchange.Inv.{Counted}
use system_hw.Bank.Exchange.Inv.{t_placed, srv_taken}
use system_hw.Prelude.Tally.{tally}
use system_hw.Prelude.{◌+◌}
use system_hw.Bank.Exchange.Runs.{IsRoomy, run-Counted, place_is_free}
use system_hw.Prelude.Int.{pos, negsuc}
use system_hw.Prelude.{
  ℕ, zero, suc, ◌+◌, ◌≡◌, refl, true, some, List, [], ◌∷◌, ◌++◌, get_or, replicate,
}

abbrev ask : Request
ask = record { client_pid = 7; bank_id = negsuc 0; kind = req_deposit; amount = pos 50 }

abbrev empty_slot : Slot
empty_slot = slot_of ask

abbrev well : Serve
well = record { running = true; opens = true; opens_again = true }

abbrev new_bank : Database
new_bank = record { balances = []; next_id = 0; log = [] }

-- `n` tellers from number `i` on ask and place their requests.
place_from : ℕ → ℕ → List Move
place_from i zero = []
place_from i (suc n) = teller_moves i (asks ask) ∷ teller_moves i goes ∷ place_from (i + 1) n

abbrev round : List Move
round =
    teller_moves 0 (asks ask)
    ∷ teller_moves 0 goes
    ∷ teller_moves 0 goes
    ∷ server_moves well
    ∷ server_moves well
    ∷ server_moves well
    ∷ server_moves well
    ∷ (place_from 1 63 ++ (teller_moves 64 (asks ask) ∷ []))

placed_from : ℕ → ℕ → List Teller
placed_from i zero = claimed ask ∷ []
placed_from i (suc n) = placed i ∷ placed_from (i + 1) n

abbrev come_round : Exchange
come_round = record {
  region = record {
    queue = replicate req_queue_len empty_slot;
    head = 1;
    tail = 0;
    slots = 0;
    items = 0;
    resp_ready = replicate req_queue_len 0;
    database = (process_request true true ask new_bank).0;
  };
  server = replying 0 (process_request true true ask new_bank).1;
  tellers = waiting 0 ∷ placed_from 1 63;
}

round-run : run empty_slot (set_up empty_slot new_bank 65) round ≡ some come_round
unfolding run set_up step teller_step claim place server_step after_server after_teller place_from
    placed_from
round-run = refl

claimed_last : get_or come_round.tellers 64 quit ≡ claimed ask
unfolding placed_from
claimed_last = refl

run-Counted_example : Counted come_round
run-Counted_example = run-Counted empty_slot new_bank 65 round come_round round-run

place_is_free_example :
    IsRoomy come_round
      (come_round.region.items + tally t_placed come_round.tellers + srv_taken come_round.server)
place_is_free_example = place_is_free empty_slot new_bank 65 round come_round round-run
