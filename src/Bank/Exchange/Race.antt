-- ===== src/Bank/Exchange/Race.antt =====
-- The server of midterm posts a slot as free before it has answered in it.
use system_hw.Bank.Account.{Request, Response, Database}
use system_hw.Bank.Exchange.{
  Slot, claimed, placed, quit, replying, posting, Exchange, goes, Serve, place, teller_step,
  write_answer, server_step, Move, server_moves, teller_moves, after_server, after_teller, step,
  run, set_up, slot_of,
}
use system_hw.Prelude.{
  ℕ, ◌<◌, ◌≡◌, ap, ◌∙◌, Option, none, some, List, [], ◌∷◌, ◌++◌, length, length-set, get_or,
  get_or-set_self, set, arith,
}

run-append :
    (spare : Slot) (e e' : Exchange) (mvs more : List Move)
    → run spare e mvs ≡ some e'
    → run spare e (mvs ++ more) ≡ run spare e' more
unfolding run
run-append spare e e' [] more h = ap (λ x. run spare x more) (cc h)
run-append spare e e' (mv ∷ mvs) more h =
    next (λ f f_run. run-append spare f e' mvs more f_run) (step spare e mv) h
  where
    next :
        ((f : Exchange) → run spare f mvs ≡ some e' → run spare f (mvs ++ more) ≡ run spare e' more)
        → (r : Option Exchange) → elim r [ none ↦ none | some f ↦ run spare f mvs ] ≡ some e'
        → elim r [ none ↦ none | some f ↦ run spare f (mvs ++ more) ] ≡ run spare e' more
    next go none k = absurd cc
    next go (some f) k = go f k

-- The teller places its request, and the server then writes its answer.
after_both : Slot → Exchange → ℕ → ℕ → Request → Response → Exchange
after_both spare e i idx r x = record e {
  region = write_answer spare (place e.region r) idx x;
  server = posting idx;
  tellers = set e.tellers i (placed e.region.tail);
}

run_two :
    (spare : Slot) (e e1 e2 : Exchange) (a b : Move)
    → step spare e a ≡ some e1
    → step spare e1 b ≡ some e2
    → run spare e (a ∷ b ∷ []) ≡ some e2
unfolding run
run_two spare e e1 e2 a b p q =
    ap (λ (r : Option Exchange). elim r [ none ↦ none | some f ↦ run spare f (b ∷ []) ]) p
    ∙ ap (λ (r : Option Exchange). elim r [ none ↦ none | some f ↦ some f ]) q

after_place : Exchange → ℕ → Request → Exchange
after_place e i r = record e {
  region = place e.region r;
  tellers = set e.tellers i (placed e.region.tail);
}

place_step :
    (spare : Slot) (e : Exchange) (i : ℕ) (r : Request)
    → get_or e.tellers i quit ≡ claimed r
    → step spare e (teller_moves i goes) ≡ some (after_place e i r)
unfolding step teller_step after_teller after_place
place_step spare e i r at = ap (λ ph. after_teller e i (teller_step spare goes ph e.region)) at

answer_step :
    (spare : Slot) (env : Serve) (e : Exchange) (i idx : ℕ) (r : Request) (x : Response)
    → e.server ≡ replying idx x
    → step spare (after_place e i r) (server_moves env) ≡ some (after_both spare e i idx r x)
unfolding step server_step after_server after_both after_place
answer_step spare env e i idx r x at =
    ap (λ ph. after_server (after_place e i r) (server_step spare env ph (place e.region r))) at

slot_after :
    (spare : Slot) (e : Exchange) (i idx : ℕ) (r : Request) (x : Response)
    → e.region.tail ≡ idx
    → idx < length e.region.queue
    → (get_or (after_both spare e i idx r x).region.queue idx spare).request
      ≡ record r { bank_id = x.bank_id }
unfolding after_both write_answer place
slot_after spare e i idx r x here lt = rw here (
    ap (λ s. s.request)
      (get_or-set_self (set e.region.queue idx (slot_of r)) idx _ spare
        (omega (arith, lt, length-set e.region.queue idx (slot_of r))))
    ∙ ap (λ s. record s.request { bank_id = x.bank_id })
        (get_or-set_self e.region.queue idx (slot_of r) spare lt))

-- When a run has come to a server that is about to answer in slot `idx`, with the tail at that slot
-- and a teller that has claimed a slot, the teller may place its request there before the answer is
-- written: then the bank id of that request, which is still unread, is that of the answer.
answer_overwrites :
    (spare : Slot) (env : Serve) (d : Database) (n : ℕ) (mvs : List Move) (e : Exchange)
    → (i idx : ℕ) (r : Request) (x : Response) → run spare (set_up spare d n) mvs ≡ some e
    → e.server ≡ replying idx x
    → e.region.tail ≡ idx
    → idx < length e.region.queue
    → get_or e.tellers i quit ≡ claimed r
    → (e' : Exchange) × (run spare
          (set_up spare d n)
          (mvs ++ (teller_moves i goes ∷ server_moves env ∷ []))
        ≡ some e')
      × ((get_or e'.region.queue idx spare).request ≡ record r { bank_id = x.bank_id })
answer_overwrites spare env d n mvs e i idx r x reached at here lt asks_r = (
  after_both spare e i idx r x,
  run-append spare (set_up spare d n) e mvs (teller_moves i goes ∷ server_moves env ∷ []) reached
      ∙ run_two spare e (after_place e i r) _ _ _ (place_step spare e i r asks_r)
          (answer_step spare env e i idx r x at),
  slot_after spare e i idx r x here lt,
)
