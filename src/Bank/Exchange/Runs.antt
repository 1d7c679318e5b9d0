-- ===== src/Bank/Exchange/Runs.antt =====
-- Every run of the tellers and the server of midterm keeps the counts of the request queue.
use system_hw.Bank.Account.{Request, Database}
use system_hw.Bank.Exchange.{
  req_queue_len, Slot, Region, Teller, claimed, quit, BankServer, taken, Exchange, Act, asks, goes,
  stops, teller_step, Move, server_moves, teller_moves, after_server, after_teller, step, run,
  set_up,
}
use system_hw.Bank.Exchange.Inv.{
  Counted, set_up-Counted, t_claimed, t_placed, srv_taken, AskedIf, teller_step-Asked, FetchedIf,
  server_step-Fetched,
}
use system_hw.Prelude.Tally.{tally, tally-set, tally-get, outside}
use system_hw.Prelude.{
  ℕ, ◌+◌, ◌-◌, ◌%◌, ◌≤◌, ◌<◌, ◌≡◌, ◌≢◌, sym, ap, subst, ◌∙◌, Option, none, some, List, [], ◌∷◌,
  length, get_or, arith, inl, inr, mod-ne,
}

abbrev CountedIf : Option Exchange → Type 0
CountedIf none = Unit {0}
CountedIf (some e) = Counted e

asked-CountedIf :
    (e : Exchange) (i : ℕ) (r : Option (Region × Teller))
    → Counted e
    → i < length e.tellers
    → AskedIf (get_or e.tellers i quit) e.region r
    → CountedIf (after_teller e i r)
unfolding after_teller
asked-CountedIf e i none h lt a = tt
asked-CountedIf e i (some (m, ph)) h lt a = record {
  unread = h.unread + a.more;
  queue_n = a.queue_n ∙ h.queue_n;
  head_in = omega (arith, a.head, h.head_in);
  window =
      a.tail h.unread h.window ∙ ap (λ k. (k + (h.unread + a.more)) % req_queue_len) (sym a.head);
  posted = omega (arith, h.posted, a.items, tally-set t_placed e.tellers i ph quit lt);
  free = omega (arith, h.free, a.slots, tally-set t_claimed e.tellers i ph quit lt);
}

quit_stays :
    (spare : Slot) (e : Exchange) (i : ℕ) (act : Act)
    → CountedIf (after_teller e i (teller_step spare act quit e.region))
unfolding teller_step after_teller
quit_stays spare e i (asks r) = tt
quit_stays spare e i goes = tt
quit_stays spare e i stops = tt

read-CountedIf :
    (e : Exchange) (r : Option (Region × BankServer))
    → Counted e
    → FetchedIf e.server e.region r
    → CountedIf (after_server e r)
unfolding after_server
read-CountedIf e none h a = tt
read-CountedIf e (some (m, ph)) h a =
    let rest : h.unread - a.less + a.less ≡ h.unread = omega (arith, a.items, h.posted) in
    record {
      unread = h.unread - a.less;
      queue_n = a.queue_n ∙ h.queue_n;
      head_in = a.head_in h.head_in;
      window =
          a.tail (h.unread - a.less)
            (h.window ∙ ap (λ k. (e.region.head + k) % req_queue_len) (sym rest));
      posted = omega (arith, h.posted, a.items, rest);
      free = omega (arith, h.free, a.slots, rest);
    }

step-CountedIf : (spare : Slot) (e : Exchange) (mv : Move) → Counted e → CountedIf (step spare e mv)
unfolding step
step-CountedIf spare e (server_moves env) h =
    read-CountedIf e _ h (server_step-Fetched spare env e.server e.region)
step-CountedIf spare e (teller_moves i act) h = elim (outside e.tellers i quit) [
  | inl lt ↦
      asked-CountedIf e i _ h lt (teller_step-Asked spare act (get_or e.tellers i quit) e.region)
  | inr out ↦
      subst (λ ph. CountedIf (after_teller e i (teller_step spare act ph e.region))) (sym out)
        (quit_stays spare e i act)
]

run-CountedIf :
    (spare : Slot) (e : Exchange) (mvs : List Move) → Counted e → CountedIf (run spare e mvs)
unfolding run
run-CountedIf spare e [] h = h
run-CountedIf spare e (mv ∷ mvs) h =
    next (λ e' good. run-CountedIf spare e' mvs good) (step spare e mv)
      (step-CountedIf spare e mv h)
  where
    next :
        ((e' : Exchange) → Counted e' → CountedIf (run spare e' mvs))
        → (r : Option Exchange) → CountedIf r
        → CountedIf (elim r [ none ↦ none | some e' ↦ run spare e' mvs ])
    next go none good = tt
    next go (some e') good = go e' good

-- At every moment of a run of any number of tellers with the server, the requests between `head` and
-- `tail` are as many as the items posted, to be posted or taken, and together with the slots that are
-- free, claimed, or read and not yet posted they are the 64 slots.
pub run-Counted :
    (spare : Slot) (d : Database) (n : ℕ) (mvs : List Move) (e : Exchange)
    → run spare (set_up spare d n) mvs ≡ some e
    → Counted e
run-Counted spare d n mvs e f =
    subst CountedIf f (run-CountedIf spare (set_up spare d n) mvs (set_up-Counted spare d n))

claimed_room :
    (e : Exchange) (h : Counted e) (i : ℕ) (r : Request)
    → get_or e.tellers i quit ≡ claimed r
    → h.unread < req_queue_len
claimed_room e h i r at = elim (outside e.tellers i quit) [
  | inl lt ↦ omega (arith, h.free, tally-get t_claimed e.tellers i quit lt, ap t_claimed at)
  | inr out ↦ absurd (omega (arith, ap t_claimed (sym out ∙ at)))
]

past_unread :
    (head tail unread k : ℕ)
    → tail ≡ (head + unread) % req_queue_len
    → unread < req_queue_len
    → k < unread
    → tail ≢ (head + k) % req_queue_len
past_unread head tail unread k window room lt same =
    mod-ne (head + k) (unread - k) req_queue_len (omega arith) (omega arith)
      (ap (λ x. x % req_queue_len) (omega arith) ∙ sym window ∙ same)

-- So many requests are unread: they are from `head` up to `tail`, no claimed slot is one of theirs, and
-- the server that has taken an item has one to read.
abbrev pub IsRoomy : Exchange → ℕ → Type 0
IsRoomy e unread =
    (unread ≤ req_queue_len)
    × (e.region.tail ≡ (e.region.head + unread) % req_queue_len)
    × ((i : ℕ) (r : Request) (k : ℕ)
        → get_or e.tellers i quit ≡ claimed r
        → k < unread
        → e.region.tail ≢ (e.region.head + k) % req_queue_len)
    × (e.server ≡ taken → 0 < unread)

-- At every moment of a run there are as many unread requests as there are items posted, requests
-- placed whose item is still to be posted, and items that the server has taken without reading; at
-- most 64. They are in the slots from `head` up to `tail`; a teller that has claimed a slot writes its
-- request into none of these, and a server that has taken an item reads one of them.
pub place_is_free :
    (spare : Slot) (d : Database) (n : ℕ) (mvs : List Move) (e : Exchange)
    → run spare (set_up spare d n) mvs ≡ some e
    → IsRoomy e (e.region.items + tally t_placed e.tellers + srv_taken e.server)
place_is_free spare d n mvs e f =
    let h = run-Counted spare d n mvs e f in
    subst (IsRoomy e) (sym h.posted) (
      omega (arith, h.free),
      h.window,
      λ i r k at lt.
          past_unread e.region.head e.region.tail h.unread k h.window (claimed_room e h i r at) lt,
      λ at. omega (arith, h.posted, ap srv_taken at),
    )
