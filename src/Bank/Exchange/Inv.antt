-- ===== src/Bank/Exchange/Inv.antt =====
-- What holds of the request queue of midterm at every moment: which slots are unread, and what the
-- semaphores count.
use system_hw.Bank.Account.{Request, Database}
use system_hw.Bank.Exchange.{
  req_queue_len, Slot, Region, Teller, idle, claimed, placed, waiting, told, quit, BankServer,
  listening, taken, copied, serving, replying, posting, stopped, Exchange, Act, asks, goes, stops,
  Serve, claim, place, teller_step, write_answer, server_step, set_up,
}
use native.Mathlib.Nat.{mod-lt}
use system_hw.Prelude.Tally.{tally, tally-replicate}
use system_hw.Prelude.{
  ℕ, ◌+◌, ◌-◌, ◌%◌, ◌≤◌, ◌<◌, ◌≡◌, refl, sym, ap, ◌∙◌, Option, none, some, length, length-set,
  length-replicate, get_or, set, arith, ltb, Bool-cases, inl, inr, mod-add-step, mod-step-add,
}

abbrev pub t_claimed : Teller → ℕ
t_claimed (claimed r) = 1
t_claimed _ = 0

abbrev pub t_placed : Teller → ℕ
t_placed (placed idx) = 1
t_placed _ = 0

abbrev pub srv_taken : BankServer → ℕ
srv_taken taken = 1
srv_taken _ = 0

abbrev pub srv_copied : BankServer → ℕ
srv_copied (copied idx r) = 1
srv_copied _ = 0

-- The unread requests are the slots from `head` on, as many as there are items, posted, still to
-- post, or taken. A slot is free, claimed by a teller, unread, or read and still to be posted.
pub record Counted (e : Exchange) : Type 0 where
  pub unread : ℕ
  pub queue_n : length e.region.queue ≡ req_queue_len
  pub head_in : e.region.head < req_queue_len
  pub window : e.region.tail ≡ (e.region.head + unread) % req_queue_len
  pub posted : e.region.items + tally t_placed e.tellers + srv_taken e.server ≡ unread
  pub free :
      e.region.slots + tally t_claimed e.tellers + unread + srv_copied e.server ≡ req_queue_len

pub set_up-Counted : (spare : Slot) (d : Database) (n : ℕ) → Counted (set_up spare d n)
unfolding set_up
set_up-Counted spare d n = record {
  unread = 0;
  queue_n = length-replicate req_queue_len spare;
  head_in = omega arith;
  window = refl;
  posted = omega (arith, tally-replicate t_placed n idle refl);
  free = omega (arith, tally-replicate t_claimed n idle refl);
}

-- How a teller's move changes the counts, with `d` more unread requests.
pub record Asked (ph : Teller) (m m' : Region) (ph' : Teller) : Type 0 where
  pub more : ℕ
  pub queue_n : length m'.queue ≡ length m.queue
  pub head : m'.head ≡ m.head
  pub tail :
      (u : ℕ)
      → m.tail ≡ (m.head + u) % req_queue_len
      → m'.tail ≡ (m.head + (u + more)) % req_queue_len
  pub items : m'.items + t_placed ph' ≡ m.items + t_placed ph + more
  pub slots : m'.slots + t_claimed ph' + more ≡ m.slots + t_claimed ph

abbrev pub AskedIf : Teller → Region → Option (Region × Teller) → Type 0
AskedIf ph m none = Unit {0}
AskedIf ph m (some (m', ph')) = Asked ph m m' ph'

-- A move that leaves the indices alone.
calm-Asked :
    (ph ph' : Teller) (m m' : Region)
    → m'.queue ≡ m.queue
    → m'.head ≡ m.head
    → m'.tail ≡ m.tail
    → m'.items + t_placed ph' ≡ m.items + t_placed ph
    → m'.slots + t_claimed ph' ≡ m.slots + t_claimed ph
    → Asked ph m m' ph'
calm-Asked ph ph' m m' q hd tl it sl = record {
  more = 0;
  queue_n = ap length q;
  head = hd;
  tail = λ u e. tl ∙ e ∙ ap (λ k. (m.head + k) % req_queue_len) (omega arith);
  items = omega (arith, it);
  slots = omega (arith, sl);
}

claim-AskedIf :
    (ph : Teller) (m : Region) (r : Request)
    → t_placed ph ≡ 0
    → t_claimed ph ≡ 0
    → AskedIf ph m (claim m r)
unfolding claim
claim-AskedIf ph m r p c = elim (Bool-cases (ltb 0 m.slots)) [
  | inl e ↦ rw e (
      calm-Asked ph (claimed r) m (record m { slots = m.slots - 1 }) refl refl refl
        (omega (arith, p)) (ground (arith, e, c)))
  | inr e ↦ rw e tt
]

pub teller_step-Asked :
    (spare : Slot) (act : Act) (ph : Teller) (m : Region)
    → AskedIf ph m (teller_step spare act ph m)
unfolding teller_step place
teller_step-Asked spare (asks r) idle m = claim-AskedIf idle m r refl refl
teller_step-Asked spare (asks r) (told x) m = claim-AskedIf (told x) m r refl refl
teller_step-Asked spare goes (claimed r) m = record {
  more = 1;
  queue_n = length-set m.queue m.tail _;
  head = refl;
  tail = λ u e. ap (λ k. (k + 1) % req_queue_len) e ∙ mod-add-step m.head u req_queue_len;
  items = omega arith;
  slots = omega arith;
}
teller_step-Asked spare stops (claimed r) m =
    calm-Asked (claimed r) quit m (record m { slots = m.slots + 1 }) refl refl refl (omega arith)
      (omega arith)
teller_step-Asked spare goes (placed idx) m =
    calm-Asked (placed idx) (waiting idx) m (record m { items = m.items + 1 }) refl refl refl
      (omega arith) (omega arith)
teller_step-Asked spare goes (waiting idx) m =
    elim (Bool-cases (ltb 0 (get_or m.resp_ready idx 0))) [
      | inl e ↦ rw e (
          calm-Asked (waiting idx) _ m
            (record m { resp_ready = set m.resp_ready idx (get_or m.resp_ready idx 0 - 1) }) refl
            refl refl (omega arith) (omega arith))
      | inr e ↦ rw e tt
    ]
teller_step-Asked spare stops (waiting idx) m =
    calm-Asked (waiting idx) quit m m refl refl refl refl refl
teller_step-Asked spare stops idle m = calm-Asked idle quit m m refl refl refl refl refl
teller_step-Asked spare stops (told x) m = calm-Asked (told x) quit m m refl refl refl refl refl
teller_step-Asked spare goes idle m = tt
teller_step-Asked spare goes (told x) m = tt
teller_step-Asked spare goes quit m = tt
teller_step-Asked spare stops (placed idx) m = tt
teller_step-Asked spare stops quit m = tt
teller_step-Asked spare (asks r) (claimed q) m = tt
teller_step-Asked spare (asks r) (placed idx) m = tt
teller_step-Asked spare (asks r) (waiting idx) m = tt
teller_step-Asked spare (asks r) quit m = tt

-- How the server's move changes them, with `less` fewer unread requests.
pub record Fetched (ph : BankServer) (m m' : Region) (ph' : BankServer) : Type 0 where
  pub less : ℕ
  pub less_one : less ≤ 1
  pub queue_n : length m'.queue ≡ length m.queue
  pub head_in : m.head < req_queue_len → m'.head < req_queue_len
  pub tail :
      (u : ℕ)
      → m.tail ≡ (m.head + (u + less)) % req_queue_len
      → m'.tail ≡ (m'.head + u) % req_queue_len
  pub items : m'.items + srv_taken ph' + less ≡ m.items + srv_taken ph
  pub slots : m'.slots + srv_copied ph' ≡ m.slots + srv_copied ph + less

abbrev pub FetchedIf : BankServer → Region → Option (Region × BankServer) → Type 0
FetchedIf ph m none = Unit {0}
FetchedIf ph m (some (m', ph')) = Fetched ph m m' ph'

calm-Fetched :
    (ph ph' : BankServer) (m m' : Region)
    → length m'.queue ≡ length m.queue
    → m'.head ≡ m.head
    → m'.tail ≡ m.tail
    → m'.items + srv_taken ph' ≡ m.items + srv_taken ph
    → m'.slots + srv_copied ph' ≡ m.slots + srv_copied ph
    → Fetched ph m m' ph'
calm-Fetched ph ph' m m' q hd tl it sl = record {
  less = 0;
  less_one = omega arith;
  queue_n = q;
  head_in = λ lt. omega (arith, hd, lt);
  tail = λ u e.
      tl
      ∙ e
      ∙ ap (λ k. (m.head + k) % req_queue_len) (omega arith)
      ∙ ap (λ k. (k + u) % req_queue_len) (sym hd);
  items = omega (arith, it);
  slots = omega (arith, sl);
}

pub server_step-Fetched :
    (spare : Slot) (env : Serve) (ph : BankServer) (m : Region)
    → FetchedIf ph m (server_step spare env ph m)
unfolding server_step write_answer
server_step-Fetched spare env listening m = elim (Bool-cases (ltb 0 m.items)) [
  | inl e ↦ rw e (
      calm-Fetched listening taken m (record m { items = m.items - 1 }) refl refl refl
        (ground (arith, e)) refl)
  | inr e ↦ rw e tt
]
server_step-Fetched spare env taken m = elim (Bool-cases env.running) [
  | inl e ↦ rw e (record {
    less = 1;
    less_one = omega arith;
    queue_n = refl;
    head_in = λ lt. mod-lt (m.head + 1) (omega arith);
    tail = λ u f. f ∙ sym (mod-step-add m.head u req_queue_len);
    items = omega arith;
    slots = omega arith;
  })
  | inr e ↦ rw e (
      calm-Fetched taken stopped m (record m { items = m.items + 1 }) refl refl refl (omega arith)
        (omega arith))
]
server_step-Fetched spare env (copied idx r) m =
    calm-Fetched (copied idx r) (serving idx r) m (record m { slots = m.slots + 1 }) refl refl refl
      (omega arith) (omega arith)
server_step-Fetched spare env (serving idx r) m =
    calm-Fetched (serving idx r) _ m _ refl refl refl (omega arith) (omega arith)
server_step-Fetched spare env (replying idx x) m =
    calm-Fetched (replying idx x) (posting idx) m (write_answer spare m idx x)
      (length-set m.queue idx _) refl refl (omega arith) (omega arith)
server_step-Fetched spare env (posting idx) m =
    calm-Fetched (posting idx) listening m _ refl refl refl (omega arith) (omega arith)
server_step-Fetched spare env stopped m = tt
