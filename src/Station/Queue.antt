-- ===== src/Station/Queue.antt =====
-- The linked list of requests of hw3/main.c over an explicit heap: `addRequestToQueue`,
-- `findAndRemoveHighestPriority`, and the walk of `satellite` after its timeout. Each runs with
-- `engineerMutex` held. A loop over the list has fuel for one round for each node.
pub mod Seg
pub mod Add
pub mod Pick
pub mod Best
pub mod Unlink
pub mod Remove
pub mod Mark
mod Tests
use system_hw.Prelude.{
  ℕ, zero, suc, ◌+◌, Bool, true, false, Option, none, some, List, [], ◌∷◌, length, ltb, ◌==◌,
  if◌then◌else◌,
}

abbrev pub Ptr : Type 0
Ptr = ℕ

abbrev pub null : Ptr
null = 0

-- `SatelliteRequest`, without its times.
pub record SatelliteRequest : Type 0 where
  pub id : ℕ
  pub priority : ℕ
  pub handled : Bool
  pub next : Ptr

abbrev pub Heap : Type 0
Heap = Ptr → Option SatelliteRequest

unfoldable pub write : Heap → Ptr → SatelliteRequest → Heap
write h p n a = if a == p then some n else h a

-- A read through NULL or through an address with no node is a fault.
pub data Run (A : Type 0) : Type 0 where
  ok : A → Run A
  fault : Run A
  out_of_fuel : Run A

module _ {A B : Type 0} where
  infixl 5 ◌>>=◌
  abbrev pub ◌>>=◌ : Run A → (A → Run B) → Run B
  ok a >>= k = k a
  fault >>= k = fault
  out_of_fuel >>= k = out_of_fuel

abbrev pub found : Option SatelliteRequest → Run SatelliteRequest
found none = fault
found (some n) = ok n

-- `*p`
unfoldable pub load : Heap → Ptr → Run SatelliteRequest
load h p = if p == null then fault else found (h p)

-- `p->next = q`
unfoldable pub set_next : Heap → Ptr → Ptr → Run Heap
set_next h p q = load h p >>= λ n. ok (write h p (record n { next = q }))

-- `addRequestToQueue`: the heap and the new `requestQueue`.
unfoldable pub add_request_to_queue : Heap → Ptr → Ptr → Run (Heap × Ptr)
add_request_to_queue h request_queue new_req =
    set_next h new_req request_queue >>= λ h'. ok (h', new_req)

-- The loop of `findAndRemoveHighestPriority`: `highestPriorityReq` and `prevForHighest`.
unfoldable pub search : ℕ → Heap → (highest prev current_prev current : Ptr) → Run (Ptr × Ptr)
search zero h highest prev current_prev current = out_of_fuel
search (suc fuel) h highest prev current_prev current =
    if current == null
    then ok (highest, prev)
    else (load h current >>= λ c. load h highest >>= λ best.
        search fuel h (if ltb c.priority best.priority then current else highest)
          (if ltb c.priority best.priority then current_prev else prev) current c.next)

-- The removal after the loop, with NULL for the case that it calls impossible.
unfoldable pub unlink : Heap → Ptr → Ptr × Ptr → Run (Heap × Ptr × Ptr)
unlink h request_queue (highest, prev) = load h highest >>= λ n.
    if highest == request_queue
    then (set_next h highest null >>= λ h'. ok (h', n.next, highest))
    else if prev == null
    then ok (h, request_queue, null)
    else (set_next h prev n.next >>= λ h'.
        set_next h' highest null >>= λ h''. ok (h'', request_queue, highest))

-- `findAndRemoveHighestPriority`: the heap, the new `requestQueue`, and what is returned.
unfoldable pub find_and_remove_highest_priority : ℕ → Heap → Ptr → Run (Heap × Ptr × Ptr)
find_and_remove_highest_priority fuel h request_queue =
    if request_queue == null
    then ok (h, null, null)
    else (load h request_queue >>= λ first.
        search fuel h request_queue null request_queue first.next >>= λ best.
        unlink h request_queue best)

-- The walk of `satellite` after a timeout, which marks its own request if it is still there.
unfoldable pub mark_handled : ℕ → Heap → (curr request : Ptr) → Run Heap
mark_handled zero h curr request = out_of_fuel
mark_handled (suc fuel) h curr request =
    if curr == null
    then ok h
    else (load h curr >>= λ n.
        if curr == request
        then ok (write h curr (record n { handled = true }))
        else mark_handled fuel h n.next request)
