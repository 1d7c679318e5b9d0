-- ===== src/Station/Queue/Seg.antt =====
-- The nodes of the list of hw3/main.c: their addresses in order, and what they hold.
use system_hw.Prelude.{
  ℕ, ◌≡◌, ◌≢◌, refl, ap₂, Bool, false, ◌||◌, Option, none, some, List, [], ◌∷◌, arith, ◌==◌,
}
use system_hw.Station.Queue.{Ptr, null, SatelliteRequest, Heap, write, ok, load, set_next}

abbrev pub is_in : Ptr → List Ptr → Bool
is_in p [] = false
is_in p (q ∷ ps) = p == q || is_in p ps

-- From `p` the `next` pointers lead through the distinct nodes `ps` to NULL.
abbrev pub Seg : Heap → Ptr → List Ptr → Type 0
Seg h p [] = p ≡ null
Seg h p (q ∷ ps) =
    (p ≡ q)
    × (q ≢ null)
    × (is_in q ps ≡ false)
    × (n : SatelliteRequest) × (h q ≡ some n)
    × Seg h n.next ps

abbrev pub no_request : SatelliteRequest
no_request = record { id = 0; priority = 0; handled = false; next = null }

abbrev pub value_of : Option SatelliteRequest → SatelliteRequest
value_of none = no_request
value_of (some n) = n

abbrev pub node_at : Heap → Ptr → SatelliteRequest
node_at h p = value_of (h p)

-- A request without its place in the list.
pub record QueuedRequest : Type 0 where
  pub id : ℕ
  pub priority : ℕ
  pub handled : Bool

abbrev pub request_of : SatelliteRequest → QueuedRequest
request_of n = record { id = n.id; priority = n.priority; handled = n.handled }

-- What the nodes hold, in order.
unfoldable pub contents : Heap → List Ptr → List QueuedRequest
contents h [] = []
contents h (p ∷ ps) = request_of (node_at h p) ∷ contents h ps

pub write_self : (h : Heap) (a : Ptr) (n : SatelliteRequest) → write h a n a ≡ some n
unfolding write
write_self h a n = ground arith

pub write_ne : (h : Heap) (a : Ptr) (n : SatelliteRequest) (q : Ptr) → a ≢ q → write h a n q ≡ h q
unfolding write
write_ne h a n q ne = ground (arith, ne)

-- A write elsewhere changes nothing.
pub Seg-write :
    (h : Heap) (a : Ptr) (n : SatelliteRequest) (p : Ptr) (ps : List Ptr)
    → is_in a ps ≡ false
    → Seg h p ps
    → Seg (write h a n) p ps
unfolding write
Seg-write h a n p [] out s = s
Seg-write h a n p (q ∷ ps) out (at, ne, fresh, m, e, s) =
    (at, ne, fresh, m, ground (arith, e, out), Seg-write h a n m.next ps (ground (arith, out)) s)

pub contents-write :
    (h : Heap) (a : Ptr) (n : SatelliteRequest) (ps : List Ptr)
    → is_in a ps ≡ false
    → contents (write h a n) ps ≡ contents h ps
unfolding contents
contents-write h a n [] out = refl
contents-write h a n (q ∷ ps) out =
    ap₂ (λ (o : Option SatelliteRequest) (rs : List QueuedRequest). request_of (value_of o) ∷ rs)
      (write_ne h a n q (ground (arith, out))) (contents-write h a n ps (ground (arith, out)))

-- A node may get another request, or a new successor that is outside of the list.
pub load_at :
    (h : Heap) (p : Ptr) (n : SatelliteRequest) → p ≢ null → h p ≡ some n → load h p ≡ ok n
unfolding load
load_at h p n ne e = ground (arith, ne, e)

pub set_next_at :
    (h : Heap) (p q : Ptr) (n : SatelliteRequest)
    → p ≢ null
    → h p ≡ some n
    → set_next h p q ≡ ok (write h p (record n { next = q }))
unfolding set_next
set_next_at h p q n ne e = rw (load_at h p n ne e) refl
