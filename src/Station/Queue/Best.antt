-- ===== src/Station/Queue/Best.antt =====
-- `take_best` on the requests of hw3/main.c, where the search stops.
use system_hw.Prelude.{◌≤◌, ◌<◌, ◌≡◌, refl, List, [], ◌∷◌, ◌++◌, arith, ℕ}
use system_hw.Station.Queue.{Ptr, Heap}
use system_hw.Station.Queue.Seg.{node_at, QueuedRequest, request_of, contents}
use system_hw.Station.Queue.Pick.{priority_at, AllAbove, NoneBelow, take_best}

abbrev pub request_at : Heap → Ptr → QueuedRequest
request_at h p = request_of (node_at h p)

module _ (h : Heap) where
  least :
      (k : ℕ) (r : Ptr) (ps : List Ptr)
      → k ≤ priority_at h r
      → NoneBelow h k ps
      → k ≤ (take_best (request_at h r) (contents h ps)).0.priority
  unfolding take_best contents
  least k r [] le none_below = le
  least k r (c ∷ cs) le (here, none_below) = ground (arith, le, least k c cs here none_below)

  pub take_best-first :
      (r : Ptr) (ps : List Ptr)
      → NoneBelow h (priority_at h r) ps
      → take_best (request_at h r) (contents h ps) ≡ (request_at h r, contents h ps)
  unfolding take_best contents
  take_best-first r [] none_below = refl
  take_best-first r (c ∷ cs) (here, none_below) =
      ground (arith, least (priority_at h r) c cs here none_below)

  pub take_best-later :
      (r : Ptr) (front : List Ptr) (b : Ptr) (back : List Ptr)
      → priority_at h b < priority_at h r
      → AllAbove h (priority_at h b) front
      → NoneBelow h (priority_at h b) back
      → take_best (request_at h r) (contents h (front ++ (b ∷ back)))
        ≡ (request_at h b, request_at h r ∷ contents h (front ++ back))
  unfolding take_best contents
  take_best-later r [] b back less above none_below =
      rw (take_best-first b back none_below) (ground (arith, less))
  take_best-later r (c ∷ front) b back less (here, above) none_below =
      rw (take_best-later c front b back here above none_below) (ground (arith, less))
