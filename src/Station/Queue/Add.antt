-- ===== src/Station/Queue/Add.antt =====
-- `addRequestToQueue` of hw3/main.c puts a request in front.
use system_hw.Prelude.{◌≡◌, ◌≢◌, refl, false, some, List, ◌∷◌}
use system_hw.Station.Queue.{Ptr, null, SatelliteRequest, Heap, write, ok, add_request_to_queue}
use system_hw.Station.Queue.Seg.{
  Seg, is_in, set_next_at, Seg-write, write_self, contents, contents-write, request_of,
}

-- A node that is not in the list becomes its first one; the others and their order stay, and so does
-- what every node holds.
pub add_request_to_queue-Seg :
    (h : Heap) (p : Ptr) (ps : List Ptr) (r : Ptr) (n : SatelliteRequest)
    → Seg h p ps
    → r ≢ null
    → is_in r ps ≡ false
    → h r ≡ some n
    → (g : Heap) × (add_request_to_queue h p r ≡ ok (g, r))
      × Seg g r (r ∷ ps)
      × (contents g (r ∷ ps) ≡ request_of n ∷ contents h ps)
unfolding add_request_to_queue contents
add_request_to_queue-Seg h p ps r n s ne fresh e =
    let v : SatelliteRequest = record n { next = p } in
    (
      write h r v,
      rw (set_next_at h r p n ne e) refl,
      (refl, ne, fresh, v, write_self h r v, Seg-write h r v p ps fresh s),
      rw (write_self h r v, contents-write h r v ps fresh) refl,
    )
