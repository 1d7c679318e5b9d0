-- ===== src/Station/Queue/Remove.antt =====
-- `findAndRemoveHighestPriority` of hw3/main.c takes the best request out of the list.
use system_hw.Prelude.{
  ℕ, ◌<◌, ◌≡◌, ◌≢◌, refl, sym, ap, ap₂, subst, ◌∙◌, true, false, some, List, [], ◌∷◌, ◌++◌, length,
  arith, ◌==◌, inl, inr,
}
use system_hw.Station.Queue.{
  Ptr, null, SatelliteRequest, Heap, write, Run, ok, unlink, find_and_remove_highest_priority,
}
use system_hw.Station.Queue.Seg.{
  Seg, is_in, value_of, load_at, set_next_at, request_of, contents, Seg-write, contents-write,
  write_self, write_ne,
}
use system_hw.Station.Queue.Pick.{
  pick, search-pick, Picks, pick-Picks, last_of, take_best, priority_at, NoneBelow, AllAbove,
}
use system_hw.Station.Queue.Best.{request_at, take_best-first, take_best-later}
use system_hw.Station.Queue.Unlink.{Unlinked, unlinked, is_in-append, ne_of_in}

-- The result on the list of `q` and `qs`: one node is unlinked and detached, the others stay linked in
-- order, and what they hold is what `take_best` says.
pub record Removes (h : Heap) (q : Ptr) (qs : List Ptr) (r : Run (Heap × Ptr × Ptr)) : Type 0 where
  pub heap : Heap
  pub head : Ptr
  pub best : Ptr
  pub front : List Ptr
  pub back : List Ptr
  pub result : r ≡ ok (heap, head, best)
  pub split : q ∷ qs ≡ front ++ (best ∷ back)
  pub chain : Seg heap head (front ++ back)
  pub taken :
      take_best (request_at h q) (contents h qs)
      ≡ (request_at heap best, contents heap (front ++ back))
  pub detached : (n : SatelliteRequest) × (heap best ≡ some n) × (n.next ≡ null)

-- The first node is the best.
first-Removes :
    (h : Heap) (q : Ptr) (qs : List Ptr) (n : SatelliteRequest)
    → q ≢ null
    → is_in q qs ≡ false
    → h q ≡ some n
    → Seg h n.next qs
    → NoneBelow h (priority_at h q) qs
    → Removes h q qs (unlink h q (q, null))
unfolding unlink
first-Removes h q qs n ne fresh e s none_below =
    let g = write h q (record n { next = null }) in
    let here : (q == q) ≡ true = ground arith in
    record {
      heap = g;
      head = n.next;
      best = q;
      front = [];
      back = qs;
      result = rw (load_at h q n ne e, here, set_next_at h q null n ne e) refl;
      split = refl;
      chain = Seg-write h q (record n { next = null }) n.next qs fresh s;
      taken =
          take_best-first h q qs none_below
          ∙ ap₂ (λ r rs. (r, rs))
              (ap (λ o. request_of (value_of o)) e
                ∙ sym
                    (ap (λ o. request_of (value_of o)) (write_self h q (record n { next = null }))))
              (sym (contents-write h q (record n { next = null }) qs fresh));
      detached = (record n { next = null }, write_self h q (record n { next = null }), refl);
    }

-- A later node is the best.
later-Removes :
    (h : Heap) (q : Ptr) (front : List Ptr) (b : Ptr) (back : List Ptr)
    → Seg h q (q ∷ (front ++ (b ∷ back)))
    → Unlinked h q q front b back
    → priority_at h b < priority_at h q
    → AllAbove h (priority_at h b) front
    → NoneBelow h (priority_at h b) back
    → Removes h q (front ++ (b ∷ back)) (unlink h q (b, last_of q front))
unfolding unlink contents
later-Removes h q front b back s u less above none_below =
    let l = last_of q front in
    let v : SatelliteRequest = record u.last { next = u.removed.next } in
    let w : SatelliteRequest = record u.removed { next = null } in
    let g = write h l v in
    let other : (b == q) ≡ false = ground (arith, u.removed_out) in
    let on : (l == null) ≡ false = ground (arith, u.last_on) in
    let apart : l ≢ b =
      ne_of_in l b (q ∷ front) u.last_in
        (ground (arith, u.removed_out, is_in-append b front back)) in
    let still : g b ≡ some u.removed = write_ne h l v b apart ∙ u.removed_at in
    record {
      heap = write g b w;
      head = q;
      best = b;
      front = q ∷ front;
      back = back;
      result =
          rw
            (
              load_at h b u.removed u.removed_on u.removed_at,
              other,
              on,
              set_next_at h l u.removed.next u.last u.last_on u.last_at,
              set_next_at g b null u.removed u.removed_on still,
            )
            refl;
      split = refl;
      chain = Seg-write g b w q (q ∷ (front ++ back)) u.removed_out u.linked;
      taken =
          take_best-later h q front b back less above none_below
          ∙ ap₂ (λ r rs. (r, rs))
              (ap (λ o. request_of (value_of o)) u.removed_at
                ∙ sym (ap (λ o. request_of (value_of o)) (write_self g b w)))
              (sym (contents-write g b w (q ∷ (front ++ back)) u.removed_out ∙ u.kept));
      detached = (w, write_self g b w, refl);
    }

unlink-Removes :
    (h : Heap) (q : Ptr) (qs : List Ptr) (r : Ptr × Ptr)
    → Seg h q (q ∷ qs)
    → Picks h q null q qs r
    → Removes h q qs (unlink h q r)
unlink-Removes h q qs (b, before) (at, ne, fresh, n, e, s) (inl (same, there, none_below)) =
    rw (same, there) (first-Removes h q qs n ne fresh e s none_below)
unlink-Removes h q qs (b, before) s (inr (front, back, split, there, less, above, none_below)) =
    let chain = subst (λ x. Seg h q (q ∷ x)) split s in
    rw (split, there)
      (later-Removes h q front b back chain (unlinked h q q front b back chain) less above
        none_below)

-- On a well-formed list with a first node, and with enough fuel for its nodes,
-- `findAndRemoveHighestPriority` meets no fault and never its impossible case: it unlinks the request
-- of the smallest number, the first one of these from the head on, detaches it, and leaves the other
-- requests linked in their order.
pub find_and_remove_highest_priority-Removes :
    (fuel : ℕ) (h : Heap) (q : Ptr) (qs : List Ptr)
    → length qs < fuel
    → Seg h q (q ∷ qs)
    → Removes h q qs (find_and_remove_highest_priority fuel h q)
unfolding find_and_remove_highest_priority
find_and_remove_highest_priority-Removes fuel h q qs lt (at, ne, fresh, n, e, s) =
    let on : (q == null) ≡ false = ground (arith, ne) in
    rw (on, load_at h q n ne e, search-pick fuel h q null q n.next qs n lt s ne e)
      (unlink-Removes h q qs (pick h q null q qs) (at, ne, fresh, n, e, s)
        (pick-Picks h q null q qs))
