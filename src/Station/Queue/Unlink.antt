-- ===== src/Station/Queue/Unlink.antt =====
-- The unlinking write of `findAndRemoveHighestPriority` in hw3/main.c.
use system_hw.Prelude.{
  ◌≡◌, ◌≢◌, refl, sym, ap, ap₂, ◌∙◌, true, false, ◌||◌, some, List, [], ◌∷◌, ◌++◌, arith,
}
use system_hw.Station.Queue.{Ptr, null, SatelliteRequest, Heap, write}
use system_hw.Station.Queue.Seg.{
  Seg, is_in, value_of, request_of, contents, Seg-write, contents-write, write_self, write_ne,
}
use system_hw.Station.Queue.Pick.{last_of}
use system_hw.Station.Queue.Best.{request_at}

pub is_in-append : (a : Ptr) (xs ys : List Ptr) → is_in a (xs ++ ys) ≡ (is_in a xs || is_in a ys)
is_in-append a [] ys = refl
is_in-append a (x ∷ xs) ys = ground (arith, is_in-append a xs ys)

pub ne_of_in : (a b : Ptr) (xs : List Ptr) → is_in a xs ≡ true → is_in b xs ≡ false → a ≢ b
ne_of_in a b xs h k e = absurd (ground (arith, ap (λ x. is_in x xs) e, h, k))

apart :
    (q c : Ptr) (front : List Ptr) (b : Ptr) (back : List Ptr)
    → is_in q (c ∷ (front ++ (b ∷ back))) ≡ false
    → (is_in q (c ∷ (front ++ back)) ≡ false) × (is_in q (c ∷ front) ≡ false) × (b ≢ q)
apart q c front b back h =
    ground (arith, is_in-append q front (b ∷ back), is_in-append q front back)

cons_contents :
    (g h : Heap) (q : Ptr) (ps : List Ptr)
    → request_at g q ≡ request_at h q
    → contents g ps ≡ contents h ps
    → contents g (q ∷ ps) ≡ contents h (q ∷ ps)
unfolding contents
cons_contents g h q ps e same = ap₂ (λ r rs. r ∷ rs) e same

-- What `prev->next = n->next` does, where `b` stands behind `last_of q front`.
pub record Unlinked (h : Heap) (x q : Ptr) (front : List Ptr) (b : Ptr) (back : List Ptr)
    : Type 0 where
  pub last : SatelliteRequest
  pub removed : SatelliteRequest
  pub last_at : h (last_of q front) ≡ some last
  pub last_on : last_of q front ≢ null
  pub last_in : is_in (last_of q front) (q ∷ front) ≡ true
  pub removed_at : h b ≡ some removed
  pub removed_on : b ≢ null
  pub removed_out : is_in b (q ∷ (front ++ back)) ≡ false
  pub linked :
      Seg (write h (last_of q front) (record last { next = removed.next })) x (q ∷ (front ++ back))
  pub kept :
      contents
        (write h (last_of q front) (record last { next = removed.next }))
        (q ∷ (front ++ back))
      ≡ contents h (q ∷ (front ++ back))

pub unlinked :
    (h : Heap) (x q : Ptr) (front : List Ptr) (b : Ptr) (back : List Ptr)
    → Seg h x (q ∷ (front ++ (b ∷ back)))
    → Unlinked h x q front b back
unlinked h x q [] b back (at, ne, fresh, n, e, (bt, bne, bfresh, m, be, s)) = record {
  last = n;
  removed = m;
  last_at = e;
  last_on = ne;
  last_in = ground arith;
  removed_at = be;
  removed_on = bne;
  removed_out = ground (arith, fresh, bfresh);
  linked = (
    at,
    ne,
    ground (arith, fresh),
    record n { next = m.next },
    write_self h q (record n { next = m.next }),
    Seg-write h q (record n { next = m.next }) m.next back (ground (arith, fresh)) s,
  );
  kept =
      cons_contents (write h q (record n { next = m.next })) h q back
        (ap (λ o. request_of (value_of o)) (write_self h q (record n { next = m.next }))
          ∙ sym (ap (λ o. request_of (value_of o)) e))
        (contents-write h q (record n { next = m.next }) back (ground (arith, fresh)));
}
unlinked h x q (c ∷ front) b back (at, ne, fresh, n, e, s) =
    let u = unlinked h n.next c front b back s in
    let l = last_of c front in
    let v : SatelliteRequest = record u.last { next = u.removed.next } in
    let (out, out_front, other) = apart q c front b back fresh in
    let differs = ne_of_in l q (c ∷ front) u.last_in out_front in
    record {
      last = u.last;
      removed = u.removed;
      last_at = u.last_at;
      last_on = u.last_on;
      last_in = ground (arith, u.last_in);
      removed_at = u.removed_at;
      removed_on = u.removed_on;
      removed_out = ground (arith, u.removed_out, other);
      linked = (at, ne, out, n, write_ne h l v q differs ∙ e, u.linked);
      kept =
          cons_contents (write h l v) h q (c ∷ (front ++ back))
            (ap (λ o. request_of (value_of o)) (write_ne h l v q differs)) u.kept;
    }
