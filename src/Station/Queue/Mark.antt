-- ===== src/Station/Queue/Mark.antt =====
-- The walk of `satellite` in hw3/main.c that marks its request after a timeout.
use system_hw.Prelude.{
  ℕ, zero, suc, ◌<◌, ◌≡◌, ◌≢◌, refl, sym, subst, ◌∙◌, true, false, some, List, [], ◌∷◌, length,
  arith, ◌==◌, Bool-cases, ◌⊎◌, inl, inr,
}
use system_hw.Station.Queue.{Ptr, null, SatelliteRequest, Heap, write, Run, ok, mark_handled}
use system_hw.Station.Queue.Seg.{Seg, is_in, load_at, Seg-write, write_self, write_ne}

-- The request is not among the nodes and nothing changes; or it is, and it is marked and stays in
-- its place.
abbrev pub Marks : Heap → Ptr → List Ptr → Ptr → Run Heap → Type 0
Marks h p ps request r =
    ((is_in request ps ≡ false) × (r ≡ ok h))
    ⊎ ((is_in request ps ≡ true)
        × (n : SatelliteRequest) × (h request ≡ some n)
        × (r ≡ ok (write h request (record n { handled = true })))
        × Seg (write h request (record n { handled = true })) p ps)

mark_here :
    (fuel : ℕ) (h : Heap) (q : Ptr) (ps : List Ptr)
    → Seg h q (q ∷ ps)
    → Marks h q (q ∷ ps) q (mark_handled (suc fuel) h q q)
unfolding mark_handled
mark_here fuel h q ps (at, ne, fresh, n, e, s) =
    let on : (q == null) ≡ false = ground (arith, ne) in
    let here : (q == q) ≡ true = ground arith in
    let marked : SatelliteRequest = record n { handled = true } in
    inr (
      ground arith,
      n,
      e,
      rw (on, load_at h q n ne e, here) refl,
      (at, ne, fresh, marked, write_self h q marked, Seg-write h q marked n.next ps fresh s),
    )

mark_step :
    (fuel : ℕ) (h : Heap) (q request : Ptr) (n : SatelliteRequest)
    → q ≢ request
    → q ≢ null
    → h q ≡ some n
    → mark_handled (suc fuel) h q request ≡ mark_handled fuel h n.next request
unfolding mark_handled
mark_step fuel h q request n other ne e =
    let on : (q == null) ≡ false = ground (arith, ne) in
    let off : (q == request) ≡ false = ground (arith, other) in
    rw (on, load_at h q n ne e, off) refl

mark_there :
    (fuel : ℕ) (h : Heap) (q : Ptr) (ps : List Ptr) (request : Ptr) (n : SatelliteRequest)
    → q ≢ request
    → q ≢ null
    → is_in q ps ≡ false
    → h q ≡ some n
    → Marks h n.next ps request (mark_handled fuel h n.next request)
    → Marks h q (q ∷ ps) request (mark_handled (suc fuel) h q request)
mark_there fuel h q ps request n other ne fresh e m = elim m [
  | inl (out, same) ↦ inl (ground (arith, out, other), step ∙ same)
  | inr (inside, k, at, same, s) ↦ inr (
    ground (arith, inside),
    k,
    at,
    step ∙ same,
    (
      refl,
      ne,
      fresh,
      n,
      write_ne h request (record k { handled = true }) q (λ x. other (sym x)) ∙ e,
      s,
    ),
  )
]
  where
    step : mark_handled (suc fuel) h q request ≡ mark_handled fuel h n.next request
    step = mark_step fuel h q request n other ne e

-- The walk after a timeout ends without a fault on every well-formed list, with enough fuel for its
-- nodes. A request that is still in the list is marked as handled, and the list keeps its nodes and
-- their order; one that an engineer has taken out is not touched.
pub mark_handled-Marks :
    (fuel : ℕ) (h : Heap) (p : Ptr) (ps : List Ptr) (request : Ptr)
    → length ps < fuel
    → Seg h p ps
    → Marks h p ps request (mark_handled fuel h p request)
mark_handled-Marks zero h p ps request lt s = absurd (omega arith)
mark_handled-Marks (suc fuel) h p [] request lt s = unfold mark_handled in inl (refl, rw s refl)
mark_handled-Marks (suc fuel) h p (q ∷ ps) request lt (at, ne, fresh, n, e, s) =
    rw at (elim (Bool-cases (q == request)) [
      | inl here ↦
          let same : q ≡ request = ground (arith, here) in
          subst (λ r. Marks h q (q ∷ ps) r (mark_handled (suc fuel) h q r)) same
            (mark_here fuel h q ps (refl, ne, fresh, n, e, s))
      | inr there ↦
          mark_there fuel h q ps request n (ground (arith, there)) ne fresh e
            (mark_handled-Marks fuel h n.next ps request (omega arith) s)
    ])
