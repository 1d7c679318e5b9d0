-- ===== src/Station/Queue/Pick.antt =====
-- The search of `findAndRemoveHighestPriority` in hw3/main.c as a function on the addresses.
use system_hw.Prelude.{
  ℕ, zero, suc, ◌<◌, ◌≤◌, ◌≡◌, ◌≢◌, refl, sym, ap, ap₂, subst, ◌∙◌, Bool, true, false, some, List,
  [], ◌∷◌, ◌++◌, length, arith, ltb, ◌==◌, if◌then◌else◌, Bool-cases, ◌⊎◌, inl, inr,
}
use system_hw.Station.Queue.{Ptr, null, SatelliteRequest, Heap, ok, search}
use system_hw.Station.Queue.Seg.{Seg, node_at, value_of, load_at, QueuedRequest}

abbrev pub priority_at : Heap → Ptr → ℕ
priority_at h p = (node_at h p).priority

-- The search over the addresses that are left.
unfoldable pub pick : Heap → (highest prev current_prev : Ptr) → List Ptr → Ptr × Ptr
pick h highest prev current_prev [] = (highest, prev)
pick h highest prev current_prev (c ∷ cs) =
    pick h (if ltb (priority_at h c) (priority_at h highest) then c else highest)
      (if ltb (priority_at h c) (priority_at h highest) then current_prev else prev) c cs

search-pick_step :
    (fuel : ℕ) (h : Heap) (best prev current_prev c : Ptr) (n m : SatelliteRequest)
    → c ≢ null
    → h c ≡ some n
    → best ≢ null
    → h best ≡ some m
    → search (suc fuel) h best prev current_prev c
      ≡ search fuel h
          (if ltb n.priority m.priority then c else best)
          (if ltb n.priority m.priority then current_prev else prev)
          c
          n.next
unfolding search
search-pick_step fuel h best prev current_prev c n m ne e nb eb =
    let there : (c == null) ≡ false = ground (arith, ne) in
    rw (there, load_at h c n ne e, load_at h best m nb eb) refl

pub search-pick :
    (fuel : ℕ) (h : Heap) (best prev current_prev current : Ptr) (ps : List Ptr)
    (m : SatelliteRequest)
    → length ps < fuel
    → Seg h current ps
    → best ≢ null
    → h best ≡ some m
    → search fuel h best prev current_prev current ≡ ok (pick h best prev current_prev ps)
unfolding pick
search-pick zero h best prev current_prev current ps m lt s nb eb = absurd (omega arith)
search-pick (suc fuel) h best prev current_prev current [] m lt s nb eb = unfold search in rw s refl
search-pick (suc fuel) h best prev current_prev current (c ∷ cs) m lt (at, ne, fresh, n, e, s) nb
      eb =
    let same : ltb (priority_at h c) (priority_at h best) ≡ ltb n.priority m.priority =
      ap₂ (λ x y. ltb (value_of x).priority (value_of y).priority) e eb in
    rw (at, same)
      (search-pick_step fuel h best prev current_prev c n m ne e nb eb
        ∙ elim (Bool-cases (ltb n.priority m.priority)) [
          | inl higher ↦
              rw higher (search-pick fuel h c current_prev c n.next cs n (omega arith) s ne e)
          | inr lower ↦ rw lower (search-pick fuel h best prev c n.next cs m (omega arith) s nb eb)
        ])

-- The requests at these addresses have a larger number, or none that is smaller.
abbrev pub AllAbove : Heap → ℕ → List Ptr → Type 0
AllAbove h k [] = Unit {0}
AllAbove h k (p ∷ ps) = (k < priority_at h p) × AllAbove h k ps

abbrev pub NoneBelow : Heap → ℕ → List Ptr → Type 0
NoneBelow h k [] = Unit {0}
NoneBelow h k (p ∷ ps) = (k ≤ priority_at h p) × NoneBelow h k ps

abbrev pub last_of : Ptr → List Ptr → Ptr
last_of p [] = p
last_of p (q ∷ qs) = last_of q qs

-- The search ends with the first request of the smallest number, and the node before it.
abbrev pub Picks : Heap → (highest prev current_prev : Ptr) → List Ptr → Ptr × Ptr → Type 0
Picks h highest prev current_prev ps (b, before) =
    ((b ≡ highest) × (before ≡ prev) × NoneBelow h (priority_at h highest) ps)
    ⊎ ((front : List Ptr) × (back : List Ptr) × (ps ≡ front ++ (b ∷ back))
        × (before ≡ last_of current_prev front)
        × (priority_at h b < priority_at h highest)
        × AllAbove h (priority_at h b) front
        × NoneBelow h (priority_at h b) back)

module _ (h : Heap) (highest prev current_prev c : Ptr) (cs : List Ptr) where
  pick_step :
      (b : Bool)
      → ltb (priority_at h c) (priority_at h highest) ≡ b
      → pick h highest prev current_prev (c ∷ cs)
        ≡ pick h (if b then c else highest) (if b then current_prev else prev) c cs
  unfolding pick
  pick_step b e =
      ap (λ x. pick h (if x then c else highest) (if x then current_prev else prev) c cs) e

  Picks-higher :
      (r : Ptr × Ptr)
      → priority_at h c < priority_at h highest
      → Picks h c current_prev c cs r
      → Picks h highest prev current_prev (c ∷ cs) r
  Picks-higher (b, before) less (inl (same, there, rest)) = inr (
    [],
    cs,
    ap (λ x. x ∷ cs) (sym same),
    there,
    omega (arith, ap (priority_at h) same),
    tt,
    subst (λ x. NoneBelow h (priority_at h x) cs) (sym same) rest,
  )
  Picks-higher (b, before) less (inr (front, back, split, there, below, above, rest)) =
      inr (c ∷ front, back, ap (λ r. c ∷ r) split, there, omega arith, (below, above), rest)

  Picks-lower :
      (r : Ptr × Ptr)
      → priority_at h highest ≤ priority_at h c
      → Picks h highest prev c cs r
      → Picks h highest prev current_prev (c ∷ cs) r
  Picks-lower (b, before) le (inl (same, there, rest)) = inl (same, there, (le, rest))
  Picks-lower (b, before) le (inr (front, back, split, there, below, above, rest)) =
      inr (c ∷ front, back, ap (λ r. c ∷ r) split, there, below, (omega arith, above), rest)

pub pick-Picks :
    (h : Heap) (highest prev current_prev : Ptr) (ps : List Ptr)
    → Picks h highest prev current_prev ps (pick h highest prev current_prev ps)
pick-Picks h highest prev current_prev [] = unfold pick in inl (refl, refl, tt)
pick-Picks h highest prev current_prev (c ∷ cs) =
    elim (Bool-cases (ltb (priority_at h c) (priority_at h highest))) [
      | inl higher ↦
          subst (Picks h highest prev current_prev (c ∷ cs))
            (sym (pick_step h highest prev current_prev c cs true higher))
            (Picks-higher h highest prev current_prev c cs _ (ground (arith, higher))
              (pick-Picks h c current_prev c cs))
      | inr lower ↦
          subst (Picks h highest prev current_prev (c ∷ cs))
            (sym (pick_step h highest prev current_prev c cs false lower))
            (Picks-lower h highest prev current_prev c cs _ (ground (arith, lower))
              (pick-Picks h highest prev c cs))
    ]

-- The list without its first request of the smallest number, and that request.
unfoldable pub take_best : QueuedRequest → List QueuedRequest → QueuedRequest × List QueuedRequest
take_best r [] = (r, [])
take_best r (c ∷ cs) =
    let (best, rest) = take_best c cs in
    if ltb best.priority r.priority then (best, r ∷ rest) else (r, c ∷ cs)
