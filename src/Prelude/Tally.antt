-- ===== src/Prelude/Tally.antt =====
-- Sums of weights over lists.
use system_hw.Prelude.{
  ℕ, zero, suc, ◌+◌, ◌*◌, ◌≤◌, ◌<◌, ◌≡◌, ◌≢◌, refl, List, [], ◌∷◌, length, get_or, set, replicate,
  arith, ◌⊎◌, inl, inr,
}

module _ {A : Type 0} where
  -- The sum of the weights of a list.
  unfoldable pub tally : (A → ℕ) → List A → ℕ
  tally w [] = 0
  tally w (x ∷ xs) = w x + tally w xs

  pub tally-set :
      (w : A → ℕ) (xs : List A) (i : ℕ) (v d : A)
      → i < length xs
      → tally w (set xs i v) + w (get_or xs i d) ≡ tally w xs + w v
  unfolding tally
  tally-set w [] i v d lt = absurd (omega arith)
  tally-set w (x ∷ xs) zero v d lt = omega arith
  tally-set w (x ∷ xs) (suc i) v d lt = omega (arith, tally-set w xs i v d (omega arith))

  pub tally-get :
      (w : A → ℕ) (xs : List A) (i : ℕ) (d : A) → i < length xs → w (get_or xs i d) ≤ tally w xs
  unfolding tally
  tally-get w [] i d lt = absurd (omega arith)
  tally-get w (x ∷ xs) zero d lt = omega arith
  tally-get w (x ∷ xs) (suc i) d lt = omega (arith, tally-get w xs i d (omega arith))

  pub tally-replicate : (w : A → ℕ) (n : ℕ) (x : A) → w x ≡ 0 → tally w (replicate n x) ≡ 0
  unfolding tally
  tally-replicate w zero x e = refl
  tally-replicate w (suc n) x e = omega (arith, e, tally-replicate w n x e)

  pub tally-replicate_sum : (w : A → ℕ) (n : ℕ) (x : A) → tally w (replicate n x) ≡ n * w x
  unfolding tally
  tally-replicate_sum w zero x = grind arith
  tally-replicate_sum w (suc n) x = grind (arith, tally-replicate_sum w n x)

  pub tally-same :
      (w v : A → ℕ) (xs : List A) (d : A)
      → ((j : ℕ) → j < length xs → w (get_or xs j d) ≡ v (get_or xs j d))
      → tally w xs ≡ tally v xs
  unfolding tally
  tally-same w v [] d same = refl
  tally-same w v (x ∷ xs) d same =
      omega
        (arith, same zero (omega arith), tally-same w v xs d (λ j lt. same (suc j) (omega arith)))

  -- Weights that sum to the length, and to nothing.
  pub tally-sum :
      (w v : A → ℕ) (xs : List A) → ((x : A) → w x + v x ≡ 1) → tally w xs + tally v xs ≡ length xs
  unfolding tally
  tally-sum w v [] h = refl
  tally-sum w v (x ∷ xs) h = omega (arith, h x, tally-sum w v xs h)

  -- Some member has weight, or none has.
  pub tally-find :
      (w : A → ℕ) (xs : List A) (d : A)
      → (tally w xs ≡ 0) ⊎ ((i : ℕ) × (i < length xs) × (0 < w (get_or xs i d)))
  unfolding tally
  tally-find w [] d = inl refl
  tally-find w (x ∷ xs) d = here_or_later (w x) refl (tally-find w xs d)
    where
      here_or_later :
          (k : ℕ)
          → w x ≡ k
          → (tally w xs ≡ 0) ⊎ ((i : ℕ) × (i < length xs) × (0 < w (get_or xs i d)))
          → (w x + tally w xs ≡ 0)
            ⊎ ((i : ℕ) × (i < suc (length xs)) × (0 < w (get_or (x ∷ xs) i d)))
      here_or_later (suc k) e r = inr (0, omega arith, omega (arith, e))
      here_or_later zero e (inl r) = inl (omega (arith, e, r))
      here_or_later zero e (inr (i, lt, pos)) = inr (suc i, omega arith, pos)

  pub outside : (xs : List A) (i : ℕ) (d : A) → (i < length xs) ⊎ (get_or xs i d ≡ d)
  outside [] i d = inr refl
  outside (x ∷ xs) zero d = inl (omega arith)
  outside (x ∷ xs) (suc i) d = elim (outside xs i d) [ inl lt ↦ inl (omega arith) | inr e ↦ inr e ]

  -- Weights that differ at one place only.
  pub tally-except :
      (w v : A → ℕ) (xs : List A) (i : ℕ) (d : A)
      → i < length xs
      → ((j : ℕ) → i ≢ j → w (get_or xs j d) ≡ v (get_or xs j d))
      → tally w xs + v (get_or xs i d) ≡ tally v xs + w (get_or xs i d)
  unfolding tally
  tally-except w v [] i d lt same = absurd (omega arith)
  tally-except w v (x ∷ xs) zero d lt same =
      omega (arith, tally-same w v xs d (λ j less. same (suc j) (omega arith)))
  tally-except w v (x ∷ xs) (suc i) d lt same = omega (
    arith,
    same zero (omega arith),
    tally-except w v xs i d (omega arith) (λ j ne. same (suc j) (omega (arith, ne))),
  )
