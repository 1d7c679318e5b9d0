-- ===== src/LogAnalyzer/Buffer/Window.antt =====
-- The entries of `Buffer.data` that are in use: the window of `count` places from `tail` on, round
-- the array of hw4/buffer.c.
use system_hw.Prelude.{
  ℕ, zero, suc, ◌+◌, ◌-◌, ◌%◌, ◌<◌, ◌≡◌, ◌≢◌, refl, sym, ap, ap₂, ◌∙◌, Option, none, some, List, [],
  ◌∷◌, ◌++◌, length, get_or, set, get_or-set_self, get_or-set_ne, mod-ne, mod-step, arith,
}
use native.Mathlib.Nat.{add-zero, mod-eq_of_lt, mod-mod}
use system_hw.LogAnalyzer.Buffer.{Buffer, insert, take_out}
use system_hw.LogAnalyzer.Buffer.Inv.{IsValid}

module _ {ℓ} {A : Type ℓ} where
  -- The entries at the `n` positions from `p` on, round an array of `s` entries.
  abbrev pub window : List (Option A) → ℕ → ℕ → ℕ → List (Option A)
  window cells s p zero = []
  window cells s p (suc n) = get_or cells (p % s) none ∷ window cells s (p + 1) n

  window-mod :
      (cells : List (Option A)) (s p q n : ℕ)
      → p % s ≡ q % s
      → window cells s p n ≡ window cells s q n
  window-mod cells s p q zero e = refl
  window-mod cells s p q (suc n) e = ap₂ ◌∷◌ (ap (λ k. get_or cells k none) e) (
      window-mod cells s (p + 1) (q + 1) n
        (sym (mod-step p s) ∙ ap (λ k. (k + 1) % s) e ∙ mod-step q s))

  window-suc :
      (cells : List (Option A)) (s p n : ℕ)
      → window cells s p (suc n) ≡ window cells s p n ++ (get_or cells ((p + n) % s) none ∷ [])
  window-suc cells s p zero = rw add-zero
  window-suc cells s p (suc n) = ap (◌∷◌ (get_or cells (p % s) none)) (
      window-suc cells s (p + 1) n
      ∙ ap (λ k. window cells s (p + 1) n ++ (get_or cells (k % s) none ∷ [])) (omega arith))

  -- A write outside the window leaves it alone.
  window-set :
      (cells : List (Option A)) (s p n j : ℕ) (v : Option A)
      → ((i : ℕ) → i < n → (p + i) % s ≢ j)
      → window (set cells j v) s p n ≡ window cells s p n
  window-set cells s p zero j v away = refl
  window-set cells s p (suc n) j v away =
      ap₂ ◌∷◌
        (get_or-set_ne cells j (p % s) v none (λ e. away 0 (omega arith) (rw add-zero (sym e))))
        (window-set cells s (p + 1) n j v
          (λ i h e. away (i + 1) (omega arith) (ap (λ k. k % s) (omega arith) ∙ e)))

  -- The entries that `free_buffer` and the workers still have to see, oldest first.
  unfoldable pub entries : Buffer A → List (Option A)
  entries b = window b.cells b.size b.tail b.count

  pub entries_lem : (b : Buffer A) → window b.cells b.size b.tail b.count ≡ entries b
  unfolding entries
  entries_lem b = refl

  pub length-entries : (b : Buffer A) → length (entries b) ≡ b.count
  unfolding entries
  length-entries b = go b.tail b.count
    where
      go : (p n : ℕ) → length (window b.cells b.size p n) ≡ n
      go p zero = refl
      go p (suc n) = ap suc (go (p + 1) n)

  -- The distances from the free place at `head` to the occupied ones.
  head-away :
      (b : Buffer A)
      → IsValid b
      → b.count < b.size
      → (i : ℕ) → i < b.count
      → (b.tail + i) % b.size ≢ b.head
  head-away b v h i lt e =
      mod-ne (b.tail + i) (b.count - i) b.size (omega arith) (omega arith)
        (ap (λ k. k % b.size) (omega arith) ∙ sym v.head_at ∙ sym e)

  pub entries-insert :
      (b : Buffer A) (line : A)
      → IsValid b
      → b.count < b.size
      → entries (insert b line) ≡ entries b ++ (some line ∷ [])
  unfolding entries insert
  entries-insert b line v h =
      ap (window (set b.cells b.head (some line)) b.size b.tail) add_one
      ∙ window-suc (set b.cells b.head (some line)) b.size b.tail b.count
      ∙ ap₂ (λ xs x. xs ++ (x ∷ []))
          (window-set b.cells b.size b.tail b.count b.head (some line) (head-away b v h)) stored
    where
      add_one : b.count + 1 ≡ suc b.count
      add_one = omega arith

      stored :
          get_or (set b.cells b.head (some line)) ((b.tail + b.count) % b.size) none ≡ some line
      stored =
          rw (← v.head_at)
            (get_or-set_self b.cells b.head (some line) none (omega (arith, v.storage, v.head_at)))

  pub entries-take_out :
      (b : Buffer A) → IsValid b → 0 < b.count → entries b ≡ (take_out b).0 ∷ entries (take_out b).1
  unfolding entries take_out
  entries-take_out b v h =
      ap (window b.cells b.size b.tail) one_less
      ∙ ap₂ ◌∷◌ (ap (λ k. get_or b.cells k none) reduced) (
          sym (
            window-mod _ b.size ((b.tail + 1) % b.size) (b.tail + 1) (b.count - 1)
              (mod-mod (b.tail + 1) b.size)
            ∙ window-set b.cells b.size (b.tail + 1) (b.count - 1) b.tail none away))
    where
      one_less : b.count ≡ suc (b.count - 1)
      one_less = omega arith

      reduced : b.tail % b.size ≡ b.tail
      reduced = mod-eq_of_lt v.tail_in

      away : (i : ℕ) → i < b.count - 1 → (b.tail + 1 + i) % b.size ≢ b.tail
      away i lt e =
          mod-ne b.tail (i + 1) b.size (omega arith) (omega (arith, v.count_in))
            (ap (λ k. k % b.size) (omega arith) ∙ e ∙ sym reduced)
