-- ===== src/LogAnalyzer/Buffer/Lifecycle.antt =====
-- `init_buffer` and `free_buffer` of hw4/buffer.c.
use system_hw.Prelude.Int.{ℤ, pos, negsuc}
use system_hw.Prelude.{
  ℕ, zero, suc, ◌+◌, ◌<◌, ◌≡◌, refl, ap, ◌∙◌, Bool, true, false, none, some, List, [], ◌∷◌, map,
  length, arith, ◌⊎◌, ◌&&◌, ◌%◌, get_or, Option,
}
use system_hw.LogAnalyzer.Buffer.{Buffer, InitCalls, init_buffer, free_buffer, freed_from}
use system_hw.LogAnalyzer.Buffer.Inv.{IsValid}
use system_hw.LogAnalyzer.Buffer.Fifo.{Holds}
use system_hw.LogAnalyzer.Buffer.Window.{entries, entries_lem, window}
use native.Mathlib.Nat.{add-zero}

-- Nothing is held: no array, and no synchronisation object.
pub record IsReleased {ℓ} {A : Type ℓ} (b : Buffer A) : Type 0 where
  pub no_data : b.allocated ≡ false
  pub no_mutex : b.mutex ≡ false
  pub no_not_full : b.not_full ≡ false
  pub no_not_empty : b.not_empty ≡ false

pub record IsReady {ℓ} {A : Type ℓ} (b : Buffer A) : Type ℓ where
  pub valid : IsValid b
  pub mutex_on : b.mutex ≡ true
  pub not_full_on : b.not_full ≡ true
  pub not_empty_on : b.not_empty ≡ true

module _ {A : Type 0} where
  -- Every call that `init_buffer` makes succeeds.
  abbrev pub succeeds : InitCalls A → Bool
  succeeds calls = calls.mutex_ok && calls.not_full_ok && calls.not_empty_ok

  abbrev pub Initialised : Bool → ℕ → Option (Buffer A) × ℤ → Type 0
  Initialised ok n (none, code) = ⊥
  Initialised ok n (some b, pos k) =
      (k ≡ 0) × (ok ≡ true) × (0 < n) × Holds b [] × IsReady b × (b.size ≡ n)
  Initialised ok n (some b, negsuc k) = (k ≡ 0) × ((ok ≡ false) ⊎ (n ≡ 0)) × IsReleased b

  -- On a buffer that holds nothing, after a `malloc` that succeeds, `init_buffer` returns 0
  -- exactly when the size is positive and every initialisation succeeds; the buffer is then
  -- empty, well formed, of the given size and fully initialised. Otherwise it returns -1 and has
  -- undone what it acquired.
  pub init_buffer-Initialised :
      (calls : InitCalls A) (n : ℕ) (storage : List (Option A)) (b : Buffer A)
      → calls.storage ≡ some storage
      → length storage ≡ n
      → IsReleased b
      → Initialised (succeeds calls) n (init_buffer calls (some b) (pos n))
  unfolding init_buffer entries
  init_buffer-Initialised calls zero storage b s l r = ground arith
  init_buffer-Initialised calls (suc k) storage b s l r = ground arith

  freed_from-window :
      (b : Buffer A) (i n : ℕ) (q : List A)
      → window b.cells b.size (b.tail + i) n ≡ map some q
      → freed_from b i n ≡ q
  unfolding freed_from
  freed_from-window b i zero [] e = refl
  freed_from-window b i zero (x ∷ q) e = cc
  freed_from-window b i (suc n) [] e = cc
  freed_from-window b i (suc n) (x ∷ q) e =
      rw (first, freed_from) (ap (λ xs. x ∷ xs) (freed_from-window b (i + 1) n q rest))
    where
      first : get_or b.cells ((b.tail + i) % b.size) none ≡ some x
      first = cc e

      shift : b.tail + (i + 1) ≡ b.tail + i + 1
      shift = omega arith

      rest : window b.cells b.size (b.tail + (i + 1)) n ≡ map some q
      rest = ap (λ p. window b.cells b.size p n) shift ∙ cc e

  -- On a well-formed buffer, `free_buffer` frees each line that it holds once, in order, and all
  -- that `init_buffer` acquired; a second call frees nothing.
  pub free_buffer-IsReleased :
      (b : Buffer A) (q : List A)
      → Holds b q
      → ((free_buffer b).0 ≡ q)
        × IsReleased (free_buffer b).1
        × (free_buffer (free_buffer b).1 ≡ ([], (free_buffer b).1))
  unfolding free_buffer
  free_buffer-IsReleased b q h = ground (arith, h.valid.held, freed_from-window b 0 b.count q lines)
    where
      lines : window b.cells b.size (b.tail + 0) b.count ≡ map some q
      lines = rw add-zero (entries_lem b ∙ h.lines)
