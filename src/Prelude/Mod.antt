-- ===== src/Prelude/Mod.antt =====
-- Indices of ring buffers: sums modulo a size.
use Prim.Native.Nat.{ℕ, ◌+◌, ◌-◌, ◌%◌, ◌<◌}
use mathlib.Core.Path.{◌≡◌, ◌∙◌, ap}
use mathlib.Core.Logic.{◌≢◌}
use native.Mathlib.Nat.{mod-add-mod, mod-eq_of_lt, mod-eq-sub-mod, mod-lt}
use native.Mathlib.Decide.{dec_lt}
use native.Mathlib.Omega.{arith}

-- A step of an index that is kept reduced is the step of the position.
pub mod-step : (p s : ℕ) → (p % s + 1) % s ≡ (p + 1) % s
mod-step p s = mod-add-mod p s 1

pub mod-add-step : (t n s : ℕ) → ((t + n) % s + 1) % s ≡ (t + (n + 1)) % s
mod-add-step t n s = mod-add-mod (t + n) s 1 ∙ ap (λ k. k % s) (omega arith)

pub mod-step-add : (t n s : ℕ) → ((t + 1) % s + n) % s ≡ (t + (n + 1)) % s
mod-step-add t n s = mod-add-mod (t + 1) s n ∙ ap (λ k. k % s) (omega arith)

-- Fewer than `s` steps on, a reduced index is another one.
mod-ne_of_reduced : (r d s : ℕ) → r < s → 0 < d → d < s → (r + d) % s ≢ r
mod-ne_of_reduced r d s hr pos hd = elim (dec_lt (r + d) s) [
  | yes p ↦ omega (arith, mod-eq_of_lt p)
  | no p ↦ omega (
    arith,
    mod-eq-sub-mod {n = r + d} {m = s} (omega arith),
    mod-eq_of_lt {n = r + d - s} {m = s} (omega arith),
  )
]

pub mod-ne : (p d s : ℕ) → 0 < d → d < s → (p + d) % s ≢ p % s
mod-ne p d s pos hd e =
    mod-ne_of_reduced (p % s) d s (mod-lt p (omega arith)) pos hd (mod-add-mod p s d ∙ e)
