-- ===== src/LogAnalyzer/Buffer/Inv.antt =====
-- The representation invariant of `Buffer` (hw4/buffer.h): every index that the code computes lies
-- inside the array, and `head` stands `count` places after `tail`.
use system_hw.Prelude.{
  ◌+◌, ◌-◌, ◌%◌, ◌≤◌, ◌<◌, ◌≡◌, true, none, some, length, length-set, mod-add-step, mod-step-add,
  arith,
}
use system_hw.LogAnalyzer.Buffer.{Buffer, insert, take_out}

pub record IsValid {ℓ} {A : Type ℓ} (b : Buffer A) : Type 0 where
  pub held : b.allocated ≡ true
  pub storage : length b.cells ≡ b.size
  pub nonzero : 0 < b.size
  pub count_in : b.count ≤ b.size
  pub tail_in : b.tail < b.size
  pub head_at : b.head ≡ (b.tail + b.count) % b.size

module _ {ℓ} {A : Type ℓ} where
  pub insert-IsValid :
      (b : Buffer A) (line : A) → IsValid b → b.count < b.size → IsValid (insert b line)
  unfolding insert
  insert-IsValid b line v h =
      ground (arith, length-set b.cells b.head (some line), mod-add-step b.tail b.count b.size)

  pub take_out-IsValid : (b : Buffer A) → IsValid b → 0 < b.count → IsValid (take_out b).1
  unfolding take_out
  take_out-IsValid b v h =
      ground (arith, length-set b.cells b.tail none, mod-step-add b.tail (b.count - 1) b.size)
