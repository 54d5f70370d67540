-- ===== src/MagicRing/Bounds.antt =====
-- The invariant of a ring, and the arithmetic of its two positions.
use native.Mathlib.Nat.{mod-eq_of_lt, mod-eq-sub-mod}
use gain.Base.{ℕ, ◌+◌, ◌-◌, ◌%◌, ◌≡◌, ◌<◌, max, true, false, arith, dec_lt, ltb, if◌then◌else◌}
use gain.VirtualMem.Laws.{IsMapped}
use gain.MagicRing.{RingBuffer, available, buffered}

-- A ring of size 0 has no memory yet. The memory has the size of the ring.
pub record IsValid (rb : RingBuffer) : Type 0 where
  pub mapped : IsMapped rb.vm
  pub exact : rb.vm.size ≡ rb.size
  pub r_in : rb.r < max 1 rb.size
  pub w_in : rb.w < max 1 rb.size
  pub at_start : rb.empty ≡ true → (rb.r ≡ 0) × (rb.w ≡ 0)
  pub no_memory : rb.size ≡ 0 → rb.empty ≡ true

-- A position that went round at most once.
pub mod_wrap : (x s : ℕ) → x < s + s → x % s ≡ (if ltb x s then x else x - s)
mod_wrap x s h = elim (dec_lt x s) [
  | yes p ↦ ground (arith, mod-eq_of_lt p)
  | no p ↦ ground (
    arith,
    mod-eq-sub-mod {n = x} {m = s} (omega arith),
    mod-eq_of_lt {n = x - s} {m = s} (omega arith),
  )
]

-- The bytes to read and the room to write make up the size.
pub available-add-buffered : {rb : RingBuffer} → IsValid rb → available rb + buffered rb ≡ rb.size
unfolding available buffered
available-add-buffered v = ground arith

-- The position to write is behind the bytes to read.
pub w_behind : {rb : RingBuffer} → IsValid rb → 0 < rb.size → (rb.r + buffered rb) % rb.size ≡ rb.w
unfolding buffered
w_behind {rb} v h = ground (arith, mod_wrap (rb.r + buffered rb) rb.size)

pub buffered-empty : {rb : RingBuffer} → IsValid rb → rb.empty ≡ true → buffered rb ≡ 0
unfolding buffered
buffered-empty v e = ground arith

pub buffered-pos : {rb : RingBuffer} → IsValid rb → rb.empty ≡ false → 0 < buffered rb
unfolding buffered
buffered-pos v e = ground arith
