-- ===== src/MagicRing/Contents.antt =====
-- The queue that a ring holds, and how moving the read position changes it.
use gain.Base.{ℕ, ◌+◌, ◌-◌, ◌%◌, ◌≡◌, ◌≤◌, ◌<◌, refl, ap, sym, ◌∙◌, true, false, arith}
use gain.Base.{[], length, drop, ◌==◌, Bool-cases, inl, inr}
use gain.VirtualMem.{bytes}
use gain.VirtualMem.Laws.{length-bytes, drop-bytes, bytes-mod}
use gain.ByteQueue.{ByteQueue}
use gain.MagicRing.{RingBuffer, buffered, reset, reset_if_met}
use gain.MagicRing.Bounds.{IsValid, mod_wrap}

abbrev pub contents : RingBuffer → ByteQueue
contents rb = bytes rb.vm rb.r (buffered rb)

pub length-contents : (rb : RingBuffer) → length (contents rb) ≡ buffered rb
length-contents rb = length-bytes rb.vm rb.r (buffered rb)

pub reset-IsValid : {rb : RingBuffer} → IsValid rb → IsValid (reset rb)
unfolding reset
reset-IsValid v = ground arith

pub contents-reset : (rb : RingBuffer) → contents (reset rb) ≡ []
unfolding reset buffered
contents-reset rb = refl

-- A position and the same one, gone round, show the same bytes.
pub bytes-round :
    {rb : RingBuffer} → IsValid rb → (p n : ℕ) → bytes rb.vm (p % rb.size) n ≡ bytes rb.vm p n
bytes-round {rb} v p n = ap (λ s. bytes rb.vm (p % s) n) (sym v.exact) ∙ bytes-mod rb.vm p n

-- The read position moves on by `n`, and the ring is reset if that empties it.
abbrev pub advanced : RingBuffer → ℕ → RingBuffer
advanced rb n = reset_if_met (record rb { r = (rb.r + n) % rb.size })

pub size-advanced : (rb : RingBuffer) (n : ℕ) → (advanced rb n).size ≡ rb.size
unfolding reset
size-advanced rb n = ground arith

module _ {rb : RingBuffer} (v : IsValid rb) (n : ℕ) (pos : 0 < n) (le : n ≤ buffered rb) where
  pub advanced-IsValid : IsValid (advanced rb n)
  unfolding reset buffered
  advanced-IsValid = ground (arith, mod_wrap (rb.r + n) rb.size)

  buffered-advanced : buffered (advanced rb n) ≡ buffered rb - n
  unfolding reset buffered
  buffered-advanced = ground (arith, mod_wrap (rb.r + n) rb.size)

  bytes-advanced :
      bytes (advanced rb n).vm (advanced rb n).r (buffered rb - n)
      ≡ bytes rb.vm (rb.r + n) (buffered rb - n)
  unfolding reset
  bytes-advanced = elim (Bool-cases ((rb.r + n) % rb.size == rb.w)) [
    | inl met ↦ (let none_left : buffered rb - n ≡ 0 = emptied met in rw none_left)
    | inr apart ↦ rw apart (bytes-round v (rb.r + n) (buffered rb - n))
  ]
    where
      emptied : ((rb.r + n) % rb.size == rb.w) ≡ true → buffered rb - n ≡ 0
      emptied met = unfold buffered in (ground (arith, mod_wrap (rb.r + n) rb.size))

  -- Moving on by `n` drops the first `n` bytes.
  pub contents-advanced : contents (advanced rb n) ≡ drop n (contents rb)
  contents-advanced =
      ap (bytes (advanced rb n).vm (advanced rb n).r) buffered-advanced
      ∙ bytes-advanced
      ∙ sym (drop-bytes rb.vm rb.r (buffered rb) n le)

  -- The ring is empty then exactly if all bytes are gone.
  pub empty-advanced : (advanced rb n).empty ≡ (n == buffered rb)
  unfolding reset buffered
  empty-advanced = ground (arith, mod_wrap (rb.r + n) rb.size)

-- A full ring, read by nothing: its positions meet, and it is taken for an empty one.
pub advanced-full :
    {rb : RingBuffer}
    → IsValid rb
    → rb.empty ≡ false
    → buffered rb ≡ rb.size
    → advanced rb 0 ≡ reset rb
unfolding reset buffered
advanced-full {rb} v e full = ground (arith, mod_wrap (rb.r + 0) rb.size)
