-- ===== src/MagicRing/Looking.antt =====
-- Looking at the bytes of a ring, and the operations that consume what they look at.
use gain.Base.{
  lt→ltb, ℕ_discrete, zero, suc, dec_lt, panic, ℕ, ◌+◌, ◌≡◌, ◌≤◌, ◌<◌, ◌≢◌, refl, ap, sym, ◌∙◌,
  true, false, arith,
}
use gain.Base.{[], drop, ltb, if◌then◌else◌, Bool-cases, inl, inr, ret, Returns, take_all}
use gain.VirtualMem.{bytes, slice}
use gain.ByteQueue
use gain.ByteQueue.{ByteQueue, read_items}
use gain.MagicRing.{RingBuffer, buffered, peek, peek_all, all_bytes, advance_read}
use gain.MagicRing.Bounds.{IsValid, mod_wrap, buffered-empty, available-add-buffered}
use gain.MagicRing.Contents.{
  size-advanced, contents, length-contents, advanced, advanced-IsValid, contents-advanced,
}
use gain.MagicRing.Reading.{slice-ret, take-contents, size_pos}

peek-empty : (rb : RingBuffer) (n : ℕ) → rb.empty ≡ true → peek rb n ≡ ret []
unfolding peek
peek-empty rb n e = ground arith

peek-all :
    (rb : RingBuffer) (n : ℕ)
    → rb.empty ≡ false
    → n ≡ 0
    → peek rb n ≡ slice rb.vm rb.r (buffered rb)
unfolding peek peek_all
peek-all rb n e z = ground arith

peek-some :
    (rb : RingBuffer) (n : ℕ)
    → rb.empty ≡ false
    → n ≢ 0
    → peek rb n ≡ slice rb.vm rb.r (if ltb n (buffered rb) then n else buffered rb)
unfolding peek
peek-some rb n e ne = ground arith

pub contents-empty : {rb : RingBuffer} → IsValid rb → rb.empty ≡ true → contents rb ≡ []
contents-empty {rb} v e = ap (bytes rb.vm rb.r) {y = 0} (buffered-empty v e)

queue_peek-empty : (n : ℕ) → ByteQueue.peek [] n ≡ []
queue_peek-empty zero = refl
queue_peek-empty (suc n) = ground arith

queue_peek-some :
    (rb : RingBuffer) (n : ℕ)
    → n ≢ 0
    → let k = if ltb n (buffered rb) then n else buffered rb in
      ByteQueue.peek (contents rb) n ≡ bytes rb.vm rb.r k
queue_peek-some rb n ne = elim (dec_lt n (buffered rb)) [
  | yes short ↦ rw (lt→ltb n (buffered rb) short) (ground (arith, take-contents rb n (omega arith)))
  | no long ↦ ground (arith, take_all n (contents rb) (omega (arith, length-contents rb)))
]

-- `Peek(n)` on a valid ring shows the first n bytes, or all there are, or all for 0.
pub peek_refines :
    {rb : RingBuffer} (n : ℕ) → IsValid rb → peek rb n ≡ ret (ByteQueue.peek (contents rb) n)
peek_refines {rb} n v = elim (Bool-cases rb.empty) [
  | inl none_left ↦
      peek-empty rb n none_left
      ∙ ap ret
          (sym (ap (λ q. ByteQueue.peek q n) (contents-empty v none_left) ∙ queue_peek-empty n))
  | inr some_left ↦ elim (ℕ_discrete n 0) [
    | yes all ↦
        peek-all rb n some_left all
        ∙ slice-ret rb (buffered rb) v (size_pos rb v some_left) (omega arith)
        ∙ ap (λ k. ret (ByteQueue.peek (contents rb) k)) (sym all)
    | no part ↦
        peek-some rb n some_left part
        ∙ slice-ret rb (if ltb n (buffered rb) then n else buffered rb) v (size_pos rb v some_left)
            (ground arith)
        ∙ ap ret (sym (queue_peek-some rb n part))
  ]
]

all_bytes-empty : (rb : RingBuffer) → rb.empty ≡ true → all_bytes rb ≡ ret []
unfolding all_bytes
all_bytes-empty rb e = ground arith

all_bytes-some :
    (rb : RingBuffer) → rb.empty ≡ false → all_bytes rb ≡ slice rb.vm rb.r (buffered rb)
unfolding all_bytes
all_bytes-some rb e = ground arith

-- `Bytes` copies all bytes.
pub all_bytes_refines : {rb : RingBuffer} → IsValid rb → all_bytes rb ≡ ret (contents rb)
all_bytes_refines {rb} v = elim (Bool-cases rb.empty) [
  | inl none_left ↦ all_bytes-empty rb none_left ∙ ap ret (sym (contents-empty v none_left))
  | inr some_left ↦
      all_bytes-some rb some_left
      ∙ slice-ret rb (buffered rb) v (size_pos rb v some_left) (omega arith)
]

advance_read-zero : (rb : RingBuffer) → advance_read rb 0 ≡ ret rb
unfolding advance_read
advance_read-zero rb = refl

advance_read-advanced :
    {rb : RingBuffer} (n : ℕ)
    → IsValid rb
    → 0 < n
    → n ≤ buffered rb
    → advance_read rb n ≡ ret (advanced rb n)
unfolding advance_read
advance_read-advanced {rb} n v pos le =
    ground (arith, mod_wrap (rb.r + n) rb.size, available-add-buffered v)

-- On a valid ring the bytes that the kernel took are dropped and the others stay in order, if it
-- took at most what there was.
pub advance_read_refines :
    {rb : RingBuffer} (n : ℕ)
    → IsValid rb
    → n ≤ buffered rb
    → Returns
        (advance_read rb n)
        (λ rb'. IsValid rb' × (contents rb' ≡ drop n (contents rb)) × (rb'.size ≡ rb.size))
advance_read_refines {rb} zero v le = rw (advance_read-zero rb) (v, refl, refl)
advance_read_refines {rb} (suc n) v le = rw (advance_read-advanced (suc n) v (omega arith) le) (
  advanced-IsValid v (suc n) (omega arith) le,
  contents-advanced v (suc n) (omega arith) le,
  size-advanced rb (suc n),
)

-- More bytes than there are cannot be dropped: a panic.
pub advance_read-panic : (rb : RingBuffer) (n : ℕ) → buffered rb < n → advance_read rb n ≡ panic
unfolding advance_read
advance_read-panic rb n h = ground arith
