-- ===== src/MagicRing/Taking.antt =====
-- Looking at a ring and skipping its bytes, against the queue of its contents.
use mathlib.Core.Path.{subst}
use gain.Base.{
  ◌>>=◌, ℕ_discrete, zero, suc, dec_lt, ℕ, ◌+◌, ◌%◌, ◌≡◌, ◌≤◌, ◌<◌, ◌≢◌, refl, ap, sym, ◌∙◌, arith,
  min,
}
use gain.Base.{List, [], length, take, drop, Outcome, ret, Returns, none, some, Option, drop_all}
use gain.Errors.{Error, short_buffer}
use gain.VirtualMem.{slice}
use gain.ByteQueue
use gain.ByteQueue.{ByteQueue, read_items}
use gain.MagicRing.{RingBuffer, buffered, reset, discard, next}
use gain.MagicRing.Bounds.{IsValid, mod_wrap}
use gain.MagicRing.Contents.{
  contents, length-contents, advanced, advanced-IsValid, contents-advanced, reset-IsValid,
  contents-reset,
}
use gain.MagicRing.Reading.{slice-ret, take-contents, Serves}

-- Short of the end the two positions do not meet.
pub advanced-short :
    {rb : RingBuffer} (n : ℕ)
    → IsValid rb
    → 0 < n
    → n < buffered rb
    → advanced rb n ≡ record rb { r = (rb.r + n) % rb.size }
unfolding buffered
advanced-short {rb} n v pos h = ground (arith, mod_wrap (rb.r + n) rb.size)

discard-zero : (rb : RingBuffer) → discard rb 0 ≡ (0, rb)
unfolding discard
discard-zero rb = refl

discard-short :
    (rb : RingBuffer) (n : ℕ)
    → n ≢ 0
    → n < buffered rb
    → discard rb n ≡ (n, record rb { r = (rb.r + n) % rb.size })
unfolding discard
discard-short rb n ne h = ground arith

discard-long :
    (rb : RingBuffer) (n : ℕ) → n ≢ 0 → buffered rb ≤ n → discard rb n ≡ (buffered rb, reset rb)
unfolding discard
discard-long rb n ne h = ground arith

discard-advanced :
    {rb : RingBuffer} (n : ℕ)
    → IsValid rb
    → n ≢ 0
    → n < buffered rb
    → discard rb n ≡ (n, advanced rb n)
discard-advanced {rb} n v ne h =
    discard-short rb n ne h
    ∙ ap (λ (rb' : RingBuffer). (n, rb')) (sym (advanced-short n v (omega arith) h))

-- `Discard` of a valid ring skips the first n bytes, all if there are fewer, tells how many it
-- skipped, and keeps the ring valid.
pub discard_refines :
    {rb : RingBuffer} (n : ℕ)
    → IsValid rb
    → (contents (discard rb n).1 ≡ drop n (contents rb))
      × ((discard rb n).0 ≡ min n (buffered rb))
      × IsValid (discard rb n).1
discard_refines {rb} zero v = rw (discard-zero rb) (refl, omega arith, v)
discard_refines {rb} (suc n) v = elim (dec_lt (suc n) (buffered rb)) [
  | yes short ↦ rw (discard-advanced (suc n) v (omega arith) short) (
    contents-advanced v (suc n) (omega arith) (omega arith),
    omega arith,
    advanced-IsValid v (suc n) (omega arith) (omega arith),
  )
  | no long ↦ rw (discard-long rb (suc n) (omega arith) (omega arith)) (
    contents-reset rb ∙ sym (drop_all (suc n) (contents rb) (omega (arith, length-contents rb))),
    omega arith,
    reset-IsValid v,
  )
]

next-short :
    (rb : RingBuffer) (n : ℕ) → buffered rb < n → next rb n ≡ ret ([], some short_buffer, rb)
unfolding next
next-short rb n h = ground arith

next-all :
    (rb : RingBuffer) (n : ℕ)
    → n ≡ 0
    → next rb n
      ≡ (slice rb.vm rb.r (buffered rb) >>= λ got. ret (got, none, (discard rb (buffered rb)).1))
unfolding next
next-all rb n h = ground arith

next-some :
    (rb : RingBuffer) (n : ℕ)
    → n ≢ 0
    → n ≤ buffered rb
    → next rb n ≡ (slice rb.vm rb.r n >>= λ got. ret (got, none, (discard rb n).1))
unfolding next
next-some rb n ne h = ground arith

queue_next-short :
    (q : ByteQueue) (n : ℕ) → length q < n → ByteQueue.next q n ≡ ([], some short_buffer, q)
queue_next-short q n h = ground arith

queue_next-all : (q : ByteQueue) (n : ℕ) → n ≡ 0 → ByteQueue.next q n ≡ (q, none, [])
queue_next-all q n h = ground arith

queue_next-some :
    (q : ByteQueue) (n : ℕ) → n ≢ 0 → n ≤ length q → ByteQueue.next q n ≡ (take n q, none, drop n q)
queue_next-some q n ne h = ground arith

by_queue :
    {s t : List ℕ × Option Error × ByteQueue} (m : Outcome (List ℕ × Option Error × RingBuffer))
    → s ≡ t
    → Returns m (Serves t)
    → Returns m (Serves s)
by_queue m e h = subst (λ s. Returns m (Serves s)) (sym e) h

-- `Next(n)` on a valid ring with memory gives exactly the next n bytes, all of them for 0, and
-- skips them; too few bytes are an error that changes nothing.
pub next_refines :
    {rb : RingBuffer} (n : ℕ)
    → IsValid rb
    → 0 < rb.size
    → Returns (next rb n) (Serves (ByteQueue.next (contents rb) n))
next_refines {rb} n v pos = elim (dec_lt (buffered rb) n) [
  | yes short ↦
      by_queue (next rb n) (queue_next-short (contents rb) n (omega (arith, length-contents rb)))
        (rw (next-short rb n short) (refl, refl, refl, v))
  | no fits ↦ elim (ℕ_discrete n 0) [
    | yes all ↦ by_queue (next rb n) (queue_next-all (contents rb) n all) (
        rw (next-all rb n all, slice-ret rb (buffered rb) v pos (omega arith))
          (
            refl,
            refl,
            (discard_refines (buffered rb) v).0
                ∙ drop_all (buffered rb) (contents rb) (omega (arith, length-contents rb)),
            (discard_refines (buffered rb) v).2,
          ))
    | no some_left ↦
        by_queue (next rb n)
          (queue_next-some (contents rb) n some_left (omega (arith, length-contents rb)))
          (rw (next-some rb n some_left (omega arith), slice-ret rb n v pos (omega arith))
            (
              take-contents rb n (omega arith),
              refl,
              (discard_refines n v).0,
              (discard_refines n v).2,
            ))
  ]
]
