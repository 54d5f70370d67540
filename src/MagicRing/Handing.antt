-- ===== src/MagicRing/Handing.antt =====
-- Single bytes, and `WriteTo`, which hands the bytes of a ring to a writer.
use mathlib.Core.Path.{subst}
use gain.Base.{◌-◌, if◌then◌else◌, ◌==◌, ap₂, dec_lt}
use gain.Base.{◌>>=◌, zero, suc, ℕ, ◌+◌, ◌≡◌, ◌≤◌, ◌<◌, refl, ap, sym, ◌∙◌, true, false, arith}
use gain.Base.{List, [], ◌∷◌, take, drop, Bool-cases, inl, inr, ret, Returns, none, some, Option}
use gain.Errors.{Error, is_empty}
use gain.VirtualMem.{slice}
use gain.ByteQueue
use gain.ByteQueue.{ByteQueue, read_items}
use gain.MagicRing.{RingBuffer, buffered, read_byte, write_to, written, write_result}
use gain.MagicRing.Bounds.{IsValid, mod_wrap, buffered-pos}
use gain.MagicRing.Contents.{
  contents, advanced, advanced-IsValid, contents-advanced, empty-advanced, advanced-full,
  contents-reset,
}
use gain.MagicRing.Reading.{slice-ret, take-contents, size_pos}
use gain.VirtualMem.{byte_at}
use gain.Errors.{short_write}
use gain.MagicRing.Looking.{contents-empty}
use gain.Base.{List}

read_byte-empty : (rb : RingBuffer) → rb.empty ≡ true → read_byte rb ≡ ret (0, some is_empty, rb)
unfolding read_byte
read_byte-empty rb e = ground arith

read_byte-some :
    {rb : RingBuffer}
    → IsValid rb
    → rb.empty ≡ false
    → read_byte rb ≡ ret (byte_at rb.vm rb.r, none, advanced rb 1)
unfolding read_byte
read_byte-some {rb} v e = ground (arith, mod_wrap (rb.r + 1) rb.size)

-- What a byte read gives and leaves.
abbrev pub ServesByte : ℕ × Option Error × ByteQueue → ℕ × Option Error × RingBuffer → Type 0
ServesByte (b', err', q) (b, err, rb) = (b ≡ b') × (err ≡ err') × (contents rb ≡ q) × IsValid rb

queue_byte-some :
    (q : ByteQueue) (b : ℕ) → take 1 q ≡ b ∷ [] → ByteQueue.read_byte q ≡ (b, none, drop 1 q)
queue_byte-some [] b e = cc
queue_byte-some (c ∷ q) b e = ground arith

-- `ReadByte` of a valid ring takes the oldest byte, and reports an empty ring.
pub read_byte_refines :
    {rb : RingBuffer}
    → IsValid rb
    → Returns (read_byte rb) (ServesByte (ByteQueue.read_byte (contents rb)))
read_byte_refines {rb} v = elim (Bool-cases rb.empty) [
  | inl none_left ↦ rw (read_byte-empty rb none_left) (
      by_queue_byte (ap ByteQueue.read_byte (contents-empty v none_left))
        (refl, refl, contents-empty v none_left, v))
  | inr some_left ↦ rw (read_byte-some v some_left) (
      by_queue_byte
        (queue_byte-some (contents rb) (byte_at rb.vm rb.r)
          (sym (take-contents rb 1 (buffered-pos v some_left))))
        (
          refl,
          refl,
          contents-advanced v 1 (omega arith) (buffered-pos v some_left),
          advanced-IsValid v 1 (omega arith) (buffered-pos v some_left),
        ))
]
  where
    by_queue_byte :
        {s t : ℕ × Option Error × ByteQueue} {out : ℕ × Option Error × RingBuffer}
        → s ≡ t
        → ServesByte t out
        → ServesByte s out
    by_queue_byte {out} e h = subst (λ s. ServesByte s out) (sym e) h

-- The writer's error, or a short write if bytes are left.
abbrev pub error_due : Option Error → ℕ → Option Error
error_due (some e) left = some e
error_due none left = if left == 0 then none else some short_write

module _ {rb : RingBuffer} (writer : List ℕ → ℕ × Option Error) (v : IsValid rb) where
  write_to-empty : rb.empty ≡ true → write_to rb writer ≡ ret (0, some is_empty, rb)
  unfolding write_to
  write_to-empty e = ground arith

  write_to-step :
      rb.empty ≡ false
      → write_to rb writer
        ≡ (slice rb.vm rb.r (buffered rb) >>= λ given. written rb (writer given).0 (writer given).1)
  unfolding write_to
  write_to-step e = ground arith

  written-ret :
      (n : ℕ) (err : Option Error)
      → n ≤ buffered rb
      → written rb n err ≡ ret (write_result n err (advanced rb n))
  written-ret n err le = ground arith

  write_to-some :
      rb.empty ≡ false
      → (writer (contents rb)).0 ≤ buffered rb
      → write_to rb writer
        ≡ ret (
            write_result
              (writer (contents rb)).0
              (writer (contents rb)).1
              (advanced rb (writer (contents rb)).0))
  write_to-some e le =
      write_to-step e
      ∙ ap (λ m. m >>= λ given. written rb (writer given).0 (writer given).1)
          (slice-ret rb (buffered rb) v (size_pos rb v e) (omega arith))
      ∙ written-ret (writer (contents rb)).0 (writer (contents rb)).1 le

  -- What the writer took is gone and the rest stays; the error is the one due.
  abbrev pub Handed : ℕ × Option Error × RingBuffer → Type 0
  Handed (n, err, rb') =
      (n ≡ (writer (contents rb)).0)
      × (contents rb' ≡ drop (writer (contents rb)).0 (contents rb))
      × IsValid rb'
      × (err ≡ error_due (writer (contents rb)).1 (buffered rb - (writer (contents rb)).0))

  result-Handed :
      (n : ℕ) (err : Option Error)
      → 0 < n
      → n ≤ buffered rb
      → n ≡ (writer (contents rb)).0
      → err ≡ (writer (contents rb)).1
      → Handed (write_result n err (advanced rb n))
  result-Handed n (some e) pos le p q = (
    p,
    contents-advanced v n pos le ∙ ap (λ k. drop k (contents rb)) p,
    advanced-IsValid v n pos le,
    ap (λ o. error_due o (buffered rb - (writer (contents rb)).0)) q,
  )
  result-Handed n none pos le p q = (
    p,
    contents-advanced v n pos le ∙ ap (λ k. drop k (contents rb)) p,
    advanced-IsValid v n pos le,
    none_reported (dec_lt n (buffered rb)) ∙ ap₂ (λ o k. error_due o (buffered rb - k)) q p,
  )
    where
      none_reported :
          Dec (n < buffered rb)
          → (if (advanced rb n).empty then none else some short_write)
            ≡ error_due none (buffered rb - n)
      none_reported (yes short) = ground (arith, empty-advanced v n pos le)
      none_reported (no all) = ground (arith, empty-advanced v n pos le)

  -- `WriteTo` of a valid ring that is not empty hands all bytes to the writer, drops those that it
  -- took and keeps the others in order, given that it took some and not more than there were; the
  -- error is the writer's, or a short write if bytes are left.
  pub write_to_refines :
      rb.empty ≡ false
      → 0 < (writer (contents rb)).0
      → (writer (contents rb)).0 ≤ buffered rb
      → Returns (write_to rb writer) Handed
  write_to_refines e pos le =
      rw (write_to-some e le)
        (result-Handed (writer (contents rb)).0 (writer (contents rb)).1 pos le refl refl)

  -- `WriteTo` of a full valid ring to a writer that takes nothing leaves an empty ring.
  pub write_to-full_loses :
      rb.empty ≡ false
      → buffered rb ≡ rb.size
      → (writer (contents rb)).0 ≡ 0
      → Returns (write_to rb writer) (λ (n, err, rb'). (n ≡ 0) × (contents rb' ≡ []))
  write_to-full_loses e full none_taken =
      rw (write_to-some e (omega arith))
        (lost (writer (contents rb)).0 (writer (contents rb)).1 none_taken)
    where
      lost :
          (n : ℕ) (err : Option Error)
          → n ≡ 0
          → let (m, _, rb') = write_result n err (advanced rb n) in (m ≡ 0) × (contents rb' ≡ [])
      lost zero (some x) z = (refl, ap contents (advanced-full v e full) ∙ contents-reset rb)
      lost zero none z = (refl, ap contents (advanced-full v e full) ∙ contents-reset rb)
      lost (suc n) err z = absurd (omega arith)
