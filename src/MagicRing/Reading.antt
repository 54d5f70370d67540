-- ===== src/MagicRing/Reading.antt =====
-- The operations that read a ring, against the queue of its contents.
use gain.Base.{ℕ, ◌≡◌, ◌≤◌, ◌<◌, ◌≢◌, refl, ap, sym, ◌∙◌, true, false, arith}
use gain.Base.{
  List, [], ◌∷◌, length, take, drop, ltb, ◌==◌, if◌then◌else◌, Bool-cases, inl, inr, ret, Returns,
  none, some, Option, take_all, drop_all,
}
use gain.Errors.{Error, is_empty}
use gain.VirtualMem.{bytes, slice}
use gain.VirtualMem.Laws.{take-bytes}
use gain.ByteQueue
use gain.ByteQueue.{ByteQueue, read_items}
use gain.MagicRing.{RingBuffer, buffered, read, read_some}
use gain.MagicRing.Bounds.{IsValid, buffered-pos, buffered-empty, available-add-buffered}
use gain.MagicRing.Contents.{contents, length-contents, advanced-IsValid, contents-advanced}

-- Up to all bytes of a ring with memory are one slice.
pub slice-ret :
    (rb : RingBuffer) (n : ℕ)
    → IsValid rb
    → 0 < rb.size
    → n ≤ buffered rb
    → slice rb.vm rb.r n ≡ ret (bytes rb.vm rb.r n)
slice-ret rb n v pos le = ground (arith, available-add-buffered v)

pub size_pos : (rb : RingBuffer) → IsValid rb → rb.empty ≡ false → 0 < rb.size
size_pos rb v e = ground arith

pub take-contents :
    (rb : RingBuffer) (n : ℕ) → n ≤ buffered rb → bytes rb.vm rb.r n ≡ take n (contents rb)
take-contents rb n le =
    sym (take-bytes rb.vm rb.r (buffered rb) n ∙ ap (bytes rb.vm rb.r) {y = n} (omega arith))

-- What an operation gives and leaves, against the queue's.
abbrev pub Serves : List ℕ × Option Error × ByteQueue → List ℕ × Option Error × RingBuffer → Type 0
Serves (got', err', q) (got, err, rb) = (got ≡ got') × (err ≡ err') × (contents rb ≡ q) × IsValid rb

pub read_some_refines :
    (rb : RingBuffer) (n : ℕ)
    → IsValid rb
    → 0 < rb.size
    → 0 < n
    → n ≤ buffered rb
    → Returns (read_some rb n) (Serves (take n (contents rb), none, drop n (contents rb)))
read_some_refines rb n v size_pos pos le =
    rw (slice-ret rb n v size_pos le)
      (take-contents rb n le, refl, contents-advanced v n pos le, advanced-IsValid v n pos le)

read_items-pos :
    (q : ByteQueue) (n : ℕ) → 0 < length q → read_items q n ≡ (take n q, none, drop n q)
read_items-pos [] n h = elim h [ ]
read_items-pos (b ∷ q) n h = refl

read_items-min :
    (rb : RingBuffer) (n : ℕ)
    → 0 < buffered rb
    → let k = if ltb n (buffered rb) then n else buffered rb in
      read_items (contents rb) n ≡ (take k (contents rb), none, drop k (contents rb))
read_items-min rb n pos =
    read_items-pos (contents rb) n (omega (arith, length-contents rb))
    ∙ elim (Bool-cases (ltb n (buffered rb))) [
      | inl short ↦ rw short
      | inr long ↦ rw (
        long,
        take_all n (contents rb) (ground (arith, length-contents rb)),
        drop_all n (contents rb) (ground (arith, length-contents rb)),
        take_all (buffered rb) (contents rb) (ground (arith, length-contents rb)),
        drop_all (buffered rb) (contents rb) (ground (arith, length-contents rb)),
      )
    ]

pub read_items-empty :
    (q : ByteQueue) (n : ℕ) (rb : RingBuffer)
    → contents rb ≡ q
    → length q ≡ 0
    → IsValid rb
    → Serves (read_items q n) ([], some is_empty, rb)
read_items-empty [] n rb e h v = (refl, refl, e, v)
read_items-empty (b ∷ q) n rb e h v = absurd (omega arith)

read-zero : (rb : RingBuffer) (len : ℕ) → len ≡ 0 → read rb len ≡ ret ([], none, rb)
unfolding read
read-zero rb len e = ground arith

pub read-empty :
    (rb : RingBuffer) (len : ℕ)
    → len ≢ 0
    → rb.empty ≡ true
    → read rb len ≡ ret ([], some is_empty, rb)
unfolding read
read-empty rb len ne e = ground arith

pub read-some :
    (rb : RingBuffer) (len : ℕ)
    → len ≢ 0
    → rb.empty ≡ false
    → read rb len ≡ read_some rb (if ltb len (buffered rb) then len else buffered rb)
unfolding read
read-some rb len ne e = ground arith

-- `Read` of a valid ring gives the bytes and the error of a byte queue and leaves a valid ring
-- with the rest of it.
pub read_refines :
    {rb : RingBuffer} (len : ℕ)
    → IsValid rb
    → Returns (read rb len) (Serves (ByteQueue.read (contents rb) len))
read_refines {rb} len v = elim (Bool-cases (len == 0)) [
  | inl e ↦ rw (read-zero rb len (ground arith), e) (refl, refl, refl, v)
  | inr e ↦ rw e (elim (Bool-cases rb.empty) [
    | inl none_left ↦ rw (read-empty rb len (ground arith) none_left) (
        read_items-empty (contents rb) len rb refl (length-contents rb ∙ buffered-empty v none_left)
          v)
    | inr some_left ↦
        rw
          (
            read-some rb len (ground arith) some_left,
            read_items-min rb len (buffered-pos v some_left),
          )
          (read_some_refines rb (if ltb len (buffered rb) then len else buffered rb) v
            (size_pos rb v some_left) (ground (arith, buffered-pos v some_left)) (ground arith))
  ])
]
