-- ===== src/MagicRing/Writing.antt =====
-- The operations that write to a ring, against the queue of its contents.
use mathlib.Core.Path.{subst}
use gain.Base.{ℕ, ◌+◌, ◌-◌, ◌%◌, ◌≡◌, ◌≤◌, ◌<◌, refl, ap, sym, ◌∙◌, arith}
use gain.Base.{
  List, [], ◌∷◌, ◌++◌, length, ret, ◌>>=◌, Returns, Returns->>=, Option, take_all, dec_lt,
  append-nil,
}
use gain.VirtualMem.{bytes, copy_all, double_size}
use gain.VirtualMem.Laws.{
  bytes-copy_all, copy_all-IsMapped, size-copy_all, copy_all-mod, adjust_buffer_size_lem,
}
use gain.VirtualMem.Pool.{Pool}
use gain.MagicRing.{RingBuffer, available, buffered, copy, take_chunk, write_all, write, grow}
use gain.MagicRing.Bounds.{IsValid, mod_wrap, available-add-buffered, w_behind}
use gain.MagicRing.Contents.{contents, length-contents}
use gain.MagicRing.Growing.{IsSound, GivesExact, Grew, grow_refines}

pub nil_of_length : (xs : List ℕ) → ¬ (0 < length xs) → xs ≡ []
nil_of_length [] h = refl
nil_of_length (x ∷ xs) h = absurd (omega arith)

module _ {rb : RingBuffer} (v : IsValid rb) (src : List ℕ) where
  -- Bytes stored at the write position, and the position moved on past them.
  module _ (pos : 0 < length src) (le : length src ≤ available rb) where
    pub take_chunk-IsValid : IsValid (take_chunk rb src)
    take_chunk-IsValid = record {
      mapped = copy_all-IsMapped src rb.vm rb.w v.mapped;
      exact = size-copy_all src rb.vm rb.w ∙ v.exact;
      r_in = v.r_in;
      w_in = omega (arith, mod_wrap (rb.w + length src) rb.size, available-add-buffered v);
      at_start = λ e. cc;
      no_memory = λ z. absurd (omega (arith, available-add-buffered v));
    }

    buffered-take_chunk : buffered (take_chunk rb src) ≡ buffered rb + length src
    unfolding buffered available
    buffered-take_chunk = ground (arith, mod_wrap (rb.w + length src) rb.size)

    pub contents-take_chunk : contents (take_chunk rb src) ≡ contents rb ++ src
    contents-take_chunk =
        ap (bytes (copy_all rb.vm rb.w src) rb.r) buffered-take_chunk
        ∙ ap (λ m. bytes m rb.r (buffered rb + length src)) same_place
        ∙ bytes-copy_all src rb.vm rb.r (buffered rb) (rb.r + buffered rb) v.mapped
            (omega (arith, available-add-buffered v)) refl
      where
        same_place : copy_all rb.vm rb.w src ≡ copy_all rb.vm (rb.r + buffered rb) src
        same_place =
            ap (λ k. copy_all rb.vm k src)
              (sym (w_behind v (omega (arith, available-add-buffered v))))
            ∙ ap (λ s. copy_all rb.vm ((rb.r + buffered rb) % s) src) (sym v.exact)
            ∙ copy_all-mod src rb.vm (rb.r + buffered rb)

    copy-ret : copy rb.vm rb.w src ≡ ret (copy_all rb.vm rb.w src)
    unfolding copy
    copy-ret = ground (
      arith,
      take_all (double_size rb.vm.size - rb.w) src (omega (arith, available-add-buffered v)),
      available-add-buffered v,
    )

    write_all-take_chunk :
        (p : Pool) → write_all src (rb, p) ≡ ret (length src, take_chunk rb src, p)
    write_all-take_chunk p = rw copy-ret

-- What a write gives: all bytes are behind those that were there.
abbrev pub Wrote : ℕ → RingBuffer → List ℕ → ℕ × RingBuffer × Pool → Type 0
Wrote page rb src (n, rb', p') =
    (n ≡ length src) × (contents rb' ≡ contents rb ++ src) × IsSound page rb' p'

module _ (page : ℕ) where
  write_all-Wrote :
      (rb : RingBuffer) (p : Pool) (src : List ℕ)
      → IsSound page rb p
      → 0 < length src
      → length src ≤ available rb
      → Returns (write_all src (rb, p)) (Wrote page rb src)
  write_all-Wrote rb p src s pos le = rw (write_all-take_chunk s.valid src pos le p) (
    refl,
    contents-take_chunk s.valid src pos le,
    record { valid = take_chunk-IsValid s.valid src pos le; stocked = s.stocked; pages = s.pages },
  )

  module _ (rb : RingBuffer) (p : Pool) (src : List ℕ) (choice : Option ℕ) where
    write-none : length src ≡ 0 → write page rb p src choice ≡ ret (0, rb, p)
    unfolding write
    write-none e = ground arith

    pub write-fits :
        0 < length src
        → length src ≤ available rb
        → write page rb p src choice ≡ write_all src (rb, p)
    unfolding write
    write-fits pos le = ground arith

    write-grows :
        available rb < length src
        → write page rb p src choice
          ≡ (grow page rb p (rb.size + length src - available rb) choice >>= write_all src)
    unfolding write
    write-grows lt = ground arith

    -- The room after the growth that `Write` asks for.
    room_after_growth :
        (rb' : RingBuffer) (p' : Pool)
        → 0 < page
        → IsValid rb
        → Grew page rb (rb.size + length src - available rb) rb' p'
        → length src ≤ available rb'
    room_after_growth rb' p' pos v g = omega (
      arith,
      available-add-buffered v,
      available-add-buffered g.sound.valid,
      adjust_buffer_size_lem page (rb.size + length src - available rb) pos,
      ap length g.kept,
      length-contents rb,
      length-contents rb',
      g.size,
    )

    -- For a positive page size `Write` appends all bytes to a ring in good order and keeps ring
    -- and pool in good order; it grows the ring if they do not fit, provided that the pool then
    -- gives a memory of exactly the size asked for.
    pub write_refines :
        0 < page
        → IsSound page rb p
        → (available rb < length src
            → GivesExact page p (rb.size + length src - available rb) choice)
        → Returns (write page rb p src choice) (Wrote page rb src)
    write_refines pos s exact = elim (dec_lt 0 (length src)) [
      | yes some_bytes ↦ elim (dec_lt (available rb) (length src)) [
        | yes lt ↦ rw (write-grows lt) (
            Returns->>= (λ (rb', p'). Grew page rb (rb.size + length src - available rb) rb' p')
              (Wrote page rb src) (grow page rb p (rb.size + length src - available rb) choice)
              (write_all src)
              (grow_refines page rb p (rb.size + length src - available rb) choice pos s
                (omega (arith, available-add-buffered s.valid)) (exact lt))
              (λ (rb', p') g. after_growth rb' p' g some_bytes))
        | no le ↦
            rw (write-fits some_bytes (omega arith))
              (write_all-Wrote rb p src s some_bytes (omega arith))
      ]
      | no none_given ↦ rw (write-none (omega arith)) (
        omega arith,
        sym (append-nil (contents rb))
            ∙ ap (λ l. contents rb ++ l) (sym (nil_of_length src none_given)),
        s,
      )
    ]
      where
        after_growth :
            (rb' : RingBuffer) (p' : Pool)
            → Grew page rb (rb.size + length src - available rb) rb' p'
            → 0 < length src
            → Returns (write_all src (rb', p')) (Wrote page rb src)
        after_growth rb' p' g some_bytes =
            subst
              (λ q.
                Returns (write_all src (rb', p'))
                  (λ (n, r, p''). (n ≡ length src) × (contents r ≡ q ++ src) × IsSound page r p''))
              g.kept
              (write_all-Wrote rb' p' src g.sound some_bytes
                (room_after_growth rb' p' pos s.valid g))
