-- ===== src/MagicRing/Receiving.antt =====
-- Bytes that come from outside: from the kernel, from a reader, and one at a time.
use mathlib.Core.Path.{subst}
use gain.Base.{ℕ, ◌+◌, ◌≡◌, ◌≤◌, ◌<◌, refl, ap, sym, ◌∙◌, true, arith}
use gain.Base.{
  List, [], ◌∷◌, ◌++◌, length, Outcome, ret, panic, ◌>>=◌, Returns, Returns->>=, Option, none, some,
  dec_lt, append-nil,
}
use gain.VirtualMem.{copy_all}
use gain.VirtualMem.Laws.{copy_all-nil, copy_all-one, adjust_buffer_size_lem}
use gain.VirtualMem.Pool.{Pool}
use gain.MagicRing.{
  RingBuffer, available, buffered, take_chunk, grow, advance_write, put_byte, write_byte,
}
use gain.MagicRing.Bounds.{IsValid, mod_wrap, available-add-buffered}
use gain.MagicRing.Contents.{contents, length-contents}
use gain.MagicRing.Growing.{IsSound, GivesExact, Grew, grow_refines}
use gain.MagicRing.Writing.{take_chunk-IsValid, contents-take_chunk, nil_of_length}
use gain.MagicRing.{read_from, grow_if_unsufficient_free_space, min_read, Chunk}
use gain.Errors.{eof}

-- What the kernel does with a receive buffer: it stores bytes at the write position.
abbrev pub kernel_stores : RingBuffer → List ℕ → RingBuffer
kernel_stores rb src = record rb { vm = copy_all rb.vm rb.w src }

advance_write-take_chunk :
    {rb : RingBuffer} (src : List ℕ)
    → IsValid rb
    → 0 < length src
    → length src ≤ available rb
    → advance_write (kernel_stores rb src) (length src) ≡ ret (take_chunk rb src)
unfolding advance_write available
advance_write-take_chunk {rb} src v pos le = ground (arith, mod_wrap (rb.w + length src) rb.size)

-- Bytes that the kernel stored in the free part of a valid ring become its newest bytes, and the
-- ring stays valid.
pub advance_write_refines :
    {rb : RingBuffer} (src : List ℕ)
    → IsValid rb
    → length src ≤ available rb
    → Returns
        (advance_write (kernel_stores rb src) (length src))
        (λ rb'. IsValid rb' × (contents rb' ≡ contents rb ++ src))
advance_write_refines {rb} src v le = elim (dec_lt 0 (length src)) [
  | yes pos ↦
      rw (advance_write-take_chunk src v pos le)
        (take_chunk-IsValid v src pos le, contents-take_chunk v src pos le)
  | no none_given ↦ none_stored src (nil_of_length src none_given)
]
  where
    none_stored :
        (src : List ℕ)
        → src ≡ []
        → Returns
            (advance_write (kernel_stores rb src) (length src))
            (λ rb'. IsValid rb' × (contents rb' ≡ contents rb ++ src))
    none_stored src e = rw e (
        unfold advance_write in
        (
          subst (λ m. IsValid (record rb { vm = m })) (sym (copy_all-nil rb.vm rb.w)) v,
          ap (λ m. contents (record rb { vm = m })) (copy_all-nil rb.vm rb.w)
              ∙ sym (append-nil (contents rb)),
        ))

-- More bytes than there is room for are a panic.
pub advance_write-panic : (rb : RingBuffer) (n : ℕ) → available rb < n → advance_write rb n ≡ panic
unfolding advance_write
advance_write-panic rb n h = ground arith

grow_if-enough :
    (page : ℕ) (rb : RingBuffer) (p : Pool) (choice : Option ℕ)
    → min_read ≤ available rb
    → grow_if_unsufficient_free_space page rb p choice ≡ ret (rb, p)
unfolding grow_if_unsufficient_free_space
grow_if-enough page rb p choice h = ground arith

grow_if-less :
    (page : ℕ) (rb : RingBuffer) (p : Pool) (choice : Option ℕ)
    → available rb < min_read
    → grow_if_unsufficient_free_space page rb p choice
      ≡ grow page rb p (buffered rb + min_read) choice
unfolding grow_if_unsufficient_free_space
grow_if-less page rb p choice h = ground arith

-- For a positive page size a ring in good order has room for 1024 bytes after
-- `GrowIfUnsufficientFreeSpace` and keeps its bytes and good order, if the pool gives a memory of
-- exactly the size asked for where the ring must grow.
pub grow_if_refines :
    (page : ℕ) (rb : RingBuffer) (p : Pool) (choice : Option ℕ)
    → 0 < page
    → IsSound page rb p
    → (available rb < min_read → GivesExact page p (buffered rb + min_read) choice)
    → Returns (grow_if_unsufficient_free_space page rb p choice) (λ (rb', p').
      (min_read ≤ available rb') × (contents rb' ≡ contents rb) × IsSound page rb' p')
grow_if_refines page rb p choice pos s exact = elim (dec_lt (available rb) min_read) [
  | no enough ↦ rw (grow_if-enough page rb p choice (omega arith)) (omega arith, refl, s)
  | yes less ↦
      subst (λ m. Returns m Roomy) (sym (grow_if-less page rb p choice less))
        (weaken (grow page rb p (buffered rb + min_read) choice)
          (grow_refines page rb p (buffered rb + min_read) choice pos s (omega arith) (exact less)))
]
  where
    Roomy : RingBuffer × Pool → Type 0
    Roomy (rb', p') =
        (min_read ≤ available rb') × (contents rb' ≡ contents rb) × IsSound page rb' p'

    weaken :
        (m : Outcome (RingBuffer × Pool))
        → Returns m (λ (rb', p'). Grew page rb (buffered rb + min_read) rb' p')
        → Returns m Roomy
    weaken (ret (rb', p')) g = (
      omega (
        arith,
        g.size,
        adjust_buffer_size_lem page (buffered rb + min_read) pos,
        ap length g.kept,
        length-contents rb,
        length-contents rb',
        available-add-buffered g.sound.valid,
      ),
      g.kept,
      g.sound,
    )
    weaken panic g = absurd g

available-empty : {rb : RingBuffer} → IsValid rb → rb.empty ≡ true → available rb ≡ rb.size
unfolding available
available-empty v e = ground arith

buffered_full :
    {rb : RingBuffer}
    → IsValid rb
    → rb.empty ≡ true
    → 0 < rb.size
    → buffered (take_chunk rb []) ≡ rb.size
unfolding buffered
buffered_full {rb} v e pos = ground (arith, mod_wrap (rb.w + 0) rb.size)

-- `ReadFrom` of a reader that ends at once reports 0 bytes on an empty valid ring with room for a
-- minimal read, and leaves the ring full.
pub read_from-eof_fills :
    (page : ℕ) (rb : RingBuffer) (p : Pool) (choice : Option ℕ) (chunks : List (Chunk × Option ℕ))
    → IsValid rb
    → rb.empty ≡ true
    → min_read ≤ rb.size
    → Returns (read_from page rb p ((([], some eof), choice) ∷ chunks) 0) (λ (result, rb', p').
      (result ≡ some (0, none)) × (buffered rb' ≡ rb'.size) × (rb'.size ≡ rb.size))
unfolding read_from
read_from-eof_fills page rb p choice chunks v e big =
    rw (grow_if-enough page rb p choice (omega (arith, available-empty v e)))
      (refl, buffered_full v e (omega arith), refl)

byte-take_chunk :
    (rb : RingBuffer) (p : Pool) (b : ℕ)
    → IsValid rb
    → 0 < rb.size
    → put_byte b (rb, p) ≡ ret (take_chunk rb (b ∷ []), p)
byte-take_chunk rb p b v pos =
    rw (copy_all-one rb.vm rb.w b) (ground (arith, mod_wrap (rb.w + 1) rb.size))

-- `WriteByte` appends one byte, and grows a full ring for it.
module _ (page : ℕ) (rb : RingBuffer) (p : Pool) (b : ℕ) (choice : Option ℕ) where
  write_byte-fits : 0 < available rb → write_byte page rb p b choice ≡ put_byte b (rb, p)
  unfolding write_byte
  write_byte-fits h = ground arith

  write_byte-grows :
      available rb ≡ 0
      → write_byte page rb p b choice ≡ (grow page rb p (rb.size + 1) choice >>= put_byte b)
  unfolding write_byte
  write_byte-grows h = ground arith

  Appended : RingBuffer × Pool → Type 0
  Appended (rb', p') = (contents rb' ≡ contents rb ++ b ∷ []) × IsSound page rb' p'

  put_byte-Appended :
      (rb' : RingBuffer) (p' : Pool)
      → IsSound page rb' p'
      → 0 < available rb'
      → contents rb' ≡ contents rb
      → Returns (put_byte b (rb', p')) Appended
  unfolding Appended
  put_byte-Appended rb' p' s room same =
      subst (λ m. Returns m Appended)
        (sym (byte-take_chunk rb' p' b s.valid (omega (arith, available-add-buffered s.valid))))
        (
          contents-take_chunk s.valid (b ∷ []) (omega arith) room ∙ ap (λ q. q ++ b ∷ []) same,
          record {
            valid = take_chunk-IsValid s.valid (b ∷ []) (omega arith) room;
            stocked = s.stocked;
            pages = s.pages;
          },
        )

  -- For a positive page size `WriteByte` appends the byte to a ring in good order and keeps ring
  -- and pool in good order; a full ring grows, provided that the pool then gives a memory of
  -- exactly the size asked for.
  pub write_byte_refines :
      0 < page
      → IsSound page rb p
      → (available rb ≡ 0 → GivesExact page p (rb.size + 1) choice)
      → Returns
          (write_byte page rb p b choice)
          (λ (rb', p'). (contents rb' ≡ contents rb ++ b ∷ []) × IsSound page rb' p')
  unfolding Appended
  write_byte_refines pos s exact = elim (dec_lt 0 (available rb)) [
    | yes room ↦ rw (write_byte-fits room) (put_byte-Appended rb p s room refl)
    | no full ↦ rw (write_byte-grows (omega arith)) (
        Returns->>= (λ (rb', p'). Grew page rb (rb.size + 1) rb' p') Appended
          (grow page rb p (rb.size + 1) choice) (put_byte b)
          (grow_refines page rb p (rb.size + 1) choice pos s
            (omega (arith, available-add-buffered s.valid)) (exact (omega arith)))
          (λ (rb', p') g.
            put_byte-Appended rb' p' g.sound
              (omega (
                arith,
                g.size,
                adjust_buffer_size_lem page (rb.size + 1) pos,
                ap length g.kept,
                length-contents rb,
                length-contents rb',
                available-add-buffered g.sound.valid,
                available-add-buffered s.valid,
              ))
              g.kept))
  ]
