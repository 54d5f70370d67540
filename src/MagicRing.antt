-- ===== src/MagicRing.antt =====
-- pkg/buffer/magicring/ringbuffer.go: a ring of bytes over doubly mapped memory, so that every
-- stretch of it is one slice. Positions, sizes and counts are ints that are not negative.
pub mod Bounds
pub mod Contents
pub mod Reading
pub mod Taking
pub mod Looking
pub mod Handing
pub mod Growing
pub mod Clean
pub mod Writing
pub mod Receiving
pub mod Corruption
mod Tests
use gain.Base.{ℕ, ◌+◌, ◌-◌, ◌%◌, Bool, true, false, Option, none, some, List, [], ◌∷◌, ◌&&◌, not}
use gain.Base.{Outcome, ret, panic, ◌>>=◌, length, take, ltb, leb, ◌==◌, if◌then◌else◌}
use gain.Errors.{Error, is_empty, short_buffer, short_write, eof}
use gain.VirtualMem.{VirtualMem, nil, double_size, byte_at, set_byte, bytes, slice, copy_all}
use gain.VirtualMem.{adjust_buffer_size, zeroes_from}
use gain.VirtualMem.Pool
use gain.VirtualMem.Pool.{Pool}

pub record RingBuffer : Type 0 where
  pub vm : VirtualMem
  pub size : ℕ
  pub r : ℕ
  pub w : ℕ
  pub empty : Bool

pub reset : RingBuffer → RingBuffer
reset rb = record rb { r = 0; w = 0; empty = true }

-- `Zeroes`, over the size of the ring.
pub clear : RingBuffer → RingBuffer
clear rb = record rb { vm = zeroes_from rb.vm 0 rb.size }

abbrev pub reset_if_met : RingBuffer → RingBuffer
reset_if_met rb = if rb.r == rb.w then reset rb else rb

pub available : RingBuffer → ℕ
available rb =
    if rb.r == rb.w
    then (if rb.empty then rb.size else 0)
    else if ltb rb.w rb.r
    then rb.r - rb.w
    else rb.size - rb.w + rb.r

pub buffered : RingBuffer → ℕ
buffered rb =
    if rb.r == rb.w
    then (if rb.empty then 0 else rb.size)
    else if ltb rb.r rb.w
    then rb.w - rb.r
    else rb.size - rb.r + rb.w

pub is_full : RingBuffer → Bool
is_full rb = (rb.r == rb.w) && not rb.empty

-- `Read` into a buffer of `len` bytes: the bytes that it copies to the front of the buffer.
abbrev pub read_some : RingBuffer → ℕ → Outcome (List ℕ × Option Error × RingBuffer)
read_some rb n = do
  got ← slice rb.vm rb.r n
  ret (got, none, reset_if_met (record rb { r = (rb.r + n) % rb.size }))

pub read : RingBuffer → ℕ → Outcome (List ℕ × Option Error × RingBuffer)
read rb len =
    if len == 0
    then ret ([], none, rb)
    else if rb.empty
    then ret ([], some is_empty, rb)
    else read_some rb (if ltb len (buffered rb) then len else buffered rb)

-- `copy(Buf[i:], src)`: Go copies what fits, and panics where `i` is behind the buffer.
pub copy : VirtualMem → ℕ → List ℕ → Outcome VirtualMem
copy vm i src =
    if vm.size == 0
    then panic
    else if leb i (double_size vm.size)
    then ret (copy_all vm i (take (double_size vm.size - i) src))
    else panic

pub advance_write : RingBuffer → ℕ → Outcome RingBuffer
advance_write rb n =
    if n == 0
    then ret rb
    else if ltb (available rb) n
    then panic
    else if leb rb.size (rb.w + n)
    then ret (record rb { w = rb.w + n - rb.size; empty = false })
    else ret (record rb { w = rb.w + n; empty = false })

pub advance_read : RingBuffer → ℕ → Outcome RingBuffer
advance_read rb n =
    if n == 0
    then ret rb
    else if ltb (buffered rb) n
    then panic
    else if leb rb.size (rb.r + n)
    then ret (reset_if_met (record rb { r = rb.r + n - rb.size }))
    else ret (reset_if_met (record rb { r = rb.r + n }))

-- `Discard`, which gives the number of bytes skipped.
pub discard : RingBuffer → ℕ → ℕ × RingBuffer
discard rb n =
    if n == 0
    then (0, rb)
    else if ltb n (buffered rb)
    then (n, record rb { r = (rb.r + n) % rb.size })
    else (buffered rb, reset rb)

-- `Next(n)`. A negative `n` asks for all, as 0 does.
pub next : RingBuffer → ℕ → Outcome (List ℕ × Option Error × RingBuffer)
next rb n =
    if ltb (buffered rb) n
    then ret ([], some short_buffer, rb)
    else (let n' = if n == 0 then buffered rb else n in
        (do got ← slice rb.vm rb.r n'; ret (got, none, (discard rb n').1)))

pub peek_all : RingBuffer → Outcome (List ℕ)
peek_all rb = if rb.empty then ret [] else slice rb.vm rb.r (buffered rb)

-- `Peek(n)`. A negative `n` asks for all, as 0 does.
pub peek : RingBuffer → ℕ → Outcome (List ℕ)
peek rb n =
    if rb.empty
    then ret []
    else if n == 0
    then peek_all rb
    else slice rb.vm rb.r (if ltb n (buffered rb) then n else buffered rb)

-- `Bytes`, a copy of what `peek_all` shows
pub all_bytes : RingBuffer → Outcome (List ℕ)
all_bytes rb = if rb.empty then ret [] else slice rb.vm rb.r (buffered rb)

pub read_byte : RingBuffer → Outcome (ℕ × Option Error × RingBuffer)
read_byte rb =
    if rb.empty
    then ret (0, some is_empty, rb)
    else ret (
      byte_at rb.vm rb.r,
      none,
      reset_if_met (record rb { r = if rb.r + 1 == rb.size then 0 else rb.r + 1 }),
    )

abbrev pub write_result : ℕ → Option Error → RingBuffer → ℕ × Option Error × RingBuffer
write_result n (some e) rb = (n, some e, rb)
write_result n none rb = (n, if rb.empty then none else some short_write, rb)

abbrev pub written : RingBuffer → ℕ → Option Error → Outcome (ℕ × Option Error × RingBuffer)
written rb n err =
    if ltb (buffered rb) n
    then panic
    else ret (write_result n err (reset_if_met (record rb { r = (rb.r + n) % rb.size })))

-- `WriteTo`: `writer` is the caller's, from the bytes that it is given to the count and the error.
pub write_to : RingBuffer → (List ℕ → ℕ × Option Error) → Outcome (ℕ × Option Error × RingBuffer)
write_to rb writer =
    if rb.empty
    then ret (0, some is_empty, rb)
    else (do given ← slice rb.vm rb.r (buffered rb); written rb (writer given).0 (writer given).1)

abbrev pub write_all : List ℕ → RingBuffer × Pool → Outcome (ℕ × RingBuffer × Pool)
write_all src (rb, p) = do
  vm ← copy rb.vm rb.w src
  ret (length src, record rb { vm = vm; w = (rb.w + length src) % rb.size; empty = false }, p)

abbrev pub put_byte : ℕ → RingBuffer × Pool → Outcome (RingBuffer × Pool)
put_byte c (rb, p) = ret (
  record rb {
    vm = set_byte rb.vm rb.w c;
    w = if rb.w + 1 == rb.size then 0 else rb.w + 1;
    empty = false;
  },
  p,
)

abbrev pub min_read : ℕ
min_read = 1024

-- One call of the caller's reader: the bytes that it stores and its error.
abbrev pub Chunk : Type 0
Chunk = List ℕ × Option Error

abbrev pub take_chunk : RingBuffer → List ℕ → RingBuffer
take_chunk rb src = record rb {
  vm = copy_all rb.vm rb.w src;
  w = (rb.w + length src) % rb.size;
  empty = false;
}

-- The rest grows the ring: `page_size` is `os.Getpagesize()`, the pool is the built-in pool of
-- memories, and each `choice` is what the `sync.Pool` of a class gives (see SyncPool.get).
module _ (page_size : ℕ) where
  abbrev pub release : RingBuffer → Pool → Pool
  release rb p = if rb.vm.size == 0 then p else Pool.put_cleared page_size p rb.vm

  -- `Grow` once the new memory is there; `got` is what `Read` copies into it.
  abbrev pub grown : RingBuffer → VirtualMem → ℕ → List ℕ × Option Error × RingBuffer → RingBuffer
  grown rb new_buf cap (got, _, drained) = record {
    vm = copy_all new_buf 0 got;
    size = cap;
    r = 0;
    w = buffered rb;
    empty = if ltb 0 (buffered rb) then false else drained.empty;
  }

  pub grow : RingBuffer → Pool → ℕ → Option ℕ → Outcome (RingBuffer × Pool)
  grow rb p new_cap choice =
      let cap = adjust_buffer_size page_size new_cap in
      let (new_buf, p') = Pool.get page_size p cap choice in
      if new_buf.size == 0 then panic else (do
        res ← read rb (double_size new_buf.size)
        ret (grown rb new_buf cap res, release rb p'))

  pub write : RingBuffer → Pool → List ℕ → Option ℕ → Outcome (ℕ × RingBuffer × Pool)
  write rb p src choice =
      if length src == 0
      then ret (0, rb, p)
      else if ltb (available rb) (length src)
      then grow rb p (rb.size + length src - available rb) choice >>= write_all src
      else write_all src (rb, p)

  -- `WriteByte`
  pub write_byte : RingBuffer → Pool → ℕ → Option ℕ → Outcome (RingBuffer × Pool)
  write_byte rb p c choice =
      if ltb (available rb) 1
      then grow rb p (rb.size + 1) choice >>= put_byte c
      else put_byte c (rb, p)

  pub grow_if_unsufficient_free_space : RingBuffer → Pool → Option ℕ → Outcome (RingBuffer × Pool)
  grow_if_unsufficient_free_space rb p choice =
      if ltb (available rb) min_read then grow rb p (buffered rb + min_read) choice else ret (rb, p)

  -- `ReadFrom`: one entry of the list for each call of the reader, with the pool's choice for the
  -- growth before it. A list that ends before an error stands for a reader that goes on.
  pub read_from :
      RingBuffer
      → Pool
      → List (Chunk × Option ℕ)
      → ℕ
      → Outcome (Option (ℕ × Option Error) × RingBuffer × Pool)
  read_from rb p [] total = ret (none, rb, p)
  read_from rb p (((src, err), choice) ∷ chunks) total =
      let rest = λ (rb' : RingBuffer) (p' : Pool). read_from rb' p' chunks (total + length src) in
      (grow_if_unsufficient_free_space rb p choice >>= λ (rb1, p1). elim err [
        | none ↦ rest (take_chunk rb1 src) p1
        | some eof ↦ ret (some (total + length src, none), take_chunk rb1 src, p1)
        | some e ↦ ret (some (total + length src, some e), take_chunk rb1 src, p1)
      ])

  pub new_magic_buffer : Pool → ℕ → Option ℕ → RingBuffer × Pool
  new_magic_buffer p size choice =
      if size == 0
      then (record { vm = nil; size = 0; r = 0; w = 0; empty = true }, p)
      else (let cap = adjust_buffer_size page_size size in
          let (vm, p') = Pool.get page_size p cap choice in
          (record { vm = vm; size = cap; r = 0; w = 0; empty = true }, p'))
