-- ===== src/MagicRing/Corruption.antt =====
-- What happens to a ring whose memory is larger than the ring, which the pool can give it.
use native.Mathlib.Nat.{mod-eq_of_lt}
use mathlib.Core.Path.{subst}
use gain.Base.{ℕ, ◌+◌, ◌-◌, ◌%◌, ◌≡◌, ◌≢◌, ◌≤◌, ◌<◌, ap, sym, ◌∙◌, false, arith}
use gain.Base.{[], ◌∷◌, ◌++◌, get_or, ret, Returns, Option, take, take_all, ◌>>=◌}
use gain.VirtualMem.{byte_at, set_byte, bytes, double_size}
use gain.VirtualMem.Laws.{copy_all-one, get_or-set_ne}
use gain.VirtualMem.Pool.{Pool}
use gain.MagicRing.{RingBuffer, available, buffered, copy, write}
use gain.MagicRing.Contents.{contents}
use gain.MagicRing.Writing.{write-fits}

-- The ring holds one byte, at its last place, and the memory goes on behind that place.
pub record AtEnd (rb : RingBuffer) : Type 0 where
  pub larger : rb.size < rb.vm.size
  pub two : 1 < rb.size
  pub last : rb.r + 1 ≡ rb.size
  pub next : rb.w ≡ 0
  pub some_byte : rb.empty ≡ false

module _ (page : ℕ) (rb : RingBuffer) (p : Pool) (b : ℕ) (choice : Option ℕ) (a : AtEnd rb) where
  after_write : RingBuffer
  after_write = record rb { vm = set_byte rb.vm rb.w b; w = 1; empty = false }

  available-AtEnd : 1 ≤ available rb
  unfolding available
  available-AtEnd = ground arith

  take_one : take (double_size rb.vm.size - rb.w) (b ∷ []) ≡ b ∷ []
  take_one = take_all (double_size rb.vm.size - rb.w) (b ∷ []) (omega arith)

  copy-AtEnd : copy rb.vm rb.w (b ∷ []) ≡ ret (set_byte rb.vm rb.w b)
  unfolding copy
  copy-AtEnd = ground (arith, take_one, copy_all-one rb.vm rb.w b)

  write-AtEnd : write page rb p (b ∷ []) choice ≡ ret (1, after_write, p)
  unfolding after_write
  write-AtEnd =
      write-fits page rb p (b ∷ []) choice (omega arith) available-AtEnd
      ∙ ap
          (λ m.
            m >>= λ vm. ret (1, record rb { vm = vm; w = (rb.w + 1) % rb.size; empty = false }, p))
          copy-AtEnd
      ∙ ap (λ k. ret (1, record rb { vm = set_byte rb.vm rb.w b; w = k; empty = false }, p)) w_next
    where
      w_next : (rb.w + 1) % rb.size ≡ 1
      w_next = mod-eq_of_lt {n = rb.w + 1} {m = rb.size} (omega arith) ∙ omega arith

  -- The new byte is at place 0, and the second place of the window is behind the ring.
  second_byte : byte_at (set_byte rb.vm rb.w b) (rb.r + 1) ≡ byte_at rb.vm rb.size
  second_byte =
      get_or-set_ne rb.vm.mem (rb.w % rb.vm.size) ((rb.r + 1) % rb.vm.size) b (
        omega (
          arith,
          mod-eq_of_lt {n = rb.w} {m = rb.vm.size} (omega arith),
          mod-eq_of_lt {n = rb.r + 1} {m = rb.vm.size} (omega arith),
        ))
      ∙ ap (λ k. get_or rb.vm.mem (k % rb.vm.size) 0) a.last

  contents-after_write :
      contents after_write
      ≡ byte_at (set_byte rb.vm rb.w b) rb.r ∷ byte_at (set_byte rb.vm rb.w b) (rb.r + 1) ∷ []
  unfolding after_write
  contents-after_write = ap (bytes (set_byte rb.vm rb.w b) rb.r) two
    where
      two : buffered (record rb { vm = set_byte rb.vm rb.w b; w = 1; empty = false }) ≡ 2
      two = unfold buffered in (ground arith)

  contents-AtEnd : contents rb ≡ byte_at rb.vm rb.r ∷ []
  contents-AtEnd = ap (bytes rb.vm rb.r) {y = 1} one
    where
      one : buffered rb ≡ 1
      one = unfold buffered in (ground arith)

  -- If a ring's memory is larger than the ring, with a single byte at the last place, then a byte
  -- written next does not become its second byte, unless the byte behind the ring happens to be
  -- the same.
  pub write-AtEnd_corrupts :
      b ≢ byte_at rb.vm rb.size
      → Returns
          (write page rb p (b ∷ []) choice)
          (λ (n, rb', p'). contents rb' ≢ contents rb ++ b ∷ [])
  write-AtEnd_corrupts ne =
      subst (λ m. Returns m (λ (n, rb', p'). contents rb' ≢ contents rb ++ b ∷ []))
        (sym write-AtEnd) (λ same. ne (sym (second same) ∙ second_byte))
    where
      second :
          contents after_write ≡ contents rb ++ b ∷ []
          → byte_at (set_byte rb.vm rb.w b) (rb.r + 1) ≡ b
      second same =
          ap (λ l. get_or l 1 0)
            (sym contents-after_write ∙ same ∙ ap (λ q. q ++ b ∷ []) contents-AtEnd)
