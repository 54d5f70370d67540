-- ===== src/Buffer/Ring.antt =====
-- The ring as a connection's buffer. Its memory pool goes with it, and gives new memories only: it
-- is a ring in a pool that it shares with nobody.
use gain.Base.{ℕ, ◌≡◌, ◌<◌, refl, sym, ap, ◌∙◌, arith, List, [], ◌∷◌, ◌++◌, Option, none, true}
use gain.Base.{ret, ◌>>=◌, Returns, Returns->>=, Returns-weaken, ◌%◌, ◌+◌, length, drop}
use gain.Errors.{Error}
use gain.VirtualMem.{nil}
use gain.VirtualMem.Pool.{Pool, new_pool}
use gain.VirtualMem.Pool.Classes.{new_pool-IsStocked}
use gain.Buffer.{Buffer, BufferLaws, Chunk}
use gain.MagicRing
use gain.MagicRing.{
  RingBuffer, min_read, available, buffered, grow, grow_if_unsufficient_free_space,
}
use gain.MagicRing.Bounds.{IsValid}
use gain.MagicRing.Contents.{contents, length-contents}
use gain.MagicRing.Looking.{contents-empty, advance_read_refines}
use gain.MagicRing.Growing.{IsSound, GivesExact-none}
use gain.MagicRing.Receiving.{grow_if_refines}
use gain.MagicRing.Writing.{Wrote, write_refines}

abbrev pub PooledRing : Type 0
PooledRing = RingBuffer × Pool

abbrev pub no_memory : RingBuffer
no_memory = record { vm = nil; size = 0; r = 0; w = 0; empty = true }

-- A ring operation that does not touch the pool.
abbrev beside : {R : Type 0} → Pool → R × Option Error × RingBuffer → R × Option Error × PooledRing
beside p (r, err, rb) = (r, err, (rb, p))

module _ (page : ℕ) where
  pub ring_buffer : Buffer PooledRing
  ring_buffer = record {
    fresh = (no_memory, new_pool);
    cap = λ (rb, _). rb.size;
    available = λ (rb, _). available rb;
    buffered = λ (rb, _). buffered rb;
    read = λ (rb, p) n. MagicRing.read rb n >>= λ r. ret (beside p r);
    next = λ (rb, p) n. MagicRing.next rb n >>= λ r. ret (beside p r);
    discard = λ (rb, p) n. let (k, rb') = MagicRing.discard rb n in (k, (rb', p));
    peek = λ (rb, _) n. MagicRing.peek rb n;
    write =
        λ (rb, p) src. MagicRing.write page rb p src none >>= λ (n, rb', p'). ret (n, (rb', p'));
    read_from = λ (rb, p) chunks.
        MagicRing.read_from page rb p (with_none chunks) 0 >>= λ (result, rb', p').
        ret (result, (rb', p'));
    write_to = λ (rb, p) writer. MagicRing.write_to rb writer >>= λ r. ret (beside p r);
    make_room = λ (rb, p). grow_if_unsufficient_free_space page rb p none;
    advance_write = λ (rb, p) n. MagicRing.advance_write rb n >>= λ rb'. ret (rb', p);
    advance_read = λ (rb, p) n. MagicRing.advance_read rb n >>= λ rb'. ret (rb', p);
  }
    where
      with_none : List Chunk → List (Chunk × Option ℕ)
      with_none [] = []
      with_none (chunk ∷ chunks) = (chunk, none) ∷ with_none chunks

  no_memory-IsSound : IsSound page no_memory new_pool
  no_memory-IsSound = record {
    valid = record {
      mapped = refl;
      exact = refl;
      r_in = omega arith;
      w_in = omega arith;
      at_start = λ e. (refl, refl);
      no_memory = λ z. refl;
    };
    stocked = new_pool-IsStocked page;
    pages = ground arith;
  }

  -- The ring keeps the promises of a buffer.
  pub ring_laws : 0 < page → BufferLaws PooledRing ring_buffer
  unfolding ring_buffer
  ring_laws pos = record {
    IsGood = λ (rb, p). IsSound page rb p;
    contents = λ (rb, _). contents rb;
    fresh-IsGood = no_memory-IsSound;
    contents-fresh = contents-empty no_memory-IsSound.valid refl;
    buffered-contents = λ (rb, p) s. sym (length-contents rb);
    write_appends = λ (rb, p) src s.
        Returns->>= (Wrote page rb src)
          (λ (n, b').
            (n ≡ length src) × (contents b'.0 ≡ contents rb ++ src) × IsSound page b'.0 b'.1)
          (MagicRing.write page rb p src none) (λ (n, rb', p'). ret (n, (rb', p')))
          (write_refines page rb p src none pos s
            (λ lt. GivesExact-none page p _ pos (omega arith)))
          (λ r w. w);
    make_room_keeps = λ (rb, p) s. make_room rb p s;
    advance_read_drops = λ (rb, p) n s le.
        Returns->>=
          (λ rb'. IsValid rb' × (contents rb' ≡ drop n (contents rb)) × (rb'.size ≡ rb.size))
          (λ b'. (contents b'.0 ≡ drop n (contents rb)) × IsSound page b'.0 b'.1)
          (MagicRing.advance_read rb n) (λ rb'. ret (rb', p)) (advance_read_refines n s.valid le)
          (λ rb' h. (
            h.1,
            record { valid = h.0; stocked = s.stocked; pages = ap (λ n. n % page) h.2 ∙ s.pages },
          ));
  }
    where
      make_room :
          (rb : RingBuffer) (p : Pool)
          → IsSound page rb p
          → Returns
              (grow_if_unsufficient_free_space page rb p none)
              (λ b'. (contents b'.0 ≡ contents rb) × IsSound page b'.0 b'.1)
      make_room rb p s =
          Returns-weaken (grow_if_unsufficient_free_space page rb p none)
            (grow_if_refines page rb p none pos s
              (λ _. GivesExact-none page p (buffered rb + min_read) pos (omega arith)))
            (λ b' g. (g.1, g.2))
