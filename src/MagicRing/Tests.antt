-- ===== src/MagicRing/Tests.antt =====
-- The ring's theorems at concrete rings, with pages of 4 bytes.
use gain.Base.{ℕ, ◌≡◌, ◌≢◌, refl, true, false, arith, none, some, Option}
use gain.Base.{List, [], ◌∷◌, ◌++◌, length, min, Returns}
use gain.Errors.{Error, eof}
use gain.VirtualMem.{new_virtual_mem}
use gain.VirtualMem.Laws.{new_virtual_mem-IsMapped}
use gain.VirtualMem.Pool.{new_pool}
use gain.VirtualMem.Pool.Classes.{new_pool-IsStocked}
use gain.ByteQueue
use gain.MagicRing.{RingBuffer, read, buffered, available}
use gain.MagicRing.{advance_write, write_to, write, grow}
use gain.MagicRing.Bounds.{IsValid}
use gain.MagicRing.Contents.{contents}
use gain.MagicRing.Reading.{Serves, read_refines}
use gain.MagicRing.Handing.{write_to_refines, write_to-full_loses, Handed}
use gain.MagicRing.Growing.{IsSound, GivesExact-none, Grew, grow_refines}
use gain.MagicRing.Writing.{Wrote, write_refines}
use gain.MagicRing.Receiving.{kernel_stores, advance_write_refines}
use gain.MagicRing.Corruption.{write-AtEnd_corrupts}

-- The bytes 4, 1, 2, round the end of the memory.
abbrev wrapped : RingBuffer
wrapped = record {
  vm = record { mem = 1 ∷ 2 ∷ 3 ∷ 4 ∷ []; size = 4 };
  size = 4;
  r = 3;
  w = 2;
  empty = false;
}

abbrev full : RingBuffer
full = record wrapped { w = 3 }

wrapped-IsValid : IsValid wrapped
wrapped-IsValid = record {
  mapped = refl;
  exact = refl;
  r_in = omega arith;
  w_in = omega arith;
  at_start = λ e. cc;
  no_memory = λ z. absurd (omega arith);
}

full-IsValid : IsValid full
full-IsValid = record {
  mapped = refl;
  exact = refl;
  r_in = omega arith;
  w_in = omega arith;
  at_start = λ e. cc;
  no_memory = λ z. absurd (omega arith);
}

contents-wrapped : contents wrapped ≡ 4 ∷ 1 ∷ 2 ∷ []
unfolding buffered
contents-wrapped = refl

read_refines_example : Returns (read wrapped 2) (Serves (ByteQueue.read (contents wrapped) 2))
read_refines_example = read_refines 2 wrapped-IsValid

-- A writer that takes two bytes at most.
abbrev two_at_most : List ℕ → ℕ × Option Error
two_at_most bs = (min 2 (length bs), none)

write_to_refines_example :
    Returns (write_to wrapped two_at_most) (Handed two_at_most wrapped-IsValid)
unfolding buffered
write_to_refines_example =
    write_to_refines two_at_most wrapped-IsValid refl (omega arith) (omega arith)

-- A writer that takes none.
abbrev stuck : List ℕ → ℕ × Option Error
stuck bs = (0, some eof)

write_to-full_loses_example :
    Returns (write_to full stuck) (λ (n, err, rb'). (n ≡ 0) × (contents rb' ≡ []))
unfolding buffered
write_to-full_loses_example = write_to-full_loses stuck full-IsValid refl refl refl

wrapped-IsSound : IsSound 4 wrapped new_pool
wrapped-IsSound = record { valid = wrapped-IsValid; stocked = new_pool-IsStocked 4; pages = refl }

advance_write_refines_example :
    Returns
      (advance_write (kernel_stores wrapped (7 ∷ [])) 1)
      (λ rb'. IsValid rb' × (contents rb' ≡ contents wrapped ++ 7 ∷ []))
unfolding available
advance_write_refines_example = advance_write_refines (7 ∷ []) wrapped-IsValid (omega arith)

-- The ring has room for one more byte, so a write of two grows it.
write_refines_example :
    Returns (write 4 wrapped new_pool (5 ∷ 6 ∷ []) none) (Wrote 4 wrapped (5 ∷ 6 ∷ []))
unfolding available
write_refines_example =
    write_refines 4 wrapped new_pool (5 ∷ 6 ∷ []) none (omega arith) wrapped-IsSound
      (λ _. GivesExact-none 4 new_pool 5 (omega arith) (omega arith))

grow_refines_example :
    Returns (grow 4 wrapped new_pool 7 none) (λ (rb', p'). Grew 4 wrapped 7 rb' p')
unfolding buffered
grow_refines_example =
    grow_refines 4 wrapped new_pool 7 none (omega arith) wrapped-IsSound (omega arith)
      (GivesExact-none 4 new_pool 7 (omega arith) (omega arith))

full-IsSound : IsSound 4 full new_pool
full-IsSound = record { valid = full-IsValid; stocked = new_pool-IsStocked 4; pages = refl }

abbrev fresh : RingBuffer
fresh = record { vm = new_virtual_mem 4096; size = 4096; r = 0; w = 0; empty = true }

fresh-IsValid : IsValid fresh
fresh-IsValid = record {
  mapped = new_virtual_mem-IsMapped 4096;
  exact = unfold new_virtual_mem in refl;
  r_in = omega arith;
  w_in = omega arith;
  at_start = λ e. (refl, refl);
  no_memory = λ z. refl;
}

-- The memory has 6 bytes, the ring 4.
abbrev too_large : RingBuffer
too_large = record {
  vm = record { mem = 0 ∷ 0 ∷ 0 ∷ 8 ∷ 5 ∷ 5 ∷ []; size = 6 };
  size = 4;
  r = 3;
  w = 0;
  empty = false;
}

write-AtEnd_corrupts_example :
    Returns
      (write 2 too_large new_pool (9 ∷ []) none)
      (λ (n, rb', p'). contents rb' ≢ contents too_large ++ 9 ∷ [])
write-AtEnd_corrupts_example =
    write-AtEnd_corrupts 2 too_large new_pool 9 none
      (record {
        larger = omega arith;
        two = omega arith;
        last = refl;
        next = refl;
        some_byte = refl;
      })
      (omega arith)
