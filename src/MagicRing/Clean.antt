-- ===== src/MagicRing/Clean.antt =====
-- Rings that hold nothing: a new one, one that is reset, and what `Zeroes` keeps.
use gain.Base.{ℕ, ◌<◌, ◌≡◌, refl, ◌∙◌, true, false, Option, arith, Bool-cases, inl, inr, ◌==◌}
use gain.VirtualMem.{adjust_buffer_size}
use gain.VirtualMem.Laws.{adjust_buffer_size_lem, zeroes_from-IsMapped, size-zeroes_from}
use gain.VirtualMem.Pool as Memories
use gain.VirtualMem.Pool.Classes.{IsStocked, get-IsUsable}
use gain.MagicRing.{RingBuffer, reset, clear, new_magic_buffer}
use gain.MagicRing.Bounds.{IsValid}
use gain.MagicRing.Contents.{reset-IsValid}
use gain.MagicRing.Growing.{GivesExact}

-- A ring in good order that holds nothing.
pub record IsClean (rb : RingBuffer) : Type 0 where
  pub valid : IsValid rb
  pub empty : rb.empty ≡ true

pub reset-IsClean : (rb : RingBuffer) → IsValid rb → IsClean (reset rb)
unfolding reset
reset-IsClean rb v = record { valid = reset-IsValid v; empty = refl }

pub clear-IsValid : (rb : RingBuffer) → IsValid rb → IsValid (clear rb)
unfolding clear
clear-IsValid rb v = record {
  mapped = zeroes_from-IsMapped rb.size rb.vm 0 v.mapped;
  exact = size-zeroes_from rb.size rb.vm 0 ∙ v.exact;
  r_in = v.r_in;
  w_in = v.w_in;
  at_start = v.at_start;
  no_memory = v.no_memory;
}

pub size-clear : (rb : RingBuffer) → (clear rb).size ≡ rb.size
unfolding clear
size-clear rb = refl

positive : (n : ℕ) → (n == 0) ≡ false → 0 < n
positive n e = ground arith

module _ (page : ℕ) where
  pub new_magic_buffer-IsClean :
      (memories : Memories.Pool) (size : ℕ) (choice : Option ℕ)
      → 0 < page
      → IsStocked page memories
      → GivesExact page memories size choice
      → IsClean (new_magic_buffer page memories size choice).0
  unfolding new_magic_buffer
  new_magic_buffer-IsClean memories size choice pos s exact = elim (Bool-cases (size == 0)) [
    | inl e ↦
        rw (e, new_magic_buffer)
          record {
            valid = record {
              mapped = refl;
              exact = refl;
              r_in = omega arith;
              w_in = omega arith;
              at_start = λ _. (refl, refl);
              no_memory = λ _. refl;
            };
            empty = refl;
          }
    | inr e ↦
        let usable =
          (get-IsUsable page memories (adjust_buffer_size page size) choice pos
            (omega (arith, adjust_buffer_size_lem page size pos, positive size e)) s).0 in
        rw (e, new_magic_buffer)
          record {
            valid = record {
              mapped = usable.mapped;
              exact = exact;
              r_in = omega arith;
              w_in = omega arith;
              at_start = λ _. (refl, refl);
              no_memory = λ _. refl;
            };
            empty = refl;
          }
  ]
