-- ===== src/VirtualMem/Clearing.antt =====
-- A memory that was cleared holds zeroes.
use native.Mathlib.Nat.{mod-eq_of_lt}
use gain.Base.{ℕ, zero, suc, ◌+◌, ◌%◌, ◌≤◌, ◌<◌, ◌≡◌, ◌≢◌, sym, ap, ◌∙◌, arith, length-set}
use gain.Base.{get_or, set, Bool-cases, inl, inr, ◌==◌, ==_iff}
use mathlib.Core.Path.{subst}
use gain.VirtualMem.{VirtualMem, byte_at, set_byte, zeroes, zeroes_from}
use gain.VirtualMem.Laws.{IsMapped, get_or-set_self, get_or-set_ne, size-zeroes}

-- What the loop has passed is 0, and stays so.
zeroes_from-cleared :
    (n : ℕ) (vm : VirtualMem) (j : ℕ)
    → IsMapped vm
    → j + n ≤ vm.size
    → ((i : ℕ) → i < j → get_or vm.mem i 0 ≡ 0)
    → (i : ℕ) → i < j + n
    → get_or (zeroes_from vm j n).mem i 0 ≡ 0
unfolding zeroes_from
zeroes_from-cleared zero vm j m le before i h = before i (omega (arith, h))
zeroes_from-cleared (suc n) vm j m le before i h =
    zeroes_from-cleared n (set_byte vm j 0) (j + 1) (length-set vm.mem (j % vm.size) 0 ∙ m)
      (omega (arith, le)) passed i (omega (arith, h))
  where
    place : j % vm.size ≡ j
    place = mod-eq_of_lt (omega (arith, le))

    passed : (k : ℕ) → k < j + 1 → get_or (set vm.mem (j % vm.size) 0) k 0 ≡ 0
    passed k lt = elim (Bool-cases (j == k)) [
      | inl e ↦
          subst (λ x. get_or (set vm.mem (j % vm.size) 0) x 0 ≡ 0) (place ∙ (==_iff j k).0 e)
            (get_or-set_self vm.mem (j % vm.size) 0 (omega (arith, place, m, le)))
      | inr e ↦
          let apart : j % vm.size ≢ k = λ q. absurd (ground (arith, e, sym place ∙ q)) in
          get_or-set_ne vm.mem (j % vm.size) k 0 apart ∙ before k (ground (arith, e, lt))
    ]

-- Each byte of a memory that was cleared is 0.
pub byte_at-zeroes :
    (vm : VirtualMem) (i : ℕ) → IsMapped vm → i < vm.size → byte_at (zeroes vm) i ≡ 0
unfolding zeroes
byte_at-zeroes vm i m h =
    ap (λ k. get_or (zeroes vm).mem k 0) (ap (λ s. i % s) (size-zeroes vm) ∙ mod-eq_of_lt h)
    ∙ zeroes_from-cleared vm.size vm 0 m (omega arith) (λ k lt. absurd (omega (arith, lt))) i
        (omega (arith, h))
