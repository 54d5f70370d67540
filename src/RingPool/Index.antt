-- ===== src/RingPool/Index.antt =====
-- The step that a capacity is counted at.
use native.Mathlib.Nat.{pow-le-pow_right}
use gain.Base.{ℕ, zero, suc, ◌+◌, ◌-◌, ◌*◌, ◌/◌, ◌^◌, max, ◌≤◌, ◌<◌, ◌≡◌}
use gain.Base.{arith, leb, ◌==◌, Bool-cases, inl, inr, if◌then◌else◌}
use gain.Base.Bits.{len_digits, len_digits_lem}
use gain.RingPool.{index_loop, index, steps, min_size}

-- The loop counts binary digits.
index_loop-digits : (fuel n idx : ℕ) → index_loop fuel n idx ≡ idx + len_digits fuel n
unfolding index_loop len_digits
index_loop-digits zero n idx = omega arith
index_loop-digits (suc fuel) n idx = elim (Bool-cases (n == 0)) [
  | inl e ↦ rw (e, index_loop, len_digits) (omega arith)
  | inr e ↦ rw (e, index_loop, len_digits) (omega (arith, index_loop-digits fuel (n / 2) (idx + 1)))
]

-- What the step says of the capacity: it is the least that holds it, or the last.
pub record IsStep (n i : ℕ) : Type 0 where
  pub known : i < steps
  pub holds : i < 14 → n ≤ min_size * 2 ^ i
  pub least : 0 < i → min_size * 2 ^ i < 2 * n

clamped :
    (n k : ℕ)
    → (n - 1) / min_size < 2 ^ k
    → 2 ^ k ≤ max 1 (2 * ((n - 1) / min_size))
    → (0 < k → 2 ≤ 2 ^ k)
    → (15 ≤ k → 2 ^ 15 ≤ 2 ^ k)
    → IsStep n (if leb steps k then 14 else k)
clamped n k a b two big = elim (Bool-cases (leb steps k)) [
  | inl e ↦
      let large : 2 ^ 15 ≤ 2 ^ k = big (ground arith) in
      rw e (record {
        known = omega arith;
        holds = λ h. absurd (omega arith);
        least = λ _. omega arith;
      })
  | inr e ↦ rw e (record {
    known = ground arith;
    holds = λ _. omega arith;
    least = λ pos. let even : 2 ≤ 2 ^ k = two pos in omega arith;
  })
]

-- The step of a capacity below 2^63 is one of the 15; below the last it holds the capacity, and
-- above the first it is the least that does.
pub index-IsStep : (n : ℕ) → n < 2 ^ 63 → IsStep n (index n)
unfolding index
index-IsStep n h = rw (index_loop-digits 64 m 0) (
    rw (zero_add (len_digits 64 m)) (
      clamped n k digits.0 digits.1
        (λ pos. pow-le-pow_right {n = 2} (omega arith) {i = 1} {j = k} pos)
        (λ le. pow-le-pow_right {n = 2} (omega arith) {i = 15} {j = k} le)))
  where
    m : ℕ
    m = (n - 1) / min_size

    k : ℕ
    k = len_digits 64 m

    digits : (m < 2 ^ k) × (2 ^ k ≤ max 1 (2 * m)) × (k ≤ 64)
    digits = len_digits_lem 64 m (omega arith)

    zero_add : (j : ℕ) → 0 + j ≡ j
    zero_add j = omega arith
