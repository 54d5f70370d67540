-- ===== src/Base/Bits.antt =====
-- `bits.Len32` of Go's standard library, and the size class that the pools compute with it.
use native.Mathlib.Nat.{pow-suc}
use gain.Base.{ℕ, zero, suc, max, ◌*◌, ◌/◌, ◌^◌, ◌≤◌, ◌<◌, ◌≡◌, true, false, inl, inr, arith}
use gain.Base.{◌==◌, Bool-cases}

-- The number of binary digits, of numbers with at most `fuel` digits.
unfoldable pub len_digits : ℕ → ℕ → ℕ
len_digits zero n = 0
len_digits (suc fuel) n = elim (n == 0) [ true ↦ 0 | false ↦ suc (len_digits fuel (n / 2)) ]

unfoldable pub len32 : ℕ → ℕ
unfolding len_digits
len32 n = len_digits 32 n

pub pow_double : (k : ℕ) → 2 ^ suc k ≡ 2 * 2 ^ k
pow_double k = omega (arith, pow-suc 2 k)

pub len_digits_lem :
    (fuel n : ℕ)
    → n < 2 ^ fuel
    → (n < 2 ^ len_digits fuel n)
      × (2 ^ len_digits fuel n ≤ max 1 (2 * n))
      × (len_digits fuel n ≤ fuel)
unfolding len_digits
len_digits_lem zero n h = (h, omega arith, omega arith)
len_digits_lem (suc fuel) n h = elim (Bool-cases (n == 0)) [
  | inl e ↦ rw (e, len_digits) (ground arith)
  | inr e ↦ rw (e, len_digits) (longer (ground arith) (len_digits_lem fuel (n / 2) half))
]
  where
    half : n / 2 < 2 ^ fuel
    half = omega (arith, pow_double fuel)

    longer :
        {k : ℕ}
        → 0 < n
        → (n / 2 < 2 ^ k) × (2 ^ k ≤ max 1 (2 * (n / 2))) × (k ≤ fuel)
        → (n < 2 ^ suc k) × (2 ^ suc k ≤ max 1 (2 * n)) × (suc k ≤ suc fuel)
    longer {k} pos ih = omega (arith, pow_double k)

-- `n` has `len32 n` digits: it lies below that power of two, and not below the one before.
pub len32_lem :
    (n : ℕ) → n < 2 ^ 32 → (n < 2 ^ len32 n) × (2 ^ len32 n ≤ max 1 (2 * n)) × (len32 n ≤ 32)
unfolding len32
len32_lem n h = len_digits_lem 32 n h
