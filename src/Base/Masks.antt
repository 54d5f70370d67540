-- ===== src/Base/Masks.antt =====
-- `&` and `|` of Go's uint64 as arithmetic, where one side is a power of two or a mask of ones.
use Prim.Native.Nat.{digits, bit_and, bit_or, bit_and-bitwise, bit_or-bitwise}
use native.Mathlib.Nat.{
  div-div-eq-div-mul, div-add-mod, add-mul-mod_self_left, mod-eq_of_lt, mod-lt,
}
use gain.Base.{
  ap, ap₂, sym, ◌∙◌, ℕ, zero, suc, ◌+◌, ◌-◌, ◌*◌, ◌/◌, ◌%◌, ◌^◌, ◌≤◌, ◌<◌, ◌≡◌, refl, min, max,
  arith,
}
use gain.Base.Bits.{pow_double}

-- Both operations go through the binary digits of their first argument. The fuel of the library's
-- `digits` does not matter once it reaches that argument, so one digit at a time can be split off.
module _ (rest : ℕ → ℕ) (digit : ℕ → ℕ → ℕ) where
  digits_done : (fuel b : ℕ) → digits rest digit fuel 0 b ≡ rest b
  digits_done zero b = refl
  digits_done (suc fuel) b = refl

  fuel_irrelevant :
      (fuel a b : ℕ)
      → a ≤ fuel
      → (more : ℕ) → a ≤ more
      → digits rest digit fuel a b ≡ digits rest digit more a b
  fuel_irrelevant fuel zero b h more k = digits_done fuel b ∙ sym (digits_done more b)
  fuel_irrelevant zero (suc a) b h more k = absurd (omega arith)
  fuel_irrelevant (suc fuel) (suc a) b h zero k = absurd (omega arith)
  fuel_irrelevant (suc fuel) (suc a) b h (suc more) k =
      ap (λ high. high * 2 + digit (suc a % 2) (b % 2))
        (fuel_irrelevant fuel (suc a / 2) (b / 2) (omega arith) more (omega arith))

  last_digit :
      ((b : ℕ) → rest b ≡ rest (b / 2) * 2 + digit 0 (b % 2))
      → (a b : ℕ)
      → digits rest digit a a b
        ≡ digits rest digit (a / 2) (a / 2) (b / 2) * 2 + digit (a % 2) (b % 2)
  last_digit split zero b = split b
  last_digit split (suc a) b =
      ap (λ high. high * 2 + digit (suc a % 2) (b % 2))
        (fuel_irrelevant a (suc a / 2) (b / 2) (omega arith) (suc a / 2) (omega arith))

  -- With no digits on the other side.
  against_zero :
      (whole : ℕ → ℕ)
      → rest 0 ≡ whole 0
      → ((a : ℕ) → whole (a / 2) * 2 + digit (a % 2) 0 ≡ whole a)
      → (fuel a : ℕ) → a ≤ fuel
      → digits rest digit fuel a 0 ≡ whole a
  against_zero whole none_left one_more fuel zero h = digits_done fuel 0 ∙ none_left
  against_zero whole none_left one_more zero (suc a) h = absurd (omega arith)
  against_zero whole none_left one_more (suc fuel) (suc a) h =
      ap (λ high. high * 2 + digit (suc a % 2) 0)
        (against_zero whole none_left one_more fuel (suc a / 2) (omega arith))
      ∙ one_more (suc a)

and_last : (a b : ℕ) → bit_and a b ≡ bit_and (a / 2) (b / 2) * 2 + min (a % 2) (b % 2)
and_last a b =
    bit_and-bitwise a b
    ∙ last_digit (λ _. zero) min (λ b. omega arith) a b
    ∙ ap (λ high. high * 2 + min (a % 2) (b % 2)) (sym (bit_and-bitwise (a / 2) (b / 2)))

or_last : (a b : ℕ) → bit_or a b ≡ bit_or (a / 2) (b / 2) * 2 + max (a % 2) (b % 2)
or_last a b =
    bit_or-bitwise a b
    ∙ last_digit (λ b. b) max (λ b. omega arith) a b
    ∙ ap (λ high. high * 2 + max (a % 2) (b % 2)) (sym (bit_or-bitwise (a / 2) (b / 2)))

bit_and-none : (a : ℕ) → bit_and a 0 ≡ 0
bit_and-none a =
    bit_and-bitwise a 0
    ∙ against_zero (λ _. zero) min (λ _. zero) refl (λ a. omega arith) a a (omega arith)

bit_or-none : (a : ℕ) → bit_or a 0 ≡ a
bit_or-none a =
    bit_or-bitwise a 0
    ∙ against_zero (λ b. b) max (λ a. a) refl (λ a. omega arith) a a (omega arith)

pub pow-pos : (k : ℕ) → 0 < 2 ^ k
pow-pos zero = omega arith
pow-pos (suc k) = omega (arith, pow_double k, pow-pos k)

mod_double : (m u : ℕ) → 0 < m → u % (2 * m) ≡ u / 2 % m * 2 + u % 2
mod_double m u pos =
    ap (λ t. t % (2 * m)) {y = u / 2 % m * 2 + u % 2 + 2 * m * (u / 2 / m)}
      (omega (arith, div-add-mod (u / 2) m))
    ∙ add-mul-mod_self_left (u / 2 % m * 2 + u % 2) (2 * m) (u / 2 / m)
    ∙ mod-eq_of_lt (omega (arith, mod-lt (u / 2) pos))

-- `|` of a multiple of `2 ^ k` and a number below it is their sum.
pub bit_or-low : (k h x : ℕ) → x < 2 ^ k → bit_or (h * 2 ^ k) x ≡ h * 2 ^ k + x
bit_or-low zero h x lt =
    ap₂ bit_or {y = h} {v = 0} (omega arith) (omega arith) ∙ bit_or-none h ∙ omega arith
bit_or-low (suc k) h x lt =
    or_last (h * 2 ^ suc k) x
    ∙ omega (arith, tail (bit_or-low k h (x / 2) (omega (arith, pow_double k))), doubled)
  where
    doubled : h * 2 ^ suc k ≡ h * (2 * 2 ^ k)
    doubled = ap (λ t. h * t) (pow_double k)

    half : h * 2 ^ suc k / 2 ≡ h * 2 ^ k
    half = omega (arith, doubled)

    tail :
        bit_or (h * 2 ^ k) (x / 2) ≡ h * 2 ^ k + x / 2
        → bit_or (h * 2 ^ suc k / 2) (x / 2) ≡ h * 2 ^ k + x / 2
    tail ih = ap (λ t. bit_or t (x / 2)) half ∙ ih

-- `&` with `2 ^ k` picks the digit of that place.
pub bit_and-pow : (k u : ℕ) → bit_and u (2 ^ k) ≡ u / 2 ^ k % 2 * 2 ^ k
bit_and-pow zero u = omega (arith, and_last u 1, bit_and-none (u / 2))
bit_and-pow (suc k) u = go (bit_and-pow k (u / 2))
  where
    half : 2 ^ suc k / 2 ≡ 2 ^ k
    half = omega (arith, pow_double k)

    place : u / 2 / 2 ^ k ≡ u / 2 ^ suc k
    place = div-div-eq-div-mul u 2 (2 ^ k) ∙ ap (λ t. u / t) (sym (pow_double k))

    go :
        bit_and (u / 2) (2 ^ k) ≡ u / 2 / 2 ^ k % 2 * 2 ^ k
        → bit_and u (2 ^ suc k) ≡ u / 2 ^ suc k % 2 * 2 ^ suc k
    go ih =
        and_last u (2 ^ suc k)
        ∙ omega (
          arith,
          ap (λ t. bit_and (u / 2) t) half ∙ ih ∙ ap (λ t. t % 2 * 2 ^ k) place,
          pow_double k,
          ap (λ t. u / 2 ^ suc k % 2 * t) (pow_double k),
        )

-- `&` with `k` ones keeps the lowest `k` digits.
pub bit_and-ones : (k u : ℕ) → bit_and u (2 ^ k - 1) ≡ u % 2 ^ k
bit_and-ones zero u = omega (arith, bit_and-none u)
bit_and-ones (suc k) u = go (bit_and-ones k (u / 2))
  where
    half : (2 ^ suc k - 1) / 2 ≡ 2 ^ k - 1
    half = omega (arith, pow_double k, pow-pos k)

    go : bit_and (u / 2) (2 ^ k - 1) ≡ u / 2 % 2 ^ k → bit_and u (2 ^ suc k - 1) ≡ u % 2 ^ suc k
    go ih =
        and_last u (2 ^ suc k - 1)
        ∙ omega (
          arith,
          ap (λ t. bit_and (u / 2) t) half ∙ ih,
          pow_double k,
          pow-pos k,
          mod_double (2 ^ k) u (pow-pos k),
          ap (λ t. u % t) (pow_double k),
        )
