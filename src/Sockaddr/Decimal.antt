-- ===== src/Sockaddr/Decimal.antt =====
-- The decimal text of a number stands for that number.
use native.Mathlib.Nat.{pow-suc}
use gain.Base.Bits.{pow_double}
use gain.Base.{ℕ, zero, suc, ◌+◌, ◌-◌, ◌*◌, ◌/◌, ◌%◌, ◌^◌, ◌≤◌, ◌<◌, ◌≡◌, refl, ap, ap₂, ◌∙◌, arith}
use gain.Base.{
  List, [], ◌∷◌, true, false, ret, Returns, Returns->>=, set, drop, length, length-set, drop_all,
}
use gain.Base.{◌==◌, Bool-cases, inl, inr}
use mathlib.Core.Path.{subst}
use gain.Sockaddr.{fill, int2decimal}

-- The number that a text of digits stands for.
pub number : List ℕ → ℕ
number [] = 0
number (d ∷ ds) = (d - b'0') * 10 ^ length ds + number ds

abbrev pub AllDigits : List ℕ → Type 0
AllDigits [] = Unit
AllDigits (d ∷ ds) = ((b'0' ≤ d) × (d ≤ b'9')) × AllDigits ds

drop-set : (xs : List ℕ) (i d : ℕ) → i < length xs → drop i (set xs i d) ≡ d ∷ drop (suc i) xs
drop-set [] i d h = elim h [ ]
drop-set (x ∷ xs) zero d h = refl
drop-set (x ∷ xs) (suc i) d h = drop-set xs i d (omega arith)

length-drop : (n : ℕ) (xs : List ℕ) → length (drop n xs) ≡ length xs - n
length-drop zero xs = omega arith
length-drop (suc n) [] = omega arith
length-drop (suc n) (x ∷ xs) = omega (arith, length-drop n xs)

-- What the loop has written stands for the rest of the number.
record Written (n value pos : ℕ) (buf : List ℕ) : Type 0 where
  size : length buf ≡ 32
  inside : pos ≤ 32
  digits : AllDigits (drop pos buf)
  rest : value * 10 ^ (32 - pos) + number (drop pos buf) ≡ n

digit_split : (v p m : ℕ) → v / 10 * (p * 10) + ((v % 10 + b'0' - b'0') * p + m) ≡ v * p + m
digit_split v p m =
    let whole : v / 10 * 10 + v % 10 ≡ v = omega arith in
    let scaled = ap (λ t. t * p) whole in
    let digit : v % 10 + b'0' - b'0' ≡ v % 10 = omega arith in rw digit (grind (arith, scaled))

module _ (n : ℕ) where
  write_digit :
      (value q : ℕ) (buf : List ℕ)
      → Written n value (suc q) buf
      → Written n (value / 10) q (set buf q (value % 10 + b'0'))
  unfolding number
  write_digit value q buf w = record {
    size = length-set buf q (value % 10 + b'0') ∙ w.size;
    inside = omega (arith, w.inside);
    digits = rw front ((omega arith, omega arith), w.digits);
    rest = rw front (
        ap₂ (λ x y. value / 10 * x + ((value % 10 + b'0' - b'0') * y + number (drop (suc q) buf)))
          power (ap (λ j. 10 ^ j) size')
        ∙ digit_split value (10 ^ (32 - suc q)) (number (drop (suc q) buf))
        ∙ w.rest);
  }
    where
      front : drop q (set buf q (value % 10 + b'0')) ≡ (value % 10 + b'0') ∷ drop (suc q) buf
      front = drop-set buf q (value % 10 + b'0') (omega (arith, w.inside, w.size))

      size' : length (drop (suc q) buf) ≡ 32 - suc q
      size' = omega (arith, length-drop (suc q) buf, w.size)

      power : 10 ^ (32 - q) ≡ 10 ^ (32 - suc q) * 10
      power = ap (λ j. 10 ^ j) more ∙ pow-suc 10 (32 - suc q)
        where
          more : 32 - q ≡ suc (32 - suc q)
          more = omega (arith, w.inside)

  -- The loop returns, with every digit written.
  fill-Written :
      (fuel value pos : ℕ) (buf : List ℕ)
      → Written n value pos buf
      → value < 10 ^ pos
      → value < 2 ^ fuel
      → Returns (fill fuel value pos buf) (λ (pos', buf'). Written n 0 pos' buf')
  unfolding fill
  fill-Written zero value pos buf w small fits = subst (λ v. Written n v pos buf) (omega arith) w
  fill-Written (suc fuel) value zero buf w small fits =
      let done : (value == 0) ≡ true = ground arith in
      rw (done, fill) (subst (λ v. Written n v 0 buf) (omega arith) w)
  fill-Written (suc fuel) value (suc q) buf w small fits = elim (Bool-cases (value == 0)) [
    | inl done ↦ rw (done, fill) (subst (λ v. Written n v (suc q) buf) (ground arith) w)
    | inr more ↦
        rw (more, fill)
          (rw (not_zero, fill)
            (rw pred (
              fill-Written fuel (value / 10) q (set buf q (value % 10 + b'0'))
                (write_digit value q buf w) (omega (arith, pow-suc 10 q))
                (omega (arith, pow_double fuel)))))
  ]
    where
      not_zero : (suc q == 0) ≡ false
      not_zero = ground arith

      pred : suc q - 1 ≡ q
      pred = omega arith

-- For every value below 2^64 and every slice of 32 bytes, `int2decimal` returns, without running
-- over the slice, a text of digits that stands for the value.
pub int2decimal-number :
    (value : ℕ) (buf : List ℕ)
    → value < 2 ^ 64
    → length buf ≡ 32
    → Returns (int2decimal value buf) (λ text. AllDigits text × (number text ≡ value))
unfolding int2decimal
int2decimal-number value buf small size = elim (Bool-cases (value == 0)) [
  | inl e ↦ rw (e, int2decimal) ((omega arith, tt), (unfold number in (ground arith)))
  | inr e ↦
      rw (e, int2decimal)
        (Returns->>= (λ (pos, buf'). Written value 0 pos buf')
          (λ text. AllDigits text × (number text ≡ value)) (fill 64 value 32 buf)
          (λ (pos, written). ret (drop pos written))
          (fill-Written value 64 value 32 buf start (omega arith) small)
          (λ (pos, written) w. (w.digits, omega (arith, w.rest))))
]
  where
    nothing : drop 32 buf ≡ []
    nothing = drop_all 32 buf (omega (arith, size))

    start : Written value value 32 buf
    start = record {
      size = size;
      inside = omega arith;
      digits = rw nothing tt;
      rest = rw nothing (unfold number in (omega arith));
    }
