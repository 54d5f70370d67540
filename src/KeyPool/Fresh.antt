-- ===== src/KeyPool/Fresh.antt =====
-- A key is given out once until it is put back.
use gain.Base.{ℕ, ◌+◌, ◌≡◌, ◌<◌, ◌≤◌, refl, arith, List, [], ◌∷◌, inl, inr}
use gain.Base.{◌==◌, Bool-cases}
use mathlib.Core.Path.{subst}
use gain.Base.{zero, suc, ◌-◌, ap, sym, ◌∙◌}
use gain.Base.Maps.{occurrences}
use gain.KeyPool.{KeyPool, get, put, new_key_pool}

-- The positive keys that are out and those on the stack: each at most once, and given out before.
pub record IsDistinct (out : List ℕ) (p : KeyPool) : Type 0 where
  pub once : (k : ℕ) → occurrences (suc k) out + occurrences (suc k) p.stack ≤ 1
  pub above :
      (k : ℕ) → p.next_key ≤ suc k → occurrences (suc k) out + occurrences (suc k) p.stack ≡ 0
  pub next_pos : 0 < p.next_key

pub new_key_pool-IsDistinct : IsDistinct [] new_key_pool
unfolding new_key_pool occurrences
new_key_pool-IsDistinct = record {
  once = λ k. omega arith;
  above = λ k h. refl;
  next_pos = omega arith;
}

get-empty :
    (n : ℕ)
    → get (record { stack = []; next_key = n }) ≡ (n, record { stack = []; next_key = n + 1 })
unfolding get
get-empty n = refl

pub get-zero :
    (n : ℕ) (ks : List ℕ)
    → get (record { stack = 0 ∷ ks; next_key = n }) ≡ (n, record { stack = ks; next_key = n + 1 })
unfolding get
get-zero n ks = refl

get-free :
    (n key : ℕ) (ks : List ℕ)
    → 0 < key
    → get (record { stack = key ∷ ks; next_key = n }) ≡ (key, record { stack = ks; next_key = n })
unfolding get
get-free n key ks h = ground arith

-- A positive key that is not out, and the keys stay distinct with it.
abbrev pub Fresh : List ℕ → ℕ × KeyPool → Type 0
Fresh out (key, p) = (0 < key) × (occurrences key out ≡ 0) × IsDistinct (key ∷ out) p

next-Fresh :
    (out ks : List ℕ) (n k : ℕ)
    → suc k ≡ n
    → ((j : ℕ) → occurrences (suc j) out + occurrences (suc j) ks ≤ 1)
    → ((j : ℕ) → n ≤ suc j → occurrences (suc j) out + occurrences (suc j) ks ≡ 0)
    → Fresh out (n, record { stack = ks; next_key = n + 1 })
unfolding occurrences
next-Fresh out ks n k e once above = (
  omega arith,
  ap (λ j. occurrences j out) (sym e) ∙ omega (arith, above k (omega arith)),
  record {
    once = λ j. elim (Bool-cases (n == suc j)) [
      | inl e ↦ ground (arith, above j (ground arith))
      | inr e ↦ ground (arith, once j)
    ];
    above = λ j h. ground (arith, above j (omega arith));
    next_pos = omega arith;
  },
)

-- With distinct keys, `get` gives a positive key that is not out, and the keys stay distinct with
-- it.
pub get-IsDistinct : (out : List ℕ) (p : KeyPool) → IsDistinct out p → Fresh out (get p)
unfolding occurrences
get-IsDistinct out p d = go p.stack p.next_key d
  where
    go :
        (stack : List ℕ) (n : ℕ)
        → IsDistinct out (record { stack = stack; next_key = n })
        → Fresh out (get (record { stack = stack; next_key = n }))
    go [] n d =
        subst (Fresh out) (sym (get-empty n))
          (next-Fresh out [] n (n - 1) (omega (arith, d.next_pos)) d.once d.above)
    go (zero ∷ ks) n d = subst (Fresh out) (sym (get-zero n ks)) (
        next-Fresh out ks n (n - 1) (omega (arith, d.next_pos)) (λ j. ground (arith, d.once j))
          (λ j h. ground (arith, d.above j h)))
    go (suc key ∷ ks) n d = subst (Fresh out) (sym (get-free n (suc key) ks (omega arith))) (
      omega arith,
      ground (arith, d.once key),
      record {
        once = λ k. omega (arith, d.once k);
        above = λ k h. omega (arith, d.above k h);
        next_pos = d.next_pos;
      },
    )

-- A key that was out may be put back.
pub put-IsDistinct :
    (out : List ℕ) (key : ℕ) (p : KeyPool) → IsDistinct (key ∷ out) p → IsDistinct out (put p key)
unfolding put occurrences
put-IsDistinct out key p d = record {
  once = λ k. omega (arith, d.once k);
  above = λ k h. omega (arith, d.above k h);
  next_pos = d.next_pos;
}

-- Putting 0 back loses the key that was out: it is not given out again.
pub put-zero :
    (out : List ℕ) (key : ℕ) (p : KeyPool) → IsDistinct (key ∷ out) p → IsDistinct out (put p 0)
unfolding put occurrences
put-zero out key p d = record {
  once = λ k. ground (arith, d.once k);
  above = λ k h. ground (arith, d.above k h);
  next_pos = d.next_pos;
}
