-- ===== src/Submitter/Adapting.antt =====
-- The number waited for is always an entry of the array, and follows what came last.
use mathlib.Core.Path.{subst}
use gain.Base.{
  ℕ, zero, suc, ◌+◌, ◌-◌, ◌≡◌, ◌≤◌, ◌<◌, refl, sym, ap, ◌∙◌, arith, List, [], ◌∷◌, none, some, inl,
  inr, Bool-cases,
}
use gain.Base.{
  Outcome, ret, panic, ◌>>=◌, Returns, Returns->>=, Returns-weaken, Safe, Safe-if, Safe-bind, ◌==◌,
  get_elem?, get_elem?-some, length, ltb, dec_lt,
}
use gain.Errors.{skippable}
use gain.Submitter.{
  Submitter, Submitted, submitted, interrupted, failed, wait_for_array, set_index, submit, scan,
  behind_first, advance, new_batch_submitter,
}

-- The index is inside the array and the number is the entry there.
unfoldable pub IsMatched : Submitter → Type 0
IsMatched s = get_elem? wait_for_array s.wait_for_index ≡ some s.wait_for

-- The place `i` of the largest run of entries from the start of which none is above `n`.
pub record Fits (xs : List ℕ) (n i : ℕ) : Type 0 where
  pub value : ℕ
  pub there : get_elem? xs i ≡ some value
  pub low : value ≤ n
  pub next_high : (w : ℕ) → get_elem? xs (suc i) ≡ some w → n < w

set_index-ret :
    (i x : ℕ)
    → get_elem? wait_for_array i ≡ some x
    → set_index i ≡ ret (record { wait_for_index = i; wait_for = x })
set_index-ret i x e =
    ap
      (λ o. (elim o as (λ _. Outcome ℕ) [ none ↦ panic | some y ↦ ret y ]) >>= λ y.
        ret (record { wait_for_index = i; wait_for = y }))
      e

set_index-IsMatched : (i : ℕ) → i < 19 → Returns (set_index i) IsMatched
unfolding IsMatched
set_index-IsMatched i h =
    let (x, e) = get_elem?-some wait_for_array i h in
    subst (λ m. Returns m IsMatched) (sym (set_index-ret i x e)) e

scan-Fits :
    (ys : List ℕ) (v n i : ℕ) → v ≤ n → (j : ℕ) × (scan (i + 1) ys n i ≡ i + j) × Fits (v ∷ ys) n j
unfolding scan
scan-Fits [] v n i h =
    (0, omega arith, record { value = v; there = refl; low = h; next_high = λ w e. cc })
scan-Fits (y ∷ ys) v n i h = elim (Bool-cases (ltb n y)) [
  | inl high ↦ (
    0,
    rw high (omega arith),
    record { value = v; there = refl; low = h; next_high = λ w e. ground arith },
  )
  | inr low ↦
      let (j, e, fits) = scan-Fits ys y n (i + 1) (ground arith) in
      (
        suc j,
        rw low (omega arith),
        record {
          value = fits.value;
          there = fits.there;
          low = fits.low;
          next_high = fits.next_high;
        },
      )
]

get_elem?-inside : (xs : List ℕ) (i x : ℕ) → get_elem? xs i ≡ some x → i < length xs
get_elem?-inside [] i x e = cc
get_elem?-inside (y ∷ xs) zero x e = omega arith
get_elem?-inside (y ∷ xs) (suc i) x e = omega (arith, get_elem?-inside xs i x e)

-- A new submitter is matched.
pub new_batch_submitter-IsMatched : Returns new_batch_submitter IsMatched
unfolding new_batch_submitter IsMatched
new_batch_submitter-IsMatched = refl

submit-lower :
    (s : Submitter)
    → 0 < s.wait_for_index
    → submit s interrupted ≡ (set_index (s.wait_for_index - 1) >>= λ s'. ret (some skippable, s'))
unfolding submit
submit-lower s h = ground arith

submit-lowest :
    (s : Submitter) → s.wait_for_index ≡ 0 → submit s interrupted ≡ ret (some skippable, s)
unfolding submit
submit-lowest s h = ground arith

-- From an index inside the array with the number that stands there, `submit` returns and leaves
-- such an index and number, whatever the call to the kernel gave.
pub submit-IsMatched :
    (s : Submitter) (o : Submitted) → IsMatched s → Returns (submit s o) (λ r. IsMatched r.1)
unfolding submit
submit-IsMatched s submitted m = m
submit-IsMatched s (failed e) m = m
submit-IsMatched s interrupted m = elim (dec_lt 0 s.wait_for_index) [
  | no lowest ↦ subst (λ r. Returns r (λ r. IsMatched r.1)) (sym (submit-lowest s (omega arith))) m
  | yes lower ↦
      subst (λ r. Returns r (λ r. IsMatched r.1)) (sym (submit-lower s lower))
        (Returns->>= IsMatched (λ r. IsMatched r.1) (set_index (s.wait_for_index - 1))
          (λ s'. ret (some skippable, s'))
          (set_index-IsMatched (s.wait_for_index - 1) (omega (arith, inside))) (λ s' h. h))
]
  where
    inside : s.wait_for_index < 19
    inside = get_elem?-inside wait_for_array s.wait_for_index s.wait_for (unfold IsMatched in m)

-- Fewer than 32 completions change nothing.
pub advance-few : (s : Submitter) (n : ℕ) → n < 32 → IsMatched s → advance s n ≡ ret s
unfolding advance IsMatched
advance-few s n few m = ap set_index stays ∙ set_index-ret s.wait_for_index s.wait_for m
  where
    stays : scan 1 (behind_first wait_for_array) n s.wait_for_index ≡ s.wait_for_index
    stays = unfold scan in (ground arith)

-- After 32 completions or more, `advance` returns, and the next submission waits for the entry of
-- the array before the first that is above their number; that entry is at most their number.
pub advance-many :
    (s : Submitter) (n : ℕ)
    → 32 ≤ n
    → Returns (advance s n) (λ s'. IsMatched s' × Fits wait_for_array n s'.wait_for_index)
unfolding advance IsMatched
advance-many s n many =
    let (j, e, fits) = scan-Fits (behind_first (behind_first wait_for_array)) 32 n 1 many in
    subst (λ i. Returns (set_index i) Chosen) (sym (goes ∙ e)) (at_place j fits)
  where
    Chosen : Submitter → Type 0
    Chosen s' = IsMatched s' × Fits wait_for_array n s'.wait_for_index

    goes :
        scan 1 (behind_first wait_for_array) n s.wait_for_index
        ≡ scan (1 + 1) (behind_first (behind_first wait_for_array)) n 1
    goes = unfold scan in (ground arith)

    at_next : (j : ℕ) → Fits (behind_first wait_for_array) n j → Returns (set_index (suc j)) Chosen
    at_next j fits =
        subst (λ m. Returns m Chosen) (sym (set_index-ret (suc j) fits.value fits.there))
          (
            fits.there,
            record {
              value = fits.value;
              there = fits.there;
              low = fits.low;
              next_high = fits.next_high;
            },
          )

    at_place : (j : ℕ) → Fits (behind_first wait_for_array) n j → Returns (set_index (1 + j)) Chosen
    at_place j fits =
        subst (λ i. Returns (set_index i) Chosen) {x = suc j} {y = 1 + j} (omega arith)
          (at_next j fits)

-- `advance` returns and leaves an index inside the array with the number that stands there.
pub advance-IsMatched : (s : Submitter) (n : ℕ) → IsMatched s → Returns (advance s n) IsMatched
advance-IsMatched s n m = elim (dec_lt n 32) [
  | yes few ↦ subst (λ r. Returns r IsMatched) (sym (advance-few s n few m)) m
  | no many ↦ Returns-weaken (advance s n) (advance-many s n (omega arith)) (λ s' h. h.0)
]

-- An interrupted submission is skippable.
pub submit-skippable : (s : Submitter) → Safe (submit s interrupted) (λ r. r.0 ≡ some skippable)
unfolding submit
submit-skippable s =
    Safe-if (λ r. r.0 ≡ some skippable) (s.wait_for_index == 0) _ _ refl
      (Safe-bind (λ r. r.0 ≡ some skippable) (set_index (s.wait_for_index - 1)) _ (λ s'. refl))
