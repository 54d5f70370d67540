-- ===== src/Base/Maps.antt =====
-- Go's maps from numbers, as association lists with each key once.
use mathlib.Core.Path.{subst}
use gain.Base.{ℕ, ◌+◌, ◌<◌, ◌≡◌, ◌≢◌, refl, ap, ◌∙◌, inl, inr, arith, Bool-cases}
use gain.Base.{Option, none, some, List, [], ◌∷◌, ◌==◌, if◌then◌else◌, length}

module _ {ℓ} {A : Type ℓ} where
  unfoldable pub lookup : ℕ → List (ℕ × A) → Option A
  lookup k [] = none
  lookup k ((j, a) ∷ m) = if j == k then some a else lookup k m

  -- The value of a key that is there; nothing changes for another.
  unfoldable pub update : ℕ → A → List (ℕ × A) → List (ℕ × A)
  update k a [] = []
  update k a ((j, b) ∷ m) = (j, if j == k then a else b) ∷ update k a m

  unfoldable pub insert : ℕ → A → List (ℕ × A) → List (ℕ × A)
  unfolding lookup update
  insert k a m = elim (lookup k m) [ none ↦ (k, a) ∷ m | some _ ↦ update k a m ]

  unfoldable pub delete : ℕ → List (ℕ × A) → List (ℕ × A)
  delete k [] = []
  delete k ((j, a) ∷ m) = if j == k then delete k m else (j, a) ∷ delete k m

  unfoldable pub keys : List (ℕ × A) → List ℕ
  keys [] = []
  keys ((j, a) ∷ m) = j ∷ keys m

-- A set of numbers: Go's `map[int]void`.
pub remove : ℕ → List ℕ → List ℕ
remove k [] = []
remove k (j ∷ s) = if j == k then remove k s else j ∷ remove k s

-- How often a key stands in a list of keys.
unfoldable pub occurrences : ℕ → List ℕ → ℕ
occurrences k [] = 0
occurrences k (x ∷ xs) = (if x == k then 1 else 0) + occurrences k xs

module _ {ℓ} {A : Type ℓ} where
  pub lookup-none : (k : ℕ) (m : List (ℕ × A)) → lookup k m ≡ none → occurrences k (keys m) ≡ 0
  unfolding lookup occurrences keys
  lookup-none k [] e = refl
  lookup-none k ((j, a) ∷ m) e = elim (Bool-cases (j == k)) [
    | inl same ↦
        absurd (some-none a (subst (λ b. (if b then some a else lookup k m) ≡ none) same e))
    | inr other ↦ rw other (
        omega
          (arith, lookup-none k m (subst (λ b. (if b then some a else lookup k m) ≡ none) other e)))
  ]
    where
      some-none : (a : A) → some a ≢ none
      some-none a e = cc

  pub lookup-some :
      (k : ℕ) (a : A) (m : List (ℕ × A)) → lookup k m ≡ some a → 0 < occurrences k (keys m)
  unfolding lookup occurrences keys
  lookup-some k a [] e = cc
  lookup-some k a ((j, b) ∷ m) e = elim (Bool-cases (j == k)) [
    | inl same ↦ rw same (omega arith)
    | inr other ↦ rw other (
        omega (
          arith,
          lookup-some k a m (subst (λ t. (if t then some b else lookup k m) ≡ some a) other e),
        ))
  ]

  -- An update keeps the keys.
  pub keys-update : (k : ℕ) (a : A) (m : List (ℕ × A)) → keys (update k a m) ≡ keys m
  unfolding update keys
  keys-update k a [] = refl
  keys-update k a ((j, b) ∷ m) = ap (λ ks. j ∷ ks) (keys-update k a m)

  pub insert_new :
      (k : ℕ) (a : A) (m : List (ℕ × A)) → lookup k m ≡ none → insert k a m ≡ (k, a) ∷ m
  unfolding insert
  insert_new k a m e = rw (insert, e) refl

  pub lookup-absent : (k : ℕ) (m : List (ℕ × A)) → occurrences k (keys m) ≡ 0 → lookup k m ≡ none
  unfolding lookup occurrences keys
  lookup-absent k [] h = refl
  lookup-absent k ((j, a) ∷ m) h = elim (Bool-cases (j == k)) [
    | inl same ↦ absurd (ground arith)
    | inr other ↦ rw other (lookup-absent k m (ground arith))
  ]

  -- A deletion takes the key out and leaves the others.
  pub occurrences-delete :
      (k i : ℕ) (m : List (ℕ × A))
      → occurrences i (keys (delete k m)) ≡ (if k == i then 0 else occurrences i (keys m))
  unfolding delete occurrences keys
  occurrences-delete k i [] = ground arith
  occurrences-delete k i ((j, a) ∷ m) = elim (Bool-cases (j == k)) [
    | inl same ↦ rw same (ground (arith, occurrences-delete k i m))
    | inr other ↦ rw other (ground (arith, occurrences-delete k i m))
  ]

  pub lookup-delete : (k : ℕ) (m : List (ℕ × A)) → lookup k (delete k m) ≡ none
  lookup-delete k m = lookup-absent k (delete k m) (occurrences-delete k k m ∙ ground arith)

  -- As many fewer entries as the key had.
  pub length-delete :
      (k : ℕ) (m : List (ℕ × A)) → length (delete k m) + occurrences k (keys m) ≡ length m
  unfolding delete occurrences keys
  length-delete k [] = refl
  length-delete k ((j, a) ∷ m) = elim (Bool-cases (j == k)) [
    | inl same ↦ rw same (ground (arith, length-delete k m))
    | inr other ↦ rw other (ground (arith, length-delete k m))
  ]

  pub length-update : (k : ℕ) (a : A) (m : List (ℕ × A)) → length (update k a m) ≡ length m
  unfolding update
  length-update k a [] = refl
  length-update k a ((j, b) ∷ m) = ground (arith, length-update k a m)
