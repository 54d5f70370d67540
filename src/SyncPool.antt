-- ===== src/SyncPool.antt =====
-- pkg/pool/sync/sync.go: a typed `sync.Pool` that counts its items.
use gain.Base.{ℕ, zero, suc, ◌+◌, ◌-◌, ◌≤◌, ◌≡◌, List, [], ◌∷◌, Option, none, some, ap, arith}
use gain.Base.{length, refl}

-- The items are those that the garbage collector has not taken yet. `count` is the source's int64.
pub record SyncPool {ℓ} (A : Type ℓ) : Type ℓ where
  pub items : List A
  pub count : ℕ

module _ {ℓ} {A : Type ℓ} where
  unfoldable pub new_pool : SyncPool A
  new_pool = record { items = []; count = 0 }

  -- The item at a position, and the others.
  abbrev pub take_out : List A → ℕ → Option (A × List A)
  take_out [] i = none
  take_out (x ∷ xs) zero = some (x, xs)
  take_out (x ∷ xs) (suc i) = elim (take_out xs i) [ none ↦ none | some (y, ys) ↦ some (y, x ∷ ys) ]

  -- Go's pool returns an arbitrary item or none: `choice` is the position that it takes, if any.
  unfoldable pub get : SyncPool A → Option ℕ → Option A × SyncPool A
  get p none = (none, p)
  get p (some i) = elim (take_out p.items i) [
    | none ↦ (none, p)
    | some (x, rest) ↦ (some x, record { items = rest; count = p.count - 1 })
  ]

  unfoldable pub put : SyncPool A → A → SyncPool A
  put p x = record { items = x ∷ p.items; count = p.count + 1 }

  -- The garbage collector may take any item out without telling the counter.
  unfoldable pub collect : SyncPool A → ℕ → SyncPool A
  collect p i = elim (take_out p.items i) [ none ↦ p | some (x, rest) ↦ record p { items = rest } ]

  abbrev pub IsCounted : SyncPool A → Type 0
  IsCounted p = length p.items ≤ p.count

  abbrev pub All {κ} : (A → Type κ) → List A → Type κ
  All P [] = Unit
  All P (x ∷ xs) = P x × All P xs

  -- What is taken out leaves the others, and what held of all items holds of it and of them.
  abbrev Taken {κ} : (A → Type κ) → List A → Option (A × List A) → Type κ
  Taken P xs none = Unit
  Taken P xs (some (y, ys)) = (length xs ≡ suc (length ys)) × (All P xs → P y × All P ys)

  take_out-Taken {κ} : (P : A → Type κ) (xs : List A) (i : ℕ) → Taken P xs (take_out xs i)
  take_out-Taken P [] i = tt
  take_out-Taken P (x ∷ xs) zero = (refl, λ h. h)
  take_out-Taken P (x ∷ xs) (suc i) = step (take_out xs i) (take_out-Taken P xs i)
    where
      step :
          (o : Option (A × List A))
          → Taken P xs o
          → Taken P (x ∷ xs) (elim o [ none ↦ none | some (z, zs) ↦ some (z, x ∷ zs) ])
      step none t = tt
      step (some (z, zs)) t = (ap suc t.0, λ h. let (hz, hzs) = t.1 h.1 in (hz, (h.0, hzs)))

  -- What `Get` returns satisfies what all items satisfy, and so do the items that stay.
  abbrev pub Got {κ} : (A → Type κ) → Option A × SyncPool A → Type κ
  Got P (none, p) = All P p.items
  Got P (some x, p) = P x × All P p.items

  pub get-All {κ} :
      (P : A → Type κ) (p : SyncPool A) (choice : Option ℕ) → All P p.items → Got P (get p choice)
  unfolding get
  get-All P p none h = h
  get-All P p (some i) h = step (take_out p.items i) (take_out-Taken P p.items i)
    where
      step :
          (o : Option (A × List A))
          → Taken P p.items o
          → Got P (elim o [
            | none ↦ (none, p)
            | some (x, rest) ↦ (some x, record { items = rest; count = p.count - 1 })
          ])
      step none t = h
      step (some (z, zs)) t = t.1 h

  abbrev Counted : Option A × SyncPool A → Type 0
  Counted (o, p) = IsCounted p

  -- The counter never falls below the number of items, and the source's decrement never goes
  -- below zero.
  pub get-IsCounted :
      (p : SyncPool A) (choice : Option ℕ) → IsCounted p → IsCounted (get p choice).1
  unfolding get
  get-IsCounted p none h = h
  get-IsCounted p (some i) h = step (take_out p.items i) (take_out-Taken (λ _. Unit {0}) p.items i)
    where
      step :
          (o : Option (A × List A))
          → Taken (λ _. Unit {0}) p.items o
          → Counted (elim o [
            | none ↦ (none, p)
            | some (x, rest) ↦ (some x, record { items = rest; count = p.count - 1 })
          ])
      step none t = h
      step (some (z, zs)) t = omega arith

  pub put-IsCounted : (p : SyncPool A) (x : A) → IsCounted p → IsCounted (put p x)
  unfolding put
  put-IsCounted p x h = omega arith
