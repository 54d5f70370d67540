-- ===== src/Base/Panic.antt =====
-- What a Go call does: it returns, or it panics.
use mathlib.Core.Bool.{Bool, true, false}
use gain.Base.Tests.{if◌then◌else◌}

pub data Outcome {ℓ} (A : Type ℓ) : Type ℓ where
  ret : A → Outcome A
  panic : Outcome A

infixl 5 ◌>>=◌ ◌>>◌
abbrev pub ◌>>=◌ {ℓ κ} : {A : Type ℓ} {B : Type κ} → Outcome A → (A → Outcome B) → Outcome B
ret a >>= f = f a
panic >>= f = panic

abbrev pub ◌>>◌ {ℓ κ} : {A : Type ℓ} {B : Type κ} → Outcome A → Outcome B → Outcome B
m >> k = m >>= λ _. k

-- The call returns, and what it returns satisfies `P`.
abbrev pub Returns {ℓ} : {A : Type ℓ} → Outcome A → (A → Type 0) → Type 0
Returns (ret a) P = P a
Returns panic P = ⊥

pub Returns->>= {ℓ κ} :
    {A : Type ℓ} {B : Type κ} (P : A → Type 0) (Q : B → Type 0) (m : Outcome A) (f : A → Outcome B)
    → Returns m P
    → ((a : A) → P a → Returns (f a) Q)
    → Returns (m >>= f) Q
Returns->>= P Q (ret a) f h k = k a h
Returns->>= P Q panic f h k = absurd h

-- Whatever is returned satisfies it; a panic ends the program.
abbrev pub Safe {ℓ κ} : {A : Type ℓ} → Outcome A → (A → Type κ) → Type κ
Safe (ret x) P = P x
Safe panic P = Unit

pub Safe->>= {ℓ κ λ' μ} :
    {A : Type ℓ} {B : Type κ} (P : A → Type λ') (Q : B → Type μ) (m : Outcome A) (f : A → Outcome B)
    → Safe m P
    → ((x : A) → P x → Safe (f x) Q)
    → Safe (m >>= f) Q
Safe->>= P Q (ret x) f h k = k x h
Safe->>= P Q panic f h k = tt

pub Safe-weaken {ℓ κ μ} :
    {A : Type ℓ} {P : A → Type κ} {Q : A → Type μ} (m : Outcome A)
    → Safe m P
    → ((x : A) → P x → Q x)
    → Safe m Q
Safe-weaken (ret x) h k = k x h
Safe-weaken panic h k = tt

pub Returns-weaken {ℓ} :
    {A : Type ℓ} {P Q : A → Type 0} (m : Outcome A)
    → Returns m P
    → ((x : A) → P x → Q x)
    → Returns m Q
Returns-weaken (ret x) h k = k x h
Returns-weaken panic h k = absurd h

pub Safe-bind {ℓ κ μ} :
    {A : Type ℓ} {B : Type κ} (Q : B → Type μ) (m : Outcome A) (f : A → Outcome B)
    → ((x : A) → Safe (f x) Q)
    → Safe (m >>= f) Q
Safe-bind Q (ret x) f k = k x
Safe-bind Q panic f k = tt

pub Safe-if {ℓ κ} :
    {A : Type ℓ} (P : A → Type κ) (b : Bool) (m n : Outcome A)
    → Safe m P
    → Safe n P
    → Safe (if b then m else n) P
Safe-if P true m n h k = h
Safe-if P false m n h k = k

pub Safe-Returns {ℓ} : {A : Type ℓ} (P : A → Type 0) (m : Outcome A) → Returns m P → Safe m P
Safe-Returns P (ret x) h = h
Safe-Returns P panic h = tt

pub Safe-both {ℓ} :
    {A : Type ℓ} (P Q : A → Type 0) (m : Outcome A) → Safe m P → Safe m Q → Safe m (λ x. P x × Q x)
Safe-both P Q (ret x) h k = (h, k)
Safe-both P Q panic h k = tt
