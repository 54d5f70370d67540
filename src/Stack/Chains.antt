-- ===== src/Stack/Chains.antt =====
-- The chain of nodes behind `top`, what each thread knows, and what other threads leave alone.
use gain.Base.{ℕ, ◌+◌, ◌%◌, ◌≤◌, ◌<◌, ◌≡◌, ◌≢◌, sym, ◌∙◌, ap, List, [], ◌∷◌, arith, true, false}
use gain.Base.{Option, none, some, length}
use mathlib.Core.Path.{subst}
use gain.Stack.{Node, Pc, Machine, u64}
use gain.Stack.{idle, push_begin, push_loaded, push_linked, push_swapped, pushed}
use gain.Stack.{pop_begin, pop_loaded, pop_read, pop_swapped, popped}

module _ {A : Type 0} where
  -- The addresses from a pointer on, down to nil.
  abbrev pub Chain : (ℕ → Node A) → Option ℕ → List ℕ → Type 0
  Chain nodes top [] = top ≡ none
  Chain nodes top (a ∷ cs) = (top ≡ some a) × Chain nodes (nodes a).next cs

  abbrev pub AllPublished : Machine A → List ℕ → Type 0
  AllPublished m [] = Unit
  AllPublished m (a ∷ cs) = (m.published a ≡ true) × AllPublished m cs

  -- A node that thread `t` has allocated and not published.
  pub record IsOwned (m : Machine A) (t a : ℕ) : Type 0 where
    pub private : m.published a ≡ false
    pub below : a < m.allocated
    pub mine : m.owner a ≡ t

  -- What a thread may rely on where it stands.
  abbrev pub Knows : Machine A → ℕ → Pc A → Type 0
  Knows m t idle = Unit
  Knows m t (push_begin a) = IsOwned m t a
  Knows m t (push_loaded a top) = IsOwned m t a
  Knows m t (push_linked a top) = IsOwned m t a × ((m.nodes a).next ≡ top)
  Knows m t push_swapped = Unit
  Knows m t pop_begin = Unit
  Knows m t (pop_loaded a) = m.published a ≡ true
  Knows m t (pop_read a n) = (m.published a ≡ true) × ((m.nodes a).next ≡ n)
  Knows m t (pop_swapped a v) = (m.published a ≡ true) × ((m.nodes a).value ≡ v)
  Knows m t pushed = Unit
  Knows m t (popped v) = Unit

  -- What a step of thread `t` leaves alone.
  pub record Frame (t : ℕ) (m n : Machine A) : Type 0 where
    pub stays : (a : ℕ) → m.published a ≡ true → (n.published a ≡ true) × (n.nodes a ≡ m.nodes a)
    pub others :
        (a : ℕ)
        → a < m.allocated
        → m.owner a ≢ t
        → (n.published a ≡ m.published a) × (n.nodes a ≡ m.nodes a) × (n.owner a ≡ m.owner a)
    pub grows : m.allocated ≤ n.allocated

  IsOwned-Frame :
      {t u a : ℕ} {m n : Machine A} → Frame t m n → u ≢ t → IsOwned m u a → IsOwned n u a
  IsOwned-Frame {t} {u} {a} {m} {n} f ne o =
      let (p, q, r) = f.others a o.below (λ e. ne (sym o.mine ∙ e)) in
      record { private = p ∙ o.private; below = omega (arith, f.grows, o.below); mine = r ∙ o.mine }

  pub Knows-Frame :
      {t u : ℕ} {m n : Machine A} (pc : Pc A) → Frame t m n → u ≢ t → Knows m u pc → Knows n u pc
  Knows-Frame idle f ne k = tt
  Knows-Frame (push_begin a) f ne k = IsOwned-Frame f ne k
  Knows-Frame (push_loaded a top) f ne k = IsOwned-Frame f ne k
  Knows-Frame (push_linked a top) f ne (o, e) = (
    IsOwned-Frame f ne o,
    ap (λ x. x.next) (f.others a o.below (λ e'. ne (sym o.mine ∙ e'))).1 ∙ e,
  )
  Knows-Frame push_swapped f ne k = tt
  Knows-Frame pop_begin f ne k = tt
  Knows-Frame (pop_loaded a) f ne k = (f.stays a k).0
  Knows-Frame (pop_read a next) f ne (p, e) =
      ((f.stays a p).0, ap (λ x. x.next) (f.stays a p).1 ∙ e)
  Knows-Frame (pop_swapped a v) f ne (p, e) =
      ((f.stays a p).0, ap (λ x. x.value) (f.stays a p).1 ∙ e)
  Knows-Frame pushed f ne k = tt
  Knows-Frame (popped v) f ne k = tt

  pub AllPublished-Frame :
      {t : ℕ} {m n : Machine A} (cs : List ℕ) → Frame t m n → AllPublished m cs → AllPublished n cs
  AllPublished-Frame [] f p = tt
  AllPublished-Frame (a ∷ cs) f (p, ps) = ((f.stays a p).0, AllPublished-Frame cs f ps)

  pub Chain-Frame :
      {t : ℕ} {m n : Machine A} (top : Option ℕ) (cs : List ℕ)
      → Frame t m n
      → AllPublished m cs
      → Chain m.nodes top cs
      → Chain n.nodes top cs
  Chain-Frame top [] f p c = c
  Chain-Frame {m} {n} top (a ∷ cs) f (p, ps) (e, c) = (
    e,
    subst (λ x. Chain n.nodes x cs) (ap (λ x. x.next) (sym (f.stays a p).1))
        (Chain-Frame (m.nodes a).next cs f ps c),
  )

  -- The invariant, of the machine and the addresses on its stack.
  pub record IsLinked (m : Machine A) (cs : List ℕ) : Type 0 where
    pub chain : Chain m.nodes m.top cs
    pub published : AllPublished m cs
    pub knows : (t : ℕ) → Knows m t (m.threads t)
    pub bounded : (a : ℕ) → m.published a ≡ true → a < m.allocated
    pub counted : length cs + m.pops ≡ m.pushes
    pub measured : (m.len + m.decrements) % u64 ≡ m.increments % u64
    pub small : m.len < u64
