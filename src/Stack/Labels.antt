-- ===== src/Stack/Labels.antt =====
-- What a step of the lock-free stack does to a stack of values, and how the invariant is kept.
use gain.Base.{ℕ, suc, ◌+◌, ◌%◌, ◌<◌, ◌≡◌, refl, sym, List, [], ◌∷◌, map, length}
use gain.Base.{arith, true, Option, none, some, ◌==◌, if◌then◌else◌}
use gain.Base.{inl, inr, Bool-cases, ==_iff}
use mathlib.Core.Path.{subst}
use gain.Stack.{Pc, Machine, put_at, goto, same, u64}
use gain.Stack.{push_linked}
use gain.Stack.{pop_begin, pop_read}
use gain.Stack.Chains.{Chain, AllPublished, Knows, Knows-Frame, Frame, IsLinked}
use gain.Stack.Chains.{AllPublished-Frame}
use gain.Stack.Frames.{Frame-goto, Frame-goto_behind}

-- What a step does to the stack of values.
pub data Label (A : Type 0) : Type 0 where
  internal : Label A
  push : A → Label A
  pop : A → Label A
  pop_empty : Label A

module _ {A : Type 0} where
  abbrev pub Does : Label A → List A → List A → Type 0
  Does internal xs ys = ys ≡ xs
  Does (push v) xs ys = ys ≡ v ∷ xs
  Does (pop v) xs ys = xs ≡ v ∷ ys
  Does pop_empty xs ys = (xs ≡ []) × (ys ≡ [])

  abbrev pub values : Machine A → List ℕ → List A
  values m cs = map (λ a. (m.nodes a).value) cs

  abbrev pub at_load : Option ℕ → Label A
  at_load none = pop_empty
  at_load (some a) = internal

  -- A push and a pop happen at their compare-and-swap, a pop of the empty stack at its load.
  unfoldable pub label : Pc A → Machine A → Label A
  label (push_linked a top) m = if same m.top top then push (m.nodes a).value else internal
  label (pop_read a n) m = if same m.top (some a) then pop (m.nodes a).value else internal
  label pop_begin m = at_load m.top
  label _ m = internal

  -- The same with the argument of the thread's latest `Push`, whatever its node holds.
  unfoldable pub asked_label : A → Pc A → Machine A → Label A
  asked_label v (push_linked a top) m = if same m.top top then push v else internal
  asked_label v pc m = label pc m

  threads-Knows :
      (m n : Machine A) (t : ℕ) (pc : Pc A)
      → Frame t m n
      → ((u : ℕ) → Knows m u (n.threads u))
      → Knows n t pc
      → (u : ℕ) → Knows (goto t pc n) u (put_at n.threads t pc u)
  threads-Knows m n t pc f ks k u = elim (Bool-cases (t == u)) [
    | inl e ↦ rw e (
        Knows-Frame {t = suc u} pc (Frame-goto n (suc u) t pc) (λ e'. omega (arith, e'))
          (subst (λ x. Knows n x pc) ((==_iff t u).0 e) k))
    | inr e ↦ rw e (
        Knows-Frame (n.threads u) (Frame-goto_behind m n t t pc f)
          (λ e'. absurd (ground (arith, e'))) (ks u))
  ]

  pub values-Frame :
      {t : ℕ} {m n : Machine A} (cs : List ℕ)
      → Frame t m n
      → AllPublished m cs
      → values n cs ≡ values m cs
  values-Frame [] f p = refl
  values-Frame (a ∷ cs) f (p, ps) = let e = (f.stays a p).1 in let es = values-Frame cs f ps in cc

  -- The part of the invariant that is about the stack itself.
  pub record IsWhole (m : Machine A) (cs : List ℕ) : Type 0 where
    pub chain : Chain m.nodes m.top cs
    pub published : AllPublished m cs
    pub bounded : (a : ℕ) → m.published a ≡ true → a < m.allocated
    pub counted : length cs + m.pops ≡ m.pushes
    pub measured : (m.len + m.decrements) % u64 ≡ m.increments % u64
    pub small : m.len < u64

  pub IsLinked-goto :
      (m n : Machine A) (t : ℕ) (pc : Pc A) (cs ds : List ℕ)
      → IsLinked m cs
      → Frame t m n
      → n.threads ≡ m.threads
      → IsWhole n ds
      → Knows n t pc
      → IsLinked (goto t pc n) ds
  IsLinked-goto m n t pc cs ds l f e w k = record {
    chain = w.chain;
    published = AllPublished-Frame ds (Frame-goto n t t pc) w.published;
    knows = threads-Knows m n t pc f (λ u. subst (λ th. Knows m u (th u)) (sym e) (l.knows u)) k;
    bounded = w.bounded;
    counted = w.counted;
    measured = w.measured;
    small = w.small;
  }

  pub IsLinked-IsWhole : {m : Machine A} {cs : List ℕ} → IsLinked m cs → IsWhole m cs
  IsLinked-IsWhole l = record {
    chain = l.chain;
    published = l.published;
    bounded = l.bounded;
    counted = l.counted;
    measured = l.measured;
    small = l.small;
  }

  -- The step, with the addresses behind it.
  unfoldable pub Refines : Machine A → List ℕ → Label A → Machine A → Type 0
  Refines m cs lab n = (ds : List ℕ) × IsLinked n ds × Does lab (values m cs) (values n ds)
