-- ===== src/Stack/Refinement.antt =====
-- Runs of the lock-free stack are runs of a stack of values.
use gain.Base.{ℕ, ◌+◌, ◌%◌, ◌<◌, ◌≡◌, ◌≢◌, refl, sym, ◌∙◌, ap, List, [], ◌∷◌, length}
use gain.Base.{arith, Bool, true, false, none, ◌==◌, inl, inr, Bool-cases, if◌then◌else◌}
use mathlib.Core.Path.{subst}
use gain.Stack.{Node, Pc, Machine, put_at, call_push, call_pop, u64}
use gain.Stack.{idle, push_begin, push_loaded, push_linked, push_swapped, pushed}
use gain.Stack.{pop_begin, pop_loaded, pop_read, pop_swapped, popped, advance, step, new_stack}
use gain.Stack.Chains.{Knows, Frame, IsLinked}
use gain.Stack.Chains.{AllPublished-Frame, Chain-Frame}
use gain.Stack.Frames.{put_at_self, Frame-call_push}
use gain.Stack.Arguments.{
  HasArguments, none-ne-some, advance-HasArguments, call_push-HasArguments, call_pop-HasArguments,
  asked_label-label,
}
use gain.Stack.Labels.{Label, Does, values, label, asked_label}
use gain.Stack.Labels.{values-Frame, IsLinked-goto, Refines}
use gain.Stack.Steps.{advance-Refines, goes-IsLinked}

false-true : false ≢ true
false-true e = cc

-- A thread that is in no call.
abbrev pub is_free : {A : Type 0} → Pc A → Bool
is_free idle = true
is_free (push_begin a) = false
is_free (push_loaded a top) = false
is_free (push_linked a top) = false
is_free push_swapped = false
is_free pop_begin = false
is_free (pop_loaded a) = false
is_free (pop_read a n) = false
is_free (pop_swapped a v) = false
is_free pushed = true
is_free (popped v) = true

-- A run from the empty stack, with the labels of its steps, the latest first, and the argument of
-- each thread's latest `Push`: a push is labelled with that argument, whatever its node holds.
pub data Trace {A : Type 0} (zero_value : A) (blank : Node A)
    : List (Label A) → (ℕ → A) → Machine A → Type 0 where
  fresh : (args : ℕ → A) → Trace zero_value blank [] args (new_stack blank)
  pushing :
      {ls : List (Label A)} {args : ℕ → A} {m : Machine A} (t : ℕ) (v : A)
      → Trace zero_value blank ls args m
      → is_free (m.threads t) ≡ true
      → Trace zero_value blank ls (put_at args t v) (call_push t v m)
  popping :
      {ls : List (Label A)} {args : ℕ → A} {m : Machine A} (t : ℕ)
      → Trace zero_value blank ls args m
      → is_free (m.threads t) ≡ true
      → Trace zero_value blank ls args (call_pop t m)
  stepping :
      {ls : List (Label A)} {args : ℕ → A} {m : Machine A} (t : ℕ)
      → Trace zero_value blank ls args m
      → Trace zero_value blank
          (asked_label (args t) (m.threads t) m ∷ ls)
          args
          (step zero_value t m)

module _ {A : Type 0} (zero_value : A) (blank : Node A) where
  -- The labels, done one after the other on a stack of values.
  abbrev pub History : List (Label A) → List A → Type 0
  History [] ys = ys ≡ []
  History (l ∷ ls) ys = (xs : List A) × History ls xs × Does l xs ys

  pub record IsRefined (ls : List (Label A)) (args : ℕ → A) (m : Machine A) : Type 0 where
    pub addresses : List ℕ
    pub linked : IsLinked m addresses
    pub history : History ls (values m addresses)
    pub arguments : HasArguments args m

  call_push-IsLinked :
      (m : Machine A) (t : ℕ) (v : A) (cs : List ℕ) → IsLinked m cs → IsLinked (call_push t v m) cs
  unfolding call_push
  call_push-IsLinked m t v cs l =
      IsLinked-goto m n t (push_begin m.allocated) cs cs l f refl
        (record {
          chain = Chain-Frame m.top cs f l.published l.chain;
          published = AllPublished-Frame cs f l.published;
          bounded = λ x p. elim (Bool-cases (m.allocated == x)) [
            | inl e ↦ ground (arith, e)
            | inr e ↦ below x (subst (λ b. (if b then false else m.published x) ≡ true) e p)
          ];
          counted = l.counted;
          measured = l.measured;
          small = l.small;
        })
        (record {
          private = put_at_self m.published m.allocated false;
          below = omega arith;
          mine = put_at_self m.owner m.allocated t;
        })
    where
      n : Machine A
      n = record m {
        nodes = put_at m.nodes m.allocated (record { value = v; next = none });
        owner = put_at m.owner m.allocated t;
        published = put_at m.published m.allocated false;
        allocated = m.allocated + 1;
      }

      f : Frame t m n
      f =
          let g = Frame-call_push m t v l.bounded in
          record { stays = g.stays; others = g.others; grows = g.grows }

      below : (x : ℕ) → m.published x ≡ true → x < m.allocated + 1
      below x p = omega (arith, l.bounded x p)

  call_push-values :
      (m : Machine A) (t : ℕ) (v : A) (cs : List ℕ)
      → IsLinked m cs
      → values (call_push t v m) cs ≡ values m cs
  call_push-values m t v cs l = values-Frame cs (Frame-call_push m t v l.bounded) l.published

  new_stack-IsLinked : IsLinked (new_stack blank) []
  unfolding new_stack
  new_stack-IsLinked = record {
    chain = refl;
    published = tt;
    knows = λ t. tt;
    bounded = λ a e. absurd (false-true e);
    counted = omega arith;
    measured = refl;
    small = omega arith;
  }

  new_stack-HasArguments : (args : ℕ → A) → HasArguments args (new_stack blank)
  unfolding new_stack HasArguments
  new_stack-HasArguments args u a e = absurd (none-ne-some a e)

  step_refined :
      (m : Machine A) (t : ℕ) (ls : List (Label A)) (args : ℕ → A)
      → (r : IsRefined ls args m)
      → Refines m r.addresses (label (m.threads t) m) (step zero_value t m)
      → IsRefined (asked_label (args t) (m.threads t) m ∷ ls) args (step zero_value t m)
  unfolding Refines step
  step_refined m t ls args r (ds, l, d) = record {
    addresses = ds;
    linked = l;
    history = (
      values m r.addresses,
      r.history,
      subst (λ lab. Does lab (values m r.addresses) (values (step zero_value t m) ds))
          (asked_label-label zero_value args m t (m.threads t) refl r.arguments) d,
    );
    arguments = advance-HasArguments zero_value args m t (m.threads t) refl r.arguments;
  }

  -- On every run of any threads from the empty lock-free stack, the nodes behind `top` hold what a
  -- stack of values holds after the same pushes and pops, each push of the argument of its call at
  -- its compare-and-swap, each pop at its own, and a pop of the empty stack at its load; no
  -- thread's node is on the stack before that, and it holds what the thread's latest `Push` was
  -- given.
  pub Trace-IsRefined :
      {ls : List (Label A)} {args : ℕ → A} {m : Machine A}
      → Trace zero_value blank ls args m
      → IsRefined ls args m
  unfolding step call_pop new_stack
  Trace-IsRefined (fresh args) = record {
    addresses = [];
    linked = new_stack-IsLinked;
    history = refl;
    arguments = new_stack-HasArguments args;
  }
  Trace-IsRefined (pushing {ls} {args} {m} t v tr free) =
      let r = Trace-IsRefined tr in
      record {
        addresses = r.addresses;
        linked = call_push-IsLinked m t v r.addresses r.linked;
        history = subst (History ls) (sym (call_push-values m t v r.addresses r.linked)) r.history;
        arguments = call_push-HasArguments args m t v r.linked.knows r.arguments;
      }
  Trace-IsRefined (popping {ls} {args} {m} t tr free) =
      let r = Trace-IsRefined tr in
      record {
        addresses = r.addresses;
        linked = goes-IsLinked m t pop_begin r.addresses r.linked tt;
        history = r.history;
        arguments = call_pop-HasArguments zero_value args m t r.arguments;
      }
  Trace-IsRefined (stepping {ls} {args} {m} t tr) =
      let r = Trace-IsRefined tr in
      step_refined m t ls args r
        (advance-Refines zero_value m t (m.threads t) r.addresses r.linked (r.linked.knows t) refl)

  -- On every run of any threads from the empty stack, a pop that has taken a node off returns the
  -- value that stood in it then.
  pub pop_swapped-popped :
      {ls : List (Label A)} {args : ℕ → A} {m : Machine A} (t a : ℕ) (v : A)
      → Trace zero_value blank ls args m
      → m.threads t ≡ pop_swapped a v
      → (step zero_value t m).threads t ≡ popped v
  unfolding step advance
  pop_swapped-popped {m} t a v tr e =
      let k = subst (λ pc. Knows m t pc) e ((Trace-IsRefined tr).linked.knows t) in
      rw e (put_at_self m.threads t (popped (m.nodes a).value) ∙ ap popped k.1)

  -- When every increment and decrement of the counter is done, the counter is the number of
  -- nodes on the stack, modulo 2^64.
  pub len-settled :
      {ls : List (Label A)} {args : ℕ → A} {m : Machine A}
      → (tr : Trace zero_value blank ls args m) → m.increments ≡ m.pushes
      → m.decrements ≡ m.pops
      → m.len ≡ length (Trace-IsRefined tr).addresses % u64
  len-settled {m} tr inc dec =
      let l = (Trace-IsRefined tr).linked in omega (arith, l.counted, l.measured, l.small)
