-- ===== src/Stack/Arguments.antt =====
-- The node of a `Push` under way holds what the call was given.
use gain.Base.{ℕ, ◌<◌, ◌≡◌, ◌≢◌, refl, sym, ◌∙◌, ap, arith, Bool, Option, none, some}
use gain.Base.{◌==◌, if◌then◌else◌, inl, inr, Bool-cases, ==_iff}
use mathlib.Core.Path.{subst}
use gain.Stack.{Node, Pc, Machine, put_at, goto, link, publish, take_off, same, call_push, call_pop}
use gain.Stack.{idle, push_begin, push_loaded, push_linked, push_swapped, pushed}
use gain.Stack.{pop_begin, pop_loaded, pop_read, pop_swapped, popped, advance, load_top}
use gain.Stack.Chains.{Knows}
use gain.Stack.Frames.{put_at_self, put_at_ne}
use gain.Stack.Labels.{label, asked_label}

-- The node that a `Push` holds before it is on the stack.
abbrev pub item : {A : Type 0} → Pc A → Option ℕ
item (push_begin a) = some a
item (push_loaded a top) = some a
item (push_linked a top) = some a
item _ = none

pub none-ne-some : (a : ℕ) → none ≢ some a
none-ne-some a e = cc

nothing : {o : Option ℕ} (a : ℕ) → none ≡ some a → o ≡ some a
nothing a e = absurd (none-ne-some a e)

some_inj : (a b : ℕ) → some a ≡ some b → a ≡ b
some_inj a b e = cc

module _ {A : Type 0} where
  -- `args` has the argument of each thread's latest `Push`.
  unfoldable pub HasArguments : (ℕ → A) → Machine A → Type 0
  HasArguments args m = (u a : ℕ) → item (m.threads u) ≡ some a → (m.nodes a).value ≡ args u

  goto-HasArguments :
      (args : ℕ → A) (m n : Machine A) (t : ℕ) (pc : Pc A)
      → HasArguments args m
      → n.threads ≡ m.threads
      → ((a : ℕ) → (n.nodes a).value ≡ (m.nodes a).value)
      → ((a : ℕ) → item pc ≡ some a → item (m.threads t) ≡ some a)
      → HasArguments args (goto t pc n)
  unfolding HasArguments
  goto-HasArguments args m n t pc h threads values own u a e = elim (Bool-cases (t == u)) [
    | inl eq ↦
        let t_u = (==_iff t u).0 eq in
        values a
        ∙ h u a (
            subst (λ x. item (m.threads x) ≡ some a) t_u
              (own a (subst (λ b. item (if b then pc else n.threads u) ≡ some a) eq e)))
    | inr ne ↦
        values a
        ∙ h u a (
            subst (λ th. item (th u) ≡ some a) threads
              (subst (λ b. item (if b then pc else n.threads u) ≡ some a) ne e))
  ]

  link-value :
      (m : Machine A) (b : ℕ) (top : Option ℕ) (a : ℕ)
      → ((link b top m).nodes a).value ≡ (m.nodes a).value
  link-value m b top a = elim (Bool-cases (b == a)) [
    | inl eq ↦ rw eq (ap (λ x. (m.nodes x).value) ((==_iff b a).0 eq))
    | inr ne ↦ rw ne refl
  ]

  module _ (zero_value : A) (args : ℕ → A) where
    loads-HasArguments :
        (m : Machine A) (t : ℕ) (top : Option ℕ)
        → HasArguments args m
        → HasArguments args (load_top t zero_value top m)
    loads-HasArguments m t none h =
        goto-HasArguments args m m t (popped zero_value) h refl (λ a. refl) nothing
    loads-HasArguments m t (some b) h =
        goto-HasArguments args m m t (pop_loaded b) h refl (λ a. refl) nothing

    pub advance-HasArguments :
        (m : Machine A) (t : ℕ) (pc : Pc A)
        → m.threads t ≡ pc
        → HasArguments args m
        → HasArguments args (advance zero_value t pc m)
    unfolding advance
    advance-HasArguments m t idle s h = h
    advance-HasArguments m t (push_begin b) s h =
        goto-HasArguments args m m t _ h refl (λ a. refl) (λ a e. ap item s ∙ e)
    advance-HasArguments m t (push_loaded b top) s h =
        goto-HasArguments args m (link b top m) t _ h refl (link-value m b top)
          (λ a e. ap item s ∙ e)
    advance-HasArguments m t (push_linked b top) s h = elim (Bool-cases (same m.top top)) [
      | inl eq ↦
          rw eq (goto-HasArguments args m (publish b m) t push_swapped h refl (λ a. refl) nothing)
      | inr ne ↦
          rw ne
            (goto-HasArguments args m m t (push_begin b) h refl (λ a. refl) (λ a e. ap item s ∙ e))
    ]
    advance-HasArguments m t push_swapped s h =
        goto-HasArguments args m (record m { len = _; increments = _ }) t pushed h refl (λ a. refl)
          nothing
    advance-HasArguments m t pop_begin s h = loads-HasArguments m t m.top h
    advance-HasArguments m t (pop_loaded b) s h =
        goto-HasArguments args m m t _ h refl (λ a. refl) nothing
    advance-HasArguments m t (pop_read b n) s h = elim (Bool-cases (same m.top (some b))) [
      | inl eq ↦ rw eq (
          goto-HasArguments args m (take_off n m) t (pop_swapped b (m.nodes b).value) h refl
            (λ a. refl) nothing)
      | inr ne ↦ rw ne (goto-HasArguments args m m t pop_begin h refl (λ a. refl) nothing)
    ]
    advance-HasArguments m t (pop_swapped b v) s h =
        goto-HasArguments args m (record m { len = _; decrements = _ }) t (popped (m.nodes b).value)
          h refl (λ a. refl) nothing
    advance-HasArguments m t pushed s h = h
    advance-HasArguments m t (popped v) s h = h

    pub call_pop-HasArguments :
        (m : Machine A) (t : ℕ) → HasArguments args m → HasArguments args (call_pop t m)
    unfolding call_pop
    call_pop-HasArguments m t h = goto-HasArguments args m m t pop_begin h refl (λ a. refl) nothing

    -- What a push is labelled with is what its node holds.
    pub asked_label-label :
        (m : Machine A) (t : ℕ) (pc : Pc A)
        → m.threads t ≡ pc
        → HasArguments args m
        → label pc m ≡ asked_label (args t) pc m
    unfolding label asked_label HasArguments
    asked_label-label m t idle s h = refl
    asked_label-label m t (push_begin a) s h = refl
    asked_label-label m t (push_loaded a top) s h = refl
    asked_label-label m t (push_linked a top) s h = rw (h t a (ap item s)) refl
    asked_label-label m t push_swapped s h = refl
    asked_label-label m t pop_begin s h = refl
    asked_label-label m t (pop_loaded a) s h = refl
    asked_label-label m t (pop_read a n) s h = refl
    asked_label-label m t (pop_swapped a v) s h = refl
    asked_label-label m t pushed s h = refl
    asked_label-label m t (popped v) s h = refl

  below :
      (m : Machine A) (t : ℕ) (pc : Pc A) (a : ℕ)
      → Knows m t pc
      → item pc ≡ some a
      → a < m.allocated
  below m t (push_begin b) a k e = let o = k.below in ground (arith, some_inj b a e)
  below m t (push_loaded b top) a k e = let o = k.below in ground (arith, some_inj b a e)
  below m t (push_linked b top) a k e = let o = k.0.below in ground (arith, some_inj b a e)
  below m t idle a k e = absurd (none-ne-some a e)
  below m t push_swapped a k e = absurd (none-ne-some a e)
  below m t pop_begin a k e = absurd (none-ne-some a e)
  below m t (pop_loaded b) a k e = absurd (none-ne-some a e)
  below m t (pop_read b n) a k e = absurd (none-ne-some a e)
  below m t (pop_swapped b v) a k e = absurd (none-ne-some a e)
  below m t pushed a k e = absurd (none-ne-some a e)
  below m t (popped v) a k e = absurd (none-ne-some a e)

  pub call_push-HasArguments :
      (args : ℕ → A) (m : Machine A) (t : ℕ) (v : A)
      → ((u : ℕ) → Knows m u (m.threads u))
      → HasArguments args m
      → HasArguments (put_at args t v) (call_push t v m)
  unfolding HasArguments call_push
  call_push-HasArguments args m t v knows h u a e = elim (Bool-cases (t == u)) [
    | inl eq ↦
        let own = some_inj m.allocated a (subst (λ b. item (at_thread b) ≡ some a) eq e) in
        ap (λ x. (stored x).value) (sym own)
        ∙ ap (λ x. x.value) (put_at_self m.nodes m.allocated (record { value = v; next = none }))
        ∙ rw eq refl
    | inr ne ↦
        let old = subst (λ b. item (at_thread b) ≡ some a) ne e in
        let low = below m u (m.threads u) a (knows u) old in
        ap (λ x. x.value)
          (put_at_ne m.nodes m.allocated (record { value = v; next = none }) a
            (λ eq. omega (arith, low, eq)))
        ∙ h u a old
        ∙ rw ne refl
  ]
    where
      at_thread : Bool → Pc A
      at_thread b = if b then push_begin m.allocated else m.threads u

      stored : ℕ → Node A
      stored = put_at m.nodes m.allocated (record { value = v; next = none })
