-- ===== src/Stack/Steps.antt =====
-- Each step of the lock-free stack is a step of a stack of values, or none.
use gain.Base.{ℕ, suc, ◌+◌, ◌%◌, ◌<◌, ◌≡◌, ◌≢◌, refl, sym, ◌∙◌, ap, List, [], ◌∷◌}
use gain.Base.{arith, true, Option, none, some, ◌==◌, if◌then◌else◌}
use gain.Base.{inl, inr, Bool-cases, ==_iff}
use mathlib.Core.Path.{subst}
use gain.Stack.{Pc, Machine, goto, link, publish, take_off, same, u64}
use gain.Stack.{idle, push_begin, push_loaded, push_linked, push_swapped, pushed}
use gain.Stack.{pop_begin, pop_loaded, pop_read, pop_swapped, popped, advance, load_top}
use gain.Stack.Chains.{Chain, IsOwned, Knows, Knows-Frame, Frame, IsLinked}
use gain.Stack.Chains.{AllPublished-Frame, Chain-Frame}
use gain.Stack.Frames.{put_at_self, Frame-refl, Frame-link, Frame-take_off}
use gain.Stack.Frames.{Frame-publish}
use gain.Stack.Labels.{internal, push, pop, values, label, at_load}
use gain.Stack.Labels.{values-Frame, IsLinked-goto, IsLinked-IsWhole, Refines}

same-eq : (a b : Option ℕ) → same a b ≡ true → a ≡ b
same-eq none none e = refl
same-eq none (some b) e = cc
same-eq (some a) none e = cc
same-eq (some a) (some b) e = ap some ((==_iff a b).0 e)

none-some : (a : ℕ) → none ≢ some a
none-some a e = cc

module _ {A : Type 0} where
  pub goes-IsLinked :
      (m : Machine A) (t : ℕ) (pc : Pc A) (cs : List ℕ)
      → IsLinked m cs
      → Knows m t pc
      → IsLinked (goto t pc m) cs
  goes-IsLinked m t pc cs l k =
      IsLinked-goto m m t pc cs cs l (Frame-refl m t) refl (IsLinked-IsWhole l) k

  goes :
      (m : Machine A) (t : ℕ) (pc : Pc A) (cs : List ℕ)
      → IsLinked m cs
      → Knows m t pc
      → Refines m cs internal (goto t pc m)
  unfolding Refines
  goes m t pc cs l k = (cs, goes-IsLinked m t pc cs l k, refl)

  links :
      (m : Machine A) (t a : ℕ) (top : Option ℕ) (cs : List ℕ)
      → IsLinked m cs
      → IsOwned m t a
      → Refines m cs internal (goto t (push_linked a top) (link a top m))
  unfolding Refines
  links m t a top cs l o =
      let f = Frame-link m t a top o in
      (
        cs,
        IsLinked-goto m (link a top m) t (push_linked a top) cs cs l f refl
            (record {
              chain = Chain-Frame m.top cs f l.published l.chain;
              published = AllPublished-Frame cs f l.published;
              bounded = l.bounded;
              counted = l.counted;
              measured = l.measured;
              small = l.small;
            })
            (
              record { private = o.private; below = o.below; mine = o.mine },
              ap (λ x. x.next) (put_at_self m.nodes a (record (m.nodes a) { next = top })),
            ),
        values-Frame cs f l.published,
      )

  publishes :
      (m : Machine A) (t a : ℕ) (top : Option ℕ) (cs : List ℕ)
      → IsLinked m cs
      → IsOwned m t a
      → (m.nodes a).next ≡ m.top
      → Refines m cs (push (m.nodes a).value) (goto t push_swapped (publish a m))
  unfolding Refines
  publishes m t a top cs l o e =
      let f = Frame-publish m t a o in
      (
        a ∷ cs,
        IsLinked-goto m (publish a m) t push_swapped cs (a ∷ cs) l f refl
            (record {
              chain = (refl, subst (λ x. Chain m.nodes x cs) (sym e) l.chain);
              published = (put_at_self m.published a true, AllPublished-Frame cs f l.published);
              bounded = λ x p. elim (Bool-cases (a == x)) [
                | inl eq ↦ ground (arith, o, eq)
                | inr ne ↦
                    l.bounded x (subst (λ b. (if b then true else m.published x) ≡ true) ne p)
              ];
              counted = omega (arith, l.counted);
              measured = l.measured;
              small = l.small;
            })
            tt,
        refl,
      )

  takes :
      (m : Machine A) (t a : ℕ) (n : Option ℕ) (cs : List ℕ)
      → IsLinked m cs
      → m.published a ≡ true
      → (m.nodes a).next ≡ n
      → m.top ≡ some a
      → Refines m cs
          (pop (m.nodes a).value)
          (goto t (pop_swapped a (m.nodes a).value) (take_off n m))
  unfolding Refines
  takes m t a n [] l p e s = absurd (none-some a (sym l.chain ∙ s))
  takes m t a n (c ∷ cs) l p e s = (
    cs,
    IsLinked-goto m (take_off n m) t (pop_swapped a (m.nodes a).value) (c ∷ cs) cs l f refl
        (record {
          chain = subst (λ x. Chain m.nodes x cs) (ap (λ x. (m.nodes x).next) c-eq-a ∙ e) l.chain.1;
          published = AllPublished-Frame cs f l.published.1;
          bounded = l.bounded;
          counted = omega (arith, l.counted);
          measured = l.measured;
          small = l.small;
        })
        (p, refl),
    ap (λ x. (m.nodes x).value ∷ values m cs) c-eq-a,
  )
    where
      f : Frame t m (take_off n m)
      f = Frame-take_off m t n

      c-eq-a : c ≡ a
      c-eq-a = let first = l.chain.0 in cc

  -- An increment or a decrement of `len`.
  counts :
      (m : Machine A) (t : ℕ) (pc : Pc A) (l' i d : ℕ) (cs : List ℕ)
      → IsLinked m cs
      → (l' + d) % u64 ≡ i % u64
      → l' < u64
      → Knows m t pc
      → Refines m cs internal (goto t pc (record m { len = l'; increments = i; decrements = d }))
  unfolding Refines
  counts m t pc l' i d cs l e small k = (
    cs,
    IsLinked-goto m n t pc cs cs l (f t) refl
        (record {
          chain = l.chain;
          published = AllPublished-Frame cs (f t) l.published;
          bounded = l.bounded;
          counted = l.counted;
          measured = e;
          small = small;
        })
        (Knows-Frame {t = suc t} pc (f (suc t)) (λ eq. omega (arith, eq)) k),
    refl,
  )
    where
      n : Machine A
      n = record m { len = l'; increments = i; decrements = d }

      f : (u : ℕ) → Frame u m n
      f u = record {
        stays = λ a p. (p, refl);
        others = λ a b o. (refl, refl, refl);
        grows = omega arith;
      }

  module _ (zero_value : A) where
    loads :
        (m : Machine A) (t : ℕ) (cs : List ℕ) (top : Option ℕ)
        → m.top ≡ top
        → IsLinked m cs
        → Refines m cs (at_load top) (load_top t zero_value top m)
    unfolding Refines
    loads m t [] none e l = ([], goes-IsLinked m t (popped zero_value) [] l tt, (refl, refl))
    loads m t (c ∷ cs) none e l = absurd (none-some c (sym e ∙ l.chain.0))
    loads m t [] (some a) e l = absurd (none-some a (sym l.chain ∙ e))
    loads m t (c ∷ cs) (some a) e l =
        (c ∷ cs, goes-IsLinked m t (pop_loaded a) (c ∷ cs) l known, refl)
      where
        known : m.published a ≡ true
        known = let first = l.chain.0 in let p = l.published.0 in cc

    pub advance-Refines :
        (m : Machine A) (t : ℕ) (pc : Pc A) (cs : List ℕ)
        → IsLinked m cs
        → Knows m t pc
        → m.threads t ≡ pc
        → Refines m cs (label pc m) (advance zero_value t pc m)
    unfolding label advance Refines
    advance-Refines m t idle cs l k e = (cs, l, refl)
    advance-Refines m t (push_begin a) cs l k e = goes m t (push_loaded a m.top) cs l k
    advance-Refines m t (push_loaded a top) cs l k e = links m t a top cs l k
    advance-Refines m t (push_linked a top) cs l k e = elim (Bool-cases (same m.top top)) [
      | inl eq ↦ rw eq (publishes m t a top cs l k.0 (k.1 ∙ sym (same-eq m.top top eq)))
      | inr ne ↦ rw ne (goes m t (push_begin a) cs l k.0)
    ]
    advance-Refines m t push_swapped cs l k e =
        counts m t pushed _ _ _ cs l (omega (arith, l.measured)) (omega arith) tt
    advance-Refines m t pop_begin cs l k e = loads m t cs m.top refl l
    advance-Refines m t (pop_loaded a) cs l k e =
        goes m t (pop_read a (m.nodes a).next) cs l (k, refl)
    advance-Refines m t (pop_read a n) cs l k e = elim (Bool-cases (same m.top (some a))) [
      | inl eq ↦ rw eq (takes m t a n cs l k.0 k.1 (same-eq m.top (some a) eq))
      | inr ne ↦ rw ne (goes m t pop_begin cs l tt)
    ]
    advance-Refines m t (pop_swapped a v) cs l k e =
        counts m t (popped (m.nodes a).value) _ _ _ cs l (omega (arith, l.measured, l.small))
          (omega arith) tt
    advance-Refines m t pushed cs l k e = (cs, l, refl)
    advance-Refines m t (popped v) cs l k e = (cs, l, refl)
