-- ===== src/Stack/Frames.antt =====
-- What each kind of step leaves alone.
use gain.Base.{ℕ, ◌<◌, ◌≡◌, ◌≢◌, refl, sym, ◌∙◌, ap, arith, true, false, Option}
use gain.Base.{◌==◌, inl, inr, Bool-cases, ==_iff}
use gain.Stack.{Pc, Machine, put_at, goto, call_push, link, publish, take_off}
use gain.Stack.Chains.{Frame, IsOwned}

pub put_at_self {ℓ} : {B : Type ℓ} (f : ℕ → B) (i : ℕ) (b : B) → put_at f i b i ≡ b
put_at_self f i b = rw ((==_iff i i).1 refl)

pub put_at_ne {ℓ} : {B : Type ℓ} (f : ℕ → B) (i : ℕ) (b : B) (j : ℕ) → i ≢ j → put_at f i b j ≡ f j
put_at_ne f i b j ne = elim (Bool-cases (i == j)) [
  | inl e ↦ absurd (ne ((==_iff i j).0 e))
  | inr e ↦ rw e
]

module _ {A : Type 0} where
  pub Frame-refl : (m : Machine A) (t : ℕ) → Frame t m m
  Frame-refl m t = record {
    stays = λ a p. (p, refl);
    others = λ a b o. (refl, refl, refl);
    grows = omega arith;
  }

  pub Frame-take_off : (m : Machine A) (t : ℕ) (n : Option ℕ) → Frame t m (take_off n m)
  Frame-take_off m t n = record {
    stays = λ a p. (p, refl);
    others = λ a b o. (refl, refl, refl);
    grows = omega arith;
  }

  pub Frame-goto : (m : Machine A) (t u : ℕ) (pc : Pc A) → Frame t m (goto u pc m)
  Frame-goto m t u pc = record {
    stays = λ a p. (p, refl);
    others = λ a b o. (refl, refl, refl);
    grows = omega arith;
  }

  pub Frame-goto_behind :
      (m n : Machine A) (t u : ℕ) (pc : Pc A) → Frame t m n → Frame t m (goto u pc n)
  Frame-goto_behind m n t u pc f = record { stays = f.stays; others = f.others; grows = f.grows }

  pub Frame-link :
      (m : Machine A) (t a : ℕ) (top : Option ℕ) → IsOwned m t a → Frame t m (link a top m)
  Frame-link m t a top o = record {
    stays = λ x p. (p, put_at_ne m.nodes a _ x (λ e. cc));
    others =
        λ x b ne. (refl, put_at_ne m.nodes a _ x (λ e. ne (ap m.owner (sym e) ∙ o.mine)), refl);
    grows = omega arith;
  }

  pub Frame-publish : (m : Machine A) (t a : ℕ) → IsOwned m t a → Frame t m (publish a m)
  Frame-publish m t a o = record {
    stays = λ x p. (elim (Bool-cases (a == x)) [ inl e ↦ rw e | inr e ↦ rw e p ], refl);
    others = λ x b ne.
        (put_at_ne m.published a true x (λ e. ne (ap m.owner (sym e) ∙ o.mine)), refl, refl);
    grows = omega arith;
  }

  pub Frame-call_push :
      (m : Machine A) (t : ℕ) (v : A)
      → ((a : ℕ) → m.published a ≡ true → a < m.allocated)
      → Frame t m (call_push t v m)
  unfolding call_push
  Frame-call_push m t v bounded = record {
    stays = λ x p.
        let ne : m.allocated ≢ x = λ e. omega (arith, bounded x p, e) in
        (put_at_ne m.published m.allocated false x ne ∙ p, put_at_ne m.nodes m.allocated _ x ne);
    others = λ x b other.
        let ne : m.allocated ≢ x = λ e. omega (arith, e) in
        (
          put_at_ne m.published m.allocated false x ne,
          put_at_ne m.nodes m.allocated _ x ne,
          put_at_ne m.owner m.allocated t x ne,
        );
    grows = omega arith;
  }
