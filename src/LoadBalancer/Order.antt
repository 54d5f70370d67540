-- ===== src/LoadBalancer/Order.antt =====
-- The consumers are numbered in the order in which they were registered.
use gain.Base.{ℕ, ◌≡◌, ap, sym, ◌∙◌, arith, some, [], ◌∷◌, inl, inr}
use gain.Base.{length, length-append, get_elem?, get_elem?-snoc}
use gain.LoadBalancer.{Consumer, Generic, register_generic}

module _ {W : Type 0} (c : Consumer W) where
  pub record IsNumbered (g : Generic W) : Type 0 where
    pub counted : g.size ≡ length g.workers
    pub numbered : (i : ℕ) (w : W) → get_elem? g.workers i ≡ some w → c.index w ≡ i

  -- A registration numbers the new consumer and keeps the others' numbers.
  pub register-IsNumbered :
      (g : Generic W) (w : W) → IsNumbered g → IsNumbered (register_generic c g w)
  unfolding register_generic
  register-IsNumbered g w n = record {
    counted = omega (arith, n.counted, length-append g.workers (c.set_index g.size w ∷ []));
    numbered = λ i v e. elim (get_elem?-snoc g.workers (c.set_index g.size w) i v e) [
      | inl old ↦ n.numbered i v old
      | inr last ↦ ap c.index (sym last.1) ∙ c.index-set_index g.size w ∙ n.counted ∙ sym last.0
    ];
  }
