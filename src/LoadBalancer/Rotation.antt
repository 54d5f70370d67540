-- ===== src/LoadBalancer/Rotation.antt =====
-- RoundRobin: `size` calls in a row pick every consumer once, in order.
use gain.Base.{ℕ, zero, suc, ◌+◌, ◌-◌, ◌≡◌, ◌<◌, ap, ap₂, ◌∙◌, arith, some, List, [], ◌∷◌, ◌++◌}
use gain.Base.{
  Outcome, ret, ◌>>=◌, length, get_elem?, get_elem?-some, drop-get_elem?, drop, take, drop_all,
}
use gain.LoadBalancer.{Generic, next_round_robin}

-- `k` calls of `next`, from the pointer `i` on: the consumers and the pointer afterwards.
pub calls : {W : Type 0} → Generic W → ℕ → ℕ → Outcome (List W × ℕ)
calls g i zero = ret ([], i)
calls g i (suc k) = do r ← next_round_robin g i; rs ← calls g r.1 k; ret (r.0 ∷ rs.0, rs.1)

module _ {W : Type 0} (g : Generic W) (counted : g.size ≡ length g.workers) where
  next-inside :
      (i : ℕ) (w : W)
      → get_elem? g.workers i ≡ some w
      → suc i < g.size
      → next_round_robin g i ≡ ret (w, suc i)
  unfolding next_round_robin
  next-inside i w e h = ground arith

  next-last :
      (i : ℕ) (w : W)
      → get_elem? g.workers i ≡ some w
      → suc i ≡ g.size
      → next_round_robin g i ≡ ret (w, 0)
  unfolding next_round_robin
  next-last i w e h = ground arith

  -- The calls that do not come to the end.
  calls-inside : (k i : ℕ) → i + k < g.size → calls g i k ≡ ret (take k (drop i g.workers), i + k)
  unfolding calls
  calls-inside zero i h = ap (λ j. ret ([], j)) (omega arith)
  calls-inside (suc k) i h =
      let (w, e) = get_elem?-some g.workers i (omega arith) in
      rw
        (
          next-inside i w e (omega arith),
          calls-inside k (suc i) (omega arith),
          drop-get_elem? g.workers i w e,
        )
        (ap (λ j. ret (w ∷ take k (drop (suc i) g.workers), j)) (omega arith))

  from_start : (n j : ℕ) → n ≡ j → j < g.size → calls g 0 n ≡ ret (take j g.workers, j)
  from_start n j e h =
      calls-inside n 0 (omega arith)
      ∙ ap₂ (λ m k. ret (take m g.workers, k)) {y = j} {v = j} e (omega arith)

  -- The calls up to the end, where the pointer goes back to the start, and `j` more.
  calls_through :
      (k i j n : ℕ)
      → i + suc k ≡ g.size
      → j < g.size
      → n ≡ k + j
      → calls g i (suc n) ≡ ret (drop i g.workers ++ take j g.workers, j)
  unfolding calls
  calls_through zero i j n h hj e =
      let (w, found) = get_elem?-some g.workers i (omega arith) in
      rw (
        next-last i w found (omega arith),
        from_start n j (omega arith) hj,
        drop-get_elem? g.workers i w found,
        drop_all (suc i) g.workers (omega arith),
      )
  calls_through (suc k) i j zero h hj e = absurd (omega arith)
  calls_through (suc k) i j (suc n) h hj e =
      let (w, found) = get_elem?-some g.workers i (omega arith) in
      rw (
        next-inside i w found (omega arith),
        calls_through k (suc i) j n (omega arith) hj (omega arith),
        drop-get_elem? g.workers i w found,
      )

  -- RoundRobin: where the size is the number of consumers and the pointer is at one of them, as
  -- many calls of `next` as there are consumers pick every consumer once, in order from the
  -- current one on, and leave the pointer where it was.
  pub calls_round :
      (i : ℕ) → i < g.size → calls g i g.size ≡ ret (drop i g.workers ++ take i g.workers, i)
  calls_round i h =
      ap (calls g i) {y = suc (g.size - 1)} (omega arith)
      ∙ calls_through (g.size - 1 - i) i i (g.size - 1) (omega arith) h (omega arith)
