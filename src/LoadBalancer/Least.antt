-- ===== src/LoadBalancer/Least.antt =====
-- LeastConnections picks the first consumer with the fewest connections.
use gain.Base.{ℕ, zero, suc, ◌≡◌, ◌≤◌, ◌<◌, refl, arith, some, List, [], ◌∷◌, true, false, inl, inr}
use gain.Base.{get_elem?, Returns, ltb, Bool-cases}
use gain.LoadBalancer.{Consumer, least_from, next_least}

module _ {W : Type 0} (c : Consumer W) where
  abbrev load : W → ℕ
  load = c.active_connections

  -- The consumer is at some place; none has fewer connections, and those before it have more.
  pub record IsLeast (ws : List W) (w : W) : Type 0 where
    pub place : ℕ
    pub there : get_elem? ws place ≡ some w
    pub least : (j : ℕ) (v : W) → get_elem? ws j ≡ some v → load w ≤ load v
    pub first : (j : ℕ) (v : W) → j < place → get_elem? ws j ≡ some v → load w < load v

  least_from-IsLeast : (best : W) (vs : List W) → IsLeast (best ∷ vs) (least_from c best vs)
  unfolding least_from
  least_from-IsLeast best [] = record {
    place = 0;
    there = refl;
    least = only;
    first = λ j v h e. elim h [ ];
  }
    where
      only : (j : ℕ) (v : W) → get_elem? (best ∷ []) j ≡ some v → load best ≤ load v
      only zero v e = ground arith
      only (suc j) v e = cc
  least_from-IsLeast best (v ∷ vs) = elim (Bool-cases (ltb (load v) (load best))) [
    | inl less ↦ rw less (better less (least_from-IsLeast v vs))
    | inr not_less ↦ rw not_less (kept not_less (least_from-IsLeast best vs))
  ]
    where
      better :
          {w : W} → ltb (load v) (load best) ≡ true → IsLeast (v ∷ vs) w → IsLeast (best ∷ v ∷ vs) w
      better {w} less l = record {
        place = suc l.place;
        there = l.there;
        least = least;
        first = first;
      }
        where
          least : (j : ℕ) (u : W) → get_elem? (best ∷ v ∷ vs) j ≡ some u → load w ≤ load u
          least zero u e = ground (arith, l.least 0 v refl)
          least (suc j) u e = l.least j u e

          first :
              (j : ℕ) (u : W)
              → j < suc l.place
              → get_elem? (best ∷ v ∷ vs) j ≡ some u
              → load w < load u
          first zero u h e = ground (arith, l.least 0 v refl)
          first (suc j) u h e = l.first j u (omega arith) e

      kept :
          {w : W}
          → ltb (load v) (load best) ≡ false
          → IsLeast (best ∷ vs) w
          → IsLeast (best ∷ v ∷ vs) w
      kept {w} not_less l = moved l.place l.there l.first
        where
          least : (j : ℕ) (u : W) → get_elem? (best ∷ v ∷ vs) j ≡ some u → load w ≤ load u
          least zero u e = l.least 0 u e
          least (suc zero) u e = ground (arith, l.least 0 best refl)
          least (suc (suc j)) u e = l.least (suc j) u e

          moved :
              (i : ℕ)
              → get_elem? (best ∷ vs) i ≡ some w
              → ((j : ℕ) (u : W) → j < i → get_elem? (best ∷ vs) j ≡ some u → load w < load u)
              → IsLeast (best ∷ v ∷ vs) w
          moved zero there first = record {
            place = 0;
            there = there;
            least = least;
            first = λ j u h e. elim h [ ];
          }
          moved (suc i) there first = record {
            place = suc (suc i);
            there = there;
            least = least;
            first = before;
          }
            where
              before :
                  (j : ℕ) (u : W)
                  → j < suc (suc i)
                  → get_elem? (best ∷ v ∷ vs) j ≡ some u
                  → load w < load u
              before zero u h e = first 0 u (omega arith) e
              before (suc zero) u h e = ground (arith, first 0 best (omega arith) refl)
              before (suc (suc j)) u h e = first (suc j) u (omega arith) e

  -- LeastConnections: with at least one consumer the call returns the first one that has the
  -- fewest connections.
  pub next_least-IsLeast :
      (w : W) (ws : List W) → Returns (next_least c (w ∷ ws)) (IsLeast (w ∷ ws))
  unfolding next_least
  next_least-IsLeast w ws = least_from-IsLeast w ws
