-- ===== src/LoadBalancer/Tests.antt =====
-- The balancers' theorems at three consumers with 5, 2 and 2 connections.
use gain.Base.{ℕ, zero, suc, ◌≡◌, refl, arith, some, [], ◌∷◌}
use gain.Base.{ret, Returns, get_elem?}
use gain.LoadBalancer.{Consumer, Generic, next_least, create_load_balancer, refused}
use gain.LoadBalancer.Order.{IsNumbered}
use gain.LoadBalancer.Rotation.{calls, calls_round}
use gain.LoadBalancer.Least.{IsLeast, next_least-IsLeast}
use gain.Errors.{not_supported}

-- Its index and its active connections.
abbrev Worker : Type 0
Worker = ℕ × ℕ

abbrev workers : Consumer Worker
workers = record {
  index = λ w. w.0;
  set_index = λ n w. (n, w.1);
  active_connections = λ w. w.1;
  index-set_index = λ n w. refl;
}

abbrev three : Generic Worker
three = record { workers = (0, 5) ∷ (1, 2) ∷ (2, 2) ∷ []; size = 3 }

three-IsNumbered : IsNumbered workers three
three-IsNumbered = record { counted = refl; numbered = numbered }
  where
    numbered : (i : ℕ) (w : Worker) → get_elem? three.workers i ≡ some w → w.0 ≡ i
    numbered zero w e = ground arith
    numbered (suc zero) w e = ground arith
    numbered (suc (suc zero)) w e = ground arith
    numbered (suc (suc (suc i))) w e = cc

calls_round_example : calls three 1 3 ≡ ret ((1, 2) ∷ (2, 2) ∷ (0, 5) ∷ [], 1)
calls_round_example = calls_round three refl 1 (omega arith)

next_least-IsLeast_example :
    Returns
      (next_least workers ((0, 5) ∷ (1, 2) ∷ (2, 2) ∷ []))
      (IsLeast workers ((0, 5) ∷ (1, 2) ∷ (2, 2) ∷ []))
next_least-IsLeast_example = next_least-IsLeast workers (0, 5) ((1, 2) ∷ (2, 2) ∷ [])

unknown_kind : create_load_balancer {W = Worker} 3 ≡ refused not_supported
unfolding create_load_balancer
unknown_kind = refl
