-- ===== src/LoadBalancer.antt =====
-- load_balancer.go: which consumer gets the next accepted connection.
pub mod Order
pub mod Rotation
pub mod Least
mod Tests
use gain.Base.{ℕ, ◌+◌, ◌%◌, ◌≡◌, Option, none, some, List, [], ◌∷◌, ◌++◌}
use gain.Base.{Outcome, ret, panic, ◌>>=◌, length, get_elem?, ltb, leb, ◌==◌, if◌then◌else◌}
use gain.Errors.{Error, not_supported}

-- What the balancers use of a `consumer`.
pub record Consumer (W : Type 0) : Type 0 where
  pub index : W → ℕ
  pub set_index : ℕ → W → W
  pub active_connections : W → ℕ
  pub index-set_index : (n : ℕ) (w : W) → index (set_index n w) ≡ n

-- `genericLoadBalancer`
pub record Generic (W : Type 0) : Type 0 where
  pub workers : List W
  pub size : ℕ

pub data Balancer (W : Type 0) : Type 0 where
  round_robin : Generic W → ℕ → Balancer W
  least_connections : Generic W → Balancer W
  source_ip_hash : Generic W → Balancer W

-- `b.workers[i]`
abbrev pub at {ℓ} : {A : Type ℓ} → List A → ℕ → Outcome A
at xs i = elim (get_elem? xs i) [ none ↦ panic | some x ↦ ret x ]

pub next_round_robin : {W : Type 0} → Generic W → ℕ → Outcome (W × ℕ)
next_round_robin g i = do w ← at g.workers i; ret (w, if leb g.size (i + 1) then 0 else i + 1)

module _ {W : Type 0} (c : Consumer W) where
  unfoldable pub register_generic : Generic W → W → Generic W
  register_generic g w = record {
    workers = g.workers ++ c.set_index g.size w ∷ [];
    size = g.size + 1;
  }

  unfoldable pub register : Balancer W → W → Balancer W
  unfolding register_generic
  register (round_robin g i) w = round_robin (register_generic g w) i
  register (least_connections g) w = least_connections (register_generic g w)
  register (source_ip_hash g) w = source_ip_hash (register_generic g w)

  -- The loop over `workers[1:]`, with the best so far.
  pub least_from : W → List W → W
  least_from best [] = best
  least_from best (v ∷ vs) =
      least_from (if ltb (c.active_connections v) (c.active_connections best) then v else best) vs

  pub next_least : List W → Outcome W
  unfolding least_from
  next_least [] = panic
  next_least (w ∷ ws) = ret (least_from w ws)

-- The address is the caller's type; `checksum` is `crc32.ChecksumIEEE` of its text, which an int of
-- 64 bits holds as a number that is not negative.
module _ {W Addr : Type 0} (c : Consumer W) (checksum : Addr → ℕ) where
  -- `x % 0` panics.
  pub next_source_ip_hash : Generic W → Addr → Outcome W
  next_source_ip_hash g addr = if g.size == 0 then panic else at g.workers (checksum addr % g.size)

  pub next : Balancer W → Addr → Outcome (W × Balancer W)
  unfolding next_round_robin next_least next_source_ip_hash
  next (round_robin g i) addr = do r ← next_round_robin g i; ret (r.0, round_robin g r.1)
  next (least_connections g) addr = do w ← next_least c g.workers; ret (w, least_connections g)
  next (source_ip_hash g) addr = do w ← next_source_ip_hash g addr; ret (w, source_ip_hash g)

-- `forEach`, up to the first error: the callback on a state, with the error that it returns.
pub for_each {ℓ} :
    {W : Type 0} {S : Type ℓ} → (W → S → Option Error × S) → List W → S → Option Error × S
for_each f [] s = (none, s)
for_each f (w ∷ ws) s =
    let (err, s') = f w s in elim err [ none ↦ for_each f ws s' | some e ↦ (some e, s') ]

abbrev empty_generic : {W : Type 0} → Generic W
empty_generic = record { workers = []; size = 0 }

pub data Created (W : Type 0) : Type 0 where
  created : Balancer W → Created W
  refused : Error → Created W

-- `createLoadBalancer`, of the constants RoundRobin, LeastConnections and SourceIPHash
unfoldable pub create_load_balancer : {W : Type 0} → ℕ → Created W
create_load_balancer kind =
    if kind == 0
    then created (round_robin empty_generic 0)
    else if kind == 1
    then created (least_connections empty_generic)
    else if kind == 2
    then created (source_ip_hash empty_generic)
    else refused not_supported
