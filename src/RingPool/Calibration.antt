-- ===== src/RingPool/Calibration.antt =====
-- What `calibrate` learns from the calls.
use mathlib.Core.Path.{subst}
use gain.Base.{ℕ, Bool, ◌+◌, ◌≤◌, ◌<◌, ◌≡◌, ◌⊎◌, ◌↔◌, refl, true, false}
use gain.Base.{List, [], ◌∷◌, arith, ltb, leb, ◌==◌, inl, inr, if◌then◌else◌, replicate}
use gain.RingPool.{CallSize, Pool, cover, calibrate, call_sizes, first_size, sorted, total, steps}

-- The sum of a number over the entries.
abbrev pub sum_of : (CallSize → ℕ) → List CallSize → ℕ
sum_of f [] = 0
sum_of f (e ∷ es) = f e + sum_of f es

abbrev pub All : (CallSize → Type 0) → List CallSize → Type 0
All P [] = Unit
All P (e ∷ es) = P e × All P es

abbrev pub IsDescending : List CallSize → Type 0
IsDescending [] = Unit
IsDescending (e ∷ es) = All (λ x. x.calls ≤ e.calls) es × IsDescending es

-- What `sort.Sort` promises: it reorders the entries, the ones with more calls first.
pub record Sorts (sort : List CallSize → List CallSize) : Type 1 where
  pub descending : (es : List CallSize) → IsDescending (sort es)
  pub sums : (f : CallSize → ℕ) (es : List CallSize) → sum_of f (sort es) ≡ sum_of f es
  pub keeps : (P : CallSize → Type 0) (es : List CallSize) → All P es ↔ All P (sort es)

-- The calls of the entries that a size holds.
abbrev pub covered : ℕ → CallSize → ℕ
covered m e = if leb e.size m then e.calls else 0

abbrev Fits : ℕ → CallSize → Type 0
Fits m e = e.size ≤ m

-- With the size `m` more calls than `limit` are covered, or all entries.
abbrev pub Enough : ℕ → List CallSize → ℕ → ℕ → Type 0
Enough limit es n m = (limit < n + sum_of (covered m) es) ⊎ All (Fits m) es

Enough-cons :
    (limit n m : ℕ) (e : CallSize) (es : List CallSize)
    → e.size ≤ m
    → Enough limit es (n + e.calls) m
    → Enough limit (e ∷ es) n m
Enough-cons limit n m e es le (inl more) = inl (ground (arith, more))
Enough-cons limit n m e es le (inr all) = inr (le, all)

-- What the loop ends with: at least the size before, and enough calls covered.
abbrev Covers : ℕ → List CallSize → ℕ → ℕ → ℕ → Type 0
Covers limit es n size m = (size ≤ m) × Enough limit es n m

cover-Covers :
    (limit : ℕ) (es : List CallSize) (n size : ℕ) → Covers limit es n size (cover limit es n size)
unfolding cover
cover-Covers limit [] n size = (omega arith, inr tt)
cover-Covers limit (e ∷ es) n size =
    let size' = if ltb size e.size then e.size else size in
    turn (ltb limit n) refl size' (ground arith) (ground arith)
      (cover-Covers limit es (n + e.calls) size')
  where
    turn :
        (b : Bool)
        → ltb limit n ≡ b
        → (size' : ℕ) → size ≤ size'
        → e.size ≤ size'
        → Covers limit es (n + e.calls) size' (cover limit es (n + e.calls) size')
        → Covers limit (e ∷ es) n size (if b then size else cover limit es (n + e.calls) size')
    turn true stop size' le le' ih = (omega arith, inl (ground (arith, stop)))
    turn false go size' le le' ih =
        let m = cover limit es (n + e.calls) size' in
        (omega (arith, ih.0), Enough-cons limit n m e es (omega (arith, ih.0)) ih.1)

-- The calls that were counted at a size.
abbrev pub calls_at : ℕ → List CallSize → ℕ
calls_at size es = sum_of (λ e. if e.size == size then e.calls else 0) es

All-weaken :
    (P Q : CallSize → Type 0) (es : List CallSize)
    → ((e : CallSize) → P e → Q e)
    → All P es
    → All Q es
All-weaken P Q [] h p = tt
All-weaken P Q (e ∷ es) h (p, ps) = (h e p, All-weaken P Q es h ps)

-- The first entry has the most calls.
first-most :
    (es : List CallSize) → IsDescending es → All (λ e. e.calls ≤ calls_at (first_size es) es) es
first-most [] d = tt
first-most (e ∷ es) (most, d) = (
  own,
  All-weaken (λ x. x.calls ≤ e.calls) (λ x. x.calls ≤ calls_at e.size (e ∷ es)) es
      (λ x le. omega (arith, own)) most,
)
  where
    own : e.calls ≤ calls_at e.size (e ∷ es)
    own = ground arith

module _ (sort : List CallSize → List CallSize) (percentile : ℕ → ℕ) where
  -- What `calibrate` leaves, of the calls that it found.
  pub record IsCalibrated (calls : List ℕ) (q : Pool) : Type 0 where
    pub restarted : q.calls ≡ replicate steps 0
    pub released : q.calibrating ≡ 0
    pub ordered : q.default_size ≤ q.max_size
    pub most :
        All (λ e. e.calls ≤ calls_at q.default_size (call_sizes 0 calls)) (call_sizes 0 calls)
    pub enough : Enough (percentile (total calls)) (call_sizes 0 calls) 0 q.max_size

  -- With any sort that reorders by falling calls, `calibrate` sets the default size to one with
  -- the most calls, the maximal size to one that is not smaller and that covers more calls than
  -- the percentile or all sizes, and restarts the counts.
  pub calibrate-IsCalibrated :
      (p : Pool)
      → Sorts sort
      → p.calibrating ≡ 0
      → IsCalibrated p.calls (calibrate sort percentile p)
  unfolding calibrate
  calibrate-IsCalibrated p s free = rw free (record {
    restarted = refl;
    released = refl;
    ordered = found.0;
    most =
        (s.keeps (λ e. e.calls ≤ calls_at (first_size es) (call_sizes 0 p.calls))
            (call_sizes 0 p.calls)).1
          (subst (λ n. All (λ e. e.calls ≤ n) es)
            (s.sums (λ e. if e.size == first_size es then e.calls else 0) (call_sizes 0 p.calls))
            (first-most es (s.descending (call_sizes 0 p.calls))));
    enough = back found.1;
  })
    where
      es : List CallSize
      es = sorted sort percentile p

      m : ℕ
      m = cover (percentile (total p.calls)) es 0 (first_size es)

      found : Covers (percentile (total p.calls)) es 0 (first_size es) m
      found = cover-Covers (percentile (total p.calls)) es 0 (first_size es)

      back :
          Enough (percentile (total p.calls)) es 0 m
          → Enough (percentile (total p.calls)) (call_sizes 0 p.calls) 0 m
      back (inl more) = inl (omega (arith, s.sums (covered m) (call_sizes 0 p.calls)))
      back (inr all) = inr ((s.keeps (Fits m) (call_sizes 0 p.calls)).1 all)

  -- Another calibration is under way.
  pub calibrate_busy : (p : Pool) → 0 < p.calibrating → calibrate sort percentile p ≡ p
  unfolding calibrate
  calibrate_busy p busy = ground arith
