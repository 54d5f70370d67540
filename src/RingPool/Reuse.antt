-- ===== src/RingPool/Reuse.antt =====
-- Rings that are put back, and what `Get` gives.
use gain.Base.{ℕ, ◌^◌, ◌<◌, ◌≡◌, refl, ◌∙◌, ◌||◌, Option, none, some}
use gain.Base.{List, arith, ltb, leb, ◌==◌, Bool-cases, inl, inr, length, length-set}
use gain.Base.{get_or}
use gain.SyncPool
use gain.SyncPool.{SyncPool, All, Got, get-All}
use gain.VirtualMem.Pool as Memories
use gain.VirtualMem.Pool.Classes.{IsStocked}
use gain.MagicRing.{RingBuffer, clear}
use gain.MagicRing.Bounds.{IsValid}
use gain.MagicRing.Growing.{GivesExact}
use gain.MagicRing.Clean.{IsClean, reset-IsClean, clear-IsValid, new_magic_buffer-IsClean}
use gain.RingPool.{CallSize, Pool, calibrate, put, put_cleared, get, made, steps, index, count_call}
use gain.RingPool.{calibrate_if_due, keep, new_ring_buffer_pool}
use gain.RingPool.Index.{index-IsStep}

-- Every kept ring is clean, and there is a counter for each step.
pub record IsKept (p : Pool) : Type 0 where
  pub rings : All IsClean p.pool.items
  pub slots : length p.calls ≡ steps

module _ (sort : List CallSize → List CallSize) (percentile : ℕ → ℕ) where
  calibrate-IsKept : (p : Pool) → IsKept p → IsKept (calibrate sort percentile p)
  unfolding calibrate
  calibrate-IsKept p k = elim (Bool-cases (p.calibrating == 0)) [
    | inl e ↦ rw e (record { rings = k.rings; slots = refl })
    | inr e ↦ rw e k
  ]

  keep-IsKept :
      (p : Pool) (rb : RingBuffer) → IsValid rb → IsKept p → IsKept (keep sort percentile p rb)
  unfolding SyncPool.put
  keep-IsKept p rb v k = elim (Bool-cases ((p.max_size == 0) || leb rb.size p.max_size)) [
    | inl e ↦ rw e (record { rings = (reset-IsClean rb v, k.rings); slots = k.slots })
    | inr e ↦ rw e k
  ]

  calibrate_if_due-IsKept :
      (p : Pool) (i : ℕ) → IsKept p → IsKept (calibrate_if_due sort percentile p i)
  calibrate_if_due-IsKept p i k = elim (Bool-cases (ltb 42000 (get_or p.calls i 0))) [
    | inl e ↦ rw e (calibrate-IsKept p k)
    | inr e ↦ rw e k
  ]

  put-IsKept :
      (p : Pool) (rb : RingBuffer) → IsValid rb → IsKept p → IsKept (put sort percentile p rb)
  unfolding put
  put-IsKept p rb v k =
      keep-IsKept (calibrate_if_due sort percentile (count_call sort percentile p i) i) rb v (
        calibrate_if_due-IsKept (count_call sort percentile p i) i
          (record { rings = k.rings; slots = length-set p.calls i _ ∙ k.slots }))
    where
      i : ℕ
      i = index rb.size

  -- Putting a valid ring back finds its step among the calls counted, and keeps the pooled rings
  -- valid and clean.
  pub put_cleared-IsKept :
      (p : Pool) (rb : RingBuffer)
      → IsValid rb
      → rb.size < 2 ^ 63
      → IsKept p
      → (index rb.size < length p.calls) × IsKept (put_cleared sort percentile p rb)
  unfolding put_cleared
  put_cleared-IsKept p rb v small k = (
    omega (arith, k.slots, (index-IsStep rb.size small).known),
    put-IsKept p (clear rb) (clear-IsValid rb v) k,
  )

module _ (page : ℕ) where
  abbrev Served : RingBuffer × Pool × Memories.Pool → Type 0
  Served (rb, p, _) = IsClean rb × IsKept p

  made-Served :
      (p : Pool) (memories : Memories.Pool) (choice : Option ℕ)
      → 0 < page
      → IsStocked page memories
      → GivesExact page memories p.default_size choice
      → IsKept p
      → (r : Option RingBuffer × SyncPool RingBuffer) → Got IsClean r
      → Served (made page p memories choice r)
  made-Served p memories choice pos s exact k (some rb, q) g =
      (g.0, record { rings = g.1; slots = k.slots })
  made-Served p memories choice pos s exact k (none, q) g = (
    new_magic_buffer-IsClean page memories p.default_size choice pos s exact,
    record { rings = g; slots = k.slots },
  )

  get-Served :
      (p : Pool) (memories : Memories.Pool) (choice memory_choice : Option ℕ)
      → 0 < page
      → IsStocked page memories
      → GivesExact page memories p.default_size memory_choice
      → IsKept p
      → Served (get page p memories choice memory_choice)
  unfolding get
  get-Served p memories choice memory_choice pos s exact k =
      made-Served p memories memory_choice pos s exact k (SyncPool.get p.pool choice)
        (get-All IsClean p.pool choice k.rings)

  made-IsKept :
      (p : Pool) (memories : Memories.Pool) (choice : Option ℕ)
      → IsKept p
      → (r : Option RingBuffer × SyncPool RingBuffer) → Got IsClean r
      → IsKept (made page p memories choice r).1
  made-IsKept p memories choice k (some rb, q) g = record { rings = g.1; slots = k.slots }
  made-IsKept p memories choice k (none, q) g = record { rings = g; slots = k.slots }

  module _ (sort : List CallSize → List CallSize) (percentile : ℕ → ℕ) where
    -- A pool that valid rings with any bytes in them have been put into and taken from, from a new
    -- one on.
    pub data Used : Pool → Type 0 where
      fresh : (default : ℕ) → Used (new_ring_buffer_pool default)
      puts :
          {p : Pool} (rb : RingBuffer)
          → Used p
          → IsValid rb
          → rb.size < 2 ^ 63
          → Used (put sort percentile p rb)
      puts_cleared :
          {p : Pool} (rb : RingBuffer)
          → Used p
          → IsValid rb
          → rb.size < 2 ^ 63
          → Used (put_cleared sort percentile p rb)
      gets :
          {p : Pool} (memories : Memories.Pool) (choice memory_choice : Option ℕ)
          → Used p
          → Used (get page p memories choice memory_choice).1

    Used-IsKept : {p : Pool} → Used p → IsKept p
    unfolding new_ring_buffer_pool get SyncPool.new_pool
    Used-IsKept (fresh default) = record { rings = tt; slots = refl }
    Used-IsKept (puts {p} rb u v small) = put-IsKept sort percentile p rb v (Used-IsKept u)
    Used-IsKept (puts_cleared {p} rb u v small) =
        (put_cleared-IsKept sort percentile p rb v small (Used-IsKept u)).1
    Used-IsKept (gets {p} memories choice memory_choice u) =
        let k = Used-IsKept u in
        made-IsKept p memories memory_choice k (SyncPool.get p.pool choice)
          (get-All IsClean p.pool choice k.rings)

    -- From a new pool of rings, after any puts of valid rings below 2^63 bytes, whatever they
    -- hold, and any gets, `Get` gives a valid empty ring, if its page size is positive and a new
    -- ring's memory would have exactly the size asked for.
    pub get-IsClean :
        {p : Pool} (memories : Memories.Pool) (choice memory_choice : Option ℕ)
        → Used p
        → 0 < page
        → IsStocked page memories
        → GivesExact page memories p.default_size memory_choice
        → IsClean (get page p memories choice memory_choice).0
    get-IsClean {p} memories choice memory_choice u pos s exact =
        (get-Served p memories choice memory_choice pos s exact (Used-IsKept u)).0
