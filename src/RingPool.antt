-- ===== src/RingPool.antt =====
-- pkg/pool/ringbuffer/ringbuffer.go: rings kept for reuse, with sizes learnt from the calls.
pub mod Calibration
pub mod Index
pub mod Reuse
mod Tests
use gain.Base.{
  ℕ, zero, suc, ◌+◌, ◌-◌, ◌*◌, ◌/◌, ◌%◌, ◌^◌, max, Bool, true, false, Option, none, some,
}
use gain.Base.{List, [], ◌∷◌, ◌||◌, ltb, leb, ◌==◌, if◌then◌else◌, length, set, get_or, replicate}
use gain.SyncPool
use gain.SyncPool.{SyncPool}
use gain.VirtualMem.Pool as Memories
use gain.MagicRing.{RingBuffer, reset, clear, new_magic_buffer}

abbrev pub min_bit_size : ℕ
min_bit_size = 12

abbrev pub steps : ℕ
steps = 15

abbrev pub min_size : ℕ
min_size = 2 ^ 12

abbrev pub calibrate_calls_threshold : ℕ
calibrate_calls_threshold = 42000

pub record CallSize : Type 0 where
  pub calls : ℕ
  pub size : ℕ

pub record Pool : Type 0 where
  pub calls : List ℕ
  pub calibrating : ℕ
  pub default_size : ℕ
  pub max_size : ℕ
  pub pool : SyncPool RingBuffer

-- The loop of `indexRingBufferPool`; the fuel is the number of bits.
pub index_loop : ℕ → ℕ → ℕ → ℕ
index_loop zero n idx = idx
index_loop (suc fuel) n idx = elim (n == 0) [
  | true ↦ idx
  | false ↦ index_loop fuel (n / 2) (idx + 1)
]

-- `n` is a capacity. Where it is 0 the source shifts -1, which its loop leaves at once too.
pub index : ℕ → ℕ
unfolding index_loop
index n =
    let idx = index_loop 64 ((n - 1) / 2 ^ min_bit_size) 0 in
    if leb steps idx then steps - 1 else idx

abbrev pub total : List ℕ → ℕ
total [] = 0
total (n ∷ ns) = n + total ns

-- The calls with their sizes, from the step `i` on.
abbrev pub call_sizes : ℕ → List ℕ → List CallSize
call_sizes i [] = []
call_sizes i (n ∷ ns) = record { calls = n; size = min_size * 2 ^ i } ∷ call_sizes (i + 1) ns

-- The loop that finds the largest size: it stops once more than `max_sum` calls are covered.
pub cover : ℕ → List CallSize → ℕ → ℕ → ℕ
cover max_sum [] calls_sum max_size = max_size
cover max_sum (e ∷ es) calls_sum max_size =
    if ltb max_sum calls_sum
    then max_size
    else cover max_sum es (calls_sum + e.calls) (if ltb max_size e.size then e.size else max_size)

abbrev pub first_size : List CallSize → ℕ
first_size [] = 0
first_size (e ∷ es) = e.size

-- `sort` is Go's `sort.Sort` by descending calls, which leaves the order of equal ones open, and
-- `percentile` the product with 0.95 in float64, rounded down.
module _ (sort : List CallSize → List CallSize) (percentile : ℕ → ℕ) where
  abbrev pub sorted : Pool → List CallSize
  sorted p = sort (call_sizes 0 p.calls)

  pub calibrate : Pool → Pool
  unfolding cover
  calibrate p =
      if p.calibrating == 0
      then record p {
        calls = replicate steps 0;
        calibrating = 0;
        default_size = first_size (sorted p);
        max_size = cover (percentile (total p.calls)) (sorted p) 0 (first_size (sorted p));
      }
      else p

  abbrev pub count_call : Pool → ℕ → Pool
  count_call p i = record p { calls = set p.calls i ((get_or p.calls i 0 + 1) % 2 ^ 64) }

  abbrev pub calibrate_if_due : Pool → ℕ → Pool
  calibrate_if_due p i =
      if ltb calibrate_calls_threshold (get_or p.calls i 0) then calibrate p else p

  abbrev pub keep : Pool → RingBuffer → Pool
  keep p rb =
      if (p.max_size == 0) || leb rb.size p.max_size
      then record p { pool = SyncPool.put p.pool (reset rb) }
      else p

  -- `Pool.Put`
  pub put : Pool → RingBuffer → Pool
  put p rb = keep (calibrate_if_due (count_call p (index rb.size)) (index rb.size)) rb

  -- `ringbuffer.Put` clears the ring first.
  pub put_cleared : Pool → RingBuffer → Pool
  put_cleared p rb = put p (clear rb)

pub new_ring_buffer_pool : ℕ → Pool
new_ring_buffer_pool default = record {
  calls = replicate steps 0;
  calibrating = 0;
  default_size = default;
  max_size = 0;
  pool = SyncPool.new_pool;
}

module _ (page_size : ℕ) where
  abbrev pub made :
      Pool
      → Memories.Pool
      → Option ℕ
      → Option RingBuffer × SyncPool RingBuffer
      → RingBuffer × Pool × Memories.Pool
  made p memories choice (some rb, q) = (rb, record p { pool = q }, memories)
  made p memories choice (none, q) =
      let (rb, memories') = new_magic_buffer page_size memories p.default_size choice in
      (rb, record p { pool = q }, memories')

  -- `Get`, with what the pool of rings gives and what the pool of memories would.
  pub get : Pool → Memories.Pool → Option ℕ → Option ℕ → RingBuffer × Pool × Memories.Pool
  get p memories choice memory_choice = made p memories memory_choice (SyncPool.get p.pool choice)
