-- ===== src/RingPool/Tests.antt =====
-- The ring pool's theorems at concrete pools, with insertion sort for `sort.Sort`.
use gain.Base.{ℕ, ◌+◌, ◌*◌, ◌/◌, ◌≤◌, ◌≡◌, ◌↔◌, refl, false, none}
use gain.Base.{List, [], ◌∷◌, arith, leb, Bool-cases, inl, inr, if◌then◌else◌}
use gain.VirtualMem.Pool as Memories
use gain.VirtualMem.Pool.Classes.{new_pool-IsStocked}
use gain.MagicRing.{RingBuffer}
use gain.VirtualMem.{new_virtual_mem}
use gain.VirtualMem.Laws.{new_virtual_mem-IsMapped}
use gain.MagicRing.Bounds.{IsValid}
use gain.MagicRing.Growing.{GivesExact-none}
use gain.MagicRing.Clean.{IsClean}
use gain.RingPool.{CallSize, Pool, calibrate, get, index}
use gain.RingPool.Calibration.{
  All, IsDescending, Sorts, sum_of, IsCalibrated, calibrate-IsCalibrated,
}
use gain.RingPool.Index.{IsStep, index-IsStep}
use gain.RingPool.Reuse.{Used, fresh, puts, get-IsClean}
use gain.RingPool.{put, new_ring_buffer_pool}
use gain.Base.{some}

insert : CallSize → List CallSize → List CallSize
insert e [] = e ∷ []
insert e (x ∷ xs) = if leb x.calls e.calls then e ∷ x ∷ xs else x ∷ insert e xs

insertion_sort : List CallSize → List CallSize
unfolding insert
insertion_sort [] = []
insertion_sort (e ∷ es) = insert e (insertion_sort es)

sum_of-insert :
    (f : CallSize → ℕ) (e : CallSize) (es : List CallSize)
    → sum_of f (insert e es) ≡ f e + sum_of f es
unfolding insert
sum_of-insert f e [] = refl
sum_of-insert f e (x ∷ xs) = ground (arith, sum_of-insert f e xs)

sum_of-sort : (f : CallSize → ℕ) (es : List CallSize) → sum_of f (insertion_sort es) ≡ sum_of f es
unfolding insertion_sort
sum_of-sort f [] = refl
sum_of-sort f (e ∷ es) = omega (arith, sum_of-insert f e (insertion_sort es), sum_of-sort f es)

All-insert :
    (P : CallSize → Type 0) (e : CallSize) (es : List CallSize)
    → (P e × All P es) ↔ All P (insert e es)
unfolding insert
All-insert P e [] = (λ h. h, λ h. h)
All-insert P e (x ∷ xs) = elim (Bool-cases (leb x.calls e.calls)) [
  | inl b ↦ rw b (λ h. h, λ h. h)
  | inr b ↦ rw b (
    λ (pe, (px, pxs)). (px, (All-insert P e xs).0 (pe, pxs)),
    λ (px, rest). let (pe, pxs) = (All-insert P e xs).1 rest in (pe, (px, pxs)),
  )
]

All-sort : (P : CallSize → Type 0) (es : List CallSize) → All P es ↔ All P (insertion_sort es)
unfolding insertion_sort
All-sort P [] = (λ h. h, λ h. h)
All-sort P (e ∷ es) = (
  λ (pe, pes). (All-insert P e (insertion_sort es)).0 (pe, (All-sort P es).0 pes),
  λ h. let (pe, rest) = (All-insert P e (insertion_sort es)).1 h in (pe, (All-sort P es).1 rest),
)

weaken :
    (x y : ℕ) (es : List CallSize) → x ≤ y → All (λ z. z.calls ≤ x) es → All (λ z. z.calls ≤ y) es
weaken x y [] le h = tt
weaken x y (e ∷ es) le (h, hs) = (omega arith, weaken x y es le hs)

IsDescending-insert :
    (e : CallSize) (es : List CallSize) → IsDescending es → IsDescending (insert e es)
unfolding insert
IsDescending-insert e [] d = (tt, tt)
IsDescending-insert e (x ∷ xs) (most, d) = elim (Bool-cases (leb x.calls e.calls)) [
  | inl b ↦
      let le : x.calls ≤ e.calls = ground arith in
      rw b ((le, weaken x.calls e.calls xs le most), (most, d))
  | inr b ↦
      let le : e.calls ≤ x.calls = ground arith in
      rw b ((All-insert (λ z. z.calls ≤ x.calls) e xs).0 (le, most), IsDescending-insert e xs d)
]

IsDescending-sort : (es : List CallSize) → IsDescending (insertion_sort es)
unfolding insertion_sort
IsDescending-sort [] = tt
IsDescending-sort (e ∷ es) = IsDescending-insert e (insertion_sort es) (IsDescending-sort es)

insertion_sort-Sorts : Sorts insertion_sort
insertion_sort-Sorts = record {
  descending = IsDescending-sort;
  sums = sum_of-sort;
  keeps = All-sort;
}

abbrev busy_pool : Pool
busy_pool = record {
  calls = 3 ∷ 40000 ∷ 9 ∷ 0 ∷ 0 ∷ 0 ∷ 0 ∷ 0 ∷ 0 ∷ 0 ∷ 0 ∷ 0 ∷ 0 ∷ 0 ∷ 0 ∷ [];
  calibrating = 0;
  default_size = 4096;
  max_size = 0;
  pool = record { items = []; count = 0 };
}

abbrev percentile : ℕ → ℕ
percentile n = n * 95 / 100

calibrate-busy_pool : (calibrate insertion_sort percentile busy_pool).default_size ≡ 8192
unfolding calibrate insertion_sort
calibrate-busy_pool = refl

calibrate-IsCalibrated_example :
    IsCalibrated insertion_sort percentile busy_pool.calls
      (calibrate insertion_sort percentile busy_pool)
calibrate-IsCalibrated_example =
    calibrate-IsCalibrated insertion_sort percentile busy_pool insertion_sort-Sorts refl

index-IsStep_example : IsStep 8193 (index 8193)
index-IsStep_example = index-IsStep 8193 (omega arith)

abbrev page_ring : RingBuffer
page_ring = record { vm = new_virtual_mem 4096; size = 4096; r = 5; w = 9; empty = false }

page_ring-IsValid : IsValid page_ring
unfolding new_virtual_mem
page_ring-IsValid = record {
  mapped = new_virtual_mem-IsMapped 4096;
  exact = refl;
  r_in = omega arith;
  w_in = omega arith;
  at_start = λ e. cc;
  no_memory = λ e. absurd (omega arith);
}

-- A ring with four bytes in it is put into a new pool, and a ring is taken out.
abbrev after_put : Pool
after_put = put insertion_sort percentile (new_ring_buffer_pool 4096) page_ring

after_put-Used : Used 4096 insertion_sort percentile after_put
after_put-Used = puts page_ring (fresh 4096) page_ring-IsValid (omega arith)

get-IsClean_example : IsClean (get 4096 after_put Memories.new_pool (some 0) none).0
unfolding put new_ring_buffer_pool calibrate index
get-IsClean_example =
    get-IsClean 4096 insertion_sort percentile Memories.new_pool (some 0) none after_put-Used
      (omega arith) (new_pool-IsStocked 4096)
      (GivesExact-none 4096 Memories.new_pool 4096 (omega arith) (omega arith))
