-- ===== src/ByteSlices.antt =====
-- pkg/pool/byteslice/byteslice_pool.go: byte slices kept for reuse by the address of their arrays.
mod Tests
use gain.Base.{
  ℕ, ◌+◌, ◌-◌, ◌*◌, ◌^◌, ◌%◌, ◌≤◌, ◌<◌, ◌≡◌, refl, arith, List, [], ◌∷◌, Option, none, some, ◌||◌,
}
use gain.Base.{
  ltb, ◌==◌, if◌then◌else◌, length, replicate, length-replicate, Bool-cases, inl, inr, ==_iff,
  dec_lt,
}
use native.Mathlib.Nat.{pow-le-pow_right}
use mathlib.Core.Path.{subst}
use gain.SyncPool
use gain.SyncPool.{SyncPool, All, Got, get-All}
use gain.VirtualMem.Pool.{index, class_of}
use gain.VirtualMem.Pool.Classes.{index_lem, class_of-le}

abbrev pub max_int32 : ℕ
max_int32 = 2 ^ 31 - 1

-- A slice from the start of its array. A pool keeps the array alone: its length is not known there.
pub record Slice : Type 0 where
  pub array : List ℕ
  pub len : ℕ
  pub cap : ℕ

-- The 32 pools, by index; `index` and the class that `Put` chooses are those of the memory pool.
pub record Pool : Type 0 where
  pub pools : ℕ → SyncPool (List ℕ)

pub new_byte_slice_pool : Pool
new_byte_slice_pool = record { pools = λ _. SyncPool.new_pool }

abbrev set_pool : Pool → ℕ → SyncPool (List ℕ) → Pool
set_pool p i q = record { pools = λ j. if i == j then q else p.pools j }

abbrev nil : Slice
nil = record { array = []; len = 0; cap = 0 }

-- `make([]byte, n)`, cut to a length
abbrev make : ℕ → ℕ → Slice
make n len = record { array = replicate n 0; len = len; cap = n }

abbrev of_class : Pool → ℕ → ℕ → Option (List ℕ) × SyncPool (List ℕ) → Slice × Pool
of_class p size i (none, q) = (make (2 ^ i) size, set_pool p i q)
of_class p size i (some array, q) =
    (record { array = array; len = size; cap = 2 ^ i }, set_pool p i q)

pub get : Pool → ℕ → Option ℕ → Slice × Pool
get p size choice =
    if size == 0
    then (nil, p)
    else if ltb max_int32 size
    then (make size size, p)
    else of_class p size (index size) (SyncPool.get (p.pools (index size)) choice)

pub put : Pool → Slice → Pool
put p buf =
    if (buf.cap == 0) || ltb max_int32 buf.cap
    then p
    else set_pool p (class_of buf.cap) (SyncPool.put (p.pools (class_of buf.cap)) buf.array)

-- The slice lies inside its array.
pub record IsInside (s : Slice) : Type 0 where
  pub len_in : s.len ≤ s.cap
  pub cap_in : s.cap ≤ length s.array

-- An array of class `i` has the length that `Get` will claim for it.
abbrev pub IsStocked : Pool → Type 0
IsStocked p = (i : ℕ) → All (λ array. 2 ^ i ≤ length array) (p.pools i).items

set_pool-IsStocked :
    (p : Pool) (i : ℕ) (q : SyncPool (List ℕ))
    → IsStocked p
    → All (λ array. 2 ^ i ≤ length array) q.items
    → IsStocked (set_pool p i q)
set_pool-IsStocked p i q s h j = elim (Bool-cases (i == j)) [
  | inl e ↦ rw e (subst (λ k. All (λ array. 2 ^ k ≤ length array) q.items) ((==_iff i j).0 e) h)
  | inr e ↦ rw e (s j)
]

-- What `Get` promises, for a size.
abbrev pub Serves : ℕ → Slice × Pool → Type 0
Serves size (buf, p) = (buf.len ≡ size) × IsInside buf × IsStocked p

of_class-Serves :
    (p : Pool) (size : ℕ)
    → IsStocked p
    → size ≤ 2 ^ index size
    → (r : Option (List ℕ) × SyncPool (List ℕ)) → Got (λ array. 2 ^ index size ≤ length array) r
    → Serves size (of_class p size (index size) r)
of_class-Serves p size s fit (none, q) g = (
  refl,
  record { len_in = fit; cap_in = omega (arith, length-replicate {A = ℕ} (2 ^ index size) 0) },
  set_pool-IsStocked p (index size) q s g,
)
of_class-Serves p size s fit (some array, q) g =
    (refl, record { len_in = fit; cap_in = g.0 }, set_pool-IsStocked p (index size) q s g.1)

-- From a pool whose classes hold arrays that are long enough, `Get` gives a slice of the length
-- asked for that lies inside its array, and keeps the classes so; the class of a size up to 2^31 -
-- 1 is one of the 32.
pub get-Serves :
    (p : Pool) (size : ℕ) (choice : Option ℕ)
    → IsStocked p
    → Serves size (get p size choice) × (0 < size → size ≤ max_int32 → index size < 32)
unfolding get
get-Serves p size choice s = elim (Bool-cases (size == 0)) [
  | inl e ↦
      let none_asked : 0 ≡ size = ground arith in
      (
        rw e (none_asked, record { len_in = omega arith; cap_in = omega arith }, s),
        λ pos. absurd (omega arith),
      )
  | inr e ↦ elim (Bool-cases (ltb max_int32 size)) [
    | inl big ↦ (
      rw (e, big)
          (
            refl,
            record {
              len_in = omega arith;
              cap_in = omega (arith, length-replicate {A = ℕ} size 0);
            },
            s,
          ),
      λ pos small. absurd (ground arith),
    )
    | inr small ↦
        let within : (0 < size) × (size ≤ max_int32) = ground arith in
        let fit = index_lem size within.0 (omega arith) in
        (
          rw (e, small)
              (of_class-Serves p size s fit.0 (SyncPool.get (p.pools (index size)) choice) (
                get-All (λ array. 2 ^ index size ≤ length array) (p.pools (index size)) choice
                  (s (index size)))),
          λ pos le. below (index size) fit.1 (omega arith),
        )
  ]
]
  where
    below : (i : ℕ) → 2 ^ i < 2 * size → size ≤ max_int32 → i < 32
    below i h le = elim (dec_lt i 32) [
      | yes lt ↦ lt
      | no ge ↦
          let big = pow-le-pow_right {n = 2} (omega arith) {i = 32} {j = i} (omega arith) in
          absurd (omega (arith, big))
    ]

-- Putting a slice that lies inside its array back keeps the pools stocked with large enough arrays.
pub put-IsStocked : (p : Pool) (buf : Slice) → IsInside buf → IsStocked p → IsStocked (put p buf)
unfolding put SyncPool.put
put-IsStocked p buf inside s = elim (Bool-cases ((buf.cap == 0) || ltb max_int32 buf.cap)) [
  | inl skip ↦ rw skip s
  | inr keep ↦ rw keep (
      set_pool-IsStocked p (class_of buf.cap) (SyncPool.put (p.pools (class_of buf.cap)) buf.array)
        s
        (
          omega (arith, class_of-le buf.cap (ground arith) (ground arith), inside.cap_in),
          s (class_of buf.cap),
        ))
]
