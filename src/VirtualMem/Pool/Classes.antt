-- ===== src/VirtualMem/Pool/Classes.antt =====
-- What the size classes of the memory pool hold, and what `Get` returns.
use gain.Base.{ℕ, ◌-◌, ◌*◌, ◌%◌, ◌^◌, ◌≡◌, ◌≤◌, ◌<◌, Option, none, some, ◌||◌, ◌≢◌, arith}
use gain.Base.{ltb, ◌==◌, Bool-cases, inl, inr, suc, zero, ==_iff}
use mathlib.Core.Path.{subst}
use gain.Base.Bits.{len32_lem, pow_double}
use gain.SyncPool
use gain.SyncPool.{SyncPool, All, Got, get-All}
use gain.VirtualMem.{VirtualMem, new_virtual_mem, adjust_buffer_size, zeroes}
use gain.VirtualMem.Laws.{
  IsMapped, adjust_buffer_size_lem, new_virtual_mem-IsMapped, zeroes-IsMapped, size-zeroes,
}
use gain.VirtualMem.Pool.{
  new_pool, max_vm_size, index, Pool, get, get_class, put, put_cleared, class_of, set_pool,
}

-- `index n` is the least class whose power of two is not below `n`.
pub index_lem :
    (n : ℕ) → 0 < n → n < 2 ^ 32 → (n ≤ 2 ^ index n) × (2 ^ index n < 2 * n) × (index n ≤ 32)
unfolding index
index_lem n pos small = omega (arith, len32_lem (n - 1) (omega arith))

-- A memory that `put` accepts goes to a class whose power of two is not above its size.
pub class_of-le : (n : ℕ) → 0 < n → n < 2 ^ 32 → 2 ^ class_of n ≤ n
class_of-le n pos small = elim (Bool-cases (n == 2 ^ index n)) [
  | inl e ↦ rw e (ground arith)
  | inr e ↦ rw e (lower (index n) (index_lem n pos small) (ground arith))
]
  where
    pred_suc : (k : ℕ) → suc k - 1 ≡ k
    pred_suc k = omega arith

    lower : (k : ℕ) → (n ≤ 2 ^ k) × (2 ^ k < 2 * n) × (k ≤ 32) → n ≢ 2 ^ k → 2 ^ (k - 1) ≤ n
    lower zero h ne = omega arith
    lower (suc k) h ne = rw (pred_suc k) (omega (arith, pow_double k))

module _ (page : ℕ) where
  -- A memory of class `i`.
  pub record InClass (i : ℕ) (vm : VirtualMem) : Type 0 where
    pub mapped : IsMapped vm
    pub large : 2 ^ i ≤ vm.size
    pub pages : vm.size % page ≡ 0

  abbrev pub IsStocked : Pool → Type 0
  IsStocked p = (i : ℕ) → All (InClass i) (p.pools i).items

  set_pool-IsStocked :
      (p : Pool) (i : ℕ) (q : SyncPool VirtualMem)
      → IsStocked p
      → All (InClass i) q.items
      → IsStocked (set_pool p i q)
  set_pool-IsStocked p i q s h j = elim (Bool-cases (i == j)) [
    | inl e ↦ rw e (subst (λ k. All (InClass k) q.items) ((==_iff i j).0 e) h)
    | inr e ↦ rw e (s j)
  ]

  InClass-new :
      (size : ℕ) (i : ℕ) → 2 ^ i ≤ size → size % page ≡ 0 → InClass i (new_virtual_mem size)
  unfolding new_virtual_mem
  InClass-new size i h e = record { mapped = new_virtual_mem-IsMapped size; large = h; pages = e }

  -- What a caller gets: a whole number of pages, at least as many as it asked for.
  pub record IsUsable (size : ℕ) (vm : VirtualMem) : Type 0 where
    pub mapped : IsMapped vm
    pub enough : adjust_buffer_size page size ≤ vm.size
    pub pages : vm.size % page ≡ 0

  IsUsable-new :
      (size : ℕ) → 0 < page → IsUsable size (new_virtual_mem (adjust_buffer_size page size))
  unfolding new_virtual_mem
  IsUsable-new size h = record {
    mapped = new_virtual_mem-IsMapped (adjust_buffer_size page size);
    enough = omega arith;
    pages = (adjust_buffer_size_lem page size h).1;
  }

  Served : ℕ → VirtualMem × Pool → Type 0
  Served size (vm, p) = IsUsable size vm × IsStocked p

  get_class-Served :
      (p : Pool) (size : ℕ)
      → 0 < page
      → IsStocked p
      → adjust_buffer_size page size ≤ 2 ^ index (adjust_buffer_size page size)
      → (r : Option VirtualMem × SyncPool VirtualMem)
      → Got (InClass (index (adjust_buffer_size page size))) r
      → Served size
          (get_class page p (adjust_buffer_size page size) (index (adjust_buffer_size page size)) r)
  unfolding Served
  get_class-Served p size h s fit (none, q) g =
      (IsUsable-new size h, set_pool-IsStocked p (index (adjust_buffer_size page size)) q s g)
  get_class-Served p size h s fit (some vm, q) g = (
    record { mapped = g.0.mapped; enough = omega arith; pages = g.0.pages },
    set_pool-IsStocked p (index (adjust_buffer_size page size)) q s g.1,
  )

  -- For a positive page size and a positive size, `Get` on a pool whose classes hold what they
  -- should returns a mapped memory of whole pages that is at least as large as asked for, and
  -- keeps the classes.
  pub get-IsUsable :
      (p : Pool) (size : ℕ) (choice : Option ℕ)
      → 0 < page
      → 0 < size
      → IsStocked p
      → IsUsable size (get page p size choice).0 × IsStocked (get page p size choice).1
  unfolding get Served
  get-IsUsable p size choice h pos s = elim (Bool-cases (size == 0)) [
    | inl e ↦ absurd (ground arith)
    | inr e ↦
        rw (e, get)
          (elim (Bool-cases (ltb max_vm_size size')) [
            | inl big ↦ rw (big, get) (IsUsable-new size h, s)
            | inr small ↦
                rw (small, get)
                  (get_class-Served p size h s
                    (index_lem size' (omega (arith, adjust_buffer_size_lem page size h))
                      (ground arith)).0
                    (SyncPool.get (p.pools (index size')) choice)
                    (get-All (InClass (index size')) (p.pools (index size')) choice
                      (s (index size'))))
          ])
  ]
    where
      size' : ℕ
      size' = adjust_buffer_size page size

  -- For a positive page size, putting a mapped memory of whole pages back keeps every size class
  -- to memories at least as large as its power of two.
  pub put-IsStocked :
      (p : Pool) (vm : VirtualMem)
      → 0 < page
      → IsMapped vm
      → vm.size % page ≡ 0
      → IsStocked p
      → IsStocked (put_cleared page p vm)
  unfolding put put_cleared SyncPool.put
  put-IsStocked p vm h m e s = elim (Bool-cases (ltb size page || ltb max_vm_size size)) [
    | inl skip ↦ rw (skip, put, put_cleared) s
    | inr keep ↦
        rw (keep, put, put_cleared)
          (set_pool-IsStocked p (class_of size) (SyncPool.put (p.pools (class_of size)) (zeroes vm))
            s
            (
              record {
                mapped = zeroes-IsMapped vm m;
                large = class_of-le size (ground arith) (ground arith);
                pages = rw (size-zeroes vm) e;
              },
              s (class_of size),
            ))
  ]
    where
      size : ℕ
      size = (zeroes vm).size

  pub new_pool-IsStocked : IsStocked new_pool
  unfolding new_pool SyncPool.new_pool
  new_pool-IsStocked i = tt

-- A request that no kept memory answers gets a new one, of the size asked for.
pub get-none :
    (page : ℕ) (p : Pool) (size : ℕ)
    → 0 < size
    → (get page p size none).0 ≡ new_virtual_mem (adjust_buffer_size page size)
unfolding get SyncPool.get
get-none page p size pos = ground arith
