-- ===== src/VirtualMem/Pool/Reuse.antt =====
-- A memory that was put back is given out for any size of its class.
use gain.Base.{ℕ, ◌≡◌, ◌≤◌, ◌<◌, refl, ap, ◌∙◌, Option, some, arith, ==_iff}
use gain.SyncPool
use gain.SyncPool.{SyncPool}
use gain.VirtualMem.{byte_at, VirtualMem, adjust_buffer_size, zeroes}
use gain.VirtualMem.Laws.{IsMapped, size-zeroes}
use gain.VirtualMem.Clearing.{byte_at-zeroes}
use gain.VirtualMem.Pool.{
  max_vm_size, index, Pool, get, get_class, put, put_cleared, class_of, set_pool,
}

module _ (page : ℕ) where
  put-kept :
      (p : Pool) (vm : VirtualMem)
      → page ≤ vm.size
      → vm.size ≤ max_vm_size
      → put page p vm ≡ set_pool p (class_of vm.size) (SyncPool.put (p.pools (class_of vm.size)) vm)
  unfolding put
  put-kept p vm h k = ground arith

  get-class :
      (p : Pool) (size : ℕ) (choice : Option ℕ)
      → 0 < size
      → adjust_buffer_size page size ≤ max_vm_size
      → let size' = adjust_buffer_size page size in
        get page p size choice
        ≡ get_class page p size' (index size') (SyncPool.get (p.pools (index size')) choice)
  unfolding get
  get-class p size choice h k = ground arith

  set_pool_self : (p : Pool) (i : ℕ) (q : SyncPool VirtualMem) → (set_pool p i q).pools i ≡ q
  set_pool_self p i q = rw ((==_iff i i).1 refl)

  newest :
      (p : Pool) (size i : ℕ) (q : SyncPool VirtualMem) (vm : VirtualMem)
      → (get_class page p size i (SyncPool.get (SyncPool.put q vm) (some 0))).0 ≡ vm
  unfolding SyncPool.get SyncPool.put
  newest p size i q vm = refl

  get-zeroes :
      (p : Pool) (vm : VirtualMem) (size : ℕ)
      → page ≤ vm.size
      → vm.size ≤ max_vm_size
      → 0 < size
      → adjust_buffer_size page size ≤ max_vm_size
      → class_of vm.size ≡ index (adjust_buffer_size page size)
      → (get page (put_cleared page p vm) size (some 0)).0 ≡ zeroes vm
  unfolding put_cleared
  get-zeroes p vm size low high pos small same =
      ap (λ q. (get page q size (some 0)).0) stored
      ∙ ap (λ r. r.0)
          (get-class (set_pool p i (SyncPool.put (p.pools i) clear)) size (some 0) pos small)
      ∙ ap
          (λ q.
            (get_class page (set_pool p i (SyncPool.put (p.pools i) clear)) size' i
              (SyncPool.get q (some 0))).0)
          (set_pool_self p i (SyncPool.put (p.pools i) clear))
      ∙ newest (set_pool p i (SyncPool.put (p.pools i) clear)) size' i (p.pools i) clear
    where
      clear : VirtualMem
      clear = zeroes vm

      size' : ℕ
      size' = adjust_buffer_size page size

      i : ℕ
      i = index size'

      stored : put page p clear ≡ set_pool p i (SyncPool.put (p.pools i) clear)
      stored =
          put-kept p clear (omega (arith, size-zeroes vm)) (omega (arith, size-zeroes vm))
          ∙ ap (λ k. set_pool p k (SyncPool.put (p.pools k) clear))
              (ap class_of (size-zeroes vm) ∙ same)

  -- Where the `sync.Pool` of the class gives what was put last: a mapped memory within the pool's
  -- size limits that was put last answers a request of its class, whatever size that has within
  -- the limits, with the size of the memory, and each of its bytes is 0.
  pub get-reuses :
      (p : Pool) (vm : VirtualMem) (size i : ℕ)
      → IsMapped vm
      → page ≤ vm.size
      → vm.size ≤ max_vm_size
      → 0 < size
      → adjust_buffer_size page size ≤ max_vm_size
      → class_of vm.size ≡ index (adjust_buffer_size page size)
      → i < vm.size
      → let got = (get page (put_cleared page p vm) size (some 0)).0 in
        (got.size ≡ vm.size) × (byte_at got i ≡ 0)
  get-reuses p vm size i mapped low high pos small same inside =
      let e = get-zeroes p vm size low high pos small same in
      (
        ap (λ x. x.size) e ∙ size-zeroes vm,
        ap (λ x. byte_at x i) e ∙ byte_at-zeroes vm i mapped inside,
      )
