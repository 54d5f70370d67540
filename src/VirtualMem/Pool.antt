-- ===== src/VirtualMem/Pool.antt =====
-- pkg/pool/virtualmem/virtualmem_pool.go: memories kept for reuse, in 32 size classes.
pub mod Classes
pub mod Reuse
use gain.Base.{ℕ, ◌+◌, ◌-◌, ◌*◌, ◌^◌, ◌≡◌, Option, none, some, ◌||◌}
use gain.Base.{ltb, ◌==◌, if◌then◌else◌, not}
use gain.Base.Bits.{len32}
use gain.SyncPool
use gain.SyncPool.{SyncPool}
use gain.VirtualMem.{VirtualMem, nil, new_virtual_mem, adjust_buffer_size, zeroes}

abbrev pub max_vm_size : ℕ
max_vm_size = 64 * 1024 * 1024

-- `n - 1` of a positive uint32
unfoldable pub index : ℕ → ℕ
index n = len32 (n - 1)

-- The array of 32 pools, by index.
pub record Pool : Type 0 where
  pub pools : ℕ → SyncPool VirtualMem

pub new_pool : Pool
new_pool = record { pools = λ _. SyncPool.new_pool }

abbrev pub set_pool : Pool → ℕ → SyncPool VirtualMem → Pool
set_pool p i q = record { pools = λ j. if i == j then q else p.pools j }

-- `Put` keeps a memory whose size is no power of two in the class below.
abbrev pub class_of : ℕ → ℕ
class_of size = if size == 2 ^ index size then index size else index size - 1

-- `os.Getpagesize()` is a parameter; `choice` is what the `sync.Pool` of the class gives.
module _ (page_size : ℕ) where
  abbrev get_class : Pool → ℕ → ℕ → Option VirtualMem × SyncPool VirtualMem → VirtualMem × Pool
  get_class p size i (none, q) = (new_virtual_mem size, set_pool p i q)
  get_class p size i (some vm, q) = (vm, set_pool p i q)

  pub get : Pool → ℕ → Option ℕ → VirtualMem × Pool
  unfolding SyncPool.get
  get p size choice =
      if size == 0
      then (nil, p)
      else (let size' = adjust_buffer_size page_size size in
          if ltb max_vm_size size'
          then (new_virtual_mem size', p)
          else get_class p size' (index size') (SyncPool.get (p.pools (index size')) choice))

  pub put : Pool → VirtualMem → Pool
  unfolding SyncPool.put
  put p vm =
      if ltb vm.size page_size || ltb max_vm_size vm.size
      then p
      else set_pool p (class_of vm.size) (SyncPool.put (p.pools (class_of vm.size)) vm)

  -- `virtualmem.Put` clears the memory first.
  pub put_cleared : Pool → VirtualMem → Pool
  put_cleared p vm = put p (zeroes vm)
