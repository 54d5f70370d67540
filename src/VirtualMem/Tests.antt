-- ===== src/VirtualMem/Tests.antt =====
-- The memory pool's theorems at pages of 4096 bytes.
use gain.Base.{length-set, ◌∙◌, ◌≡◌, refl, arith, some}
use gain.Base.Bits.{len32}
use gain.VirtualMem.{byte_at, set_byte, VirtualMem, new_virtual_mem, adjust_buffer_size}
use gain.VirtualMem.Laws.{IsMapped, new_virtual_mem-IsMapped}
use gain.VirtualMem.Pool.{new_pool, get, put_cleared, index}
use gain.VirtualMem.Pool.Classes.{
  IsUsable, IsStocked, get-IsUsable, put-IsStocked, new_pool-IsStocked,
}
use gain.VirtualMem.Pool.Reuse.{get-reuses}

-- Three pages, which is no power of two.
abbrev three_pages : VirtualMem
three_pages = new_virtual_mem 12288

size_of : three_pages.size ≡ 12288
unfolding new_virtual_mem
size_of = refl

refilled-IsStocked : IsStocked 4096 (put_cleared 4096 new_pool three_pages)
unfolding new_virtual_mem
refilled-IsStocked =
    put-IsStocked 4096 new_pool three_pages (omega arith) (new_virtual_mem-IsMapped 12288) refl
      (new_pool-IsStocked 4096)

get-IsUsable_example :
    IsUsable 4096 5000 (get 4096 (put_cleared 4096 new_pool three_pages) 5000 (some 0)).0
    × IsStocked 4096 (get 4096 (put_cleared 4096 new_pool three_pages) 5000 (some 0)).1
get-IsUsable_example =
    get-IsUsable 4096 (put_cleared 4096 new_pool three_pages) 5000 (some 0) (omega arith)
      (omega arith) refilled-IsStocked

-- With a byte that is not 0.
abbrev written : VirtualMem
written = set_byte three_pages 5 9

written-IsMapped : IsMapped written
unfolding new_virtual_mem
written-IsMapped = length-set three_pages.mem 5 9 ∙ new_virtual_mem-IsMapped 12288

-- Two pages are asked for, and three are given, cleared.
get-reuses_example :
    let got = (get 4096 (put_cleared 4096 new_pool written) 8192 (some 0)).0 in
    (got.size ≡ 12288) × (byte_at got 5 ≡ 0)
unfolding index len32 adjust_buffer_size new_virtual_mem
get-reuses_example =
    get-reuses 4096 new_pool written 8192 5 written-IsMapped (omega arith) (omega arith)
      (omega arith) (omega arith) refl (omega arith)
