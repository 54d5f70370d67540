-- ===== src/ByteSlices/Tests.antt =====
-- A slice of 100 bytes, put back and asked for as one of 70.
use gain.Base.{◌≤◌, ◌<◌, replicate, some, arith}
use gain.SyncPool
use gain.VirtualMem.Pool.{index}
use gain.ByteSlices.{Slice, get, new_byte_slice_pool, IsStocked, Serves}
use gain.ByteSlices.{Pool, put, IsInside, put-IsStocked, get-Serves}

abbrev hundred : Slice
hundred = record { array = replicate 100 0; len = 100; cap = 100 }

new_byte_slice_pool-IsStocked : IsStocked new_byte_slice_pool
unfolding new_byte_slice_pool SyncPool.new_pool
new_byte_slice_pool-IsStocked i = tt

hundred-IsInside : IsInside hundred
hundred-IsInside = record { len_in = omega arith; cap_in = omega arith }

-- The pool with the slice in it.
abbrev refilled : Pool
refilled = put new_byte_slice_pool hundred

refilled-IsStocked : IsStocked refilled
refilled-IsStocked =
    put-IsStocked new_byte_slice_pool hundred hundred-IsInside new_byte_slice_pool-IsStocked

get-Serves_example :
    Serves 70 (get refilled 70 (some 0)) × (0 < 70 → 70 ≤ 2147483647 → index 70 < 32)
get-Serves_example = get-Serves refilled 70 (some 0) refilled-IsStocked
