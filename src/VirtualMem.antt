-- ===== src/VirtualMem.antt =====
-- pkg/pool/virtualmem/virtualmem.go: memory that is mapped twice, one copy right behind the other.
pub mod Laws
pub mod Clearing
pub mod Pool
mod Tests
use gain.Base.{ℕ, zero, suc, ◌+◌, ◌-◌, ◌*◌, ◌/◌, ◌%◌, ◌≤◌, List, [], ◌∷◌, Outcome, ret, panic}
use gain.Base.{length, get_or, set, replicate, leb, ◌==◌, if◌then◌else◌}

abbrev pub double_size : ℕ → ℕ
double_size size = size * 2

-- `mem` is the memory file, of `size` bytes. `Buf` has `double_size size` bytes, and byte `i` of it
-- is byte `i % size` of the file. A nil `*VirtualMem` is the one of size 0.
pub record VirtualMem : Type 0 where
  pub mem : List ℕ
  pub size : ℕ

-- `allocateBuffer` maps a fresh memory file, which the kernel fills with zeroes.
unfoldable pub new_virtual_mem : ℕ → VirtualMem
new_virtual_mem size = record { mem = replicate size 0; size = size }

abbrev pub nil : VirtualMem
nil = record { mem = []; size = 0 }

-- `Buf[i]`, read and written.
abbrev pub byte_at : VirtualMem → ℕ → ℕ
byte_at vm i = get_or vm.mem (i % vm.size) 0

abbrev pub set_byte : VirtualMem → ℕ → ℕ → VirtualMem
set_byte vm i b = record vm { mem = set vm.mem (i % vm.size) b }

-- The `n` bytes of `Buf` from `i` on.
abbrev pub bytes : VirtualMem → ℕ → ℕ → List ℕ
bytes vm i zero = []
bytes vm i (suc n) = byte_at vm i ∷ bytes vm (i + 1) n

-- The slice `Buf[i : i+n]`; Go panics where it ends behind the buffer, and on a nil memory.
abbrev pub slice : VirtualMem → ℕ → ℕ → Outcome (List ℕ)
slice vm i n =
    if vm.size == 0
    then panic
    else if leb (i + n) (double_size vm.size)
    then ret (bytes vm i n)
    else panic

-- `copy(Buf[i:], src)` where `src` fits behind `i`.
pub copy_all : VirtualMem → ℕ → List ℕ → VirtualMem
copy_all vm i [] = vm
copy_all vm i (b ∷ src) = copy_all (set_byte vm i b) (i + 1) src

pub zeroes_from : VirtualMem → ℕ → ℕ → VirtualMem
zeroes_from vm j zero = vm
zeroes_from vm j (suc rest) = zeroes_from (set_byte vm j 0) (j + 1) rest

-- `Zeroes`, the loop over `Size` bytes
pub zeroes : VirtualMem → VirtualMem
unfolding zeroes_from
zeroes vm = zeroes_from vm 0 vm.size

-- `AdjustBufferSize` rounds up to a multiple of the page size. The source computes the ceiling of a
-- float64 quotient, which is exact for a page size that is a power of two and sizes below 2^53.
unfoldable pub adjust_buffer_size : ℕ → ℕ → ℕ
adjust_buffer_size page_size size = (size + page_size - 1) / page_size * page_size
