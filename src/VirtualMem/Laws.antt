-- ===== src/VirtualMem/Laws.antt =====
-- Reading and writing the doubly mapped memory, and the rounding to pages.
use native.Mathlib.Nat.{
  mod-add-mod, mod-mod, mod-eq_of_lt, mod-eq-sub-mod, mod-lt, div-add-mod, mul-mod_left, zero-min,
  min-zero,
}
use gain.Base.{◌*◌, ◌/◌, ℕ, zero, suc, ◌+◌, ◌-◌, ◌%◌, ◌≤◌, ◌<◌, ◌≡◌, ◌≢◌, refl, ap, ap₂, ◌∙◌, sym}
use gain.Base.{List, [], ◌∷◌, ◌++◌, append_assoc, append-nil, arith, dec_lt}
use gain.Base.{length, get_or, set, length-set, length-replicate, take, drop, min}
use gain.VirtualMem.{VirtualMem, byte_at, set_byte, bytes, copy_all, zeroes, zeroes_from}
use gain.VirtualMem.{new_virtual_mem, adjust_buffer_size}

-- The file is as long as the memory says.
abbrev pub IsMapped : VirtualMem → Type 0
IsMapped vm = length vm.mem ≡ vm.size

pub get_or-set_self : (xs : List ℕ) (i v : ℕ) → i < length xs → get_or (set xs i v) i 0 ≡ v
get_or-set_self [] i v h = elim h [ ]
get_or-set_self (x ∷ xs) zero v h = refl
get_or-set_self (x ∷ xs) (suc i) v h = get_or-set_self xs i v (omega arith)

pub get_or-set_ne : (xs : List ℕ) (i j v : ℕ) → i ≢ j → get_or (set xs i v) j 0 ≡ get_or xs j 0
get_or-set_ne [] i j v h = refl
get_or-set_ne (x ∷ xs) zero zero v h = absurd (h refl)
get_or-set_ne (x ∷ xs) zero (suc j) v h = refl
get_or-set_ne (x ∷ xs) (suc i) zero v h = refl
get_or-set_ne (x ∷ xs) (suc i) (suc j) v h = get_or-set_ne xs i j v (omega arith)

-- Positions less than `s` apart are different places of a memory of size `s`.
mod-add-ne : (s i k : ℕ) → suc k < s → (i + suc k) % s ≢ i % s
mod-add-ne s i k h =
    grind (arith, mod-add-mod i s (suc k), ne_of_lt (i % s) k (mod-lt i (omega arith)) h)
  where
    ne_of_lt : (h k : ℕ) → h < s → suc k < s → (h + suc k) % s ≢ h
    ne_of_lt h k hh hk = elim (dec_lt (h + suc k) s) [
      | yes p ↦ omega (arith, mod-eq_of_lt p)
      | no p ↦ omega (
        arith,
        mod-eq-sub-mod {n = h + suc k} {m = s} (omega arith),
        mod-eq_of_lt {n = h + suc k - s} {m = s} (omega arith),
      )
    ]

pub set_byte-IsMapped : (vm : VirtualMem) (i b : ℕ) → IsMapped vm → IsMapped (set_byte vm i b)
set_byte-IsMapped vm i b m = length-set vm.mem (i % vm.size) b ∙ m

pub length-bytes : (vm : VirtualMem) (i n : ℕ) → length (bytes vm i n) ≡ n
length-bytes vm i zero = refl
length-bytes vm i (suc n) = ap suc (length-bytes vm (i + 1) n)

pub bytes-append :
    (vm : VirtualMem) (i n m : ℕ) → bytes vm i (n + m) ≡ bytes vm i n ++ bytes vm (i + n) m
bytes-append vm i zero m = ap₂ (bytes vm) (omega arith) (omega arith)
bytes-append vm i (suc n) m =
    one_more ∙ ap (λ l. byte_at vm i ∷ l) (bytes-append vm (i + 1) n m ∙ shift)
  where
    one_more : bytes vm i (suc n + m) ≡ bytes vm i (suc (n + m))
    one_more = ap (bytes vm i) {y = suc (n + m)} (omega arith)

    shift :
        bytes vm (i + 1) n ++ bytes vm (i + 1 + n) m ≡ bytes vm (i + 1) n ++ bytes vm (i + suc n) m
    shift = ap (λ k. bytes vm (i + 1) n ++ bytes vm k m) (omega arith)

-- The second mapping shows the first again.
pub bytes-mod : (vm : VirtualMem) (i n : ℕ) → bytes vm (i % vm.size) n ≡ bytes vm i n
bytes-mod vm i zero = refl
bytes-mod vm i (suc n) = ap₂ ◌∷◌ (ap (λ k. get_or vm.mem k 0) (mod-mod i vm.size)) (
    sym (bytes-mod vm (i % vm.size + 1) n)
    ∙ ap (λ k. bytes vm k n) (mod-add-mod i vm.size 1)
    ∙ bytes-mod vm (i + 1) n)

-- A write behind a window that is shorter than the memory leaves the window alone.
pub bytes-set_outside :
    (vm : VirtualMem) (i n k p b : ℕ)
    → n ≤ k
    → k < vm.size
    → p ≡ i + k
    → bytes (set_byte vm p b) i n ≡ bytes vm i n
bytes-set_outside vm i zero k p b h hk e = refl
bytes-set_outside vm i (suc n) zero p b h hk e = elim h [ ]
bytes-set_outside vm i (suc n) (suc k) p b h hk e =
    ap₂ ◌∷◌ (get_or-set_ne vm.mem (p % vm.size) (i % vm.size) b (rw e (mod-add-ne vm.size i k hk)))
      (bytes-set_outside vm (i + 1) n k p b (omega arith) (omega arith) (omega arith))

pub bytes_one_set :
    (vm : VirtualMem) (p b : ℕ) → IsMapped vm → 0 < vm.size → bytes (set_byte vm p b) p 1 ≡ b ∷ []
bytes_one_set vm p b m h =
    ap (λ x. x ∷ []) (get_or-set_self vm.mem (p % vm.size) b (omega (arith, mod-lt p h)))

-- A write just behind a window extends it by one byte.
pub bytes-set_next :
    (vm : VirtualMem) (i n p b : ℕ)
    → IsMapped vm
    → n < vm.size
    → p ≡ i + n
    → bytes (set_byte vm p b) i (n + 1) ≡ bytes vm i n ++ b ∷ []
bytes-set_next vm i n p b m h e =
    bytes-append (set_byte vm p b) i n 1
    ∙ ap₂ ◌++◌ (bytes-set_outside vm i n n p b (omega arith) h e)
        (ap (λ k. bytes (set_byte vm p b) k 1) (sym e) ∙ bytes_one_set vm p b m (omega arith))

pub copy_all-nil : (vm : VirtualMem) (i : ℕ) → copy_all vm i [] ≡ vm
unfolding copy_all
copy_all-nil vm i = refl

pub copy_all-one : (vm : VirtualMem) (i b : ℕ) → copy_all vm i (b ∷ []) ≡ set_byte vm i b
unfolding copy_all
copy_all-one vm i b = refl

pub size-copy_all : (src : List ℕ) (vm : VirtualMem) (i : ℕ) → (copy_all vm i src).size ≡ vm.size
unfolding copy_all
size-copy_all [] vm i = refl
size-copy_all (b ∷ src) vm i = size-copy_all src (set_byte vm i b) (i + 1)

pub copy_all-IsMapped :
    (src : List ℕ) (vm : VirtualMem) (i : ℕ) → IsMapped vm → IsMapped (copy_all vm i src)
unfolding copy_all
copy_all-IsMapped [] vm i m = m
copy_all-IsMapped (b ∷ src) vm i m =
    copy_all-IsMapped src (set_byte vm i b) (i + 1) (set_byte-IsMapped vm i b m)

-- A copy just behind a window of `n` bytes extends the window by the copied bytes.
pub bytes-copy_all :
    (src : List ℕ) (vm : VirtualMem) (i n p : ℕ)
    → IsMapped vm
    → n + length src ≤ vm.size
    → p ≡ i + n
    → bytes (copy_all vm p src) i (n + length src) ≡ bytes vm i n ++ src
unfolding copy_all
bytes-copy_all [] vm i n p m h e = ap (bytes vm i) (omega arith) ∙ sym (append-nil (bytes vm i n))
bytes-copy_all (b ∷ src) vm i n p m h e =
    ap (bytes (copy_all (set_byte vm p b) (p + 1) src) i) (omega arith)
    ∙ bytes-copy_all src (set_byte vm p b) i (n + 1) (p + 1) (set_byte-IsMapped vm p b m)
        (omega arith) (omega arith)
    ∙ ap (λ l. l ++ src) (bytes-set_next vm i n p b m (omega arith) e)
    ∙ append_assoc (bytes vm i n) (b ∷ []) src

-- The place of the memory where a copy starts may be named in either mapping.
pub copy_all-mod :
    (src : List ℕ) (vm : VirtualMem) (p : ℕ) → copy_all vm (p % vm.size) src ≡ copy_all vm p src
unfolding copy_all
copy_all-mod [] vm p = refl
copy_all-mod (b ∷ src) vm p =
    ap (λ k. copy_all (record vm { mem = set vm.mem k b }) (p % vm.size + 1) src)
      (mod-mod p vm.size)
    ∙ sym (copy_all-mod src (set_byte vm p b) (p % vm.size + 1))
    ∙ ap (λ k. copy_all (set_byte vm p b) k src) (mod-add-mod p vm.size 1)
    ∙ copy_all-mod src (set_byte vm p b) (p + 1)

pub new_virtual_mem-IsMapped : (n : ℕ) → IsMapped (new_virtual_mem n)
unfolding new_virtual_mem
new_virtual_mem-IsMapped n = length-replicate n 0

pub take-bytes : (vm : VirtualMem) (i n k : ℕ) → take k (bytes vm i n) ≡ bytes vm i (min k n)
take-bytes vm i n zero = rw (zero-min n)
take-bytes vm i zero (suc k) = rw (min-zero (suc k))
take-bytes vm i (suc n) (suc k) = ground (arith, take-bytes vm (i + 1) n k)

pub drop-bytes :
    (vm : VirtualMem) (i n k : ℕ) → k ≤ n → drop k (bytes vm i n) ≡ bytes vm (i + k) (n - k)
drop-bytes vm i n zero h = ap₂ (bytes vm) (omega arith) (omega arith)
drop-bytes vm i zero (suc k) h = elim h [ ]
drop-bytes vm i (suc n) (suc k) h =
    drop-bytes vm (i + 1) n k (omega arith) ∙ ap₂ (bytes vm) (omega arith) (omega arith)

pub size-zeroes_from : (n : ℕ) (vm : VirtualMem) (j : ℕ) → (zeroes_from vm j n).size ≡ vm.size
unfolding zeroes_from
size-zeroes_from zero vm j = refl
size-zeroes_from (suc n) vm j = size-zeroes_from n (set_byte vm j 0) (j + 1)

pub zeroes_from-IsMapped :
    (n : ℕ) (vm : VirtualMem) (j : ℕ) → IsMapped vm → IsMapped (zeroes_from vm j n)
unfolding zeroes_from
zeroes_from-IsMapped zero vm j m = m
zeroes_from-IsMapped (suc n) vm j m =
    zeroes_from-IsMapped n (set_byte vm j 0) (j + 1) (set_byte-IsMapped vm j 0 m)

pub size-zeroes : (vm : VirtualMem) → (zeroes vm).size ≡ vm.size
unfolding zeroes
size-zeroes vm = size-zeroes_from vm.size vm 0

pub zeroes-IsMapped : (vm : VirtualMem) → IsMapped vm → IsMapped (zeroes vm)
unfolding zeroes
zeroes-IsMapped vm m = zeroes_from-IsMapped vm.size vm 0 m

-- The rounded size is the least multiple of the page size that is not below the size.
pub adjust_buffer_size_lem :
    (page size : ℕ)
    → 0 < page
    → (size ≤ adjust_buffer_size page size)
      × (adjust_buffer_size page size % page ≡ 0)
      × (adjust_buffer_size page size < size + page)
unfolding adjust_buffer_size
adjust_buffer_size_lem page size h = grind (arith, div-add-mod, mod-lt, mul-mod_left)

same_multiple : (page a b : ℕ) → page * a ≤ page * b → page * b < page * a + page → a ≡ b
same_multiple page a b h k = elim (dec_lt a b) [
  | yes lt ↦ absurd (grind arith)
  | no le ↦ elim (dec_lt b a) [ yes lt ↦ absurd (grind arith) | no ge ↦ omega arith ]
]

-- A whole number of pages is left as it is.
pub adjust_buffer_size_pages :
    (page n : ℕ) → 0 < page → n % page ≡ 0 → adjust_buffer_size page n ≡ n
adjust_buffer_size_pages page n pos e =
    sym (whole m bounds.1)
    ∙ ap (λ q. page * q)
        (sym (
          same_multiple page (n / page) (m / page)
            (omega (arith, whole n e, whole m bounds.1, bounds))
            (omega (arith, whole n e, whole m bounds.1, bounds))))
    ∙ whole n e
  where
    m : ℕ
    m = adjust_buffer_size page n

    bounds : (n ≤ m) × (m % page ≡ 0) × (m < n + page)
    bounds = adjust_buffer_size_lem page n pos

    whole : (k : ℕ) → k % page ≡ 0 → page * (k / page) ≡ k
    whole k z = omega (arith, div-add-mod k page)

pub adjust_buffer_size_twice :
    (page n : ℕ)
    → 0 < page
    → adjust_buffer_size page (adjust_buffer_size page n) ≡ adjust_buffer_size page n
adjust_buffer_size_twice page n pos =
    adjust_buffer_size_pages page (adjust_buffer_size page n) pos
      (adjust_buffer_size_lem page n pos).1
