-- ===== src/Flags/RoundTrip.antt =====
-- A key and a flag can be read back from the user data.
use Prim.Native.Nat.{bit_and}
use mathlib.Core.Path.{subst}
use gain.Base.{ℕ, ◌+◌, ◌*◌, ◌/◌, ◌%◌, ◌^◌, ◌<◌, ◌≡◌, true, false, sym, ap, arith, ltb, lt→ltb, ◌==◌}
use gain.Base.Masks.{bit_or-low, bit_and-pow, bit_and-ones, pow-pos}
use gain.Flags.{
  accept_data_flag, read_data_flag, write_data_flag, add_conn_flag, close_conn_flag, FlagName,
  accept_flag, read_flag, write_flag, add_conn_flag_name, close_conn_flag_name, flag_to_string,
  user_data, has_flag, key_of,
}

-- The five flags, by place.
pub data Flag : Type 0 where
  accept read write add_conn close_conn : Flag

abbrev pub bit : Flag → ℕ
bit accept = accept_data_flag
bit read = read_data_flag
bit write = write_data_flag
bit add_conn = add_conn_flag
bit close_conn = close_conn_flag

user_data-add : (f : Flag) (key : ℕ) → key < 2 ^ 59 → user_data (bit f) key ≡ bit f + key
unfolding user_data
user_data-add accept key h = bit_or-low 63 1 key (omega arith)
user_data-add read key h = bit_or-low 62 1 key (omega arith)
user_data-add write key h = bit_or-low 61 1 key (omega arith)
user_data-add add_conn key h = bit_or-low 60 1 key (omega arith)
user_data-add close_conn key h = bit_or-low 59 1 key (omega arith)

-- A key below 2^59 is read back from the user data, whichever flag was set.
pub key_of-user_data : (f : Flag) (key : ℕ) → key < 2 ^ 59 → key_of (user_data (bit f) key) ≡ key
unfolding key_of
key_of-user_data accept key h =
    omega (arith, user_data-add accept key h, bit_and-ones 59 (user_data (bit accept) key))
key_of-user_data read key h =
    omega (arith, user_data-add read key h, bit_and-ones 59 (user_data (bit read) key))
key_of-user_data write key h =
    omega (arith, user_data-add write key h, bit_and-ones 59 (user_data (bit write) key))
key_of-user_data add_conn key h =
    omega (arith, user_data-add add_conn key h, bit_and-ones 59 (user_data (bit add_conn) key))
key_of-user_data close_conn key h =
    omega (arith, user_data-add close_conn key h, bit_and-ones 59 (user_data (bit close_conn) key))

abbrev pub named : Flag → FlagName
named accept = accept_flag
named read = read_flag
named write = write_flag
named add_conn = add_conn_flag_name
named close_conn = close_conn_flag_name

flag_set : (k u : ℕ) → u / 2 ^ k % 2 ≡ 1 → has_flag (2 ^ k) u ≡ true
unfolding has_flag
flag_set k u e =
    lt→ltb 0 (bit_and u (2 ^ k)) (omega (arith, bit_and-pow k u, ap (λ t. t * 2 ^ k) e, pow-pos k))

flag_clear : (k u : ℕ) → u / 2 ^ k % 2 ≡ 0 → has_flag (2 ^ k) u ≡ false
unfolding has_flag
flag_clear k u e = ap (λ t. ltb 0 t) {y = 0} (omega (arith, bit_and-pow k u, ap (λ t. t * 2 ^ k) e))

abbrev pub Tests : Flag → ℕ → Type 0
Tests f u =
    (has_flag (bit accept) u ≡ (bit f == bit accept))
    × (has_flag (bit read) u ≡ (bit f == bit read))
    × (has_flag (bit write) u ≡ (bit f == bit write))
    × (has_flag (bit add_conn) u ≡ (bit f == bit add_conn))
    × (has_flag (bit close_conn) u ≡ (bit f == bit close_conn))

sum-Tests : (f : Flag) (key : ℕ) → key < 2 ^ 59 → Tests f (bit f + key)
sum-Tests accept key h = (
  flag_set 63 (2 ^ 63 + key) (omega arith),
  flag_clear 62 (2 ^ 63 + key) (omega arith),
  flag_clear 61 (2 ^ 63 + key) (omega arith),
  flag_clear 60 (2 ^ 63 + key) (omega arith),
  flag_clear 59 (2 ^ 63 + key) (omega arith),
)
sum-Tests read key h = (
  flag_clear 63 (2 ^ 62 + key) (omega arith),
  flag_set 62 (2 ^ 62 + key) (omega arith),
  flag_clear 61 (2 ^ 62 + key) (omega arith),
  flag_clear 60 (2 ^ 62 + key) (omega arith),
  flag_clear 59 (2 ^ 62 + key) (omega arith),
)
sum-Tests write key h = (
  flag_clear 63 (2 ^ 61 + key) (omega arith),
  flag_clear 62 (2 ^ 61 + key) (omega arith),
  flag_set 61 (2 ^ 61 + key) (omega arith),
  flag_clear 60 (2 ^ 61 + key) (omega arith),
  flag_clear 59 (2 ^ 61 + key) (omega arith),
)
sum-Tests add_conn key h = (
  flag_clear 63 (2 ^ 60 + key) (omega arith),
  flag_clear 62 (2 ^ 60 + key) (omega arith),
  flag_clear 61 (2 ^ 60 + key) (omega arith),
  flag_set 60 (2 ^ 60 + key) (omega arith),
  flag_clear 59 (2 ^ 60 + key) (omega arith),
)
sum-Tests close_conn key h = (
  flag_clear 63 (2 ^ 59 + key) (omega arith),
  flag_clear 62 (2 ^ 59 + key) (omega arith),
  flag_clear 61 (2 ^ 59 + key) (omega arith),
  flag_clear 60 (2 ^ 59 + key) (omega arith),
  flag_set 59 (2 ^ 59 + key) (omega arith),
)

-- For a key below 2^59 the test of each flag succeeds on the user data exactly if that flag was
-- set.
pub has_flag-user_data : (f : Flag) (key : ℕ) → key < 2 ^ 59 → Tests f (user_data (bit f) key)
has_flag-user_data f key h = subst (Tests f) (sym (user_data-add f key h)) (sum-Tests f key h)

-- The log names the flag that was set.
pub flag_to_string-user_data :
    (f : Flag) (key : ℕ) → key < 2 ^ 59 → flag_to_string (user_data (bit f) key) ≡ named f
unfolding flag_to_string
flag_to_string-user_data f key h = go f (user_data (bit f) key) (has_flag-user_data f key h)
  where
    go : (f : Flag) (u : ℕ) → Tests f u → flag_to_string u ≡ named f
    go accept u (a, b, c, d, e) = rw a
    go read u (a, b, c, d, e) = rw (a, b)
    go write u (a, b, c, d, e) = rw (a, b, c)
    go add_conn u (a, b, c, d, e) = rw (a, b, c, d)
    go close_conn u (a, b, c, d, e) = rw (a, b, c, d, e)
