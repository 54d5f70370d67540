-- ===== src/Flags.antt =====
-- flags.go: the kind of a request in the five highest bits of the 64-bit user data of io_uring, the
-- key of its connection below them.
pub mod RoundTrip
mod Tests
use Prim.Native.Nat.{bit_and, bit_or}
use gain.Base.{ℕ, ◌-◌, ◌^◌, Bool, ltb, if◌then◌else◌}

abbrev pub accept_data_flag : ℕ
accept_data_flag = 2 ^ 63

abbrev pub read_data_flag : ℕ
read_data_flag = 2 ^ 62

abbrev pub write_data_flag : ℕ
write_data_flag = 2 ^ 61

abbrev pub add_conn_flag : ℕ
add_conn_flag = 2 ^ 60

abbrev pub close_conn_flag : ℕ
close_conn_flag = 2 ^ 59

abbrev pub all_flags_mask : ℕ
all_flags_mask =
    bit_or (bit_or (bit_or (bit_or accept_data_flag read_data_flag) write_data_flag) add_conn_flag)
      close_conn_flag

-- `flag | uint64(key)`
pub user_data : ℕ → ℕ → ℕ
user_data flag key = bit_or flag key

-- `data & flag > 0`
unfoldable pub has_flag : ℕ → ℕ → Bool
has_flag flag u = ltb 0 (bit_and u flag)

-- `data & ^allFlagsMask`, with the complement in 64 bits
unfoldable pub key_of : ℕ → ℕ
key_of u = bit_and u (2 ^ 64 - 1 - all_flags_mask)

pub data FlagName : Type 0 where
  accept_flag read_flag write_flag add_conn_flag_name close_conn_flag_name unknown_flag : FlagName

pub flag_to_string : ℕ → FlagName
flag_to_string u =
    if has_flag accept_data_flag u
    then accept_flag
    else if has_flag read_data_flag u
    then read_flag
    else if has_flag write_data_flag u
    then write_flag
    else if has_flag add_conn_flag u
    then add_conn_flag_name
    else if has_flag close_conn_flag u
    then close_conn_flag_name
    else unknown_flag
