-- ===== src/Flags/Tests.antt =====
-- The flags' theorems at the read of connection 5.
use gain.Base.{◌≡◌, arith}
use gain.Flags.{user_data, key_of}
use gain.Flags.RoundTrip.{read, bit, key_of-user_data}

key_of-user_data_example : key_of (user_data (bit read) 5) ≡ 5
key_of-user_data_example = key_of-user_data read 5 (omega arith)
