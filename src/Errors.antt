-- ===== src/Errors.antt =====
-- pkg/errors/errors.go, with the errors of Go's io package and of the system calls.
use gain.Base.{ℕ}

pub data Error : Type 0 where
  unsupported_protocol : Error
  unsupported_tcp_protocol : Error
  unsupported_udp_protocol : Error
  no_ipv4_address_on_interface : Error
  not_supported : Error
  skippable : Error
  is_empty : Error
  connection_already_closed : Error
  connection_closed : Error
  op_not_available_in_mode : ℕ → Error  -- with the mode, of the message
  connection_queue_is_nil : Error
  unknown_connection_state : Error
  invalid_time_duration : Error
  invalid_state : Error
  address_not_found : Error
  server_already_running : Error
  getting_sqe : Error
  eof : Error  -- io.EOF
  short_buffer : Error  -- io.ErrShortBuffer
  short_write : Error  -- io.ErrShortWrite
  sys : ℕ → Error  -- what a system call or a caller's reader or writer returns
