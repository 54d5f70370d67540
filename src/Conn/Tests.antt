-- ===== src/Conn/Tests.antt =====
-- The user's operations on a connection over ring buffers with pages of 4 bytes.
use gain.Base.{ℕ, ◌≡◌, refl, [], ◌∷◌, some, false, Safe}
use gain.Errors.{op_not_available_in_mode}
use gain.Buffer.Ring.{PooledRing, ring_buffer}
use gain.Conn.{Connection, new_connection, user_op_allowed, user_space}
use gain.Conn.User.{op_write, op_close, Program, finished, ask, run}
use gain.Conn.Guards.{closes, Kept, run-Kept}

-- The kernel has it.
abbrev idle : Connection PooledRing ℕ
idle = record (new_connection (ring_buffer 4)) { fd = 9; key = 9 }

idle-refuses : user_op_allowed idle ≡ some (op_not_available_in_mode 0)
unfolding user_op_allowed new_connection
idle-refuses = refl

write-is_no_close : closes (op_write (7 ∷ [])) ≡ false
unfolding closes
write-is_no_close = refl

-- A handler that answers and hangs up.
abbrev goodbye : Program
goodbye = ask (op_write (7 ∷ [])) (λ _. ask op_close (λ _. finished))

run-Kept_example :
    Safe
      (run (ring_buffer 4) goodbye (record idle { mode = user_space }))
      (Kept (record idle { mode = user_space }))
run-Kept_example = run-Kept (ring_buffer 4) goodbye (record idle { mode = user_space })
