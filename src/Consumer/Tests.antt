-- ===== src/Consumer/Tests.antt =====
-- A consumer over ring buffers with pages of 4 bytes, with one connection of descriptor 9.
use gain.Base.{ℕ, ◌+◌, ◌≡◌, refl, arith, List, [], ◌∷◌, Bool, Option, none, some, true, false, Safe}
use gain.Base.Maps.{lookup, keys, occurrences}
use gain.SyncPool
use gain.SyncPool.{SyncPool}
use gain.KeyPool
use gain.Flags.{key_of, read_data_flag}
use gain.Buffer.Ring.{PooledRing, ring_buffer}
use gain.Conn.{Connection, new_connection, conn_read}
use gain.Conn.User.{finished}
use gain.ConnManager.{active_connections}
use gain.ConnManager.Counting.{IsCounted}
use gain.Requests.{Entry}
use gain.Worker.{Config, EventHandler, Completion, count, negative}
use gain.Consumer.{Consumer}
use gain.Consumer.Loop.{loop, loop_handlers}
use gain.Shutdowner.{Looped, new_shutdowner, ask_to_shutdown}
use gain.Shutdowner.Keeping.{OfWorker}
use gain.Consumer.Loop.Running.{Counted, loop-IsCounted}
use gain.Looper.{Round}
use gain.Looper.Keeping.{EndsWell, AnyError}
use gain.Submitter.{Submitter, submitted}
use gain.Submitter.Adapting.{IsMatched}

abbrev conn : Connection PooledRing ℕ
conn = record (new_connection (ring_buffer 4)) { fd = 9; key = 9; state = conn_read }

abbrev roomy : List Entry → Bool
roomy _ = true

abbrev stream : Config ℕ
stream = record { async_handler = false; send_recv_msg = false; local_addr = none }

abbrev silent : EventHandler PooledRing ℕ
silent = record {
  on_accept = λ _. finished;
  on_read = λ _ _. finished;
  on_write = λ _ _. finished;
  on_close = λ _ _. finished;
}

abbrev never : SyncPool (Connection PooledRing ℕ) → Option ℕ
never _ = none

abbrev one : Consumer PooledRing ℕ
one = record {
  base = record {
    manager = record {
      connections = (9, conn) ∷ [];
      connections_count = 1;
      closing = false;
      release_fd_set = [];
      key_pool = KeyPool.new_key_pool;
      conn_pool = SyncPool.new_pool;
    };
    sq = [];
    async_op_queue = [];
    jobs = [];
    shut = [];
  };
  socket_addresses = [];
  conn_queue = none;
}

-- The failed read of descriptor 9, and of 8, which has no connection.
abbrev failed_read : ℕ → Completion
failed_read fd = record {
  res = negative 104;
  sock_nonempty = false;
  user_data = read_data_flag + fd;
}

abbrev empty_read : Completion
empty_read = record { res = count 0; sock_nonempty = false; user_data = read_data_flag + 9 }

one-IsCounted : IsCounted one.base.manager
unfolding active_connections occurrences keys
one-IsCounted = record { counted = refl; once = λ k. ground arith }

ninth : lookup (key_of (read_data_flag + 9)) one.base.manager.connections ≡ some conn
unfolding lookup key_of
ninth = refl

no_eighth : lookup (key_of (read_data_flag + 8)) one.base.manager.connections ≡ none
unfolding lookup key_of
no_eighth = refl

abbrev shutting_down : Round (Looped (Consumer PooledRing ℕ)) Completion
shutting_down = record {
  others = ask_to_shutdown;
  submitted = submitted;
  completions = failed_read 9 ∷ empty_read ∷ [];
}

abbrev waiting : Submitter
waiting = record { wait_for_index = 2; wait_for = 64 }

loop-IsCounted_example :
    Safe
      (loop
        (ring_buffer 4)
        roomy
        stream
        silent
        never
        none
        (shutting_down ∷ [])
        (new_shutdowner one)
        waiting)
      (EndsWell
        (loop_handlers (ring_buffer 4) roomy stream silent never)
        (OfWorker Counted)
        AnyError)
unfolding IsMatched ask_to_shutdown new_shutdowner
loop-IsCounted_example =
    loop-IsCounted (ring_buffer 4) roomy stream silent never none (shutting_down ∷ [])
      (new_shutdowner one) waiting refl
      ((λ l i. record { counted = i.counted; once = i.once }, tt), tt) one-IsCounted refl
