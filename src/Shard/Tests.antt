-- ===== src/Shard/Tests.antt =====
-- A shard over ring buffers with pages of 4 bytes: descriptor 5 listens, and 9 is accepted.
use gain.Base.{ℕ, ◌+◌, refl, arith, List, [], ◌∷◌, Bool, Option, none, some, true, false, Safe}
use gain.Base.Maps.{keys, occurrences}
use gain.SyncPool
use gain.SyncPool.{SyncPool}
use gain.KeyPool
use gain.Flags.{accept_data_flag}
use gain.Buffer.Ring.{PooledRing, ring_buffer}
use gain.Conn.{Connection, new_connection, conn_accept}
use gain.Conn.User.{finished}
use gain.ConnManager.{active_connections}
use gain.ConnManager.Counting.{IsCounted}
use gain.Requests.{Entry}
use gain.Worker.{Config, EventHandler, Completion, count}
use gain.Shard.{Shard, ShardConfig}
use gain.Shard.Loop.{loop, loop_handlers}
use gain.Shard.Loop.Running.{Counted, loop-EndsWell}
use gain.Shutdowner.{Looped, new_shutdowner, ask_to_shutdown}
use gain.Shutdowner.Keeping.{OfWorker}
use gain.Looper.{Round}
use gain.Looper.Keeping.{EndsWell, AnyError}
use gain.Submitter.{Submitter, submitted}
use gain.Submitter.Adapting.{IsMatched}

abbrev listener : Connection PooledRing ℕ
listener = record (new_connection (ring_buffer 4)) { fd = 5; key = 5; state = conn_accept }

abbrev roomy : List Entry → Bool
roomy _ = true

abbrev stream : Config ℕ
stream = record { async_handler = false; send_recv_msg = false; local_addr = none }

abbrev silent : EventHandler PooledRing ℕ
silent = record {
  on_accept = λ _. finished;
  on_read = λ _ _. finished;
  on_write = λ _ _. finished;
  on_close = λ _ _. finished;
}

abbrev never : SyncPool (Connection PooledRing ℕ) → Option ℕ
never _ = none

abbrev settings : ShardConfig
settings = record {
  connection_protocol = true;
  cpu_affinity = false;
  keeps_alive = true;
  set_incoming_cpu = λ _. none;
  set_keep_alive = λ _. none;
}

abbrev listening : Shard PooledRing ℕ
listening = record {
  base = record {
    manager = record {
      connections = (5, listener) ∷ [];
      connections_count = 1;
      closing = false;
      release_fd_set = [];
      key_pool = KeyPool.new_key_pool;
      conn_pool = SyncPool.new_pool;
    };
    sq = [];
    async_op_queue = [];
    jobs = [];
    shut = [];
  };
  fd = 5;
  accepting = true;
  client_addr = some 77;
}

abbrev accepts : Completion
accepts = record { res = count 9; sock_nonempty = false; user_data = accept_data_flag + 5 }

listening-IsCounted : IsCounted listening.base.manager
unfolding active_connections occurrences keys
listening-IsCounted = record { counted = refl; once = λ k. ground arith }

-- An accept, while another goroutine asks for the end.
abbrev accepting_last : Round (Looped (Shard PooledRing ℕ)) Completion
accepting_last = record {
  others = ask_to_shutdown;
  submitted = submitted;
  completions = accepts ∷ [];
}

abbrev waiting : Submitter
waiting = record { wait_for_index = 2; wait_for = 64 }

loop-EndsWell_example :
    Safe
      (loop
        (ring_buffer 4)
        roomy
        stream
        silent
        never
        settings
        none
        (accepting_last ∷ [])
        5
        (new_shutdowner listening)
        waiting)
      (EndsWell
        (loop_handlers (ring_buffer 4) roomy stream silent never settings)
        (OfWorker Counted)
        AnyError)
unfolding IsMatched ask_to_shutdown new_shutdowner
loop-EndsWell_example =
    loop-EndsWell (ring_buffer 4) roomy stream silent never settings none (accepting_last ∷ []) 5
      (new_shutdowner listening) waiting refl
      ((λ l i. record { counted = i.counted; once = i.once }, tt), tt) listening-IsCounted refl
