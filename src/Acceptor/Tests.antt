-- ===== src/Acceptor/Tests.antt =====
-- An acceptor of descriptor 3 with one consumer, over buffers of pages of 4 bytes.
use gain.Base.{ℕ, ◌+◌, refl, List, [], ◌∷◌, Bool, none, some, true, false, Safe}
use gain.SyncPool
use gain.KeyPool
use gain.Flags.{accept_data_flag, has_flag}
use gain.Buffer.Ring.{PooledRing}
use gain.LoadBalancer.{round_robin}
use gain.Requests.{Entry}
use gain.Worker.{Completion, count}
use gain.Consumer.{Consumer}
use gain.Acceptor.{Acceptor, AcceptorConfig, known, process}
use gain.Acceptor.Delivery.{Accounted, process-Accounted}

abbrev idle : Consumer PooledRing ℕ
idle = record {
  base = record {
    manager = record {
      connections = [];
      connections_count = 0;
      closing = false;
      release_fd_set = [];
      key_pool = KeyPool.new_key_pool;
      conn_pool = SyncPool.new_pool;
    };
    sq = [];
    async_op_queue = [];
    jobs = [];
    shut = [];
  };
  socket_addresses = [];
  conn_queue = some [];
}

abbrev acceptor : Acceptor PooledRing ℕ
acceptor = record {
  fd = 3;
  accepting = true;
  sq = [];
  shut = [];
  balancer = round_robin (record { workers = record { id = 0; idx = 0 } ∷ []; size = 1 }) 0;
  consumers = idle ∷ [];
}

abbrev by_queue : AcceptorConfig
by_queue = record { rings_messaging = false; keeps_alive = true; set_keep_alive = λ _. none }

abbrev roomy : List Entry → Bool
roomy _ = true

abbrev arrival : Completion
arrival = record { res = count 9; sock_nonempty = false; user_data = accept_data_flag + 3 }

process-Accounted_example :
    Safe
      (process roomy by_queue (λ i. i + 20) (λ addr. addr) acceptor arrival (known 77))
      (Accounted 9 acceptor)
unfolding has_flag
process-Accounted_example =
    process-Accounted roomy by_queue (λ i. i + 20) (λ addr. addr) acceptor arrival 9 (known 77) refl
      refl refl
