-- ===== src/Launch.antt =====
-- server.go: the workers that a start makes, and what becomes of one that dies.
pub mod Registering
mod Tests
use gain.Base.{
  ℕ, zero, suc, ◌+◌, ◌-◌, List, [], ◌∷◌, Bool, true, false, Option, none, some, if◌then◌else◌, not,
}
use gain.Base.Maps.{insert, delete}
use gain.Errors.{Error}
use gain.Buffer.{Buffer}
use gain.SyncPool
use gain.KeyPool
use gain.ConnManager
use gain.Consumer.{Consumer}
use gain.LoadBalancer.{Balancer, Created, create_load_balancer, created, refused}
use gain.Acceptor.{Acceptor, Handle, register_consumer}
use gain.Config.{Config}
use gain.Listener.{Listener, uses_messages}

pub record WorkerConfig : Type 0 where
  pub cpu_affinity : Bool
  pub process_priority : Bool
  pub max_sq_entries : ℕ
  pub max_cq_events : ℕ
  pub logger_level : ℕ
  pub pretty_logger : Bool

pub record ReadWriteConfig : Type 0 where
  pub worker : WorkerConfig
  pub async_handler : Bool
  pub goroutine_pool : Bool
  pub send_recv_msg : Bool

-- Of the acceptor
pub acceptor_worker_config : Config → WorkerConfig
acceptor_worker_config config = record {
  cpu_affinity = config.cpu_affinity;
  process_priority = config.process_priority;
  max_sq_entries = config.max_sq_entries;
  max_cq_events = config.max_cq_events;
  logger_level = config.logger_level;
  pretty_logger = config.pretty_logger;
}

abbrev plain_worker_config : Config → WorkerConfig
plain_worker_config config = record {
  cpu_affinity = config.cpu_affinity;
  process_priority = false;
  max_sq_entries = config.max_sq_entries;
  max_cq_events = config.max_cq_events;
  logger_level = config.logger_level;
  pretty_logger = config.pretty_logger;
}

pub consumer_config : Config → ReadWriteConfig
consumer_config config = record {
  worker = plain_worker_config config;
  async_handler = config.async_handler;
  goroutine_pool = config.goroutine_pool;
  send_recv_msg = false;
}

pub shard_worker_config : Config → List ℕ → ReadWriteConfig
shard_worker_config config protocol = record {
  worker = plain_worker_config config;
  async_handler = config.async_handler;
  goroutine_pool = config.goroutine_pool;
  send_recv_msg = uses_messages protocol;
}

-- The listeners that `start` opens for the shards, up to the first error; `init` is `initListener`.
pub open_listeners :
    {Addr : Type 0}
    → (ℕ → Listener Addr × Option Error)
    → ℕ
    → ℕ
    → List (Listener Addr) × Option Error
open_listeners init i zero = ([], none)
open_listeners init i (suc left) =
    let (ln, err) = init i in
    let (rest, failed) = open_listeners init (i + 1) left in
    elim err [ some e ↦ (ln ∷ [], some e) | none ↦ (ln ∷ rest, failed) ]

-- `newConsumerWorker`; its queue is nil where the rings can send messages.
unfoldable pub new_consumer : {B Addr : Type 0} → Bool → Consumer B Addr
new_consumer rings_messaging = record {
  base = record {
    manager = record {
      connections = [];
      connections_count = 0;
      closing = false;
      release_fd_set = [];
      key_pool = KeyPool.new_key_pool;
      conn_pool = SyncPool.new_pool;
    };
    sq = [];
    async_op_queue = [];
    jobs = [];
    shut = [];
  };
  socket_addresses = [];
  conn_queue = if rings_messaging then none else some [];
}

module _ {B Addr : Type 0} where
  -- `newAcceptorWorker`
  pub new_acceptor : ℕ → Balancer Handle → Acceptor B Addr
  new_acceptor fd balancer = record {
    fd = fd;
    accepting = false;
    sq = [];
    shut = [];
    balancer = balancer;
    consumers = [];
  }

  -- The loop of `startReactor` over the workers from `i` on, up to the first error. `rings` is what
  -- `CreateRing` gives: of number 0 to the acceptor, of a consumer's index to the consumer.
  pub register_all :
      (ℕ → Option Error) → Bool → ℕ → ℕ → Acceptor B Addr → Option Error × Option (Acceptor B Addr)
  register_all rings rings_messaging i zero a = (none, some a)
  register_all rings rings_messaging i (suc left) a = elim (rings (i + 1)) [
    | some err ↦ (some err, none)
    | none ↦
        register_all rings rings_messaging (i + 1) left
          (register_consumer a (new_consumer rings_messaging) i)
  ]

  abbrev pub with_balancer :
      (ℕ → Option Error)
      → Bool
      → Config
      → ℕ
      → Created Handle
      → Option Error × Option (Acceptor B Addr)
  with_balancer rings rings_messaging config fd (refused err) = (some err, none)
  with_balancer rings rings_messaging config fd (created balancer) = elim (rings 0) [
    | some err ↦ (some err, none)
    | none ↦ register_all rings rings_messaging 0 config.workers (new_acceptor fd balancer)
  ]

  -- `startReactor` before the goroutines: the error, or the acceptor with its consumers.
  pub start_reactor :
      (ℕ → Option Error) → Bool → Config → ℕ → Option Error × Option (Acceptor B Addr)
  start_reactor rings rings_messaging config fd =
      with_balancer rings rings_messaging config fd (create_load_balancer config.load_balancing)

-- The map of the workers by number. One that dies is taken out; `starting` is what `startedWg` waits
-- for, which a worker leaves when it is started or dies before.
pub record Workers (W : Type 0) : Type 0 where
  pub read_write_workers : List (ℕ × W)
  pub number_of_workers : ℕ
  pub starting : ℕ

module _ {W : Type 0} where
  pub handle_worker_stop : ℕ → Bool → Workers W → Workers W
  handle_worker_stop index started ws = record {
    read_write_workers = delete index ws.read_write_workers;
    number_of_workers = ws.number_of_workers - 1;
    starting = if started then ws.starting else ws.starting - 1;
  }

  pub store_worker : ℕ → W → Workers W → Workers W
  store_worker index w ws = record ws { read_write_workers = insert index w ws.read_write_workers }

  abbrev sum_over : (W → ℕ) → List (ℕ × W) → ℕ
  sum_over f [] = 0
  sum_over f ((_, w) ∷ ws) = f w + sum_over f ws

  -- `ActiveConnections`, over workers whose counts are not negative.
  pub active_connections : (W → ℕ) → Workers W → ℕ
  active_connections count_of ws = sum_over count_of ws.read_write_workers
