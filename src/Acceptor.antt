-- ===== src/Acceptor.antt =====
-- acceptor_worker.go and acceptor.go: the worker that accepts connections and hands them on.
pub mod Delivery
pub mod Loop
mod Tests
use gain.Base.{ℕ, List, [], ◌∷◌, ◌++◌, refl, Bool, true, false, Option, none, some}
use gain.Base.{Outcome, ret, panic, ◌>>=◌, if◌then◌else◌, ◌==◌, get_elem?, set}
use gain.Errors.{Error, getting_sqe}
use gain.Flags.{has_flag, add_conn_flag}
use gain.LoadBalancer
use gain.LoadBalancer.{Balancer, round_robin, least_connections, source_ip_hash, next, at, for_each}
use gain.ConnManager
use gain.Requests.{Entry, msg_ring, plain, add_accept_request}
use gain.Worker.{Completion, Res, negative, count}
use gain.Consumer
use gain.Consumer.{Consumer, set_socket_addr, add_conn_to_queue}

-- A balancer's pointer to a consumer: its place among the consumers, with the worker's index.
pub record Handle : Type 0 where
  pub id : ℕ
  pub idx : ℕ

-- `client_addr` is what `lastClientAddr` makes of the address that the kernel stored.
pub data ClientAddr (Addr : Type 0) : Type 0 where
  known : Addr → ClientAddr Addr
  unknown : Error → ClientAddr Addr

pub record Acceptor (B Addr : Type 0) : Type 0 where
  pub fd : ℕ
  pub accepting : Bool
  pub sq : List Entry
  pub shut : List ℕ
  pub balancer : Balancer Handle
  pub consumers : List (Consumer B Addr)

-- The settings: the kernel's messages between rings, `tcpKeepAlive > 0`, and what setting the option
-- of a descriptor gives.
pub record AcceptorConfig : Type 0 where
  pub rings_messaging : Bool
  pub keeps_alive : Bool
  pub set_keep_alive : ℕ → Option Error

abbrev workers_of : Balancer Handle → List Handle
workers_of (round_robin g i) = g.workers
workers_of (least_connections g) = g.workers
workers_of (source_ip_hash g) = g.workers

module _ {B Addr : Type 0} where
  abbrev load_of : Option (Consumer B Addr) → ℕ
  load_of none = 0
  load_of (some w) = ConnManager.active_connections w.base.manager

  -- The consumers as the balancer sees them.
  abbrev pub handles : List (Consumer B Addr) → LoadBalancer.Consumer Handle
  handles consumers = record {
    index = λ h. h.idx;
    set_index = λ n h. record h { idx = n };
    active_connections = λ h. load_of (get_elem? consumers h.id);
    index-set_index = λ n h. refl;
  }

  abbrev pub put_consumer : Acceptor B Addr → ℕ → Consumer B Addr → Acceptor B Addr
  put_consumer a i w = record a { consumers = set a.consumers i w }

  -- `syscallCloseSocket`
  abbrev pub shut_socket : Acceptor B Addr → ℕ → Acceptor B Addr
  shut_socket a fd = record a { shut = fd ∷ a.shut }

  -- `registerConsumer`
  unfoldable pub register_consumer : Acceptor B Addr → Consumer B Addr → ℕ → Acceptor B Addr
  register_consumer a w place = record a {
    balancer =
        LoadBalancer.register (handles a.consumers) a.balancer (record { id = place; idx = 0 });
    consumers = a.consumers ++ w ∷ [];
  }

module _ {B Addr : Type 0} (room : List Entry → Bool) (config : AcceptorConfig) (ring_fd : ℕ → ℕ)
    (checksum : Addr → ℕ) where
  -- The ring of the consumer is `ring_fd` of its place.
  pub add_conn_via_ring : Acceptor B Addr → ℕ → ℕ → Option Error × Acceptor B Addr
  add_conn_via_ring a i fd =
      if room a.sq
      then (none, record a { sq = a.sq ++ plain (msg_ring (ring_fd i) fd) add_conn_flag ∷ [] })
      else (some getting_sqe, a)

  pub add_conn_via_queue :
      Acceptor B Addr → ℕ → Consumer B Addr → ℕ → Option Error × Acceptor B Addr
  add_conn_via_queue a i w fd = let (err, w') = add_conn_to_queue w fd in (err, put_consumer a i w')

  pub add_conn : Acceptor B Addr → ℕ → Consumer B Addr → ℕ → Option Error × Acceptor B Addr
  add_conn a i w fd =
      if config.rings_messaging then add_conn_via_ring a i fd else add_conn_via_queue a i w fd

  -- An error is logged and the socket closed.
  abbrev pub close_if_failed : ℕ → Option Error × Acceptor B Addr → Option Error × Acceptor B Addr
  close_if_failed fd (none, a) = (none, a)
  close_if_failed fd (some err, a) = (none, shut_socket a fd)

  -- The consumer of the handle hears of the address and gets the connection.
  pub give : Acceptor B Addr → Handle → ℕ → Addr → Outcome (Option Error × Acceptor B Addr)
  give a h fd addr = do
    w ← at a.consumers h.id
    let w' = set_socket_addr w fd addr
    ret (close_if_failed fd (add_conn (put_consumer a h.id w') h.id w' fd))

  pub forward : Acceptor B Addr → ℕ → ClientAddr Addr → Outcome (Option Error × Acceptor B Addr)
  forward a fd (unknown err) = ret (none, shut_socket a fd)
  forward a fd (known addr) = do
    chosen ← next (handles a.consumers) checksum a.balancer addr
    give (record a { balancer = chosen.1 }) chosen.0 fd addr

  pub welcome : Acceptor B Addr → ℕ → ClientAddr Addr → Outcome (Option Error × Acceptor B Addr)
  welcome a fd client =
      let failed = if config.keeps_alive then config.set_keep_alive fd else none in
      elim failed [ some err ↦ ret (some err, a) | none ↦ forward a fd client ]

  -- What `processEvent` lets through.
  abbrev pub process_res :
      Res → Acceptor B Addr → ℕ → ClientAddr Addr → Outcome (Option Error × Acceptor B Addr)
  process_res (negative _) a user_data client = ret (none, a)
  process_res (count n) a user_data client =
      if user_data == 0 then ret (none, a) else welcome a n client

  abbrev pub accepted_next :
      Completion
      → ClientAddr Addr
      → Acceptor B Addr
      → Option Error × List Entry
      → Outcome (Option Error × Acceptor B Addr)
  accepted_next cqe client a (some err, sq) = ret (some err, a)
  accepted_next cqe client a (none, sq) =
      process_res cqe.res (record a { sq = sq }) cqe.user_data client

  -- The loop's function: the completion of a message is nothing to the acceptor; any other is
  -- followed by the next accept first.
  pub process :
      Acceptor B Addr → Completion → ClientAddr Addr → Outcome (Option Error × Acceptor B Addr)
  process a cqe client =
      if has_flag add_conn_flag cqe.user_data
      then ret (none, a)
      else accepted_next cqe client a (add_accept_request room a.fd a.sq)

  abbrev prepared : Acceptor B Addr → Option Error × List Entry → Option Error × Acceptor B Addr
  prepared a (some err, sq) = (some err, a)
  prepared a (none, sq) = (none, record a { sq = sq; accepting = true })

  -- `prepareHandler`
  pub prepare : Acceptor B Addr → Option Error × Acceptor B Addr
  prepare a = prepared a (add_accept_request room a.fd a.sq)

  abbrev shut_one :
      (Consumer B Addr → Consumer B Addr)
      → Handle
      → List (Consumer B Addr)
      → Option Error × List (Consumer B Addr)
  shut_one shut_down h ws = elim (get_elem? ws h.id) [
    | none ↦ (none, ws)
    | some w ↦ (none, set ws h.id (shut_down w))
  ]

  -- `closeRingAndConsumers`, with what shutting a consumer down makes of it; an error is logged.
  pub close_ring_and_consumers :
      (Consumer B Addr → Consumer B Addr) → Acceptor B Addr → Acceptor B Addr
  close_ring_and_consumers shut_down a = record a {
    shut = a.fd ∷ a.shut;
    accepting = false;
    consumers = (for_each (shut_one shut_down) (workers_of a.balancer) a.consumers).1;
  }
