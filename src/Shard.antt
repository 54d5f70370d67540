-- ===== src/Shard.antt =====
-- shard_worker.go and acceptor.go: a worker with a listening socket of its own, one completion at a
-- time. For UDP the main connection, of key 1, stands for the socket.
pub mod Counting
pub mod Loop
mod Tests
use gain.Base.{
  ℕ, zero, suc, List, [], ◌∷◌, Bool, true, false, Option, none, some, if◌then◌else◌, ◌==◌, ◌&&◌,
  ◌||◌, not,
}
use gain.Base.{Outcome, ret, ◌>>=◌}
use gain.Errors.{Error, unknown_connection_state}
use gain.Flags.{has_flag, key_of, close_conn_flag, write_data_flag}
use gain.Buffer.{Buffer}
use gain.SyncPool.{SyncPool}
use gain.Conn
use gain.Conn.{
  Connection, ConnectionState, conn_invalid, conn_accept, conn_read, conn_write, conn_close,
  set_user_space,
}
use gain.Conn.User.{run}
use gain.ConnManager
use gain.ConnManager.{ConnManager}
use gain.Requests.{Entry, add_accept_request, add_close_conn_request, add_read_request}
use gain.Worker.{
  Worker, Config, EventHandler, Completion, Res, negative, count, keep, add_next_request,
  close_conn, on_read,
}
use gain.Consumer.{written, current, unless_failed}

-- `client_addr` is what `lastClientAddr` makes of the address that the kernel stored, if anything.
pub record Shard (B Addr : Type 0) : Type 0 where
  pub base : Worker B Addr
  pub fd : ℕ
  pub accepting : Bool
  pub client_addr : Option Addr

-- The settings, and what setting a socket option of a descriptor gives.
pub record ShardConfig : Type 0 where
  pub connection_protocol : Bool
  pub cpu_affinity : Bool
  pub keeps_alive : Bool
  pub set_incoming_cpu : ℕ → Option Error
  pub set_keep_alive : ℕ → Option Error

abbrev no_client : Option ℕ → Bool
no_client none = false
no_client (some n) = n == 0

module _ {B Addr : Type 0} where
  pub stop_accept : Shard B Addr → Shard B Addr
  stop_accept w = record w { base = record w.base { shut = w.fd ∷ w.base.shut } }

  -- The listening connection is not counted: the count less 1, and no number for the -1 of Go.
  pub active_connections : Shard B Addr → Option ℕ
  active_connections w = elim (ConnManager.active_connections w.base.manager) [
    | zero ↦ none
    | suc n ↦ some n
  ]

  -- The condition to leave the loop.
  pub is_finished : ShardConfig → Shard B Addr → Bool
  is_finished settings w =
      ConnManager.all_closed w.base.manager
      || (settings.connection_protocol && not w.accepting && no_client (active_connections w))

  pub close_all_conns_and_rings : (List Entry → Bool) → Shard B Addr → Shard B Addr
  close_all_conns_and_rings room w =
      let (m, sq) = ConnManager.close closing (some w.fd) w.base.manager w.base.sq in
      record w {
        accepting = false;
        base = record w.base { manager = m; sq = sq; shut = w.fd ∷ w.base.shut };
      }
    where
      closing : Connection B Addr → List Entry → Bool × Connection B Addr × List Entry
      closing c sq =
          let (err, c', sq') = add_close_conn_request room c sq in
          (elim err [ none ↦ true | some _ ↦ false ], c', sq')

module _ {B Addr : Type 0} (buf : Buffer B) (room : List Entry → Bool) (config : Config Addr)
    (handler : EventHandler B Addr) (choice : SyncPool (Connection B Addr) → Option ℕ)
    (settings : ShardConfig) where
  -- `addAcceptConnRequest`
  abbrev accepting_on : Shard B Addr → Option Error × List Entry → Option Error × Shard B Addr
  accepting_on w (some err, sq) = (some err, w)
  accepting_on w (none, sq) =
      let (c, m) = ConnManager.get_fd buf w.base.manager w.fd (choice w.base.manager.conn_pool) in
      (
        none,
        record w {
          base = record w.base {
            manager = ConnManager.store m (record c { state = conn_accept });
            sq = sq;
          };
        },
      )

  pub add_accept_conn_request : Shard B Addr → Option Error × Shard B Addr
  add_accept_conn_request w = accepting_on w (add_accept_request room w.fd w.base.sq)

  -- The two socket options, the first error of them.
  pub option_error : ℕ → Option Error
  option_error fd = elim (if settings.cpu_affinity then settings.set_incoming_cpu fd else none) [
    | some err ↦ some err
    | none ↦ if settings.keeps_alive then settings.set_keep_alive fd else none
  ]

  abbrev pub accepted : Shard B Addr → Connection B Addr → ℕ → Connection B Addr
  accepted w c fd = record c {
    fd = fd;
    local_addr = config.local_addr;
    remote_addr = elim w.client_addr [ none ↦ c.remote_addr | some a ↦ some a ];
  }

  -- The new connection, once the next accept is on its way.
  pub greet : Shard B Addr → ℕ → Outcome (Option Error × Worker B Addr)
  greet w fd =
      let (c, m) = ConnManager.get_fd buf w.base.manager fd (choice w.base.manager.conn_pool) in
      let c1 = accepted w c fd in
      elim (option_error fd) [
        | some err ↦ ret (some err, record w.base { manager = ConnManager.store m c1 })
        | none ↦ (do
          c2 ← run buf (handler.on_accept (set_user_space c1)) (set_user_space c1)
          l ← add_next_request buf room config c2 w.base.sq
          ret (keep buf room config handler choice (record w.base { manager = m }) l))
      ]

  abbrev with_base : Shard B Addr → Option Error × Worker B Addr → Option Error × Shard B Addr
  with_base w (err, base) = (err, record w { base = base })

  abbrev greet_after : ℕ → Option Error × Shard B Addr → Outcome (Option Error × Shard B Addr)
  greet_after fd (some err, w) = ret (some err, record w { accepting = false })
  greet_after fd (none, w) = greet w fd >>= λ r. ret (with_base w r)

  pub on_accept : Shard B Addr → ℕ → Outcome (Option Error × Shard B Addr)
  on_accept w fd = greet_after fd (add_accept_conn_request w)

  abbrev unless_shard_failed :
      Connection B Addr → Option Error × Shard B Addr → Outcome (Shard B Addr)
  unless_shard_failed c (err, w) =
      unless_failed buf room config handler choice c (err, w.base) >>= λ base.
      ret (record w { base = base })

  -- What follows a write: a datagram's connection is done, another goes on.
  pub after_write : Worker B Addr → Connection B Addr → Connection B Addr → Outcome (Worker B Addr)
  after_write w c c' =
      if config.send_recv_msg
      then ret
          (record w { manager = ConnManager.release buf (ConnManager.store w.manager c') c.key })
      else (add_next_request buf room config c' w.sq >>= λ l.
          unless_failed buf room config handler choice c (keep buf room config handler choice w l))

  -- `handleConn` of the states but `connAccept`, of a completion with `Res` = `n`.
  pub serve :
      ConnectionState → Worker B Addr → Connection B Addr → ℕ → Completion → Outcome (Worker B Addr)
  serve conn_read w c n cqe =
      on_read buf room config handler choice w (record cqe { res = count n }) c
      >>= unless_failed buf room config handler choice c
  serve conn_write w c n cqe =
      if not settings.connection_protocol && (c.key == 1)
      then ret w
      else (written buf room config handler choice c n >>= after_write w c)
  serve conn_close w c n cqe =
      if has_flag close_conn_flag cqe.user_data
      then close_conn buf room config handler choice w c false none
      else if has_flag write_data_flag cqe.user_data
      then (written buf room config handler choice c n >>= λ c'.
          ret (record w { manager = ConnManager.store w.manager c' }))
      else ret w
  serve conn_invalid w c n cqe =
      unless_failed buf room config handler choice c (some unknown_connection_state, w)
  serve conn_accept w c n cqe = ret w

  pub handle_state :
      ConnectionState → Shard B Addr → Connection B Addr → ℕ → Completion → Outcome (Shard B Addr)
  handle_state conn_accept w c n cqe = on_accept w n >>= unless_shard_failed c
  handle_state conn_read w c n cqe =
      serve conn_read w.base c n cqe >>= λ base. ret (record w { base = base })
  handle_state conn_write w c n cqe =
      serve conn_write w.base c n cqe >>= λ base. ret (record w { base = base })
  handle_state conn_close w c n cqe =
      serve conn_close w.base c n cqe >>= λ base. ret (record w { base = base })
  handle_state conn_invalid w c n cqe =
      serve conn_invalid w.base c n cqe >>= λ base. ret (record w { base = base })

  pub handle_conn : Shard B Addr → Connection B Addr → ℕ → Completion → Outcome (Shard B Addr)
  handle_conn w c n cqe = handle_state c.state w c n cqe

  -- The loop's handler of a completion. An error is only logged.
  pub process_count : Res → Shard B Addr → Completion → Outcome (Shard B Addr)
  process_count (negative _) w cqe = ret w
  process_count (count n) w cqe =
      if cqe.user_data == 0
      then ret w
      else (let key = key_of cqe.user_data in
          let (c, m) =
            ConnManager.get buf w.base.manager key
              (if settings.connection_protocol then key else w.fd)
              (choice w.base.manager.conn_pool) in
          handle_conn (record w { base = record w.base { manager = m } }) c n cqe)

  pub process_completion : Shard B Addr → Completion → Outcome (Shard B Addr)
  process_completion w cqe = process_count cqe.res w cqe

  -- The main connection of a UDP socket before the loop.
  pub prepare_udp : Shard B Addr → Outcome (Option Error × Shard B Addr)
  prepare_udp w =
      let (c, m) = ConnManager.get buf w.base.manager 1 w.fd (choice w.base.manager.conn_pool) in
      (do
        l ←
            add_read_request buf room config.send_recv_msg
              (Conn.init_msg_header buf (record c { fd = w.fd })) w.base.sq
        ret (with_base w (keep buf room config handler choice (record w.base { manager = m }) l)))
