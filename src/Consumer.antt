-- ===== src/Consumer.antt =====
-- consumer_worker.go and worker.go: a worker that the acceptor hands its connections to, one
-- completion at a time.
pub mod Counting
pub mod Loop
mod Tests
use gain.Base.{
  ℕ, List, [], ◌∷◌, ◌++◌, Bool, true, false, Option, none, some, if◌then◌else◌, ltb, ◌==◌,
}
use gain.Base.{Outcome, ret, ◌>>=◌}
use gain.Base.Maps.{lookup, insert, delete}
use gain.Errors.{Error, unknown_connection_state, connection_queue_is_nil}
use gain.Flags.{has_flag, key_of, close_conn_flag, write_data_flag, add_conn_flag}
use gain.Buffer.{Buffer}
use gain.SyncPool.{SyncPool}
use gain.Conn
use gain.Conn.{
  Connection, ConnectionState, conn_invalid, conn_accept, conn_read, conn_write, conn_close,
  set_user_space,
}
use gain.Conn.User.{run}
use gain.ConnManager
use gain.Requests.{Entry, add_close_conn_request}
use gain.Worker.{
  Worker, Config, EventHandler, Completion, Res, negative, count, Local, keep, add_next_request,
  close_conn, on_read,
}

-- The queue is nil where the kernel can send messages between rings.
pub record Consumer (B Addr : Type 0) : Type 0 where
  pub base : Worker B Addr
  pub socket_addresses : List (ℕ × Addr)
  pub conn_queue : Option (List ℕ)

module _ {B Addr : Type 0} where
  unfoldable pub set_socket_addr : Consumer B Addr → ℕ → Addr → Consumer B Addr
  set_socket_addr w fd addr = record w { socket_addresses = insert fd addr w.socket_addresses }

  unfoldable pub add_conn_to_queue : Consumer B Addr → ℕ → Option Error × Consumer B Addr
  add_conn_to_queue w fd = elim w.conn_queue [
    | none ↦ (some connection_queue_is_nil, w)
    | some queue ↦ (none, record w { conn_queue = some (queue ++ fd ∷ []) })
  ]

  pub close_all_conns : (List Entry → Bool) → Consumer B Addr → Consumer B Addr
  close_all_conns room w =
      let (m, sq) = ConnManager.close closing none w.base.manager w.base.sq in
      record w { base = record w.base { manager = m; sq = sq } }
    where
      closing : Connection B Addr → List Entry → Bool × Connection B Addr × List Entry
      closing c sq =
          let (err, c', sq') = add_close_conn_request room c sq in
          (elim err [ none ↦ true | some _ ↦ false ], c', sq')

module _ {B Addr : Type 0} (buf : Buffer B) (room : List Entry → Bool) (config : Config Addr)
    (handler : EventHandler B Addr) (choice : SyncPool (Connection B Addr) → Option ℕ) where
  -- The kernel took `n` bytes, and the handler hears of it.
  pub written : Connection B Addr → ℕ → Outcome (Connection B Addr)
  written c n = do
    c' ← Conn.on_kernel_write buf c n
    run buf (handler.on_write (set_user_space c') n) (set_user_space c')

  -- The connection as it is after what was done to it.
  abbrev pub current : Worker B Addr → Connection B Addr → Connection B Addr
  current w c = elim (lookup c.key w.manager.connections) [ none ↦ c | some c' ↦ c' ]

  -- An error closes the connection.
  abbrev pub unless_failed :
      Connection B Addr → Option Error × Worker B Addr → Outcome (Worker B Addr)
  unless_failed c (none, w) = ret w
  unless_failed c (some err, w) =
      close_conn buf room config handler choice w (current w c) true (some err)

  -- `handleConn` by the state of the connection, of a completion with `Res` = `n`; a completion with
  -- an error does not get here.
  pub handle_state :
      ConnectionState → Worker B Addr → Connection B Addr → ℕ → Completion → Outcome (Worker B Addr)
  handle_state conn_read w c n cqe =
      on_read buf room config handler choice w (record cqe { res = count n }) c >>= unless_failed c
  handle_state conn_write w c n cqe = do
    c' ← written c n
    l ← add_next_request buf room config c' w.sq
    unless_failed c (keep buf room config handler choice w l)
  handle_state conn_close w c n cqe =
      if has_flag close_conn_flag cqe.user_data
      then close_conn buf room config handler choice w c false none
      else if has_flag write_data_flag cqe.user_data
      then (written c n >>= λ c'. ret (record w { manager = ConnManager.store w.manager c' }))
      else ret w
  handle_state conn_invalid w c n cqe = unless_failed c (some unknown_connection_state, w)
  handle_state conn_accept w c n cqe = unless_failed c (some unknown_connection_state, w)

  pub handle_conn : Worker B Addr → Connection B Addr → ℕ → Completion → Outcome (Worker B Addr)
  handle_conn w c n cqe = handle_state c.state w c n cqe

  abbrev pub named : Consumer B Addr → Connection B Addr → ℕ → Connection B Addr
  named w c fd = set_user_space (record c {
    fd = fd;
    local_addr = config.local_addr;
    remote_addr = elim (lookup fd w.socket_addresses) [ none ↦ c.remote_addr | some a ↦ some a ];
  })

  pub handle_new_conn : Consumer B Addr → ℕ → Outcome (Option Error × Consumer B Addr)
  handle_new_conn w fd =
      let (c, m) = ConnManager.get_fd buf w.base.manager fd (choice w.base.manager.conn_pool) in
      (do
        c' ← run buf (handler.on_accept (named w c fd)) (named w c fd)
        l ← add_next_request buf room config c' w.base.sq
        let (err, base) = keep buf room config handler choice (record w.base { manager = m }) l
        ret (err, record w { base = base; socket_addresses = delete fd w.socket_addresses }))

  -- `get` as the check of an error looks the connection up, and enters it if it is missing.
  pub check_key : Worker B Addr → ℕ → Worker B Addr
  check_key w key = record w {
    manager = (ConnManager.get buf w.manager key 0 (choice w.manager.conn_pool)).1;
  }

  -- What the loop does with a completion, by its `Res`: `processEvent` keeps errors and missing user
  -- data from the rest.
  pub process_res : Res → Consumer B Addr → Completion → Outcome (Option Error × Consumer B Addr)
  process_res (negative _) w cqe =
      ret (none, record w { base = check_key w.base (key_of cqe.user_data) })
  process_res (count n) w cqe =
      if cqe.user_data == 0
      then ret (none, w)
      else if has_flag add_conn_flag cqe.user_data
      then handle_new_conn w n
      else if ltb (key_of cqe.user_data) 2
      then ret (none, w)
      else (let (c, m) =
            ConnManager.get_fd buf w.base.manager (key_of cqe.user_data)
              (choice w.base.manager.conn_pool) in
          (handle_conn (record w.base { manager = m }) c n cqe >>= λ base.
          ret (none, record w { base = base })))

  pub process : Consumer B Addr → Completion → Outcome (Option Error × Consumer B Addr)
  process w cqe = process_res cqe.res w cqe

  -- The descriptors in the queue, each accepted; an error is logged.
  pub get_conns : List ℕ → Consumer B Addr → Outcome (Consumer B Addr)
  get_conns [] w = ret w
  get_conns (fd ∷ fds) w = handle_new_conn w fd >>= λ r. get_conns fds r.1

  pub get_conns_from_queue : Consumer B Addr → Outcome (Consumer B Addr)
  get_conns_from_queue w = elim w.conn_queue [
    | none ↦ ret w
    | some queue ↦ get_conns queue (record w { conn_queue = some [] })
  ]
