-- ===== src/Worker.antt =====
-- read_write_worker.go: what a worker does with a connection that the kernel has finished with.
pub mod Dispatch
pub mod Closing
pub mod Queue
mod Tests
use gain.Base.{ℕ, ◌+◌, List, [], ◌∷◌, ◌++◌, Bool, true, false, Option, none, some, ◌&&◌, not}
use gain.Base.{Outcome, ret, ◌>>=◌, if◌then◌else◌, ltb, ◌==◌}
use gain.Base.Maps.{lookup}
use gain.Errors.{Error, eof}
use gain.Buffer.{Buffer}
use gain.SyncPool.{SyncPool}
use gain.Conn
use gain.Conn.{
  Connection, AsyncOp, read_op, write_op, close_op, no_op, set_user_space, set_msg_header_write,
}
use gain.Conn.User.{Program, run}
use gain.ConnManager
use gain.ConnManager.{ConnManager}
use gain.Requests.{Entry, add_read_request, add_write_request, add_close_conn_request}

-- A completion: `Res`, whether the socket has more to read, and the user data.
pub data Res : Type 0 where
  negative : ℕ → Res
  count : ℕ → Res

pub record Completion : Type 0 where
  pub res : Res
  pub sock_nonempty : Bool
  pub user_data : ℕ

pub record Config (Addr : Type 0) : Type 0 where
  pub async_handler : Bool
  pub send_recv_msg : Bool
  pub local_addr : Option Addr

-- `jobs` are the asynchronous calls of the handler that were started, with the key of the connection
-- and the number of bytes; `shut` are the descriptors that `shutdown` was called on.
pub record Worker (B Addr : Type 0) : Type 0 where
  pub manager : ConnManager B Addr
  pub sq : List Entry
  pub async_op_queue : List ℕ
  pub jobs : List (ℕ × ℕ)
  pub shut : List ℕ

-- The event handler is the user's program on the connection that it is called with.
pub record EventHandler (B Addr : Type 0) : Type 0 where
  pub on_read : Connection B Addr → ℕ → Program
  pub on_accept : Connection B Addr → Program
  pub on_write : Connection B Addr → ℕ → Program
  pub on_close : Connection B Addr → Option Error → Program

-- What a function on one connection gives: the error, the connection and the entries.
abbrev pub Local : Type 0 → Type 0 → Type 0
Local B Addr = Option Error × Connection B Addr × List Entry

module _ {B Addr : Type 0} (buf : Buffer B) (room : List Entry → Bool) (config : Config Addr) where
  -- A write, and behind it a linked close if the connection is closed.
  abbrev pub close_behind : Bool → Local B Addr → Local B Addr
  close_behind closed (some err, c, sq) = (some err, c, sq)
  close_behind closed (none, c, sq) =
      if closed then add_close_conn_request room c sq else (none, c, sq)

  abbrev pub with_header : Connection B Addr → Connection B Addr
  with_header c = if config.send_recv_msg then set_msg_header_write buf c else c

  -- `writeData` asks whether the connection is closed behind the setting of the header.
  pub write_data : Connection B Addr → List Entry → Local B Addr
  write_data c sq =
      let c' = with_header c in
      close_behind c'.closed (add_write_request buf room config.send_recv_msg c' c'.closed sq)

  -- The three cases behind the handler in `onRead`.
  pub respond : Connection B Addr → List Entry → Outcome (Local B Addr)
  respond c sq =
      if ltb 0 (Conn.outbound_buffered buf c)
      then ret (write_data c sq)
      else if c.closed
      then ret (add_close_conn_request room c sq)
      else add_read_request buf room config.send_recv_msg c sq

  pub add_next_request : Connection B Addr → List Entry → Outcome (Local B Addr)
  add_next_request c sq =
      if ltb 0 (Conn.outbound_buffered buf c)
      then ret
          (close_behind c.closed (add_write_request buf room config.send_recv_msg c c.closed sq))
      else if c.closed
      then ret (add_close_conn_request room c sq)
      else add_read_request buf room config.send_recv_msg c sq

  -- The write of `handleAsyncWrites`, with the test for a closed connection first.
  pub async_write : Connection B Addr → List Entry → Local B Addr
  async_write c sq =
      let closed = c.closed in
      let c1 = if config.send_recv_msg then set_msg_header_write buf c else c in
      let (failed, c2, sq2) = add_write_request buf room config.send_recv_msg c1 closed sq in
      elim failed [
        | some err ↦ (some err, c2, sq2)
        | none ↦ if closed then add_close_conn_request room c2 sq2 else (none, c2, sq2)
      ]

  -- One turn of the loop of `handleAsyncWrites`; the error is logged.
  pub handle_async_op : Connection B Addr → List Entry → Outcome (Local B Addr)
  handle_async_op c sq = elim c.next_async_op [
    | no_op ↦ ret (none, c, sq)
    | read_op ↦ add_read_request buf room config.send_recv_msg c sq
    | write_op ↦ ret (async_write c sq)
    | close_op ↦ ret (add_close_conn_request room c sq)
  ]

module _ {B Addr : Type 0} (buf : Buffer B) where
  -- What the handler left is done next, of a connection that it ran on in another goroutine.
  pub choose_next : Connection B Addr → Connection B Addr
  choose_next c = record c {
    next_async_op =
        if ltb 0 (Conn.outbound_buffered buf c)
        then write_op
        else if c.closed
        then close_op
        else read_op;
  }

module _ {B Addr : Type 0} (buf : Buffer B) (room : List Entry → Bool) (config : Config Addr)
    (handler : EventHandler B Addr) (choice : SyncPool (Connection B Addr) → Option ℕ) where
  pub work : Connection B Addr → ℕ → Outcome (Connection B Addr)
  work c n = run buf (handler.on_read (set_user_space c) n) (set_user_space c)

  abbrev pub keep : Worker B Addr → Local B Addr → Option Error × Worker B Addr
  keep w (err, c, sq) = (err, record w { manager = ConnManager.store w.manager c; sq = sq })

  -- `closeConn`
  pub close_conn : Worker B Addr → Connection B Addr → Bool → Option Error → Outcome (Worker B Addr)
  close_conn w c syscall_close err =
      let c1 = set_user_space c in
      let c2 = if c1.closed then c1 else (Conn.close c1).1 in
      (do
        c3 ← run buf (handler.on_close c2 err) c2
        ret (record w {
          manager = ConnManager.release buf (ConnManager.store w.manager c3) c.key;
          shut = if syscall_close then c.fd ∷ w.shut else w.shut;
        }))

  -- The connection that the handler is for, with the worker as it is then, or an early return.
  pub forked :
      Worker B Addr → Connection B Addr → Outcome (Option Error × Connection B Addr × Worker B Addr)
  forked w c =
      if config.send_recv_msg
      then (let (new_conn, main, m) =
            ConnManager.fork buf w.manager c true (choice w.manager.conn_pool) in
          let local_conn = record new_conn { local_addr = config.local_addr } in
          (do
            added ← add_read_request buf room config.send_recv_msg main w.sq
            let (err, w') = keep (record w { manager = ConnManager.store m local_conn }) added
            ret (err, local_conn, w')))
      else ret (none, c, w)

  pub handle_read :
      Worker B Addr → Connection B Addr → ℕ → Bool → Outcome (Option Error × Worker B Addr)
  handle_read w c n nonempty =
      if nonempty && not c.closed
      then (add_read_request buf room config.send_recv_msg c w.sq >>= λ l. ret (keep w l))
      else if config.async_handler
      then ret (
        none,
        record (record w { manager = ConnManager.store w.manager c }) {
          jobs = w.jobs ++ (c.key, n) ∷ [];
        },
      )
      else (do c' ← work c n; l ← respond buf room config c' w.sq; ret (keep w l))

  pub on_read :
      Worker B Addr → Completion → Connection B Addr → Outcome (Option Error × Worker B Addr)
  on_read w cqe c = elim cqe.res [
    | negative _ ↦ close_conn w c true (some eof) >>= λ w'. ret (none, w')
    | count n ↦ if n == 0 then (close_conn w c true (some eof) >>= λ w'. ret (none, w')) else (do
      c' ← Conn.on_kernel_read buf c n
      (err, served, w') ← forked (record w { manager = ConnManager.store w.manager c' }) c'
      elim err [ some e ↦ ret (some e, w') | none ↦ handle_read w' served n cqe.sock_nonempty ])
  ]

  -- The goroutine of a job: the handler, then the queue.
  pub do_async_work : Worker B Addr → ℕ → ℕ → Outcome (Worker B Addr)
  do_async_work w key n = elim (lookup key w.manager.connections) [
    | none ↦ ret w
    | some c ↦ (do
      c' ← work c n
      ret (record w {
        manager = ConnManager.store w.manager (choose_next buf c');
        async_op_queue = w.async_op_queue ++ key ∷ [];
      }))
  ]

  -- The queue is worked off; a request that finds no room is logged and left. The code's queue holds
  -- pointers: one to a connection that was released since, whose buffers are nil, is passed over here.
  pub handle_async_writes : List ℕ → Worker B Addr → Outcome (Worker B Addr)
  handle_async_writes [] w = ret (record w { async_op_queue = [] })
  handle_async_writes (key ∷ keys) w = elim (lookup key w.manager.connections) [
    | none ↦ handle_async_writes keys w
    | some c ↦ handle_async_op buf room config c w.sq >>= λ l. handle_async_writes keys (keep w l).1
  ]

  -- `handleAsyncWritesIfEnabled`
  pub async_writes_if_enabled : Worker B Addr → Outcome (Worker B Addr)
  async_writes_if_enabled w =
      if config.async_handler then handle_async_writes w.async_op_queue w else ret w
