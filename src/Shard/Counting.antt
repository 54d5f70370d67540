-- ===== src/Shard/Counting.antt =====
-- The count of a shard's connections on every completion.
use gain.Base.{ℕ, ◌≡◌, List, Bool, false, Option, none, some, if◌then◌else◌, ◌==◌, ◌&&◌, not}
use gain.Base.{Outcome, ret, ◌>>=◌, Safe, Safe->>=, Safe-bind, Safe-if}
use gain.Errors.{Error, unknown_connection_state}
use gain.Flags.{has_flag, key_of, close_conn_flag, write_data_flag}
use gain.Buffer.{Buffer}
use gain.SyncPool.{SyncPool}
use gain.Conn.{
  Connection, ConnectionState, conn_invalid, conn_accept, conn_read, conn_write, conn_close,
  set_user_space,
}
use gain.Conn.User.{run}
use gain.ConnManager
use gain.ConnManager.{ConnManager, get_fd}
use gain.ConnManager.Counting.{IsCounted, store-IsCounted, get-IsCounted, release-IsCounted}
use gain.Requests.{Entry, add_accept_request}
use gain.Worker.{
  Worker, Config, EventHandler, Completion, Res, negative, count, keep, add_next_request, on_read,
}
use gain.Worker.Closing.{on_read-IsCounted}
use gain.Consumer.{written, unless_failed}
use gain.Consumer.Counting.{unless_failed-IsCounted, closed-IsCounted}
use gain.Shard.{
  Shard, ShardConfig, accepting_on, add_accept_conn_request, option_error, accepted, greet,
  greet_after, on_accept, unless_shard_failed, after_write, serve, handle_state, handle_conn,
  process_count, process_completion,
}

module _ {B Addr : Type 0} (buf : Buffer B) (room : List Entry → Bool) (config : Config Addr)
    (handler : EventHandler B Addr) (choice : SyncPool (Connection B Addr) → Option ℕ)
    (settings : ShardConfig) where
  abbrev Counted : Worker B Addr → Type 0
  Counted w = IsCounted w.manager

  pub accepting-IsCounted :
      (w : Shard B Addr) (r : Option Error × List Entry)
      → Counted w.base
      → Counted (accepting_on buf room config handler choice settings w r).1.base
  unfolding get_fd
  accepting-IsCounted w (some err, sq) i = i
  accepting-IsCounted w (none, sq) i =
      store-IsCounted got.1 (record got.0 { state = conn_accept })
        (get-IsCounted buf w.base.manager w.fd w.fd (choice w.base.manager.conn_pool) i).1
    where
      got : Connection B Addr × ConnManager B Addr
      got = ConnManager.get buf w.base.manager w.fd w.fd (choice w.base.manager.conn_pool)

  greet-IsCounted :
      (w : Shard B Addr) (fd : ℕ)
      → Counted w.base
      → Safe (greet buf room config handler choice settings w fd) (λ r. Counted r.1)
  unfolding greet get_fd
  greet-IsCounted w fd i =
      elim (option_error buf room config handler choice settings fd)
        as (λ o.
          Safe {A = Option Error × Worker B Addr}
            (elim o [
              | some err ↦ ret (some err, record w.base { manager = ConnManager.store got.1 start })
              | none ↦ greeted
            ])
            (λ r. Counted r.1)) [
              | some err ↦ store-IsCounted got.1 start counted
              | none ↦
                  Safe-bind (λ r. Counted r.1)
                    (run buf (handler.on_accept (set_user_space start)) (set_user_space start)) _
                    (λ c2.
                      Safe-bind (λ r. Counted r.1) (add_next_request buf room config c2 w.base.sq) _
                        (λ l. store-IsCounted got.1 l.1 counted))
            ]
    where
      got : Connection B Addr × ConnManager B Addr
      got = ConnManager.get buf w.base.manager fd fd (choice w.base.manager.conn_pool)

      counted : IsCounted got.1
      counted = (get-IsCounted buf w.base.manager fd fd (choice w.base.manager.conn_pool) i).1

      start : Connection B Addr
      start = accepted buf room config handler choice settings w got.0 fd

      greeted : Outcome (Option Error × Worker B Addr)
      greeted = do
        c2 ← run buf (handler.on_accept (set_user_space start)) (set_user_space start)
        l ← add_next_request buf room config c2 w.base.sq
        ret (keep buf room config handler choice (record w.base { manager = got.1 }) l)

  greet_after-IsCounted :
      (fd : ℕ) (r : Option Error × Shard B Addr)
      → Counted r.1.base
      → Safe (greet_after buf room config handler choice settings fd r) (λ s. Counted s.1.base)
  greet_after-IsCounted fd (some err, w) i = i
  greet_after-IsCounted fd (none, w) i =
      Safe->>= (λ r. Counted r.1) (λ s. Counted s.1.base)
        (greet buf room config handler choice settings w fd) _ (greet-IsCounted w fd i) (λ r h. h)

  on_accept-IsCounted :
      (w : Shard B Addr) (fd : ℕ)
      → Counted w.base
      → Safe (on_accept buf room config handler choice settings w fd) (λ s. Counted s.1.base)
  unfolding on_accept add_accept_conn_request
  on_accept-IsCounted w fd i =
      greet_after-IsCounted fd _ (accepting-IsCounted w (add_accept_request room w.fd w.base.sq) i)

  after_write-IsCounted :
      (w : Worker B Addr) (c c' : Connection B Addr)
      → Counted w
      → Safe (after_write buf room config handler choice settings w c c') Counted
  unfolding after_write
  after_write-IsCounted w c c' i =
      Safe-if Counted config.send_recv_msg _ _
        (release-IsCounted buf (ConnManager.store w.manager c') c.key
          (store-IsCounted w.manager c' i)).1
        (Safe-bind Counted (add_next_request buf room config c' w.sq) _ (λ l.
          unless_failed-IsCounted buf room config handler choice c
            (keep buf room config handler choice w l) (store-IsCounted w.manager l.1 i)))

  serve-IsCounted :
      (s : ConnectionState) (w : Worker B Addr) (c : Connection B Addr) (n : ℕ) (cqe : Completion)
      → config.send_recv_msg ≡ false
      → Counted w
      → Safe (serve buf room config handler choice settings s w c n cqe) Counted
  unfolding serve
  serve-IsCounted conn_read w c n cqe stream i =
      Safe->>= (λ r. Counted r.1) Counted
        (on_read buf room config handler choice w (record cqe { res = count n }) c)
        (unless_failed buf room config handler choice c)
        (on_read-IsCounted buf room config handler choice w (record cqe { res = count n }) c stream
          i)
        (λ r h. unless_failed-IsCounted buf room config handler choice c r h)
  serve-IsCounted conn_write w c n cqe stream i =
      Safe-if Counted (not settings.connection_protocol && (c.key == 1)) _ _ i (
        Safe-bind Counted (written buf room config handler choice c n) _
          (λ c'. after_write-IsCounted w c c' i))
  serve-IsCounted conn_close w c n cqe stream i =
      Safe-if Counted (has_flag close_conn_flag cqe.user_data) _ _
        (closed-IsCounted buf room config handler choice w c false none i)
        (Safe-if Counted (has_flag write_data_flag cqe.user_data) _ _
          (Safe-bind Counted (written buf room config handler choice c n) _
            (λ c'. store-IsCounted w.manager c' i))
          i)
  serve-IsCounted conn_invalid w c n cqe stream i =
      unless_failed-IsCounted buf room config handler choice c (some unknown_connection_state, w) i
  serve-IsCounted conn_accept w c n cqe stream i = i

  served-IsCounted :
      (s : ConnectionState) (w : Shard B Addr) (c : Connection B Addr) (n : ℕ) (cqe : Completion)
      → config.send_recv_msg ≡ false
      → Counted w.base
      → Safe {A = Shard B Addr}
          (serve buf room config handler choice settings s w.base c n cqe >>= λ base.
            ret (record w { base = base }))
          (λ w'. Counted w'.base)
  served-IsCounted s w c n cqe stream i =
      Safe->>= Counted (λ w'. Counted w'.base)
        (serve buf room config handler choice settings s w.base c n cqe)
        (λ base. ret (record w { base = base })) (serve-IsCounted s w.base c n cqe stream i)
        (λ base h. h)

  handle_state-IsCounted :
      (s : ConnectionState) (w : Shard B Addr) (c : Connection B Addr) (n : ℕ) (cqe : Completion)
      → config.send_recv_msg ≡ false
      → Counted w.base
      → Safe
          (handle_state buf room config handler choice settings s w c n cqe)
          (λ w'. Counted w'.base)
  unfolding handle_state
  handle_state-IsCounted conn_accept w c n cqe stream i =
      Safe->>= (λ s. Counted s.1.base) (λ w'. Counted w'.base)
        (on_accept buf room config handler choice settings w n)
        (unless_shard_failed buf room config handler choice settings c) (on_accept-IsCounted w n i)
        (λ (err, w') h.
          Safe->>= Counted (λ w''. Counted w''.base)
            (unless_failed buf room config handler choice c (err, w'.base))
            (λ base. ret (record w' { base = base }))
            (unless_failed-IsCounted buf room config handler choice c (err, w'.base) h)
            (λ base g. g))
  handle_state-IsCounted conn_read w c n cqe stream i =
      served-IsCounted conn_read w c n cqe stream i
  handle_state-IsCounted conn_write w c n cqe stream i =
      served-IsCounted conn_write w c n cqe stream i
  handle_state-IsCounted conn_close w c n cqe stream i =
      served-IsCounted conn_close w c n cqe stream i
  handle_state-IsCounted conn_invalid w c n cqe stream i =
      served-IsCounted conn_invalid w c n cqe stream i

  process_count-IsCounted :
      (r : Res) (w : Shard B Addr) (cqe : Completion)
      → config.send_recv_msg ≡ false
      → Counted w.base
      → Safe (process_count buf room config handler choice settings r w cqe) (λ w'. Counted w'.base)
  unfolding process_count handle_conn
  process_count-IsCounted (negative m) w cqe stream i = i
  process_count-IsCounted (count n) w cqe stream i =
      Safe-if (λ w'. Counted w'.base) (cqe.user_data == 0) _ _ i
        (handle_state-IsCounted got.0.state (record w { base = record w.base { manager = got.1 } })
          got.0 n cqe stream
          (get-IsCounted buf w.base.manager (key_of cqe.user_data) owner
            (choice w.base.manager.conn_pool) i).1)
    where
      owner : ℕ
      owner = if settings.connection_protocol then key_of cqe.user_data else w.fd

      got : Connection B Addr × ConnManager B Addr
      got =
          ConnManager.get buf w.base.manager (key_of cqe.user_data) owner
            (choice w.base.manager.conn_pool)

  -- Where a shard of streams returns from a completion, whatever the completion says and whatever
  -- the handler does, the count of its connections is right if it was right before.
  pub process_completion-IsCounted :
      (w : Shard B Addr) (cqe : Completion)
      → config.send_recv_msg ≡ false
      → Counted w.base
      → Safe
          (process_completion buf room config handler choice settings w cqe)
          (λ w'. Counted w'.base)
  unfolding process_completion
  process_completion-IsCounted w cqe stream i = process_count-IsCounted cqe.res w cqe stream i
