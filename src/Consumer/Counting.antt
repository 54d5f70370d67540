-- ===== src/Consumer/Counting.antt =====
-- The count of a consumer's connections on every completion, and what failed requests do to it.
use mathlib.Core.Path.{subst}
use gain.Base.{
  ℕ, ◌+◌, ◌≡◌, refl, sym, ap, ◌∙◌, List, Bool, true, false, Option, none, some, inl, inr,
  Bool-cases, ◌==◌, ltb,
}
use gain.Base.{ret, ◌>>=◌, Returns, Safe, Safe->>=, Safe-weaken, Safe-bind, Safe-if}
use gain.Base.Maps.{lookup}
use gain.Errors.{Error, unknown_connection_state}
use gain.Flags.{has_flag, key_of, close_conn_flag, write_data_flag, add_conn_flag}
use gain.Buffer.{Buffer}
use gain.SyncPool.{SyncPool}
use gain.Conn.{
  Connection, ConnectionState, conn_invalid, conn_accept, conn_read, conn_write, conn_close,
}
use gain.Conn.User.{run}
use gain.ConnManager
use gain.ConnManager.{ConnManager, active_connections, get_fd}
use gain.ConnManager.Counting.{IsCounted, store-IsCounted, get-IsCounted, get-known, get-new}
use gain.Requests.{Entry}
use gain.Worker.{
  Worker, Config, EventHandler, Completion, Res, negative, count, keep, add_next_request,
  close_conn, on_read,
}
use gain.Worker.Closing.{close_conn-Gone, on_read-IsCounted}
use gain.Consumer.{
  Consumer, written, current, unless_failed, handle_conn, handle_state, process_res, named,
  handle_new_conn, check_key, process,
}

module _ {B Addr : Type 0} (buf : Buffer B) (room : List Entry → Bool) (config : Config Addr)
    (handler : EventHandler B Addr) (choice : SyncPool (Connection B Addr) → Option ℕ) where
  abbrev Counted : Worker B Addr → Type 0
  Counted w = IsCounted w.manager

  pub closed-IsCounted :
      (w : Worker B Addr) (c : Connection B Addr) (syscall_close : Bool) (err : Option Error)
      → Counted w
      → Safe (close_conn buf room config handler choice w c syscall_close err) Counted
  closed-IsCounted w c syscall_close err i =
      Safe-weaken (close_conn buf room config handler choice w c syscall_close err)
        (close_conn-Gone buf room config handler choice w c syscall_close err i) (λ w' g. g.1)

  pub unless_failed-IsCounted :
      (c : Connection B Addr) (r : Option Error × Worker B Addr)
      → Counted r.1
      → Safe (unless_failed buf room config handler choice c r) Counted
  unless_failed-IsCounted c (none, w) i = i
  unless_failed-IsCounted c (some err, w) i =
      closed-IsCounted w (current buf room config handler choice w c) true (some err) i

  -- `handleConn` of a stream keeps the count right in every state of the connection.
  handle_state-IsCounted :
      (s : ConnectionState) (w : Worker B Addr) (c : Connection B Addr) (n : ℕ) (cqe : Completion)
      → config.send_recv_msg ≡ false
      → Counted w
      → Safe (handle_state buf room config handler choice s w c n cqe) Counted
  unfolding handle_state
  handle_state-IsCounted conn_read w c n cqe stream i =
      Safe->>= (λ r. Counted r.1) Counted
        (on_read buf room config handler choice w (record cqe { res = count n }) c)
        (unless_failed buf room config handler choice c)
        (on_read-IsCounted buf room config handler choice w (record cqe { res = count n }) c stream
          i)
        (λ r h. unless_failed-IsCounted c r h)
  handle_state-IsCounted conn_write w c n cqe stream i =
      Safe-bind Counted (written buf room config handler choice c n)
        (λ c'. add_next_request buf room config c' w.sq >>= λ l.
          unless_failed buf room config handler choice c (keep buf room config handler choice w l))
        (λ c'.
          Safe-bind Counted (add_next_request buf room config c' w.sq)
            (λ l.
              unless_failed buf room config handler choice c
                (keep buf room config handler choice w l))
            (λ l.
              unless_failed-IsCounted c (keep buf room config handler choice w l)
                (store-IsCounted w.manager l.1 i)))
  handle_state-IsCounted conn_close w c n cqe stream i =
      elim (Bool-cases (has_flag close_conn_flag cqe.user_data)) [
        | inl e ↦ rw e (closed-IsCounted w c false none i)
        | inr e ↦ elim (Bool-cases (has_flag write_data_flag cqe.user_data)) [
          | inl f ↦
              rw (e, f)
                (Safe-bind Counted (written buf room config handler choice c n)
                  (λ c'. ret (record w { manager = ConnManager.store w.manager c' }))
                  (λ c'. store-IsCounted w.manager c' i))
          | inr f ↦ rw (e, f) i
        ]
      ]
  handle_state-IsCounted conn_invalid w c n cqe stream i =
      unless_failed-IsCounted c (some unknown_connection_state, w) i
  handle_state-IsCounted conn_accept w c n cqe stream i =
      unless_failed-IsCounted c (some unknown_connection_state, w) i

  pub handle_new_conn-IsCounted :
      (w : Consumer B Addr) (fd : ℕ)
      → Counted w.base
      → Safe (handle_new_conn buf room config handler choice w fd) (λ r. Counted r.1.base)
  unfolding handle_new_conn get_fd
  handle_new_conn-IsCounted w fd i =
      Safe-bind (λ r. Counted r.1.base) (run buf (handler.on_accept start) start) _
        (λ c'.
          Safe-bind (λ r. Counted r.1.base) (add_next_request buf room config c' w.base.sq) _
            (λ l.
              store-IsCounted got.1 l.1
                (get-IsCounted buf w.base.manager fd fd (choice w.base.manager.conn_pool) i).1))
    where
      got : Connection B Addr × ConnManager B Addr
      got = ConnManager.get buf w.base.manager fd fd (choice w.base.manager.conn_pool)

      start : Connection B Addr
      start = named buf room config handler choice w got.0 fd

  process_res-IsCounted :
      (r : Res) (w : Consumer B Addr) (cqe : Completion)
      → config.send_recv_msg ≡ false
      → Counted w.base
      → Safe (process_res buf room config handler choice r w cqe) (λ s. Counted s.1.base)
  unfolding process_res check_key get_fd handle_conn
  process_res-IsCounted (negative m) w cqe stream i =
      (get-IsCounted buf w.base.manager (key_of cqe.user_data) 0 (choice w.base.manager.conn_pool)
        i).1
  process_res-IsCounted (count n) w cqe stream i =
      Safe-if (λ s. Counted s.1.base) (cqe.user_data == 0) _ _ i
        (Safe-if (λ s. Counted s.1.base) (has_flag add_conn_flag cqe.user_data) _ _
          (handle_new_conn-IsCounted w n i)
          (Safe-if (λ s. Counted s.1.base) (ltb (key_of cqe.user_data) 2) _ _ i
            (Safe->>= Counted (λ s. Counted s.1.base)
              (handle_state buf room config handler choice got.0.state
                (record w.base { manager = got.1 }) got.0 n cqe)
              (λ base. ret (none, record w { base = base }))
              (handle_state-IsCounted got.0.state (record w.base { manager = got.1 }) got.0 n cqe
                stream
                (get-IsCounted buf w.base.manager fd fd (choice w.base.manager.conn_pool) i).1)
              (λ base h. h))))
    where
      fd : ℕ
      fd = key_of cqe.user_data

      got : Connection B Addr × ConnManager B Addr
      got = ConnManager.get buf w.base.manager fd fd (choice w.base.manager.conn_pool)

  -- Where a consumer of streams returns from a completion, whatever the completion says and
  -- whatever the handler does, the count of its connections is right if it was right before.
  pub process-IsCounted :
      (w : Consumer B Addr) (cqe : Completion)
      → config.send_recv_msg ≡ false
      → Counted w.base
      → Safe (process buf room config handler choice w cqe) (λ s. Counted s.1.base)
  unfolding process
  process-IsCounted w cqe stream i = process_res-IsCounted cqe.res w cqe stream i

  -- A failed request of a connection that is there changes nothing: the connection stays, and
  -- nothing is asked of the kernel for it.
  pub process-failed_known :
      (w : Consumer B Addr) (cqe : Completion) (m : ℕ) (c : Connection B Addr)
      → cqe.res ≡ negative m
      → lookup (key_of cqe.user_data) w.base.manager.connections ≡ some c
      → process buf room config handler choice w cqe ≡ ret (none, w)
  unfolding process process_res check_key
  process-failed_known w cqe m c e there =
      ap (λ r. process_res buf room config handler choice r w cqe) e
      ∙ ap
          (λ (got : Connection B Addr × ConnManager B Addr).
            ret (none, record w { base = record w.base { manager = got.1 } }))
          (get-known buf w.base.manager (key_of cqe.user_data) 0 (choice w.base.manager.conn_pool) c
            there)

  -- A failed request of a connection that is gone enters a new connection in its place and counts
  -- it.
  pub process-failed_unknown :
      (w : Consumer B Addr) (cqe : Completion) (m : ℕ)
      → cqe.res ≡ negative m
      → lookup (key_of cqe.user_data) w.base.manager.connections ≡ none
      → Returns (process buf room config handler choice w cqe) (λ (err, w').
        (err ≡ none) × (active_connections w'.base.manager ≡ active_connections w.base.manager + 1))
  unfolding process process_res check_key active_connections
  process-failed_unknown w cqe m e gone =
      subst
        (λ p. Returns p (λ (err, w').
          (err ≡ none)
          × (w'.base.manager.connections_count ≡ w.base.manager.connections_count + 1)))
        (sym (ap (λ r. process_res buf room config handler choice r w cqe) e))
        (
          refl,
          ap (λ (got : Connection B Addr × ConnManager B Addr). got.1.connections_count)
              (get-new buf w.base.manager (key_of cqe.user_data) 0 (choice w.base.manager.conn_pool)
                gone),
        )
