-- ===== src/Worker/Closing.antt =====
-- A connection that is closed leaves the manager, and the handlers keep the count right.
use gain.Base.{
  ℕ, ◌≡◌, refl, List, ◌∷◌, Bool, true, Option, none, some, inl, inr, ◌⊎◌, if◌then◌else◌,
}
use gain.Base.{Outcome, ret, panic, ◌>>=◌, Safe, Safe->>=}
use gain.Base.Maps.{lookup}
use gain.Errors.{Error, eof}
use gain.Buffer.{Buffer}
use gain.SyncPool.{SyncPool}
use gain.Conn
use gain.Conn.{Connection, set_user_space}
use gain.Conn.User.{run}
use gain.ConnManager
use gain.ConnManager.{ConnManager}
use gain.ConnManager.Counting.{IsCounted, store-IsCounted, release-IsCounted}
use gain.Requests.{Entry}
use gain.Worker.{
  Config, Worker, EventHandler, Completion, negative, count, close_conn, on_read, handle_read, keep,
  work, respond, write_data, forked,
}
use gain.Worker.{Res}
use gain.Base.{◌==◌, ap, sym, arith}
use mathlib.Core.Path.{subst}
use gain.Requests.{add_read_request}
use gain.Base.{Safe-weaken, Bool-cases, false, true, ◌&&◌, not, Safe-bind}

module _ {B Addr : Type 0} (buf : Buffer B) (room : List Entry → Bool) (config : Config Addr)
    (handler : EventHandler B Addr) (choice : SyncPool (Connection B Addr) → Option ℕ) where
  -- The connection is gone, and the count is right.
  abbrev pub Gone : ℕ → Worker B Addr → Type 0
  Gone key w = (lookup key w.manager.connections ≡ none) × IsCounted w.manager

  -- From a manager with a right count, where `closeConn` returns, no connection stands under the
  -- key and the count is right, whatever the handler does in `OnClose`.
  pub close_conn-Gone :
      (w : Worker B Addr) (c : Connection B Addr) (syscall_close : Bool) (err : Option Error)
      → IsCounted w.manager
      → Safe (close_conn buf room config handler choice w c syscall_close err) (Gone c.key)
  unfolding close_conn
  close_conn-Gone w c syscall_close err i =
      step (run buf (handler.on_close open_or_not err) open_or_not)
    where
      open_or_not : Connection B Addr
      open_or_not =
          if (set_user_space c).closed then set_user_space c else (Conn.close (set_user_space c)).1

      step :
          (m : Outcome (Connection B Addr))
          → Safe {A = Worker B Addr}
              (m >>= λ c3. ret (record w {
                manager = ConnManager.release buf (ConnManager.store w.manager c3) c.key;
                shut = if syscall_close then c.fd ∷ w.shut else w.shut;
              }))
              (Gone c.key)
      step (ret c3) =
          release-IsCounted buf (ConnManager.store w.manager c3) c.key
            (store-IsCounted w.manager c3 i)
      step panic = tt

  -- From a manager with a right count, where `onRead` returns on a completion with an error or
  -- without bytes, it reports no error, no connection stands under the key and the count is right.
  pub on_read-Gone :
      (w : Worker B Addr) (cqe : Completion) (c : Connection B Addr)
      → (cqe.res ≡ count 0) ⊎ ((n : ℕ) × (cqe.res ≡ negative n))
      → IsCounted w.manager
      → Safe (on_read buf room config handler choice w cqe c) (λ r. (r.0 ≡ none) × Gone c.key r.1)
  unfolding on_read
  on_read-Gone w cqe c (inl e) i =
      rw (on_read, e)
        (Safe->>= (Gone c.key) (λ r. (r.0 ≡ none) × Gone c.key r.1)
          (close_conn buf room config handler choice w c true (some eof)) (λ w'. ret (none, w'))
          (close_conn-Gone w c true (some eof) i) (λ w' g. (refl, g)))
  on_read-Gone w cqe c (inr (n, e)) i =
      rw (on_read, e)
        (Safe->>= (Gone c.key) (λ r. (r.0 ≡ none) × Gone c.key r.1)
          (close_conn buf room config handler choice w c true (some eof)) (λ w'. ret (none, w'))
          (close_conn-Gone w c true (some eof) i) (λ w' g. (refl, g)))

  abbrev Counted : Option Error × Worker B Addr → Type 0
  Counted (_, w) = IsCounted w.manager

  handle_read-IsCounted :
      (w : Worker B Addr) (c : Connection B Addr) (n : ℕ) (nonempty : Bool)
      → IsCounted w.manager
      → Safe (handle_read buf room config handler choice w c n nonempty) Counted
  unfolding handle_read work respond write_data
  handle_read-IsCounted w c n nonempty i = elim (Bool-cases (nonempty && not c.closed)) [
    | inl more ↦
        rw (handle_read, more)
          (Safe-bind Counted (add_read_request buf room config.send_recv_msg c w.sq)
            (λ l. ret (keep buf room config handler choice w l))
            (λ l. store-IsCounted w.manager l.1 i))
    | inr last ↦ elim (Bool-cases config.async_handler) [
      | inl async ↦ rw (handle_read, last, async) (store-IsCounted w.manager c i)
      | inr sync ↦
          rw (handle_read, last, sync)
            (Safe-bind Counted (work buf room config handler choice c n)
              (λ c'. respond buf room config c' w.sq >>= λ l.
                ret (keep buf room config handler choice w l))
              (λ c'.
                Safe-bind Counted (respond buf room config c' w.sq)
                  (λ l. ret (keep buf room config handler choice w l))
                  (λ l. store-IsCounted w.manager l.1 i)))
    ]
  ]

  forked-stream :
      (w : Worker B Addr) (c : Connection B Addr)
      → config.send_recv_msg ≡ false
      → forked buf room config handler choice w c ≡ ret (none, c, w)
  unfolding forked
  forked-stream w c stream = rw (forked, stream) refl

  -- `onRead` of a stream keeps the count right on every completion.
  pub on_read-IsCounted :
      (w : Worker B Addr) (cqe : Completion) (c : Connection B Addr)
      → config.send_recv_msg ≡ false
      → IsCounted w.manager
      → Safe (on_read buf room config handler choice w cqe c) (λ r. IsCounted r.1.manager)
  unfolding on_read
  on_read-IsCounted w cqe c stream i = go cqe.res
    where
      ended :
          (cqe' : Completion)
          → (cqe'.res ≡ count 0) ⊎ ((n : ℕ) × (cqe'.res ≡ negative n))
          → Safe (on_read buf room config handler choice w cqe' c) (λ r. IsCounted r.1.manager)
      ended cqe' e =
          Safe-weaken (on_read buf room config handler choice w cqe' c) (on_read-Gone w cqe' c e i)
            (λ r g. g.1.1)

      w1 : Connection B Addr → Worker B Addr
      w1 c' = record w { manager = ConnManager.store w.manager c' }

      served :
          ℕ
          → Option Error × Connection B Addr × Worker B Addr
          → Outcome (Option Error × Worker B Addr)
      served n (err, c', w') = elim err [
        | some e ↦ ret (some e, w')
        | none ↦ handle_read buf room config handler choice w' c' n cqe.sock_nonempty
      ]

      go :
          (r : Res)
          → Safe
              (on_read buf room config handler choice w (record cqe { res = r }) c)
              (λ r. IsCounted r.1.manager)
      go (negative n) = ended (record cqe { res = negative n }) (inr (n, refl))
      go (count n) = elim (Bool-cases (n == 0)) [
        | inl none_read ↦ ended (record cqe { res = count n }) (inl (ap count (ground arith)))
        | inr some_read ↦ rw (some_read) (
            Safe-bind Counted (Conn.on_kernel_read buf c n)
              (λ c'. forked buf room config handler choice (w1 c') c' >>= served n)
              (λ c'.
                subst (λ m. Safe (m >>= served n) Counted) (sym (forked-stream (w1 c') c' stream))
                  (handle_read-IsCounted (w1 c') c' n cqe.sock_nonempty
                    (store-IsCounted w.manager c' i))))
      ]
