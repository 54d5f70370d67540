-- ===== src/Worker/Queue.antt =====
-- The queue of the connections that the handler has run on in other goroutines.
use gain.Base.{ℕ, Bool, List, [], ◌∷◌, Option, none, some, ◌>>=◌, Safe, Safe-bind, Safe-if}
use gain.Base.Maps.{lookup}
use gain.Buffer.{Buffer}
use gain.SyncPool.{SyncPool}
use gain.Conn.{Connection}
use gain.ConnManager.Counting.{IsCounted, store-IsCounted}
use gain.Requests.{Entry}
use gain.Worker.{Worker, Config, EventHandler, keep, handle_async_op, handle_async_writes}
use gain.Worker.{async_writes_if_enabled}

module _ {B Addr : Type 0} (buf : Buffer B) (room : List Entry → Bool) (config : Config Addr)
    (handler : EventHandler B Addr) (choice : SyncPool (Connection B Addr) → Option ℕ) where
  -- Working the queue off keeps the count of the connections right.
  pub handle_async_writes-IsCounted :
      (ks : List ℕ) (w : Worker B Addr)
      → IsCounted w.manager
      → Safe (handle_async_writes buf room config handler choice ks w) (λ v. IsCounted v.manager)
  unfolding handle_async_writes
  handle_async_writes-IsCounted [] w i = i
  handle_async_writes-IsCounted (key ∷ ks) w i =
      by_conn (lookup key w.manager.connections) (handle_async_writes-IsCounted ks w i)
        (λ v h. handle_async_writes-IsCounted ks v h)
    where
      by_conn :
          (o : Option (Connection B Addr))
          → Safe
              (handle_async_writes buf room config handler choice ks w)
              (λ v. IsCounted v.manager)
          → ((v : Worker B Addr)
              → IsCounted v.manager
              → Safe
                  (handle_async_writes buf room config handler choice ks v)
                  (λ x. IsCounted x.manager))
          → Safe
              (elim o [
                | none ↦ handle_async_writes buf room config handler choice ks w
                | some c ↦ handle_async_op buf room config c w.sq >>= λ l.
                    handle_async_writes buf room config handler choice ks
                      (keep buf room config handler choice w l).1
              ])
              (λ v. IsCounted v.manager)
      by_conn none skip go = skip
      by_conn (some c) skip go =
          Safe-bind (λ v. IsCounted v.manager) (handle_async_op buf room config c w.sq) _
            (λ l. go (keep buf room config handler choice w l).1 (store-IsCounted w.manager l.1 i))

  pub async_writes_if_enabled-IsCounted :
      (w : Worker B Addr)
      → IsCounted w.manager
      → Safe (async_writes_if_enabled buf room config handler choice w) (λ v. IsCounted v.manager)
  unfolding async_writes_if_enabled
  async_writes_if_enabled-IsCounted w i =
      Safe-if (λ v. IsCounted v.manager) config.async_handler _ _
        (handle_async_writes-IsCounted w.async_op_queue w i) i
