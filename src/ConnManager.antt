-- ===== src/ConnManager.antt =====
-- conn_manager.go: the connections of a worker, by key. The order of the list stands for the order in
-- which Go happens to visit the map.
pub mod Counting
mod Tests
use gain.Base.{
  ℕ, ◌+◌, ◌-◌, List, [], ◌∷◌, Bool, true, false, Option, none, some, if◌then◌else◌, ◌==◌, ◌&&◌,
}
use gain.Base.Maps.{lookup, update, insert, delete, remove}
use gain.Base.{not}
use gain.SyncPool
use gain.SyncPool.{SyncPool}
use gain.KeyPool
use gain.KeyPool.{KeyPool}
use gain.Buffer.{Buffer}
use gain.Conn
use gain.Conn.{Connection}
use gain.ConnPool

-- `conn_pool` is the built-in pool of connections. `release_fd_set` is nil before `close`, which
-- makes no difference to what is read of it.
pub record ConnManager (B Addr : Type 0) : Type 0 where
  pub connections : List (ℕ × Connection B Addr)
  pub connections_count : ℕ
  pub closing : Bool
  pub release_fd_set : List ℕ
  pub key_pool : KeyPool
  pub conn_pool : SyncPool (Connection B Addr)

abbrev is_nil : List ℕ → Bool
is_nil [] = true
is_nil (_ ∷ _) = false

module _ {B Addr : Type 0} where
  -- The mutation of a connection that others reach by its key.
  pub store : ConnManager B Addr → Connection B Addr → ConnManager B Addr
  store m c = record m { connections = update c.key c m.connections }

  pub all_closed : ConnManager B Addr → Bool
  all_closed m = m.closing && is_nil m.release_fd_set

  unfoldable pub active_connections : ConnManager B Addr → ℕ
  active_connections m = m.connections_count

  -- `close`: the callback may change the connection and a state that it takes along, and tells
  -- whether the connection is to be waited for. One descriptor may be left out.
  module _ {S : Type 0} (callback : Connection B Addr → S → Bool × Connection B Addr × S)
      (fd_skipped : Option ℕ) where
    abbrev is_skipped : ℕ → Bool
    is_skipped fd = elim fd_skipped [ none ↦ false | some skipped ↦ fd == skipped ]

    pub close_each :
        List (ℕ × Connection B Addr) → List ℕ → S → List (ℕ × Connection B Addr) × List ℕ × S
    close_each [] waiting s = ([], waiting, s)
    close_each ((key, c) ∷ cs) waiting s =
        let (wait, c', s') = callback c s in
        let skipped = is_skipped c.fd in
        let (rest, waited, s'') =
          close_each cs (if not skipped && wait then c.fd ∷ remove c.fd waiting else waiting)
            (if skipped then s else s') in
        ((key, if skipped then c else c') ∷ rest, waited, s'')

    pub close : ConnManager B Addr → S → ConnManager B Addr × S
    close m s =
        let (cs, waiting, s') = close_each m.connections [] s in
        (record m { connections = cs; closing = true; release_fd_set = waiting }, s')

module _ {B Addr : Type 0} (buf : Buffer B) where
  -- `choice` is what the pool of connections gives for a new one.
  pub get : ConnManager B Addr → ℕ → ℕ → Option ℕ → Connection B Addr × ConnManager B Addr
  get m key fd choice = elim (lookup key m.connections) [
    | some c ↦ (c, m)
    | none ↦
        let (c, p) = ConnPool.get buf m.conn_pool choice in
        let c' = record c { fd = fd; key = key } in
        (
          c',
          record m {
            connections = insert key c' m.connections;
            connections_count = m.connections_count + 1;
            conn_pool = p;
          },
        )
  ]

  unfoldable pub get_fd : ConnManager B Addr → ℕ → Option ℕ → Connection B Addr × ConnManager B Addr
  get_fd m fd choice = get m fd fd choice

  -- The forked connection, the main one and the manager, whose map holds both.
  pub fork :
      ConnManager B Addr
      → Connection B Addr
      → Bool
      → Option ℕ
      → Connection B Addr × Connection B Addr × ConnManager B Addr
  fork m c write choice =
      let (key, keys) = KeyPool.get m.key_pool in
      let (blank, p) = ConnPool.get buf m.conn_pool choice in
      let (forked, main) = Conn.fork buf c blank key write in
      (
        forked,
        main,
        record m {
          connections = insert key forked (update main.key main m.connections);
          connections_count = m.connections_count + 1;
          key_pool = keys;
          conn_pool = p;
        },
      )

  -- `putConnection` clears the connection's key before that key goes back to the key pool, since the
  -- manager reads it from the connection afterwards.
  pub release : ConnManager B Addr → ℕ → ConnManager B Addr
  release m key = elim (lookup key m.connections) [
    | none ↦ m
    | some c ↦ record m {
      connections = delete key m.connections;
      connections_count = m.connections_count - 1;
      conn_pool = ConnPool.put buf m.conn_pool c;
      release_fd_set = remove key m.release_fd_set;
      key_pool = KeyPool.put m.key_pool (ConnPool.cleared buf c).key;
    }
  ]

abbrev pub new_connection_manager : {B Addr : Type 0} → ConnManager B Addr
new_connection_manager = record {
  connections = [];
  connections_count = 0;
  closing = false;
  release_fd_set = [];
  key_pool = KeyPool.new_key_pool;
  conn_pool = SyncPool.new_pool;
}
