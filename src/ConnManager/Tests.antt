-- ===== src/ConnManager/Tests.antt =====
-- A manager of two connections over ring buffers with pages of 4 bytes.
use gain.Base.{ℕ, ◌≡◌, arith, refl, [], ◌∷◌, none, some, true, false}
use gain.Base.Maps.{occurrences, keys, lookup}
use gain.SyncPool
use gain.KeyPool
use gain.KeyPool.{KeyPool}
use gain.KeyPool.Fresh.{IsDistinct}
use gain.Buffer.Ring.{PooledRing, ring_buffer}
use gain.Conn.{Connection, new_connection}
use gain.ConnManager.{ConnManager, fork, release, active_connections}
use gain.ConnManager.Counting.{IsCounted, fork-IsDistinct, release-loses_key}

abbrev conn : ℕ → ℕ → Connection PooledRing ℕ
conn fd key = record (new_connection (ring_buffer 4)) { fd = fd; key = key }

abbrev two : ConnManager PooledRing ℕ
two = record {
  connections = (2, conn 9 2) ∷ (5, conn 9 5) ∷ [];
  connections_count = 2;
  closing = false;
  release_fd_set = [];
  key_pool = record { stack = 3 ∷ []; next_key = 7 };
  conn_pool = SyncPool.new_pool;
}

two-IsCounted : IsCounted two
unfolding active_connections occurrences keys
two-IsCounted = record { counted = refl; once = λ k. ground arith }

two-IsDistinct : IsDistinct (keys two.connections) two.key_pool
unfolding occurrences keys
two-IsDistinct = record {
  once = λ k. ground arith;
  above = λ k h. ground arith;
  next_pos = omega arith;
}

found : lookup 5 two.connections ≡ some (conn 9 5)
unfolding lookup
found = refl

fork-IsDistinct_example :
    let (forked, main, m') = fork (ring_buffer 4) two (conn 9 2) true none in
    (lookup forked.key two.connections ≡ none)
    × (lookup forked.key m'.connections ≡ some forked)
    × IsCounted m'
    × IsDistinct (keys m'.connections) m'.key_pool
fork-IsDistinct_example =
    fork-IsDistinct (ring_buffer 4) two (conn 9 2) true none two-IsCounted two-IsDistinct

release-loses_key_example :
    KeyPool.get (release (ring_buffer 4) two 5).key_pool
    ≡ (7, record { stack = 3 ∷ []; next_key = 8 })
release-loses_key_example = release-loses_key (ring_buffer 4) two 5 (conn 9 5) found
