-- ===== src/Worker/Tests.antt =====
-- The worker over ring buffers with pages of 4 bytes, with any room in the submission queue.
use gain.Base.{
  ℕ, ◌≡◌, refl, arith, List, [], ◌∷◌, Bool, Option, none, some, true, false, Safe, Returns,
}
use gain.Base.Maps.{keys, occurrences}
use gain.Errors.{eof}
use gain.SyncPool
use gain.SyncPool.{SyncPool}
use gain.Buffer.Ring.{PooledRing, ring_buffer, ring_laws}
use gain.Conn.{Connection, new_connection}
use gain.Conn.User.{finished, ask, op_close}
use gain.ConnManager.{active_connections}
use gain.ConnManager.Counting.{IsCounted}
use gain.KeyPool
use gain.Requests.{Entry}
use gain.Worker.{
  Config, Worker, EventHandler, Completion, count, respond, handle_async_op, choose_next,
  close_conn,
}
use gain.Worker.Dispatch.{handle_async_op-choose_next, Asked, respond-Asked}
use gain.Worker.Closing.{close_conn-Gone, Gone}

abbrev conn : Connection PooledRing ℕ
conn = record (new_connection (ring_buffer 4)) { fd = 9; key = 9 }

abbrev roomy : List Entry → Bool
roomy _ = true

abbrev stream : Config ℕ
stream = record { async_handler = false; send_recv_msg = false; local_addr = none }

-- It reads nothing, and closes twice.
abbrev idle : EventHandler PooledRing ℕ
idle = record {
  on_accept = λ _. finished;
  on_read = λ _ _. finished;
  on_write = λ _ _. finished;
  on_close = λ _ _. ask op_close (λ _. finished);
}

abbrev one : Worker PooledRing ℕ
one = record {
  manager = record {
    connections = (9, conn) ∷ [];
    connections_count = 1;
    closing = false;
    release_fd_set = [];
    key_pool = KeyPool.new_key_pool;
    conn_pool = SyncPool.new_pool;
  };
  sq = [];
  async_op_queue = [];
  jobs = [];
  shut = [];
}

abbrev never : SyncPool (Connection PooledRing ℕ) → Option ℕ
never _ = none

abbrev ended : Completion
ended = record { res = count 0; sock_nonempty = false; user_data = 0 }

one-IsCounted : IsCounted one.manager
unfolding active_connections occurrences keys
one-IsCounted = record { counted = refl; once = λ k. ground arith }

respond-Asked_example :
    Returns
      (respond (ring_buffer 4) roomy stream conn [])
      (Asked (ring_buffer 4) (ring_laws 4 (omega arith)) roomy stream conn [])
unfolding new_connection
respond-Asked_example =
    respond-Asked (ring_buffer 4) (ring_laws 4 (omega arith)) roomy stream conn [] refl (λ _. refl)
      ((ring_laws 4 (omega arith)).fresh-IsGood)

handle_async_op-choose_next_example :
    handle_async_op (ring_buffer 4) roomy stream (choose_next (ring_buffer 4) conn) []
    ≡ respond (ring_buffer 4) roomy stream (choose_next (ring_buffer 4) conn) []
handle_async_op-choose_next_example =
    handle_async_op-choose_next (ring_buffer 4) roomy stream conn []

close_conn-Gone_example :
    Safe
      (close_conn (ring_buffer 4) roomy stream idle never one conn true (some eof))
      (Gone (ring_buffer 4) roomy stream idle never 9)
unfolding new_connection
close_conn-Gone_example =
    close_conn-Gone (ring_buffer 4) roomy stream idle never one conn true (some eof) one-IsCounted
