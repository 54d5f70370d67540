-- ===== src/Shard/Loop/Running.antt =====
-- The count of a shard's connections through its whole loop.
use gain.Base.{ℕ, ◌≡◌, List, true, Bool, false, Option, none, some}
use gain.Base.{Safe, Safe->>=, Safe-bind, Safe-if}
use gain.Errors.{Error}
use gain.Buffer.{Buffer}
use gain.SyncPool.{SyncPool}
use gain.Conn
use gain.Conn.{Connection}
use gain.ConnManager
use gain.ConnManager.{ConnManager}
use gain.ConnManager.Counting.{IsCounted, get-IsCounted, store-IsCounted, close-IsCounted}
use gain.Requests.{Entry, add_accept_request, add_read_request}
use gain.Worker.{Config, EventHandler, Completion}
use gain.Worker.Queue.{async_writes_if_enabled-IsCounted}
use gain.Shard.{Shard, ShardConfig, add_accept_conn_request, prepare_udp, stop_accept}
use gain.Shard.{close_all_conns_and_rings}
use gain.Shard.Counting.{accepting-IsCounted, process_completion-IsCounted}
use gain.Shard.Loop.{loop_handlers, prepare, opened, listening_on, stopped, loop}
use gain.Looper.{Handlers, Round, Ended, running, returned}
use gain.Looper.Keeping.{Keeps, AllKeep, OnError, EndsWell, AnyError, any_error}
use gain.Looper.Keeping.{start_loop-EndsWell}
use gain.Shutdowner.{Looped, shutdown_handler-keeps}
use gain.Shutdowner.Keeping.{OfWorker, notify_ended-EndsWell}
use gain.Submitter.{Submitter}
use gain.Submitter.Adapting.{IsMatched}

abbrev pub Counted : {B Addr : Type 0} → Shard B Addr → Type 0
Counted w = IsCounted w.base.manager

module _ {B Addr : Type 0} where
  stopped-EndsWell :
      {C : Type 0} (h : Handlers (Looped (Shard B Addr)) C) (e : Ended (Looped (Shard B Addr)))
      → EndsWell h (OfWorker Counted) AnyError e
      → EndsWell h (OfWorker Counted) AnyError (stopped e)
  unfolding stopped stop_accept
  stopped-EndsWell h (running l sub) w = w
  stopped-EndsWell h (returned err l sub) w = w

module _ {B Addr : Type 0} (buf : Buffer B) (room : List Entry → Bool) (config : Config Addr)
    (handler : EventHandler B Addr) (choice : SyncPool (Connection B Addr) → Option ℕ)
    (settings : ShardConfig) where
  abbrev Prepared : Option Error × Shard B Addr → Type 0
  Prepared r = Counted r.1 × OnError AnyError r.0

  opened-IsCounted : (r : Option Error × Shard B Addr) → Counted r.1 → Prepared (opened r)
  opened-IsCounted (none, w) i = (i, tt)
  opened-IsCounted (some err, w) i = (i, tt)

  prepare-IsCounted :
      (w : Shard B Addr)
      → Counted w
      → Safe (prepare buf room config handler choice settings w) Prepared
  unfolding prepare add_accept_conn_request prepare_udp
  prepare-IsCounted w i =
      Safe-if Prepared settings.connection_protocol _ _
        (opened-IsCounted _ (
          accepting-IsCounted buf room config handler choice settings w
            (add_accept_request room w.fd w.base.sq) i))
        (Safe-bind Prepared
          (add_read_request buf room config.send_recv_msg
            (Conn.init_msg_header buf (record got.0 { fd = w.fd })) w.base.sq)
          _
          (λ l. (
            store-IsCounted got.1 l.1
                (get-IsCounted buf w.base.manager 1 w.fd (choice w.base.manager.conn_pool) i).1,
            any_error l.0,
          )))
    where
      got : Connection B Addr × ConnManager B Addr
      got = ConnManager.get buf w.base.manager 1 w.fd (choice w.base.manager.conn_pool)

  closing-IsCounted : (w : Shard B Addr) → Counted w → Counted (close_all_conns_and_rings room w)
  unfolding close_all_conns_and_rings
  closing-IsCounted w i = close-IsCounted _ (some w.fd) w.base.manager w.base.sq i

  loop_handlers-Keeps :
      config.send_recv_msg ≡ false
      → Keeps (loop_handlers buf room config handler choice settings) (OfWorker Counted) AnyError
  unfolding loop_handlers
  loop_handlers-Keeps stream = record {
    shutdown_keeps = λ l i.
        shutdown_handler-keeps Counted true (close_all_conns_and_rings room) l closing-IsCounted i;
    process_keeps = λ l cqe i.
        Safe->>= Counted (λ r. OfWorker Counted r.1 × OnError AnyError r.0) _ _
          (process_completion-IsCounted buf room config handler choice settings l.worker cqe stream
            i)
          (λ w h. (h, tt));
    finisher_keeps = λ l i.
        Safe->>= (λ base. IsCounted base.manager) (OfWorker Counted) _ _
          (async_writes_if_enabled-IsCounted buf room config handler choice l.worker.base i)
          (λ base h. h);
  }

  -- Through the preparation, any rounds and the end of a shard's loop, with any completions,
  -- submissions and handler of streams, and other goroutines that keep the count, the count of its
  -- connections stays right and the submitter stays on an entry of its array, wherever the loop is
  -- or returns.
  pub loop-EndsWell :
      (setup : Option Error) (rs : List (Round (Looped (Shard B Addr)) Completion)) (fd : ℕ)
      (l : Looped (Shard B Addr)) (sub : Submitter)
      → config.send_recv_msg ≡ false
      → AllKeep
          (loop_handlers buf room config handler choice settings)
          (OfWorker Counted)
          AnyError
          rs
      → Counted l.worker
      → IsMatched sub
      → Safe (loop buf room config handler choice settings setup rs fd l sub) (
          EndsWell
            (loop_handlers buf room config handler choice settings)
            (OfWorker Counted)
            AnyError)
  unfolding loop listening_on
  loop-EndsWell setup rs fd l sub stream all i m =
      let handlers = loop_handlers buf room config handler choice settings in
      let Good = EndsWell handlers (OfWorker Counted) AnyError in
      Safe->>= Good Good _ _
        (Safe->>= Good Good _ _
          (start_loop-EndsWell handlers (OfWorker Counted) AnyError (loop_handlers-Keeps stream)
            setup _ rs (listening_on fd l) sub (any_error setup)
            (Safe->>= Prepared (λ r. OfWorker Counted r.1 × OnError AnyError r.0)
              (prepare buf room config handler choice settings (listening_on fd l).worker) _
              (prepare-IsCounted (listening_on fd l).worker i) (λ r q. q))
            all i m)
          (notify_ended-EndsWell Counted handlers AnyError))
        (stopped-EndsWell handlers)
