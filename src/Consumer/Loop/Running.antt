-- ===== src/Consumer/Loop/Running.antt =====
-- The count of a consumer's connections through its whole loop.
use gain.Base.{ℕ, ◌≡◌, List, true, [], ◌∷◌, Bool, false, Option, none, some}
use gain.Base.{ret, Safe, Safe->>=}
use gain.Errors.{Error}
use gain.Buffer.{Buffer}
use gain.SyncPool.{SyncPool}
use gain.Conn.{Connection}
use gain.ConnManager.Counting.{IsCounted, close-IsCounted}
use gain.Requests.{Entry}
use gain.Worker.{Config, EventHandler, Completion}
use gain.Worker.Queue.{async_writes_if_enabled-IsCounted}
use gain.Consumer.{Consumer, get_conns, get_conns_from_queue, close_all_conns}
use gain.Consumer.Counting.{process-IsCounted, handle_new_conn-IsCounted}
use gain.Consumer.Loop.{loop_handlers, handle_jobs_in_queues, loop}
use gain.Looper.{Round}
use gain.Looper.Keeping.{Keeps, AllKeep, OnError, EndsWell, AnyError, any_error}
use gain.Looper.Keeping.{start_loop-EndsWell}
use gain.Shutdowner.{Looped, shutdown_handler-keeps}
use gain.Shutdowner.Keeping.{OfWorker, notify_ended-EndsWell}
use gain.Submitter.{Submitter}
use gain.Submitter.Adapting.{IsMatched}

abbrev pub Counted : {B Addr : Type 0} → Consumer B Addr → Type 0
Counted w = IsCounted w.base.manager

module _ {B Addr : Type 0} (buf : Buffer B) (room : List Entry → Bool) (config : Config Addr)
    (handler : EventHandler B Addr) (choice : SyncPool (Connection B Addr) → Option ℕ) where
  get_conns-IsCounted :
      (fds : List ℕ) (w : Consumer B Addr)
      → Counted w
      → Safe (get_conns buf room config handler choice fds w) Counted
  unfolding get_conns
  get_conns-IsCounted [] w i = i
  get_conns-IsCounted (fd ∷ fds) w i =
      Safe->>= (λ r. Counted r.1) Counted _ _
        (handle_new_conn-IsCounted buf room config handler choice w fd i)
        (λ r h. get_conns-IsCounted fds r.1 h)

  from_queue-IsCounted :
      (w : Consumer B Addr)
      → Counted w
      → Safe (get_conns_from_queue buf room config handler choice w) Counted
  unfolding get_conns_from_queue
  from_queue-IsCounted w i = by_queue w.conn_queue
    where
      by_queue :
          (q : Option (List ℕ))
          → Safe
              (elim q [
                | none ↦ ret w
                | some queue ↦
                    get_conns buf room config handler choice queue
                      (record w { conn_queue = some [] })
              ])
              Counted
      by_queue none = i
      by_queue (some queue) = get_conns-IsCounted queue (record w { conn_queue = some [] }) i

  jobs-IsCounted :
      (w : Consumer B Addr)
      → Counted w
      → Safe (handle_jobs_in_queues buf room config handler choice w) Counted
  unfolding handle_jobs_in_queues
  jobs-IsCounted w i =
      Safe->>= Counted Counted (get_conns_from_queue buf room config handler choice w) _
        (from_queue-IsCounted w i)
        (λ v h.
          Safe->>= (λ x. IsCounted x.manager) Counted _ _
            (async_writes_if_enabled-IsCounted buf room config handler choice v.base h)
            (λ base k. k))

  closing-IsCounted : (w : Consumer B Addr) → Counted w → Counted (close_all_conns room w)
  unfolding close_all_conns
  closing-IsCounted w i = close-IsCounted _ none w.base.manager w.base.sq i

  loop_handlers-Keeps :
      config.send_recv_msg ≡ false
      → Keeps (loop_handlers buf room config handler choice) (OfWorker Counted) AnyError
  unfolding loop_handlers
  loop_handlers-Keeps stream = record {
    shutdown_keeps =
        λ l i. shutdown_handler-keeps Counted true (close_all_conns room) l closing-IsCounted i;
    process_keeps = λ l cqe i.
        Safe->>= (λ s. Counted s.1) (λ r. OfWorker Counted r.1 × OnError AnyError r.0) _ _
          (process-IsCounted buf room config handler choice l.worker cqe stream i)
          (λ r h. (h, any_error r.0));
    finisher_keeps =
        λ l i. Safe->>= Counted (OfWorker Counted) _ _ (jobs-IsCounted l.worker i) (λ w h. h);
  }

  -- Through the start, any rounds and the end of a stream consumer's loop, with any completions,
  -- submissions and handler, and other goroutines that keep the count, the count of its
  -- connections stays right and the submitter stays on an entry of its array, wherever the loop is
  -- or returns.
  pub loop-IsCounted :
      (setup : Option Error) (rs : List (Round (Looped (Consumer B Addr)) Completion))
      (l : Looped (Consumer B Addr)) (sub : Submitter)
      → config.send_recv_msg ≡ false
      → AllKeep (loop_handlers buf room config handler choice) (OfWorker Counted) AnyError rs
      → Counted l.worker
      → IsMatched sub
      → Safe
          (loop buf room config handler choice setup rs l sub)
          (EndsWell (loop_handlers buf room config handler choice) (OfWorker Counted) AnyError)
  unfolding loop
  loop-IsCounted setup rs l sub stream all i m =
      let handlers = loop_handlers buf room config handler choice in
      let Good = EndsWell handlers (OfWorker Counted) AnyError in
      Safe->>= Good Good _ _
        (start_loop-EndsWell handlers (OfWorker Counted) AnyError (loop_handlers-Keeps stream) setup
          (λ l'. ret (none, l')) rs l sub (any_error setup) (i, tt) all i m)
        (notify_ended-EndsWell Counted handlers AnyError)
