-- ===== src/Shard/Loop.antt =====
-- shard_worker.go: the shard in the loop of looper.go.
pub mod Running
use gain.Base.{ℕ, List, Bool, true, Option, none, some, if◌then◌else◌, Outcome, ret, ◌>>=◌}
use gain.Errors.{Error}
use gain.Buffer.{Buffer}
use gain.SyncPool.{SyncPool}
use gain.Conn.{Connection}
use gain.Requests.{Entry}
use gain.Worker.{Config, EventHandler, Completion, async_writes_if_enabled}
use gain.Shard.{Shard, ShardConfig, add_accept_conn_request, prepare_udp, process_completion}
use gain.Shard.{close_all_conns_and_rings, is_finished, stop_accept}
use gain.Looper.{Handlers, Round, Ended, running, returned, start_loop}
use gain.Shutdowner.{Looped, shutdown_handler, notify_ended}
use gain.Submitter.{Submitter}

module _ {B Addr : Type 0} where
  -- `loop` keeps the listening socket, and stops accepting behind `startLoop`.
  pub listening_on : ℕ → Looped (Shard B Addr) → Looped (Shard B Addr)
  listening_on fd l = record l { worker = record l.worker { fd = fd } }

  pub stopped : Ended (Looped (Shard B Addr)) → Ended (Looped (Shard B Addr))
  stopped (running l sub) = running l sub
  stopped (returned err l sub) = returned err (record l { worker = stop_accept l.worker }) sub

  abbrev pub opened : Option Error × Shard B Addr → Option Error × Shard B Addr
  opened (none, w) = (none, record w { accepting = true })
  opened (some err, w) = (some err, w)

module _ {B Addr : Type 0} (buf : Buffer B) (room : List Entry → Bool) (config : Config Addr)
    (handler : EventHandler B Addr) (choice : SyncPool (Connection B Addr) → Option ℕ)
    (settings : ShardConfig) where
  -- `prepareHandler`
  pub prepare : Shard B Addr → Outcome (Option Error × Shard B Addr)
  prepare w =
      if settings.connection_protocol
      then ret (opened (add_accept_conn_request buf room config handler choice settings w))
      else prepare_udp buf room config handler choice settings w

  -- What `loop` gives to `startLoop`.
  pub loop_handlers : Handlers (Looped (Shard B Addr)) Completion
  loop_handlers = record {
    shutdown_handler = shutdown_handler true (close_all_conns_and_rings room);
    process = λ l cqe.
        process_completion buf room config handler choice settings l.worker cqe >>= λ w.
        ret (none, record l { worker = w });
    finisher = λ l. async_writes_if_enabled buf room config handler choice l.worker.base >>= λ base.
        ret (record l { worker = record l.worker { base = base } });
    finished = λ l. is_finished settings l.worker;
  }

  -- With what the settings of the thread give, and the rounds of the loop.
  pub loop :
      Option Error
      → List (Round (Looped (Shard B Addr)) Completion)
      → ℕ
      → Looped (Shard B Addr)
      → Submitter
      → Outcome (Ended (Looped (Shard B Addr)))
  loop setup rs fd l sub =
      start_loop loop_handlers setup
        (λ l'. prepare l'.worker >>= λ (err, w). ret (err, record l' { worker = w })) rs
        (listening_on fd l) sub
      >>= notify_ended
      >>= λ e. ret (stopped e)
