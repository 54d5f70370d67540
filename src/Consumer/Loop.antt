-- ===== src/Consumer/Loop.antt =====
-- consumer_worker.go: the consumer in the loop of looper.go.
pub mod Running
use gain.Base.{ℕ, List, true, Bool, Option, none, Outcome, ret, ◌>>=◌}
use gain.Errors.{Error}
use gain.Buffer.{Buffer}
use gain.SyncPool.{SyncPool}
use gain.Conn.{Connection}
use gain.ConnManager.{all_closed}
use gain.Requests.{Entry}
use gain.Worker.{Config, EventHandler, Completion, async_writes_if_enabled}
use gain.Consumer.{Consumer, process, get_conns_from_queue, close_all_conns}
use gain.Looper.{Handlers, Round, Ended, start_loop}
use gain.Shutdowner.{Looped, shutdown_handler, notify_ended}
use gain.Submitter.{Submitter}

module _ {B Addr : Type 0} (buf : Buffer B) (room : List Entry → Bool) (config : Config Addr)
    (handler : EventHandler B Addr) (choice : SyncPool (Connection B Addr) → Option ℕ) where
  -- `handleJobsInQueues`
  pub handle_jobs_in_queues : Consumer B Addr → Outcome (Consumer B Addr)
  handle_jobs_in_queues w = get_conns_from_queue buf room config handler choice w >>= λ v.
      async_writes_if_enabled buf room config handler choice v.base >>= λ base.
      ret (record v { base = base })

  -- What `loop` gives to `startLoop`.
  pub loop_handlers : Handlers (Looped (Consumer B Addr)) Completion
  loop_handlers = record {
    shutdown_handler = shutdown_handler true (close_all_conns room);
    process = λ l cqe. process buf room config handler choice l.worker cqe >>= λ (err, w).
        ret (err, record l { worker = w });
    finisher = λ l. handle_jobs_in_queues l.worker >>= λ w. ret (record l { worker = w });
    finished = λ l. all_closed l.worker.base.manager;
  }

  -- With what the settings of the thread give, and the rounds of the loop.
  pub loop :
      Option Error
      → List (Round (Looped (Consumer B Addr)) Completion)
      → Looped (Consumer B Addr)
      → Submitter
      → Outcome (Ended (Looped (Consumer B Addr)))
  loop setup rs l sub =
      start_loop loop_handlers setup (λ l'. ret (none, l')) rs l sub >>= notify_ended
