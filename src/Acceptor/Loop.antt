-- ===== src/Acceptor/Loop.antt =====
-- acceptor_worker.go: the acceptor in the loop of looper.go.
use gain.Base.{ℕ, ◌≡◌, refl, List, ◌∷◌, Bool, true, false, Option, none, Outcome, ret, ◌>>=◌}
use gain.Errors.{Error}
use gain.Requests.{Entry}
use gain.Worker.{Completion}
use gain.Consumer.{Consumer}
use gain.Acceptor.{Acceptor, AcceptorConfig, ClientAddr, process, prepare, close_ring_and_consumers}
use gain.Looper.{Handlers, Round, Ended, running, returned, inner_loop, start_loop}
use gain.Shutdowner.{
  Looped, shutdown_handler, notify_finish, need_to_shutdown, mark_shutdown_in_progress,
}
use gain.Submitter.{Submitter}

module _ {B Addr : Type 0} where
  -- The acceptor notifies behind its loop, also where that ended with an error.
  pub notify_returned :
      Ended (Looped (Acceptor B Addr)) → Outcome (Ended (Looped (Acceptor B Addr)))
  notify_returned (running l sub) = ret (running l sub)
  notify_returned (returned err l sub) = notify_finish l >>= λ l'. ret (returned err l' sub)

module _ {B Addr : Type 0} (room : List Entry → Bool) (config : AcceptorConfig) (ring_fd : ℕ → ℕ)
    (checksum : Addr → ℕ) (shut_down : Consumer B Addr → Consumer B Addr) where
  -- What `loop` gives to `startLoop`, each completion with what the kernel stored as the address.
  -- There is no finisher, and no condition to leave the loop but the shutdown.
  pub loop_handlers : Handlers (Looped (Acceptor B Addr)) (Completion × ClientAddr Addr)
  loop_handlers = record {
    shutdown_handler =
        shutdown_handler false (close_ring_and_consumers room config ring_fd checksum shut_down);
    process = λ l (cqe, client).
        process room config ring_fd checksum l.worker cqe client >>= λ (err, a).
        ret (err, record l { worker = a });
    finisher = λ l. ret l;
    finished = λ _. false;
  }

  -- With what the settings of the thread give, and the rounds of the loop.
  pub loop :
      Option Error
      → List (Round (Looped (Acceptor B Addr)) (Completion × ClientAddr Addr))
      → ℕ
      → Looped (Acceptor B Addr)
      → Submitter
      → Outcome (Ended (Looped (Acceptor B Addr)))
  loop setup rs fd l sub =
      start_loop loop_handlers setup
        (λ l'.
          let (err, a) = prepare room config ring_fd checksum l'.worker in
          ret (err, record l' { worker = a }))
        rs (record l { worker = record l.worker { fd = fd } }) sub
      >>= notify_returned

  -- A shutdown that was asked for ends the loop at its next turn, with nothing submitted: the
  -- listening socket is shut, nothing is accepted any more, and the consumers are shut down.
  pub inner_loop-pending :
      (r : Round (Looped (Acceptor B Addr)) (Completion × ClientAddr Addr))
      (rs : List (Round (Looped (Acceptor B Addr)) (Completion × ClientAddr Addr)))
      (l : Looped (Acceptor B Addr)) (sub : Submitter)
      → (r.others l).shutdowning ≡ true
      → (r.others l).in_progress ≡ false
      → inner_loop loop_handlers (r ∷ rs) l sub
        ≡ ret (
            returned none
              (record (r.others l) {
                in_progress = true;
                worker =
                    close_ring_and_consumers room config ring_fd checksum shut_down
                      (r.others l).worker;
              })
              sub)
  unfolding inner_loop loop_handlers shutdown_handler need_to_shutdown mark_shutdown_in_progress
  inner_loop-pending r rs l sub asked fresh = rw (asked, fresh) refl
