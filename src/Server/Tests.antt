-- ===== src/Server/Tests.antt =====
-- The engine's theorems at concrete runs.
use gain.Base.{◌<◌, ◌≡◌, true, false, arith, refl}
use gain.Server.{Engine, new_server, inactive, starting, running, closing, user, act, step}
use gain.Server.{start_step, goroutine_step, shutdown_step}
use gain.Server.{load, store, probe_succeeds, set_closer, set_running, serve_ends}
use gain.Server.{receive_shutdown, receive_async, closer_returns}
use gain.Server.{shutdown_load, shutdown_store, async_load, async_store}
use gain.Server.{in_start, in_goroutine, in_shutdown}
use gain.Server.Reach.{Reach, here, next}
use gain.Server.Goroutines.{IsConsistent, Reach-IsConsistent}
use gain.Server.Failed.{IsRefusing}
use gain.Server.Failed.{Reach-IsRefusing_failed, Reach-IsRefusing_overtaken}
use gain.Server.Alone.{Run, fresh, more, IsOrderly, Run-IsOrderly, calls}
use gain.Server.Shutdown.{Shutdown-waits, Shutdown-returns, Shutdown-early}

abbrev preparing_once : Engine
unfolding new_server
preparing_once = record new_server { state = starting; preparing = 1; waiting = 1; spawned = 1 }

abbrev running_once : Engine
unfolding new_server
running_once = record new_server {
  state = running;
  has_closer = true;
  serving = 1;
  waiting = 1;
  spawned = 1;
}

run_once : Run running_once
unfolding new_server step act start_step
run_once =
    more (in_start set_running)
      (more (in_start set_closer)
        (more (in_start (probe_succeeds false))
          (more (in_start (store false)) (more (in_start (load false)) fresh refl (omega arith))
            refl (omega arith))
          refl (omega arith))
        refl (omega arith))
      refl (omega arith)

-- The first shutdown was asynchronous; the server was started again.
abbrev running_twice : Engine
running_twice = record running_once { returning_user = 1; spawned = 2; asyncs = 1 }

run_twice : Run running_twice
unfolding new_server step act start_step shutdown_step goroutine_step
run_twice =
    more (in_start set_running)
      (more (in_start set_closer)
        (more (in_start (probe_succeeds false))
          (more (in_start (store false))
            (more (in_start (load false)) inactive_again refl (omega arith)) refl (omega arith))
          refl (omega arith))
        refl (omega arith))
      refl (omega arith)
  where
    inactive_again :
        Run (record running_twice { state = inactive; serving = 0; waiting = 0; spawned = 1 })
    inactive_again =
        more (in_start serve_ends)
          (more (in_goroutine (closer_returns user))
            (more (in_goroutine receive_async)
              (more (in_shutdown async_store)
                (more (in_shutdown async_load) run_once refl (omega arith)) refl (omega arith))
              refl (omega arith))
            refl (omega arith))
          refl (omega arith)

-- Of a first call of `Shutdown`, when the closer has returned.
abbrev answering : Engine
answering = record running_once { state = inactive; waiting = 0; returning_user = 1; awaiting = 1 }

run_answering : Run answering
unfolding new_server step act start_step shutdown_step goroutine_step
run_answering =
    more (in_goroutine (closer_returns user))
      (more (in_goroutine receive_shutdown)
        (more (in_shutdown shutdown_store)
          (more (in_shutdown shutdown_load) run_once refl (omega arith)) refl (omega arith))
        refl (omega arith))
      refl (omega arith)

abbrev answered_once : Engine
answered_once = record answering { returning_user = 0; awaiting = 0; finished = 1 }

Shutdown-waits_example : answered_once.state ≡ inactive
unfolding new_server step act goroutine_step
Shutdown-waits_example = Shutdown-waits answered_once run_answering refl refl

Shutdown-returns_example :
    (u : Engine) × Reach running_once u × (u.state ≡ inactive) × (u.finished ≡ 1) × (calls u ≡ 0)
unfolding new_server
Shutdown-returns_example = Shutdown-returns run_once refl refl refl

Shutdown-early_example :
    (u : Engine) × Reach running_twice u
    × (u.state ≡ closing)
    × (u.finished ≡ 1)
    × (0 < u.closing_user)
unfolding new_server
Shutdown-early_example = Shutdown-early run_twice refl refl refl (omega arith)

Run-IsOrderly_example : IsOrderly running_twice
Run-IsOrderly_example = Run-IsOrderly run_twice

Reach-IsConsistent_example : IsConsistent (record new_server { state = starting; stored = 1 })
unfolding new_server step act start_step
Reach-IsConsistent_example =
    Reach-IsConsistent (next (in_start (store false)) (next (in_start (load false)) here refl) refl)

abbrev failed_once : Engine
failed_once = record preparing_once { preparing = 0 }

Reach-IsRefusing_failed_example : IsRefusing starting failed_once
unfolding new_server step act start_step
Reach-IsRefusing_failed_example =
    Reach-IsRefusing_failed preparing_once {d = failed_once} (ground arith) refl here

abbrev overtaken : Engine
overtaken = record answered_once { shutting = 1 }

Reach-IsRefusing_overtaken_example :
    IsRefusing closing (record overtaken { state = closing; shutting = 0; sending = 1 })
    × ((record overtaken { sending = 1 }).sending ≡ 1)
unfolding new_server step act shutdown_step
Reach-IsRefusing_overtaken_example = Reach-IsRefusing_overtaken overtaken (ground arith) refl here

-- A worker has ended, and `Shutdown` is called.
abbrev asked_late : Engine
asked_late = record running_once { ended = true; shutting = 1 }

-- The closer goroutine has taken the signal and waits in the closer.
abbrev hanging_once : Engine
hanging_once = record asked_late {
  state = closing;
  shutting = 0;
  waiting = 0;
  hung = 1;
  awaiting = 1;
}
