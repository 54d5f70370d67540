-- ===== src/Server/Goroutines.antt =====
-- What holds of every engine that can be reached from a new one.
use gain.Base.{◌+◌, ◌<◌, ◌≡◌, true, false, arith}
use gain.Server.{Engine, new_server, running}
use gain.Server.{
  StartEvent, GoroutineEvent, ShutdownEvent, start_step, goroutine_step, shutdown_step,
}
use gain.Server.{load}
use gain.Server.{signal}
use gain.Server.{shutdown_load}
use gain.Server.Reach.{Reach, Reach-keeps, Holds}

pub record IsConsistent (e : Engine) : Type 0 where
  -- A closer goroutine waits, closes (it may hang in that), sends back, or ended with a `Shutdown`, unless it crashed.
  pub goroutines :
      e.crashed ≡ false
      → e.spawned
        ≡ e.waiting + e.closing_user + e.closing_system + e.returning_user + e.returning_system
          + e.hung + e.finished
  pub with_closer :
      e.has_closer ≡ false → e.launching + e.serving + e.shutting + e.shutting_async ≡ 0
  pub sent_with_closer : e.has_closer ≡ false → e.sending + e.sending_async ≡ 0
  pub running_with_closer : e.state ≡ running → e.has_closer ≡ true
  pub exit : e.exited ≡ true → 0 < e.finished
  pub crash : e.crashed ≡ true → 0 < e.received

start_step-IsConsistent :
    (ev : StartEvent) (e : Engine) → IsConsistent e → Holds IsConsistent (start_step ev e)
unfolding start_step
start_step-IsConsistent (load true) e c = ground arith
start_step-IsConsistent _ e c = ground arith

goroutine_step-IsConsistent :
    (ev : GoroutineEvent) (e : Engine) → IsConsistent e → Holds IsConsistent (goroutine_step ev e)
unfolding goroutine_step
goroutine_step-IsConsistent signal e c = ground arith
goroutine_step-IsConsistent _ e c = ground arith

shutdown_step-IsConsistent :
    (ev : ShutdownEvent) (e : Engine) → IsConsistent e → Holds IsConsistent (shutdown_step ev e)
unfolding shutdown_step
shutdown_step-IsConsistent shutdown_load e c = ground arith
shutdown_step-IsConsistent _ e c = ground arith

new_server-IsConsistent : IsConsistent new_server
unfolding new_server
new_server-IsConsistent = ground arith

-- On every run of a server, with any calls at once: unless it crashed, each closer goroutine
-- waits, closes (and may hang in that), sends back or ended with a `Shutdown`; a running server
-- has its closer set, and so has one that is being shut down; `os.Exit` was called only behind a
-- `Shutdown` that returned, and a nil closer only behind a signal of the system.
pub Reach-IsConsistent : {e : Engine} → Reach new_server e → IsConsistent e
Reach-IsConsistent r =
    Reach-keeps IsConsistent start_step-IsConsistent goroutine_step-IsConsistent
      shutdown_step-IsConsistent new_server-IsConsistent r
