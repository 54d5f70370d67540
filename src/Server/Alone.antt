-- ===== src/Server/Alone.antt =====
-- A server that one goroutine at a time calls, and that is not started as the main process.
use gain.Base.{ℕ, ◌+◌, ◌≤◌, ◌≡◌, true, false, arith, some, ◌||◌}
use gain.Server.{Engine, new_server, inactive, starting, running, closing, act, step}
use gain.Server.{
  StartEvent, GoroutineEvent, ShutdownEvent, start_step, goroutine_step, shutdown_step,
}
use gain.Server.{load}
use gain.Server.{signal}
use gain.Server.{shutdown_load}
use gain.Server.{Event, in_start, in_goroutine, in_shutdown}
use gain.Server.Reach.{Holds, Holds-some, Holds-if}

-- The calls that have not returned; a start that serves has done its part.
abbrev pub calls : Engine → ℕ
calls e =
    e.loaded + e.stored + e.preparing + e.launching + e.shutting + e.shutting_async + e.sending
    + e.sending_async + e.awaiting

pub record IsAlone (e : Engine) : Type 0 where
  pub one : calls e ≤ 1
  pub no_main : e.loaded_main ≡ 0

pub data Run : Engine → Type 0 where
  fresh : Run new_server
  more : {e u : Engine} (ev : Event) → Run e → step ev e ≡ some u → IsAlone u → Run u

abbrev starts : Engine → ℕ
starts e = e.loaded + e.stored + e.preparing + e.launching

abbrev shutdowns : Engine → ℕ
shutdowns e = e.shutting + e.shutting_async + e.sending + e.sending_async

pub record IsOrderly (e : Engine) : Type 0 where
  pub one : calls e ≤ 1
  pub no_main : e.loaded_main + e.stored_main + e.signals + e.signalled ≡ 0
  pub no_system : e.closing_system + e.returning_system ≡ 0
  pub going : e.crashed ≡ false
  pub staying : e.exited ≡ false
  pub answers : e.closing_user + e.returning_user + e.hung ≡ e.awaiting + e.asyncs
  pub when_inactive :
      e.state ≡ inactive
      → e.waiting + e.closing_user + e.hung + e.stored + e.preparing + e.launching + shutdowns e ≡ 0
  pub when_starting :
      e.state ≡ starting
      → (e.closing_user + e.hung + e.loaded + shutdowns e + e.awaiting ≡ 0)
        × (e.preparing + e.launching ≤ e.waiting)
        × (e.stored + e.waiting ≤ 1)
  pub when_running :
      e.state ≡ running
      → (e.waiting ≡ 1)
        × (e.closing_user + e.hung + starts e + e.sending + e.sending_async + e.awaiting ≡ 0)
  pub when_closing :
      e.state ≡ closing
      → (e.closing_user + e.hung + e.sending + e.sending_async ≡ 1)
        × (e.waiting ≡ e.sending + e.sending_async)
        × (starts e + e.shutting + e.shutting_async ≡ 0)
  pub with_closer : e.has_closer ≡ false → e.launching + shutdowns e ≡ 0
  pub running_with_closer : e.state ≡ running → e.has_closer ≡ true

-- The invariant is kept by what leaves one call under way.
abbrev Next : Engine → Type 0
Next u = IsAlone u → IsOrderly u

start_step-Next : (ev : StartEvent) (e : Engine) → IsOrderly e → Holds Next (start_step ev e)
unfolding start_step
start_step-Next (load true) e c = ground arith
start_step-Next _ e c = ground arith

goroutine_step-Next :
    (ev : GoroutineEvent) (e : Engine) → IsOrderly e → Holds Next (goroutine_step ev e)
unfolding goroutine_step
goroutine_step-Next signal e c = ground arith
goroutine_step-Next _ e c = ground arith

shutdown_step-Next :
    (ev : ShutdownEvent) (e : Engine) → IsOrderly e → Holds Next (shutdown_step ev e)
unfolding shutdown_step
shutdown_step-Next shutdown_load e c = ground arith
shutdown_step-Next _ e c = ground arith

act-Next : (ev : Event) (e : Engine) → IsOrderly e → Holds Next (act ev e)
unfolding act
act-Next (in_start ev) e c = start_step-Next ev e c
act-Next (in_goroutine ev) e c = goroutine_step-Next ev e c
act-Next (in_shutdown ev) e c = shutdown_step-Next ev e c

step-Next : (ev : Event) (e : Engine) → IsOrderly e → Holds Next (step ev e)
unfolding step
step-Next ev e c = Holds-if Next (e.crashed || e.exited) (act ev e) (act-Next ev e c)

new_server-IsOrderly : IsOrderly new_server
unfolding new_server
new_server-IsOrderly = ground arith

-- On every run of a server that is not the main process and has one call at a time, each state has
-- the goroutines and calls that belong to it: a running server has one closer goroutine waiting
-- and its closer set, a closing one has a signal on its way or being worked on, an inactive one
-- none; nothing crashes or exits, and as many closer goroutines are still to send back as
-- `Shutdown` calls wait and `AsyncShutdown` calls were made.
pub Run-IsOrderly : {e : Engine} → Run e → IsOrderly e
Run-IsOrderly fresh = new_server-IsOrderly
Run-IsOrderly (more {e} {u} ev r eq alone) =
    Holds-some Next (step ev e) u (step-Next ev e (Run-IsOrderly r)) eq alone
