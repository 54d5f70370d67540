-- ===== src/Server/Shutdown.antt =====
-- What `Shutdown` does for the goroutine that calls it.
use gain.Base.{◌+◌, ◌-◌, ◌<◌, ◌≡◌, false, arith, refl, some}
use gain.Server.{Engine, inactive, running, closing, user, act, step}
use gain.Server.{goroutine_step, shutdown_step}
use gain.Server.{receive_shutdown, closer_returns, send_back, shutdown_load, shutdown_store}
use gain.Server.{in_goroutine, in_shutdown}
use gain.Server.Reach.{Reach, here, next, Holds, Holds-some}
use gain.Server.Alone.{Run, calls, IsOrderly, Run-IsOrderly}

abbrev IsInactive : Engine → Type 0
IsInactive u = u.state ≡ inactive

send_back-IsInactive :
    (e : Engine)
    → IsOrderly e
    → e.asyncs ≡ 0
    → Holds IsInactive (step (in_goroutine (send_back user)) e)
unfolding step act goroutine_step
send_back-IsInactive e c none_yet = ground arith

-- On every run of a server that is not the main process and has one call at a time, on which
-- `AsyncShutdown` was never called, the server is inactive when `Shutdown` gets its answer.
pub Shutdown-waits :
    {e : Engine} (u : Engine)
    → Run e
    → e.asyncs ≡ 0
    → step (in_goroutine (send_back user)) e ≡ some u
    → u.state ≡ inactive
Shutdown-waits {e} u r none_yet eq =
    Holds-some IsInactive (step (in_goroutine (send_back user)) e) u
      (send_back-IsInactive e (Run-IsOrderly r) none_yet) eq

-- The engine on the way through `Shutdown`.
abbrev asked : Engine → Engine
asked e = record e { shutting = e.shutting + 1 }

abbrev sent : Engine → Engine
sent e = record (asked e) {
  state = closing;
  shutting = (asked e).shutting - 1;
  sending = e.sending + 1;
}

abbrev received : Engine → Engine
received e = record (sent e) {
  sending = (sent e).sending - 1;
  awaiting = e.awaiting + 1;
  waiting = e.waiting - 1;
  closing_user = e.closing_user + 1;
}

abbrev closed : Engine → Engine
closed e = record (received e) {
  state = inactive;
  closing_user = (received e).closing_user - 1;
  returning_user = e.returning_user + 1;
}

abbrev answered : Engine → Engine
answered e = record e {
  returning_user = e.returning_user - 1;
  awaiting = e.awaiting - 1;
  finished = e.finished + 1;
}

-- A call under way is none of the engine's that runs and is not called.
record IsReady (e : Engine) : Type 0 where
  state : e.state ≡ running
  orderly : IsOrderly e
  idle : calls e ≡ 0
  lasting : e.ended ≡ false

step-asked : (e : Engine) → IsReady e → step (in_shutdown shutdown_load) e ≡ some (asked e)
unfolding step act shutdown_step
step-asked e h = ground arith

step-sent : (e : Engine) → IsReady e → step (in_shutdown shutdown_store) (asked e) ≡ some (sent e)
unfolding step act shutdown_step
step-sent e h = ground arith

step-received :
    (e : Engine) → IsReady e → step (in_goroutine receive_shutdown) (sent e) ≡ some (received e)
unfolding step act goroutine_step
step-received e h = ground arith

step-closed :
    (e : Engine)
    → IsReady e
    → step (in_goroutine (closer_returns user)) (received e) ≡ some (closed e)
unfolding step act goroutine_step
step-closed e h = ground arith

step-answered :
    (e : Engine)
    → e.crashed ≡ false
    → e.exited ≡ false
    → 0 < e.returning_user
    → 0 < e.awaiting
    → step (in_goroutine (send_back user)) e ≡ some (answered e)
unfolding step act goroutine_step
step-answered e a b c d = ground arith

Reach-received : (e : Engine) → IsReady e → Reach e (received e)
Reach-received e h =
    next {t = sent e} {u = received e} (in_goroutine receive_shutdown)
      (next {t = asked e} {u = sent e} (in_shutdown shutdown_store)
        (next {t = e} {u = asked e} (in_shutdown shutdown_load) here (step-asked e h))
        (step-sent e h))
      (step-received e h)

module _ {e : Engine} (r : Run e) (s : e.state ≡ running) (idle : calls e ≡ 0)
    (lasting : e.ended ≡ false) where
  ready : IsReady e
  ready = record { state = s; orderly = Run-IsOrderly r; idle = idle; lasting = lasting }

  -- On every run of a server that is not the main process and has one call at a time, from a
  -- running state without a call under way and with no worker that has ended by itself, a call of
  -- `Shutdown` can go through: the server becomes inactive and the call returns.
  pub Shutdown-returns :
      (u : Engine) × Reach e u
      × (u.state ≡ inactive)
      × (u.finished ≡ e.finished + 1)
      × (calls u ≡ 0)
  Shutdown-returns = (
    answered (closed e),
    next {t = closed e} {u = answered (closed e)} (in_goroutine (send_back user))
        (next {t = received e} {u = closed e} (in_goroutine (closer_returns user))
          (Reach-received e ready) (step-closed e ready))
        (step-answered (closed e) (ready.orderly.going) (ready.orderly.staying) (omega arith)
          (omega arith)),
    refl,
    refl,
    omega arith,
  )

  -- On every run of a server that is not the main process and has one call at a time, on which
  -- `AsyncShutdown` was called before, from a running state without a call under way and with no
  -- worker that has ended by itself, a `Shutdown` can return while the server is still closing.
  pub Shutdown-early :
      0 < e.asyncs
      → (u : Engine) × Reach e u
        × (u.state ≡ closing)
        × (u.finished ≡ e.finished + 1)
        × (0 < u.closing_user)
  Shutdown-early earlier = (
    answered (received e),
    next {t = received e} {u = answered (received e)} (in_goroutine (send_back user))
        (Reach-received e ready)
        (step-answered (received e) (ready.orderly.going) (ready.orderly.staying) (left)
          (omega arith)),
    refl,
    refl,
    omega arith,
  )
    where
      left : 0 < e.returning_user
      left = ground (arith, ready)
