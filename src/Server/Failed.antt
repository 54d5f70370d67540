-- ===== src/Server/Failed.antt =====
-- A start that fails, or that a second call overtakes, leaves the engine as it is for good.
use gain.Base.{ℕ, ◌+◌, ◌≡◌, refl, ◌≢◌, ◌⊎◌, true, arith, some}
use gain.Errors.{invalid_state}
use gain.Server.{Engine, Phase, inactive, starting, running, closing, start_guard, act, step}
use gain.Server.{
  StartEvent, GoroutineEvent, ShutdownEvent, start_step, goroutine_step, shutdown_step,
}
use gain.Server.{load, prepare_fails}
use gain.Server.{signal}
use gain.Server.{shutdown_load, shutdown_store}
use gain.Server.{in_start, in_shutdown}
use gain.Server.Reach.{Reach, Reach-keeps, Holds, Holds-some}

-- The engine is in a state between, and nothing that could take it out of it is under way.
pub record IsStuck (p : Phase) (n : ℕ) (e : Engine) : Type 0 where
  pub state : e.state ≡ p
  pub no_starts :
      e.loaded + e.loaded_main + e.stored + e.stored_main + e.preparing + e.launching ≡ 0
  pub no_signals : e.signals + e.signalled ≡ 0
  pub no_closing : e.closing_user + e.closing_system ≡ 0
  pub no_shutdowns : e.shutting + e.shutting_async ≡ 0
  pub senders : e.sending ≡ n
  pub unheard : (e.waiting ≡ 0) ⊎ (e.sending + e.sending_async ≡ 0)

module _ (p : Phase) (n : ℕ) (not_inactive : p ≢ inactive) (not_running : p ≢ running) where
  start_step-IsStuck :
      (ev : StartEvent) (e : Engine) → IsStuck p n e → Holds (IsStuck p n) (start_step ev e)
  unfolding start_step
  start_step-IsStuck (load true) e c = ground arith
  start_step-IsStuck _ e c = ground arith

  goroutine_step-IsStuck :
      (ev : GoroutineEvent) (e : Engine) → IsStuck p n e → Holds (IsStuck p n) (goroutine_step ev e)
  unfolding goroutine_step
  goroutine_step-IsStuck signal e c = ground arith
  goroutine_step-IsStuck _ e c = ground arith

  shutdown_step-IsStuck :
      (ev : ShutdownEvent) (e : Engine) → IsStuck p n e → Holds (IsStuck p n) (shutdown_step ev e)
  unfolding shutdown_step
  shutdown_step-IsStuck shutdown_load e c = ground arith
  shutdown_step-IsStuck _ e c = ground arith

  pub Reach-IsStuck : {e u : Engine} → IsStuck p n e → Reach e u → IsStuck p n u
  Reach-IsStuck =
      Reach-keeps (IsStuck p n) start_step-IsStuck goroutine_step-IsStuck shutdown_step-IsStuck

starting-ne-inactive : starting ≢ inactive
starting-ne-inactive h = cc

starting-ne-running : starting ≢ running
starting-ne-running h = cc

closing-ne-inactive : closing ≢ inactive
closing-ne-inactive h = cc

closing-ne-running : closing ≢ running
closing-ne-running h = cc

-- A phase other than inactive and running refuses every start.
start_guard-refuses :
    (p : Phase) → p ≢ inactive → p ≢ running → start_guard p p ≡ some invalid_state
unfolding start_guard
start_guard-refuses inactive h k = absurd (h refl)
start_guard-refuses starting h k = refl
start_guard-refuses running h k = absurd (k refl)
start_guard-refuses closing h k = refl

pub record IsRefusing (p : Phase) (u : Engine) : Type 0 where
  pub state : u.state ≡ p
  pub refused : start_guard u.state u.state ≡ some invalid_state

IsStuck-IsRefusing :
    (p : Phase) (n : ℕ) (u : Engine) → p ≢ inactive → p ≢ running → IsStuck p n u → IsRefusing p u
IsStuck-IsRefusing p n u h k s = record {
  state = s.state;
  refused = rw s.state (start_guard-refuses p h k);
}

-- The only call under way is one of `start`, behind the goroutines.
pub record IsPreparing (e : Engine) : Type 0 where
  pub state : e.state ≡ starting
  pub one : e.preparing ≡ 1
  pub no_starts : e.loaded + e.loaded_main + e.stored + e.stored_main + e.launching ≡ 0
  pub no_signals : e.signals + e.signalled ≡ 0
  pub no_closing : e.closing_user + e.closing_system ≡ 0
  pub no_shutdowns : e.shutting + e.shutting_async + e.sending + e.sending_async ≡ 0

prepare_fails-IsStuck :
    (e : Engine) → IsPreparing e → Holds (IsStuck starting 0) (step (in_start prepare_fails) e)
unfolding step act start_step
prepare_fails-IsStuck e h = ground arith

-- Where a start that is not the main process fails to make its listeners or workers, and is the
-- only call under way, with no goroutine of signals and no closer at work, the server stays in the
-- starting state for good, whatever is called afterwards, and refuses every start with the error
-- of an invalid state.
pub Reach-IsRefusing_failed :
    (e : Engine) {d u : Engine}
    → IsPreparing e
    → step (in_start prepare_fails) e ≡ some d
    → Reach d u
    → IsRefusing starting u
Reach-IsRefusing_failed e {d} {u} h eq r =
    IsStuck-IsRefusing starting 0 u starting-ne-inactive starting-ne-running (
      Reach-IsStuck starting 0 starting-ne-inactive starting-ne-running
        (Holds-some (IsStuck starting 0) (step (in_start prepare_fails) e) d
          (prepare_fails-IsStuck e h) eq)
        r)

-- A second `Shutdown` has seen the engine running; the first has shut it down since.
pub record IsOvertaken (e : Engine) : Type 0 where
  pub state : e.state ≡ inactive
  pub late : e.shutting ≡ 1
  pub no_starts :
      e.loaded + e.loaded_main + e.stored + e.stored_main + e.preparing + e.launching ≡ 0
  pub no_signals : e.signals + e.signalled ≡ 0
  pub no_closing : e.closing_user + e.closing_system + e.waiting ≡ 0
  pub no_async : e.shutting_async ≡ 0

shutdown_store-IsStuck :
    (e : Engine)
    → IsOvertaken e
    → Holds (IsStuck closing (e.sending + 1)) (step (in_shutdown shutdown_store) e)
unfolding step act shutdown_step
shutdown_store-IsStuck e h = ground arith

-- Where a `Shutdown` that has seen the server running stores its state when the server is inactive
-- again, with no start, no other `Shutdown` or `AsyncShutdown` behind its guard, no goroutine of
-- signals and no closer waiting or at work, the server stays in the closing state for good and
-- refuses every start, and the sends of `Shutdown` under way are never received.
pub Reach-IsRefusing_overtaken :
    (e : Engine) {d u : Engine}
    → IsOvertaken e
    → step (in_shutdown shutdown_store) e ≡ some d
    → Reach d u
    → IsRefusing closing u × (u.sending ≡ e.sending + 1)
Reach-IsRefusing_overtaken e {d} {u} h eq r =
    (IsStuck-IsRefusing closing n u closing-ne-inactive closing-ne-running stuck, stuck.senders)
  where
    n : ℕ
    n = e.sending + 1

    stuck : IsStuck closing n u
    stuck =
        Reach-IsStuck closing n closing-ne-inactive closing-ne-running
          (Holds-some (IsStuck closing n) (step (in_shutdown shutdown_store) e) d
            (shutdown_store-IsStuck e h) eq)
          r
