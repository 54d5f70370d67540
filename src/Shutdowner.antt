-- ===== src/Shutdowner.antt =====
-- shutdown.go: a worker with its `shutdowner`, in the loop of looper.go.
pub mod Order
pub mod Keeping
mod Tests
use gain.Base.{
  List, [], ◌∷◌, take, drop, ℕ, zero, suc, ◌+◌, Bool, true, false, Option, none, some,
  if◌then◌else◌, ◌&&◌, not,
}
use gain.Base.{Outcome, ret, panic, ◌>>=◌, Bool-cases, inl, inr}
use gain.Errors.{Error}
use gain.Looper.{Ended, running, returned}

-- `waiting` is the count of the wait group.
pub record Looped (W : Type 0) : Type 0 where
  pub worker : W
  pub shutdowning : Bool
  pub in_progress : Bool
  pub waiting : ℕ

module _ {W : Type 0} where
  unfoldable pub new_shutdowner : W → Looped W
  new_shutdowner w = record { worker = w; shutdowning = false; in_progress = false; waiting = 0 }

  unfoldable pub need_to_shutdown : Looped W → Bool
  need_to_shutdown l = l.shutdowning && not l.in_progress

  unfoldable pub mark_shutdown_in_progress : Looped W → Looped W
  mark_shutdown_in_progress l = record l { in_progress = true }

  -- The first step of `shutdown`, the second, and whether the third, the waiting, is over.
  pub store_shutdowning : Looped W → Looped W
  store_shutdowning l = record l { shutdowning = true }

  pub add_waiting : Looped W → Looped W
  add_waiting l = record l { waiting = l.waiting + 1 }

  pub is_waiting_over : Looped W → Bool
  is_waiting_over l = elim l.waiting [ zero ↦ true | suc _ ↦ false ]

  -- The steps of `shutdown` before it waits, in their order.
  pub shutdown_steps : List (Looped W → Looped W)
  unfolding store_shutdowning add_waiting
  shutdown_steps = store_shutdowning ∷ add_waiting ∷ []

  abbrev pub run_steps : List (Looped W → Looped W) → Looped W → Looped W
  run_steps [] l = l
  run_steps (f ∷ fs) l = run_steps fs (f l)

  unfoldable pub ask_to_shutdown : Looped W → Looped W
  unfolding shutdown_steps store_shutdowning add_waiting
  ask_to_shutdown l = run_steps shutdown_steps l

  -- `Done` of a wait group panics below 0.
  pub notify_finish : Looped W → Outcome (Looped W)
  notify_finish l =
      if l.shutdowning
      then (elim l.waiting [ zero ↦ panic | suc n ↦ ret (record l { waiting = n }) ])
      else ret l

  -- A `shutdown` that the loop ends in the middle of: behind `n` of its steps.
  pub ends_behind : ℕ → Looped W → Outcome (Looped W)
  unfolding notify_finish
  ends_behind n l = notify_finish (run_steps (take n shutdown_steps) l) >>= λ l'.
      ret (run_steps (drop n shutdown_steps) l')

  -- The finish condition of the loop notifies where it holds; the loop returns without an error
  -- for no other reason, since the shutdown handler lets it go on.
  pub notify_ended : Ended (Looped W) → Outcome (Ended (Looped W))
  notify_ended (running l sub) = ret (running l sub)
  notify_ended (returned none l sub) = notify_finish l >>= λ l'. ret (returned none l' sub)
  notify_ended (returned (some err) l sub) = ret (returned (some err) l sub)

  -- The shutdown handler of a worker that closes itself by `close_all`, and whose loop goes on
  -- behind that or not.
  unfoldable pub shutdown_handler : Bool → (W → W) → Looped W → Bool × Looped W
  shutdown_handler goes_on close_all l =
      if need_to_shutdown l
      then (goes_on, mark_shutdown_in_progress (record l { worker = close_all l.worker }))
      else (true, l)

  -- What closing keeps of the worker, the handler keeps.
  pub shutdown_handler-keeps :
      (P : W → Type 0) (goes_on : Bool) (close_all : W → W) (l : Looped W)
      → ((w : W) → P w → P (close_all w))
      → P l.worker
      → P (shutdown_handler goes_on close_all l).1.worker
  unfolding shutdown_handler mark_shutdown_in_progress
  shutdown_handler-keeps P goes_on close_all l keeps p = elim (Bool-cases (need_to_shutdown l)) [
    | inl e ↦ rw e (keeps l.worker p)
    | inr e ↦ rw e p
  ]
