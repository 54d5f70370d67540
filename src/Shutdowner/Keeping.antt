-- ===== src/Shutdowner/Keeping.antt =====
-- What a worker's loop keeps of the worker, the notification at its end keeps.
use gain.Base.{ℕ, zero, suc, none, some, ret, panic, Safe, Safe->>=, Safe-if}
use gain.Errors.{Error}
use gain.Looper.{Handlers, Ended, running, returned}
use gain.Looper.Keeping.{EndsWell}
use gain.Shutdowner.{Looped, notify_finish, notify_ended}

module _ {W : Type 0} (Q : W → Type 0) where
  abbrev pub OfWorker : Looped W → Type 0
  OfWorker l = Q l.worker

  notify_finish-keeps : (l : Looped W) → Q l.worker → Safe (notify_finish l) OfWorker
  unfolding notify_finish
  notify_finish-keeps l q = Safe-if OfWorker l.shutdowning _ _ (by_waiting l.waiting) q
    where
      by_waiting :
          (n : ℕ) → Safe (elim n [ zero ↦ panic | suc m ↦ ret (record l { waiting = m }) ]) OfWorker
      by_waiting zero = tt
      by_waiting (suc m) = q

  pub notify_ended-EndsWell :
      {C : Type 0} (h : Handlers (Looped W) C) (E : Error → Type 0) (e : Ended (Looped W))
      → EndsWell h OfWorker E e
      → Safe (notify_ended e) (EndsWell h OfWorker E)
  unfolding notify_ended
  notify_ended-EndsWell h E (running l sub) w = w
  notify_ended-EndsWell h E (returned none l sub) (q, m, t) =
      Safe->>= OfWorker (EndsWell h OfWorker E) (notify_finish l) _ (notify_finish-keeps l q)
        (λ l' q'. (q', m, tt))
  notify_ended-EndsWell h E (returned (some err) l sub) w = w
