-- ===== src/Shutdowner/Order.antt =====
-- The orders of the steps of `shutdown` and the end of the worker's loop.
use gain.Base.{ℕ, zero, suc, Bool, true, false, Outcome, ret, panic}

-- Whether the wait is over, where the loop ends behind `n` steps.
unfoldable pub wait_after : ℕ → Outcome Bool
wait_after zero = ret false
wait_after (suc zero) = panic
wait_after (suc (suc n)) = ret true
