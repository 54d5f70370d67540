-- ===== src/Server/Hanging.antt =====
-- A `Shutdown` of a server one of whose workers has ended by itself.
use gain.Base.{ℕ, ◌+◌, ◌≡◌, true}
use gain.Server.{Engine, running, closing}
use gain.Server.Reach.{Reach}
use gain.Server.Alone.{IsOrderly}

-- The engine is closing, its closer cannot return, and `n` calls of `Shutdown` have returned.
record IsHanging (n : ℕ) (e : Engine) : Type 0 where
  state : e.state ≡ closing
  with_closer : e.has_closer ≡ true
  ended : e.ended ≡ true
  no_starts : e.loaded + e.loaded_main + e.stored + e.stored_main + e.preparing + e.launching ≡ 0
  no_signals : e.signals + e.signalled ≡ 0
  no_closing : e.closing_user + e.closing_system + e.returning_user + e.returning_system ≡ 0
  no_shutdowns : e.shutting + e.shutting_async ≡ 0
  returned : e.finished ≡ n

-- `Shutdown` has loaded the state of the engine that ran, and stores its own.
record IsAsked (e : Engine) : Type 0 where
  state : e.state ≡ running
  orderly : IsOrderly e
  one : e.shutting ≡ 1
  ended : e.ended ≡ true
  no_asyncs : e.asyncs ≡ 0
