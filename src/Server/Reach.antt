-- ===== src/Server/Reach.antt =====
-- Runs of the engine, and how a property is kept along them.
use gain.Base.{◌≡◌, Option, none, some, Bool, true, false, refl, ◌||◌, if◌then◌else◌}
use mathlib.Core.Path.{subst}
use gain.Server.{Engine, Event, StartEvent, GoroutineEvent, ShutdownEvent}
use gain.Server.{in_start, in_goroutine, in_shutdown, step, act, when}
use gain.Server.{start_step, goroutine_step, shutdown_step}

pub data Reach (s : Engine) : Engine → Type 0 where
  here : Reach s s
  next : {t u : Engine} (ev : Event) → Reach s t → step ev t ≡ some u → Reach s u

pub append : {s t u : Engine} → Reach s t → Reach t u → Reach s u
append r here = r
append r (next ev q eq) = next ev (append r q) eq

-- What holds of the next engine, if there is one.
abbrev pub Holds : (Engine → Type 0) → Option Engine → Type 0
Holds P none = Unit
Holds P (some e) = P e

pub Holds-when :
    (P : Engine → Type 0) (b : Bool) (e : Engine) → (b ≡ true → P e) → Holds P (when b e)
Holds-when P true e h = h refl
Holds-when P false e h = tt

pub Holds-some :
    (P : Engine → Type 0) (o : Option Engine) (e : Engine) → Holds P o → o ≡ some e → P e
Holds-some P none e h eq = cc
Holds-some P (some d) e h eq = subst P (cc) h

pub Holds-if :
    (P : Engine → Type 0) (b : Bool) (o : Option Engine)
    → Holds P o
    → Holds P (if b then none else o)
Holds-if P true o h = tt
Holds-if P false o h = h

module _ (P : Engine → Type 0)
    (in_starts : (ev : StartEvent) (e : Engine) → P e → Holds P (start_step ev e))
    (in_goroutines : (ev : GoroutineEvent) (e : Engine) → P e → Holds P (goroutine_step ev e))
    (in_shutdowns : (ev : ShutdownEvent) (e : Engine) → P e → Holds P (shutdown_step ev e)) where
  act-Holds : (ev : Event) (e : Engine) → P e → Holds P (act ev e)
  unfolding act
  act-Holds (in_start ev) e h = in_starts ev e h
  act-Holds (in_goroutine ev) e h = in_goroutines ev e h
  act-Holds (in_shutdown ev) e h = in_shutdowns ev e h

  -- What every event keeps holds of whatever is reached.
  pub Reach-keeps : {s u : Engine} → P s → Reach s u → P u
  unfolding step
  Reach-keeps h here = h
  Reach-keeps h (next {t} {u} ev r eq) =
      Holds-some P (step ev t) u
        (Holds-if P (t.crashed || t.exited) (act ev t) (act-Holds ev t (Reach-keeps h r))) eq
