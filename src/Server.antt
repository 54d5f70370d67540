-- ===== src/Server.antt =====
-- server.go: the engine's state, the calls of its users and its goroutines, as a step relation.
pub mod Reach
pub mod Goroutines
pub mod Failed
pub mod Alone
pub mod Shutdown
pub mod Hanging
mod Tests
use gain.Base.{ℕ, ◌+◌, ◌-◌, ◌≡◌, Bool, true, false, Option, none, some, ◌||◌, ◌&&◌}
use gain.Base.{if◌then◌else◌, ltb}
use gain.Errors.{Error, invalid_state, server_already_running}

pub data Phase : Type 0 where
  inactive : Phase
  starting : Phase
  running : Phase
  closing : Phase

pub data CloseSignal : Type 0 where
  system : CloseSignal
  user : CloseSignal

abbrev pub is_inactive : Phase → Bool
is_inactive inactive = true
is_inactive starting = false
is_inactive running = false
is_inactive closing = false

abbrev pub is_running : Phase → Bool
is_running inactive = false
is_running starting = false
is_running running = true
is_running closing = false

-- The engine, and how many calls and goroutines stand at each point of the code. Calls at one point
-- differ in nothing that the code reads, so their number is all of them.
pub record Engine : Type 0 where
  pub state : Phase
  -- `e.closer` has been set.
  pub has_closer : Bool
  -- Calls of `start`: behind the guard, behind `Store(starting)`, behind the closer goroutine's start,
  -- behind the setting of `e.closer`, and behind `Store(running)`.
  pub loaded : ℕ
  pub loaded_main : ℕ
  pub stored : ℕ
  pub stored_main : ℕ
  pub preparing : ℕ
  pub launching : ℕ
  pub serving : ℕ
  -- Goroutines of the operating system's signals: before `<-sigs`, and sending on `closeChan`.
  pub signals : ℕ
  pub signalled : ℕ
  -- Closer goroutines: before `<-closeChan`, in `e.closer()`, and sending on `closeBackChan`.
  pub waiting : ℕ
  pub closing_user : ℕ
  pub closing_system : ℕ
  pub returning_user : ℕ
  pub returning_system : ℕ
  -- Calls of `Shutdown` and `AsyncShutdown`: behind the guard, sending, and before `<-closeBackChan`.
  pub shutting : ℕ
  pub shutting_async : ℕ
  pub sending : ℕ
  pub sending_async : ℕ
  pub awaiting : ℕ
  -- Closer goroutines in an `e.closer()` that waits for good.
  pub hung : ℕ
  -- The loop of a worker that `e.closer` closes has ended unasked: `shutdown` of it, and with it
  -- `e.closer()`, waits for good (shutdown.go).
  pub ended : Bool
  -- A nil `closer` was called; `os.Exit` was called.
  pub crashed : Bool
  pub exited : Bool
  -- Counts that the code does not keep: closer goroutines started, `Shutdown` calls that waited and
  -- returned, `AsyncShutdown` calls that sent, signals received.
  pub spawned : ℕ
  pub finished : ℕ
  pub asyncs : ℕ
  pub received : ℕ

-- `NewServer`
pub new_server : Engine
new_server = record {
  state = inactive;
  has_closer = false;
  loaded = 0;
  loaded_main = 0;
  stored = 0;
  stored_main = 0;
  preparing = 0;
  launching = 0;
  serving = 0;
  signals = 0;
  signalled = 0;
  waiting = 0;
  closing_user = 0;
  closing_system = 0;
  returning_user = 0;
  returning_system = 0;
  shutting = 0;
  shutting_async = 0;
  sending = 0;
  sending_async = 0;
  awaiting = 0;
  hung = 0;
  ended = false;
  crashed = false;
  exited = false;
  spawned = 0;
  finished = 0;
  asyncs = 0;
  received = 0;
}

pub is_running_server : Engine → Bool
is_running_server e = is_running e.state

-- The error that a call of `Start` or `StartAsMainProcess` returns at once, from the two loads.
pub start_guard : Phase → Phase → Option Error
start_guard first second =
    if is_running first
    then some server_already_running
    else if is_inactive second
    then none
    else some invalid_state

-- One event moves one call or goroutine on. The Bool of a start is `mainProcess`.
pub data StartEvent : Type 0 where
  load : Bool → StartEvent
  store : Bool → StartEvent
  probe_fails : Bool → StartEvent
  probe_succeeds : Bool → StartEvent
  prepare_fails : StartEvent
  set_closer : StartEvent
  set_running : StartEvent
  serve_ends : StartEvent

pub data GoroutineEvent : Type 0 where
  signal : GoroutineEvent
  receive_signal : GoroutineEvent
  receive_shutdown : GoroutineEvent
  receive_async : GoroutineEvent
  worker_ends : GoroutineEvent
  closer_hangs : CloseSignal → GoroutineEvent
  closer_returns : CloseSignal → GoroutineEvent
  send_back : CloseSignal → GoroutineEvent

pub data ShutdownEvent : Type 0 where
  shutdown_load : ShutdownEvent
  shutdown_store : ShutdownEvent
  async_load : ShutdownEvent
  async_store : ShutdownEvent

pub data Event : Type 0 where
  in_start : StartEvent → Event
  in_goroutine : GoroutineEvent → Event
  in_shutdown : ShutdownEvent → Event

abbrev pub when : Bool → Engine → Option Engine
when b e = if b then some e else none

-- The closer goroutine has received a signal: it calls `e.closer`, which does not return where a
-- worker has ended before.
abbrev pub call_closer : CloseSignal → Engine → Engine
call_closer system e =
    if e.has_closer
    then (if e.ended
        then record e { waiting = e.waiting - 1; hung = e.hung + 1 }
        else record e { waiting = e.waiting - 1; closing_system = e.closing_system + 1 })
    else record e { waiting = e.waiting - 1; crashed = true }
call_closer user e =
    if e.has_closer
    then (if e.ended
        then record e { waiting = e.waiting - 1; hung = e.hung + 1 }
        else record e { waiting = e.waiting - 1; closing_user = e.closing_user + 1 })
    else record e { waiting = e.waiting - 1; crashed = true }

-- `start`
pub start_step : StartEvent → Engine → Option Engine
start_step (load true) e = when (is_inactive e.state) (record e { loaded_main = e.loaded_main + 1 })
start_step (load false) e = when (is_inactive e.state) (record e { loaded = e.loaded + 1 })
start_step (store true) e = when (ltb 0 e.loaded_main) (record e {
  state = starting;
  loaded_main = e.loaded_main - 1;
  stored_main = e.stored_main + 1;
})
start_step (store false) e =
    when (ltb 0 e.loaded)
      (record e { state = starting; loaded = e.loaded - 1; stored = e.stored + 1 })
start_step (probe_fails true) e =
    when (ltb 0 e.stored_main) (record e { stored_main = e.stored_main - 1 })
start_step (probe_fails false) e = when (ltb 0 e.stored) (record e { stored = e.stored - 1 })
start_step (probe_succeeds true) e = when (ltb 0 e.stored_main) (record e {
  stored_main = e.stored_main - 1;
  signals = e.signals + 1;
  waiting = e.waiting + 1;
  preparing = e.preparing + 1;
  spawned = e.spawned + 1;
})
start_step (probe_succeeds false) e = when (ltb 0 e.stored) (record e {
  stored = e.stored - 1;
  waiting = e.waiting + 1;
  preparing = e.preparing + 1;
  spawned = e.spawned + 1;
})
start_step prepare_fails e = when (ltb 0 e.preparing) (record e { preparing = e.preparing - 1 })
start_step set_closer e = when (ltb 0 e.preparing) (record e {
  preparing = e.preparing - 1;
  launching = e.launching + 1;
  has_closer = true;
  ended = false;
})
start_step set_running e =
    when (ltb 0 e.launching)
      (record e { state = running; launching = e.launching - 1; serving = e.serving + 1 })
start_step serve_ends e = when (ltb 0 e.serving) (record e { serving = e.serving - 1 })

-- The goroutines that `start` leaves behind. A worker that ends while the closer is at work keeps the
-- closer for good, unless it had been asked by then. Both channels have no buffer, so that a send and its
-- receive are one event.
pub goroutine_step : GoroutineEvent → Engine → Option Engine
goroutine_step signal e =
    when (ltb 0 e.signals) (record e { signals = e.signals - 1; signalled = e.signalled + 1 })
goroutine_step receive_signal e =
    when (ltb 0 e.signalled && ltb 0 e.waiting)
      (call_closer system (record e { signalled = e.signalled - 1; received = e.received + 1 }))
goroutine_step receive_shutdown e =
    when (ltb 0 e.sending && ltb 0 e.waiting)
      (call_closer user (record e { sending = e.sending - 1; awaiting = e.awaiting + 1 }))
goroutine_step receive_async e =
    when (ltb 0 e.sending_async && ltb 0 e.waiting)
      (call_closer user (record e { sending_async = e.sending_async - 1; asyncs = e.asyncs + 1 }))
goroutine_step worker_ends e = when e.has_closer (record e { ended = true })
goroutine_step (closer_hangs user) e =
    when (e.ended && ltb 0 e.closing_user)
      (record e { closing_user = e.closing_user - 1; hung = e.hung + 1 })
goroutine_step (closer_hangs system) e =
    when (e.ended && ltb 0 e.closing_system)
      (record e { closing_system = e.closing_system - 1; hung = e.hung + 1 })
goroutine_step (closer_returns user) e = when (ltb 0 e.closing_user) (record e {
  state = inactive;
  closing_user = e.closing_user - 1;
  returning_user = e.returning_user + 1;
})
goroutine_step (closer_returns system) e = when (ltb 0 e.closing_system) (record e {
  state = inactive;
  closing_system = e.closing_system - 1;
  returning_system = e.returning_system + 1;
})
goroutine_step (send_back user) e = when (ltb 0 e.returning_user && ltb 0 e.awaiting) (record e {
  returning_user = e.returning_user - 1;
  awaiting = e.awaiting - 1;
  finished = e.finished + 1;
})
goroutine_step (send_back system) e =
    when (ltb 0 e.returning_system && ltb 0 e.awaiting) (record e {
      returning_system = e.returning_system - 1;
      awaiting = e.awaiting - 1;
      finished = e.finished + 1;
      exited = true;
    })

-- `Shutdown` and `AsyncShutdown`
pub shutdown_step : ShutdownEvent → Engine → Option Engine
shutdown_step shutdown_load e = when (is_running e.state) (record e { shutting = e.shutting + 1 })
shutdown_step shutdown_store e =
    when (ltb 0 e.shutting)
      (record e { state = closing; shutting = e.shutting - 1; sending = e.sending + 1 })
shutdown_step async_load e =
    when (is_running e.state) (record e { shutting_async = e.shutting_async + 1 })
shutdown_step async_store e = when (ltb 0 e.shutting_async) (record e {
  state = closing;
  shutting_async = e.shutting_async - 1;
  sending_async = e.sending_async + 1;
})

pub act : Event → Engine → Option Engine
act (in_start ev) e = start_step ev e
act (in_goroutine ev) e = goroutine_step ev e
act (in_shutdown ev) e = shutdown_step ev e

-- The process ends with a panic or with `os.Exit`.
pub step : Event → Engine → Option Engine
step ev e = if e.crashed || e.exited then none else act ev e
