-- ===== src/Launch/Tests.antt =====
-- A start of a reactor with three workers.
use gain.Base.{Option, if◌then◌else◌, ◌==◌, ℕ, arith, true, some, none, [], ◌∷◌}
use gain.Errors.{Error, getting_sqe}
use gain.Config.{Config, new_config, with_workers}
use gain.Buffer.Ring.{PooledRing}
use gain.Launch.{start_reactor}
use gain.Launch.Registering.{Gives, start_reactor-Gives}

abbrev three : Config
unfolding new_config with_workers
three = new_config 8 (with_workers 3 ∷ [])

-- The ring of the second consumer cannot be made.
abbrev second_fails : ℕ → Option Error
second_fails i = if i == 2 then some getting_sqe else none

start_reactor-Gives_example :
    Gives second_fails 3 (start_reactor {B = PooledRing} {Addr = ℕ} second_fails true three 5)
unfolding new_config with_workers
start_reactor-Gives_example =
    start_reactor-Gives PooledRing ℕ second_fails true three 5 (omega arith)

abbrev all_made : ℕ → Option Error
all_made i = none

three_wired : Gives all_made 3 (start_reactor {B = PooledRing} {Addr = ℕ} all_made true three 5)
unfolding new_config with_workers
three_wired = start_reactor-Gives PooledRing ℕ all_made true three 5 (omega arith)
