-- ===== src/Shutdowner/Tests.antt =====
-- A shutdown of a worker that is a number.
use gain.Base.{ℕ}
use gain.Shutdowner.{Looped, new_shutdowner}

abbrev fresh : Looped ℕ
fresh = new_shutdowner 7
