-- ===== src/Submitter/Tests.antt =====
-- The submitter that waits for 64, after a time limit and after 100 completions.
use gain.Base.{refl, arith, Returns}
use gain.Submitter.{Submitter, advance, wait_for_array}
use gain.Submitter.Adapting.{IsMatched, Fits, advance-many}

abbrev third : Submitter
third = record { wait_for_index = 2; wait_for = 64 }

third-IsMatched : IsMatched third
unfolding IsMatched
third-IsMatched = refl

advance-many_example :
    Returns (advance third 100) (λ s'. IsMatched s' × Fits wait_for_array 100 s'.wait_for_index)
advance-many_example = advance-many third 100 (omega arith)
