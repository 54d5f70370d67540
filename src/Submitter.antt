-- ===== src/Submitter.antt =====
-- submitter_batch.go: how many completions the next submission waits for.
pub mod Adapting
mod Tests
use gain.Base.{ℕ, ◌+◌, ◌-◌, List, [], ◌∷◌, Option, none, some, ltb, ◌==◌, if◌then◌else◌}
use gain.Base.{Outcome, ret, panic, ◌>>=◌, get_elem?}
use gain.Errors.{Error, skippable}

abbrev pub wait_for_array : List ℕ
wait_for_array =
    1 ∷ 32 ∷ 64 ∷ 96 ∷ 128 ∷ 256 ∷ 384 ∷ 512 ∷ 768 ∷ 1024 ∷ 1536 ∷ 2048 ∷ 3072 ∷ 4096 ∷ 5120 ∷ 6144
    ∷ 7168 ∷ 8192 ∷ 10240 ∷ []

pub record Submitter : Type 0 where
  pub wait_for_index : ℕ
  pub wait_for : ℕ

-- What giouring's call gives: success, one of EAGAIN, EINTR and ETIME, or another error.
pub data Submitted : Type 0 where
  submitted interrupted : Submitted
  failed : Error → Submitted

-- `waitForArray[i]`
abbrev pub entry : ℕ → Outcome ℕ
entry i = elim (get_elem? wait_for_array i) [ none ↦ panic | some x ↦ ret x ]

abbrev set_index : ℕ → Outcome Submitter
set_index i = do x ← entry i; ret (record { wait_for_index = i; wait_for = x })

unfoldable pub submit : Submitter → Submitted → Outcome (Option Error × Submitter)
submit s submitted = ret (none, s)
submit s (failed e) = ret (some e, s)
submit s interrupted =
    if s.wait_for_index == 0
    then ret (some skippable, s)
    else (do s' ← set_index (s.wait_for_index - 1); ret (some skippable, s'))

-- The loop from `index` on over the rest of the array; `last` is the last index stored.
pub scan : ℕ → List ℕ → ℕ → ℕ → ℕ
scan index [] n last = last
scan index (x ∷ xs) n last =
    let rest = scan (index + 1) xs n index in if ltb n x then last else rest

abbrev pub behind_first : List ℕ → List ℕ
behind_first [] = []
behind_first (_ ∷ xs) = xs

pub advance : Submitter → ℕ → Outcome Submitter
advance s n = set_index (scan 1 (behind_first wait_for_array) n s.wait_for_index)

pub new_batch_submitter : Outcome Submitter
new_batch_submitter = set_index 0
