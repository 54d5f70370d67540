-- ===== src/Looper.antt =====
-- looper.go: the loop of a worker over the completions of its ring.
pub mod Keeping
mod Tests
use gain.Base.{
  ℕ, ◌+◌, List, [], ◌∷◌, Bool, true, false, Option, none, some, Outcome, ret, ◌>>=◌, length,
}
use gain.Errors.{Error, skippable}
use gain.Submitter.{Submitter, Submitted, submit, advance}

-- What a worker gives the loop: whether to go on, what to do with a completion and behind a batch,
-- and whether all is done. A worker without a finisher or a condition gives `ret` and `false`.
pub record Handlers (S C : Type 0) : Type 0 where
  pub shutdown_handler : S → Bool × S
  pub process : S → C → Outcome (Option Error × S)
  pub finisher : S → Outcome S
  pub finished : S → Bool

-- What a turn of the loop meets: what other goroutines have done to the worker since, what the
-- submission gives, and the completions that `PeekBatchCQE` finds.
pub record Round (S C : Type 0) : Type 0 where
  pub others : S → S
  pub submitted : Submitted
  pub completions : List C

-- The loop is still running where the rounds end.
pub data Ended (S : Type 0) : Type 0 where
  running : S → Submitter → Ended S
  returned : Option Error → S → Submitter → Ended S

module _ {S C : Type 0} (h : Handlers S C) where
  -- The loop over a batch: the first error, and how many completions are given back.
  pub process_batch : ℕ → List C → S → Outcome (Option Error × ℕ × S)
  process_batch i [] s = ret (none, i, s)
  process_batch i (c ∷ cs) s = h.process s c >>= λ r. elim r.0 [
    | some err ↦ ret (some err, i + 1, r.1)
    | none ↦ process_batch (i + 1) cs r.1
  ]

  -- The loop's end of a turn: `again` is the next turn.
  abbrev pub finish : (S → Submitter → Outcome (Ended S)) → S → Submitter → Outcome (Ended S)
  finish again s sub = h.finisher s >>= λ s'. elim (h.finished s') [
    | true ↦ ret (returned none s' sub)
    | false ↦ again s' sub
  ]

  abbrev pub advance_after :
      (S → Submitter → Outcome (Ended S)) → Submitter → Option Error × ℕ × S → Outcome (Ended S)
  advance_after again sub (some err, n, s) =
      advance sub n >>= λ sub'. ret (returned (some err) s sub')
  advance_after again sub (none, n, s) = advance sub n >>= λ sub'. finish again s sub'

  abbrev pub handle_submitted :
      (S → Submitter → Outcome (Ended S))
      → List C
      → S
      → Option Error × Submitter
      → Outcome (Ended S)
  handle_submitted again cs s (none, sub) = process_batch 0 cs s >>= advance_after again sub
  handle_submitted again cs s (some skippable, sub) = finish again s sub
  handle_submitted again cs s (some err, sub) = ret (returned (some err) s sub)

  abbrev pub unless_shut :
      (S → Submitter → Outcome (Ended S)) → Round S C → Submitter → Bool × S → Outcome (Ended S)
  unless_shut again r sub (false, s) = ret (returned none s sub)
  unless_shut again r sub (true, s) =
      submit sub r.submitted >>= handle_submitted again r.completions s

  unfoldable pub inner_loop : List (Round S C) → S → Submitter → Outcome (Ended S)
  inner_loop [] s sub = ret (running s sub)
  inner_loop (r ∷ rs) s sub =
      unless_shut (λ s' sub'. inner_loop rs s' sub') r sub (h.shutdown_handler (r.others s))

  -- `startLoop`: the settings of priority and affinity may fail, and the preparation.
  pub start_loop :
      Option Error
      → (S → Outcome (Option Error × S))
      → List (Round S C)
      → S
      → Submitter
      → Outcome (Ended S)
  start_loop (some err) prepare rs s sub = ret (returned (some err) s sub)
  start_loop none prepare rs s sub = prepare s >>= λ (err, s'). elim err [
    | some e ↦ ret (returned (some e) s' sub)
    | none ↦ inner_loop rs s' sub
  ]
