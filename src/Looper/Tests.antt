-- ===== src/Looper/Tests.antt =====
-- The loop over a worker that counts its completions and stops at the third, or at one of 0.
use gain.Base.{ℕ, ◌+◌, ◌≤◌, ◌≢◌, arith, List, [], ◌∷◌, true, refl, Safe, none, some, ret}
use gain.Base.{leb, ◌==◌, if◌then◌else◌, Bool-cases, inl, inr}
use gain.Errors.{Error, skippable, eof}
use gain.Submitter.{Submitter, submitted, interrupted}
use gain.Submitter.Adapting.{IsMatched}
use gain.Looper.{Handlers, Round, inner_loop}
use gain.Looper.Keeping.{Keeps, EndsWell, inner_loop-EndsWell}

abbrev counter : Handlers ℕ ℕ
counter = record {
  shutdown_handler = λ s. (true, s);
  process = λ s c. if c == 0 then ret (some eof, s) else ret (none, s + 1);
  finisher = λ s. ret s;
  finished = λ s. leb 3 s;
}

abbrev IsSmall : ℕ → Type 0
IsSmall s = 1 ≤ s

abbrev NotSkippable : Error → Type 0
NotSkippable e = e ≢ skippable

counter-Keeps : Keeps counter IsSmall NotSkippable
counter-Keeps = record {
  shutdown_keeps = λ s p. p;
  process_keeps = λ s c p. elim (Bool-cases (c == 0)) [
    | inl e ↦ rw e (p, λ h. cc)
    | inr e ↦ rw e (omega arith, tt)
  ];
  finisher_keeps = λ s p. p;
}

abbrev rounds : List (Round ℕ ℕ)
rounds =
    record { others = λ s. s; submitted = interrupted; completions = [] }
    ∷ record { others = λ s. s + 1; submitted = submitted; completions = 5 ∷ 0 ∷ 7 ∷ [] }
    ∷ []

abbrev waiting : Submitter
waiting = record { wait_for_index = 2; wait_for = 64 }

-- The loop ends well on these rounds: with a positive count and a matched submitter.
rounds-EndsWell : Safe (inner_loop counter rounds 1 waiting) (EndsWell counter IsSmall NotSkippable)
unfolding IsMatched
rounds-EndsWell =
    inner_loop-EndsWell counter IsSmall NotSkippable counter-Keeps rounds 1 waiting
      (((λ s p. p), tt), (((λ s p. omega arith), tt), tt)) (omega arith) refl
