-- ===== src/Looper/Keeping.antt =====
-- What the handlers keep, the loop keeps, and the errors that it can end with.
use gain.Base.{ℕ, ◌+◌, ◌≡◌, List, [], ◌∷◌, Bool, true, false, Option, none, some}
use gain.Base.{Outcome, ret, Safe, Safe->>=, Safe-Returns, Safe-both, Safe-weaken, sym}
use mathlib.Core.Path.{subst}
use gain.Errors.{Error, skippable}
use gain.Submitter.{Submitter, Submitted, submitted, interrupted, failed, submit, advance}
use gain.Submitter.Adapting.{IsMatched, submit-IsMatched, submit-skippable, advance-IsMatched}
use gain.Looper.{Handlers, Round, Ended, running, returned, process_batch, finish, advance_after}
use gain.Looper.{handle_submitted, unless_shut, inner_loop, start_loop}

-- Of an error, if there is one.
abbrev pub OnError : (Error → Type 0) → Option Error → Type 0
OnError E none = Unit
OnError E (some e) = E e

-- No condition on the errors.
abbrev pub AnyError : Error → Type 0
AnyError e = Unit

pub any_error : (e : Option Error) → OnError AnyError e
any_error none = tt
any_error (some e) = tt

abbrev pub OnFailed : (Error → Type 0) → Submitted → Type 0
OnFailed E submitted = Unit
OnFailed E interrupted = Unit
OnFailed E (failed e) = E e

module _ {S C : Type 0} (h : Handlers S C) (P : S → Type 0) (E : Error → Type 0) where
  -- Each handler keeps `P`, and a completion's error satisfies `E`.
  pub record Keeps : Type 0 where
    pub shutdown_keeps : (s : S) → P s → P (h.shutdown_handler s).1
    pub process_keeps : (s : S) (c : C) → P s → Safe (h.process s c) (λ r. P r.1 × OnError E r.0)
    pub finisher_keeps : (s : S) → P s → Safe (h.finisher s) P

  -- The other goroutines keep `P`, and a submission's error satisfies `E`.
  abbrev pub AllKeep : List (Round S C) → Type 0
  AllKeep [] = Unit
  AllKeep (r ∷ rs) = (((s : S) → P s → P (r.others s)) × OnFailed E r.submitted) × AllKeep rs

  -- Where the loop is or ends.
  abbrev pub EndsWell : Ended S → Type 0
  EndsWell (running s sub) = P s × IsMatched sub
  EndsWell (returned err s sub) = P s × IsMatched sub × OnError E err

  module _ (k : Keeps) where
    Batch : Option Error × ℕ × S → Type 0
    Batch (err, n, s) = P s × OnError E err

    process_batch-keeps : (i : ℕ) (cs : List C) (s : S) → P s → Safe (process_batch h i cs s) Batch
    unfolding process_batch Batch
    process_batch-keeps i [] s p = (p, tt)
    process_batch-keeps i (c ∷ cs) s p =
        Safe->>= (λ r. P r.1 × OnError E r.0) Batch (h.process s c) _ (k.process_keeps s c p)
          (λ r q. next r.0 r.1 q.0 q.1 (process_batch-keeps (i + 1) cs r.1 q.0))
      where
        next :
            (err : Option Error) (s' : S)
            → P s'
            → OnError E err
            → Safe (process_batch h (i + 1) cs s') Batch
            → Safe
                (elim err [
                  | some e ↦ ret (some e, i + 1, s')
                  | none ↦ process_batch h (i + 1) cs s'
                ])
                Batch
        next none s' p' e rest = rest
        next (some e) s' p' good rest = (p', good)

    abbrev Again : (S → Submitter → Outcome (Ended S)) → Type 0
    Again again = (s : S) (sub : Submitter) → P s → IsMatched sub → Safe (again s sub) EndsWell

    finish-keeps :
        (again : S → Submitter → Outcome (Ended S)) (s : S) (sub : Submitter)
        → Again again
        → P s
        → IsMatched sub
        → Safe (finish h again s sub) EndsWell
    finish-keeps again s sub ag p m =
        Safe->>= P EndsWell (h.finisher s) _ (k.finisher_keeps s p)
          (λ s' p'. ends (h.finished s') s' p')
      where
        ends :
            (b : Bool) (s' : S)
            → P s'
            → Safe (elim b [ true ↦ ret (returned none s' sub) | false ↦ again s' sub ]) EndsWell
        ends true s' p' = (p', m, tt)
        ends false s' p' = ag s' sub p' m

    advance_after-keeps :
        (again : S → Submitter → Outcome (Ended S)) (sub : Submitter) (b : Option Error × ℕ × S)
        → Again again
        → IsMatched sub
        → Batch b
        → Safe (advance_after h again sub b) EndsWell
    unfolding Batch
    advance_after-keeps again sub (some err, n, s) ag m (p, e) =
        Safe->>= IsMatched EndsWell (advance sub n) _
          (Safe-Returns IsMatched (advance sub n) (advance-IsMatched sub n m))
          (λ sub' m'. (p, m', e))
    advance_after-keeps again sub (none, n, s) ag m (p, e) =
        Safe->>= IsMatched EndsWell (advance sub n) _
          (Safe-Returns IsMatched (advance sub n) (advance-IsMatched sub n m))
          (λ sub' m'. finish-keeps again s sub' ag p m')

    abbrev Submission : Option Error × Submitter → Type 0
    Submission (none, sub) = IsMatched sub
    Submission (some skippable, sub) = IsMatched sub
    Submission (some e, sub) = IsMatched sub × E e

    failed-Submission :
        (e : Error) (sub : Submitter) → E e → IsMatched sub → Submission (some e, sub)
    failed-Submission skippable sub g m = m
    failed-Submission e sub g m = (m, g)

    handle_submitted-keeps :
        (again : S → Submitter → Outcome (Ended S)) (cs : List C) (s : S)
        (r : Option Error × Submitter)
        → Again again
        → P s
        → Submission r
        → Safe (handle_submitted h again cs s r) EndsWell
    handle_submitted-keeps again cs s (none, sub) ag p m =
        Safe->>= Batch EndsWell (process_batch h 0 cs s) (advance_after h again sub)
          (process_batch-keeps 0 cs s p) (λ b g. advance_after-keeps again sub b ag m g)
    handle_submitted-keeps again cs s (some skippable, sub) ag p m = finish-keeps again s sub ag p m
    handle_submitted-keeps again cs s (some e, sub) ag p (m, g) = (p, m, g)

    submit-Submission :
        (sub : Submitter) (o : Submitted)
        → OnFailed E o
        → IsMatched sub
        → Safe (submit sub o) Submission
    unfolding submit
    submit-Submission sub submitted g m = m
    submit-Submission sub interrupted g m =
        Safe-weaken (submit sub interrupted)
          (Safe-both (λ r. IsMatched r.1) (λ r. r.0 ≡ some skippable) (submit sub interrupted)
            (Safe-Returns (λ r. IsMatched r.1) (submit sub interrupted)
              (submit-IsMatched sub interrupted m))
            (submit-skippable sub))
          (λ (err, sub') (m', e). subst (λ x. Submission (x, sub')) (sym e) m')
    submit-Submission sub (failed e) g m = failed-Submission e sub g m

    unless_shut-keeps :
        (again : S → Submitter → Outcome (Ended S)) (r : Round S C) (sub : Submitter) (x : Bool × S)
        → Again again
        → OnFailed E r.submitted
        → P x.1
        → IsMatched sub
        → Safe (unless_shut h again r sub x) EndsWell
    unless_shut-keeps again r sub (false, s) ag g p m = (p, m, tt)
    unless_shut-keeps again r sub (true, s) ag g p m =
        Safe->>= Submission EndsWell (submit sub r.submitted)
          (handle_submitted h again r.completions s) (submit-Submission sub r.submitted g m)
          (λ x q. handle_submitted-keeps again r.completions s x ag p q)

    -- What the handlers and the other goroutines keep, the loop keeps; an error it ends with is an
    -- error of theirs, and the submitter stays matched.
    pub inner_loop-EndsWell :
        (rs : List (Round S C)) (s : S) (sub : Submitter)
        → AllKeep rs
        → P s
        → IsMatched sub
        → Safe (inner_loop h rs s sub) EndsWell
    unfolding inner_loop
    inner_loop-EndsWell [] s sub all p m = (p, m)
    inner_loop-EndsWell (r ∷ rs) s sub ((others, g), all) p m =
        unless_shut-keeps (λ s' sub'. inner_loop h rs s' sub') r sub
          (h.shutdown_handler (r.others s))
          (λ s' sub' p' m'. inner_loop-EndsWell rs s' sub' all p' m') g
          (k.shutdown_keeps (r.others s) (others s p)) m

    -- The same from the start of the loop, where what comes before the rounds keeps it.
    pub start_loop-EndsWell :
        (setup : Option Error) (prepare : S → Outcome (Option Error × S)) (rs : List (Round S C))
        (s : S) (sub : Submitter)
        → OnError E setup
        → Safe (prepare s) (λ r. P r.1 × OnError E r.0)
        → AllKeep rs
        → P s
        → IsMatched sub
        → Safe (start_loop h setup prepare rs s sub) EndsWell
    unfolding start_loop
    start_loop-EndsWell (some err) prepare rs s sub good prepared all p m = (p, m, good)
    start_loop-EndsWell none prepare rs s sub good prepared all p m =
        Safe->>= (λ r. P r.1 × OnError E r.0) EndsWell (prepare s) _ prepared
          (λ r q. by_error r.0 r.1 q.0 q.1)
      where
        by_error :
            (err : Option Error) (s' : S)
            → P s'
            → OnError E err
            → Safe
                (elim err [
                  | some e ↦ ret (returned (some e) s' sub)
                  | none ↦ inner_loop h rs s' sub
                ])
                EndsWell
        by_error none s' p' g = inner_loop-EndsWell rs s' sub all p' m
        by_error (some e) s' p' g = (p', m, g)
