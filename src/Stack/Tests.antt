-- ===== src/Stack/Tests.antt =====
-- The lock-free stack's theorems at a run of two threads.
use gain.Base.{ℕ, ◌≡◌, refl, List, [], ◌∷◌, none}
use gain.Stack.{put_at, Node, Machine, popped, advance, step, new_stack, call_push, call_pop}
use gain.Stack.Labels.{Label, push, internal, label, asked_label}
use gain.Stack.Refinement.{Trace, fresh, pushing, popping, stepping, IsRefined}
use gain.Stack.Refinement.{Trace-IsRefined, pop_swapped-popped}

abbrev blank : Node ℕ
blank = record { value = 0; next = none }

-- Thread 1 pushes 7, and has yet to count it.
abbrev pushed_seven : Machine ℕ
pushed_seven = step 0 1 (step 0 1 (step 0 1 (call_push 1 7 (new_stack blank))))

-- The loading, the linking, and the push at the compare-and-swap.
abbrev seven_labels : List (Label ℕ)
seven_labels = push 7 ∷ internal ∷ internal ∷ []

abbrev no_arguments : ℕ → ℕ
no_arguments _ = 0

pushing_seven : Trace 0 blank seven_labels (put_at no_arguments 1 7) pushed_seven
unfolding new_stack call_push step advance asked_label label
pushing_seven = stepping 1 (stepping 1 (stepping 1 (pushing 1 7 (fresh no_arguments) refl)))

-- Thread 2 takes it off.
abbrev taken_seven : Machine ℕ
taken_seven = step 0 2 (step 0 2 (step 0 2 (call_pop 2 pushed_seven)))

Trace-IsRefined_example : IsRefined 0 blank seven_labels (put_at no_arguments 1 7) pushed_seven
Trace-IsRefined_example = Trace-IsRefined 0 blank pushing_seven

pop_swapped-popped_example : (step 0 2 taken_seven).threads 2 ≡ popped 7
unfolding new_stack call_push call_pop step advance
pop_swapped-popped_example =
    pop_swapped-popped 0 blank 2 0 7
      (stepping 2 (stepping 2 (stepping 2 (popping 2 pushing_seven refl)))) refl
