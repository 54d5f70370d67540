-- ===== src/Stack.antt =====
-- pkg/stack/stack_lf.go: the lock-free stack, each atomic access of a thread one step.
pub mod Chains
pub mod Frames
pub mod Labels
pub mod Steps
pub mod Arguments
pub mod Refinement
mod Tests
use gain.Base.{ℕ, ◌+◌, ◌-◌, ◌%◌, ◌^◌, Bool, true, false, Option, none, some}
use gain.Base.{if◌then◌else◌, ◌==◌}

pub record Node (A : Type 0) : Type 0 where
  pub value : A
  pub next : Option ℕ

-- Where a thread stands: outside a call, or in `Push` or `Pop` with what it holds in its variables.
-- Pointers are addresses, nil is `none`. The value of `pop_swapped` is that of the node when it was
-- taken off; the code reads it later.
pub data Pc (A : Type 0) : Type 0 where
  idle : Pc A
  push_begin : ℕ → Pc A
  push_loaded : ℕ → Option ℕ → Pc A
  push_linked : ℕ → Option ℕ → Pc A
  push_swapped : Pc A
  pop_begin : Pc A
  pop_loaded : ℕ → Pc A
  pop_read : ℕ → Option ℕ → Pc A
  pop_swapped : ℕ → A → Pc A
  pushed : Pc A
  popped : A → Pc A

-- The stack with the memory of its nodes, which is not reused while a thread holds its address.
-- `published`, `owner` and the counts of swaps are kept for the proofs.
pub record Machine (A : Type 0) : Type 0 where
  pub top : Option ℕ
  pub len : ℕ
  pub nodes : ℕ → Node A
  pub allocated : ℕ
  pub threads : ℕ → Pc A
  pub published : ℕ → Bool
  pub owner : ℕ → ℕ
  pub pushes : ℕ
  pub pops : ℕ
  pub increments : ℕ
  pub decrements : ℕ

abbrev pub put_at {ℓ} : {B : Type ℓ} → (ℕ → B) → ℕ → B → ℕ → B
put_at f i b j = if i == j then b else f j

abbrev pub same : Option ℕ → Option ℕ → Bool
same none none = true
same none (some b) = false
same (some a) none = false
same (some a) (some b) = a == b

abbrev pub u64 : ℕ
u64 = 2 ^ 64

module _ {A : Type 0} where
  abbrev pub goto : ℕ → Pc A → Machine A → Machine A
  goto t pc m = record m { threads = put_at m.threads t pc }

  -- `NewLockFreeStack`; the memory holds nothing that is read.
  pub new_stack : Node A → Machine A
  new_stack blank = record {
    top = none;
    len = 0;
    nodes = λ _. blank;
    allocated = 0;
    threads = λ _. idle;
    published = λ _. false;
    owner = λ _. 0;
    pushes = 0;
    pops = 0;
    increments = 0;
    decrements = 0;
  }

  -- `Push` allocates its node.
  pub call_push : ℕ → A → Machine A → Machine A
  call_push t v m = goto t (push_begin m.allocated) (record m {
    nodes = put_at m.nodes m.allocated (record { value = v; next = none });
    owner = put_at m.owner m.allocated t;
    published = put_at m.published m.allocated false;
    allocated = m.allocated + 1;
  })

  pub call_pop : ℕ → Machine A → Machine A
  call_pop t m = goto t pop_begin m

  abbrev pub link : ℕ → Option ℕ → Machine A → Machine A
  link a top m = record m { nodes = put_at m.nodes a (record (m.nodes a) { next = top }) }

  -- `CompareAndSwapPointer(&s.top, top, &item)` has succeeded.
  abbrev pub publish : ℕ → Machine A → Machine A
  publish a m = record m {
    top = some a;
    published = put_at m.published a true;
    pushes = m.pushes + 1;
  }

  abbrev pub take_off : Option ℕ → Machine A → Machine A
  take_off n m = record m { top = n; pops = m.pops + 1 }

  abbrev pub load_top : ℕ → A → Option ℕ → Machine A → Machine A
  load_top t zero_value none m = goto t (popped zero_value) m
  load_top t zero_value (some a) m = goto t (pop_loaded a) m

  -- One step of thread `t`; `zero_value` is what `getZero` returns.
  pub advance : A → ℕ → Pc A → Machine A → Machine A
  advance zero_value t idle m = m
  advance zero_value t (push_begin a) m = goto t (push_loaded a m.top) m
  advance zero_value t (push_loaded a top) m = goto t (push_linked a top) (link a top m)
  advance zero_value t (push_linked a top) m =
      if same m.top top then goto t push_swapped (publish a m) else goto t (push_begin a) m
  advance zero_value t push_swapped m =
      goto t pushed (record m { len = (m.len + 1) % u64; increments = m.increments + 1 })
  advance zero_value t pop_begin m = load_top t zero_value m.top m
  advance zero_value t (pop_loaded a) m = goto t (pop_read a (m.nodes a).next) m
  advance zero_value t (pop_read a n) m =
      if same m.top (some a)
      then goto t (pop_swapped a (m.nodes a).value) (take_off n m)
      else goto t pop_begin m
  advance zero_value t (pop_swapped a v) m =
      goto t (popped (m.nodes a).value)
        (record m { len = (m.len + (u64 - 1)) % u64; decrements = m.decrements + 1 })
  advance zero_value t pushed m = m
  advance zero_value t (popped v) m = m

  pub step : A → ℕ → Machine A → Machine A
  step zero_value t m = advance zero_value t (m.threads t) m
