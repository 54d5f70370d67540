-- ===== src/KeyPool.antt =====
-- key_pool.go: the keys of connections. A stack of free keys answers first; 0 from it means none.
pub mod Fresh
mod Tests
use gain.Base.{ℕ, ◌+◌, List, [], ◌∷◌, ◌==◌, if◌then◌else◌}

pub record KeyPool : Type 0 where
  pub stack : List ℕ
  pub next_key : ℕ

abbrev pub first_free_key : ℕ
first_free_key = 2

-- `Pop` of the stack: the zero value where it is empty.
abbrev pub pop : List ℕ → ℕ × List ℕ
pop [] = (0, [])
pop (k ∷ ks) = (k, ks)

pub get : KeyPool → ℕ × KeyPool
get p =
    let (key, rest) = pop p.stack in
    if key == 0
    then (p.next_key, record { stack = rest; next_key = p.next_key + 1 })
    else (key, record { stack = rest; next_key = p.next_key })

unfoldable pub put : KeyPool → ℕ → KeyPool
put p key = record p { stack = key ∷ p.stack }

pub new_key_pool : KeyPool
new_key_pool = record { stack = []; next_key = first_free_key }
