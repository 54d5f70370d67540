-- ===== src/ByteQueue.antt =====
-- What a ring promises: a queue of bytes, oldest first, that is never full.
use gain.Base.{ℕ, List, [], ◌∷◌, Option, none, some, take, drop, length, ltb, ◌==◌, if◌then◌else◌}
use gain.Errors.{Error, is_empty, short_buffer}

abbrev pub ByteQueue : Type 0
ByteQueue = List ℕ

abbrev pub read_items : ByteQueue → ℕ → List ℕ × Option Error × ByteQueue
read_items [] n = ([], some is_empty, [])
read_items (b ∷ q) n = (take n (b ∷ q), none, drop n (b ∷ q))

-- At most `n` bytes; an empty queue is an error unless nothing is asked for.
abbrev pub read : ByteQueue → ℕ → List ℕ × Option Error × ByteQueue
read q n = if n == 0 then ([], none, q) else read_items q n

-- Exactly `n` bytes, all of them for 0.
abbrev pub next : ByteQueue → ℕ → List ℕ × Option Error × ByteQueue
next q n =
    if ltb (length q) n
    then ([], some short_buffer, q)
    else if n == 0
    then (q, none, [])
    else (take n q, none, drop n q)

abbrev pub peek : ByteQueue → ℕ → List ℕ
peek q n = if n == 0 then q else take n q

abbrev pub read_byte : ByteQueue → ℕ × Option Error × ByteQueue
read_byte [] = (0, some is_empty, [])
read_byte (b ∷ q) = (b, none, q)
