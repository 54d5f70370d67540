-- ===== src/Buffer.antt =====
-- What a connection uses of its two buffers. A buffer carries the memory pool that it grows from, so
-- an operation gives the next state of both at once; Buffer/Ring fills the interface with the ring.
pub mod Ring
use gain.Base.{ℕ, ◌≡◌, ◌≤◌, List, [], ◌++◌, Option, Outcome, Returns, length, drop}
use gain.Errors.{Error}

abbrev pub Chunk : Type 0
Chunk = List ℕ × Option Error

pub record Buffer (B : Type 0) : Type 1 where
  pub fresh : B
  pub cap : B → ℕ
  pub available : B → ℕ
  pub buffered : B → ℕ
  pub read : B → ℕ → Outcome (List ℕ × Option Error × B)
  pub next : B → ℕ → Outcome (List ℕ × Option Error × B)
  pub discard : B → ℕ → ℕ × B
  pub peek : B → ℕ → Outcome (List ℕ)
  pub write : B → List ℕ → Outcome (ℕ × B)
  pub read_from : B → List Chunk → Outcome (Option (ℕ × Option Error) × B)
  pub write_to : B → (List ℕ → ℕ × Option Error) → Outcome (ℕ × Option Error × B)
  pub make_room : B → Outcome B  -- GrowIfUnsufficientFreeSpace
  pub advance_write : B → ℕ → Outcome B
  pub advance_read : B → ℕ → Outcome B

-- The promises: the bytes in a buffer in good order, and what becomes of them.
pub record BufferLaws (B : Type 0) (buf : Buffer B) : Type 1 where
  pub IsGood : B → Type 0
  pub contents : B → List ℕ
  pub fresh-IsGood : IsGood buf.fresh
  pub contents-fresh : contents buf.fresh ≡ []
  pub buffered-contents : (b : B) → IsGood b → buf.buffered b ≡ length (contents b)
  pub write_appends :
      (b : B) (src : List ℕ)
      → IsGood b
      → Returns
          (buf.write b src)
          (λ (n, b'). (n ≡ length src) × (contents b' ≡ contents b ++ src) × IsGood b')
  pub make_room_keeps :
      (b : B) → IsGood b → Returns (buf.make_room b) (λ b'. (contents b' ≡ contents b) × IsGood b')
  pub advance_read_drops :
      (b : B) (n : ℕ)
      → IsGood b
      → n ≤ buf.buffered b
      → Returns (buf.advance_read b n) (λ b'. (contents b' ≡ drop n (contents b)) × IsGood b')
