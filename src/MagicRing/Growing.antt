-- ===== src/MagicRing/Growing.antt =====
-- `Grow` moves the bytes of a ring to a larger memory.
use mathlib.Core.Path.{subst}
use gain.Base.{ℕ, ◌+◌, ◌%◌, ◌≡◌, ◌≤◌, ◌<◌, ◌≢◌, refl, ap, sym, ◌∙◌, true, false, arith}
use gain.Base.{
  List, length, ltb, ◌==◌, if◌then◌else◌, Bool-cases, inl, inr, ret, ◌>>=◌, Returns->>=, Returns,
  Option,
}
use gain.Errors.{Error}
use gain.VirtualMem.{VirtualMem, bytes, copy_all, double_size, adjust_buffer_size}
use gain.VirtualMem.Laws.{
  IsMapped, bytes-copy_all, copy_all-IsMapped, size-copy_all, adjust_buffer_size_lem,
}
use gain.VirtualMem.Pool
use gain.VirtualMem.Pool.{Pool}
use gain.VirtualMem.Laws.{adjust_buffer_size_twice}
use gain.VirtualMem.{new_virtual_mem}
use gain.Base.{none}
use gain.VirtualMem.Pool.Classes.{get-none, IsStocked, IsUsable, get-IsUsable, put-IsStocked}
use gain.MagicRing.{RingBuffer, buffered, read, release, grown, grow}
use gain.MagicRing.Bounds.{IsValid, buffered-pos}
use gain.MagicRing.Contents.{contents, length-contents}
use gain.MagicRing.Reading.{read-empty, read-some, slice-ret, size_pos}
use gain.MagicRing.Looking.{contents-empty}

module _ (page : ℕ) where
  -- A ring of whole pages beside a pool in good order.
  pub record IsSound (rb : RingBuffer) (p : Pool) : Type 0 where
    pub valid : IsValid rb
    pub stocked : IsStocked page p
    pub pages : rb.size % page ≡ 0

  -- The pool gives a memory of exactly the size asked for.
  abbrev pub GivesExact : Pool → ℕ → Option ℕ → Type 0
  GivesExact p size choice =
      (Pool.get page p (adjust_buffer_size page size) choice).0.size ≡ adjust_buffer_size page size

  -- What a growth keeps, and what it gives.
  pub record Grew (rb : RingBuffer) (new_cap : ℕ) (rb' : RingBuffer) (p' : Pool) : Type 0 where
    pub sound : IsSound rb' p'
    pub kept : contents rb' ≡ contents rb
    pub size : rb'.size ≡ adjust_buffer_size page new_cap

  grown-IsValid :
      (rb : RingBuffer) (vm : VirtualMem) (got : List ℕ) (err : Option Error) (drained : RingBuffer)
      → IsMapped vm
      → buffered rb < vm.size
      → (buffered rb ≡ 0 → drained.empty ≡ true)
      → IsValid (grown page rb vm vm.size (got, err, drained))
  grown-IsValid rb vm got err drained m h e = record {
    mapped = copy_all-IsMapped got vm 0 m;
    exact = size-copy_all got vm 0;
    r_in = omega arith;
    w_in = omega arith;
    at_start = ground arith;
    no_memory = λ z. absurd (omega arith);
  }

  buffered-grown :
      (rb : RingBuffer) (vm : VirtualMem) (got : List ℕ) (err : Option Error) (drained : RingBuffer)
      → buffered rb < vm.size
      → (buffered rb ≡ 0 → drained.empty ≡ true)
      → buffered (grown page rb vm vm.size (got, err, drained)) ≡ buffered rb
  buffered-grown rb vm got err drained h e = go (buffered rb) h e
    where
      go :
          (n : ℕ)
          → n < vm.size
          → (n ≡ 0 → drained.empty ≡ true)
          → buffered (record {
            vm = copy_all vm 0 got;
            size = vm.size;
            r = 0;
            w = n;
            empty = if ltb 0 n then false else drained.empty;
          })
            ≡ n
      go n h e = unfold buffered in (ground arith)

  contents-grown :
      (rb : RingBuffer) (vm : VirtualMem) (err : Option Error) (drained : RingBuffer)
      → IsMapped vm
      → buffered rb < vm.size
      → (buffered rb ≡ 0 → drained.empty ≡ true)
      → contents (grown page rb vm vm.size (contents rb, err, drained)) ≡ contents rb
  contents-grown rb vm err drained m h e =
      ap (bytes (copy_all vm 0 (contents rb)) 0) all
      ∙ bytes-copy_all (contents rb) vm 0 0 0 m (omega (arith, length-contents rb)) refl
    where
      all :
          buffered (grown page rb vm vm.size (contents rb, err, drained)) ≡ 0 + length (contents rb)
      all = buffered-grown rb vm (contents rb) err drained h e ∙ omega (arith, length-contents rb)

  -- What `Grow` reads into the new memory: all bytes, and the old ring is empty then.
  drained_all :
      (rb : RingBuffer) (n : ℕ)
      → IsValid rb
      → 0 < n
      → buffered rb ≤ n
      → Returns
          (read rb n)
          (λ (got, err, drained). (got ≡ contents rb) × (buffered rb ≡ 0 → drained.empty ≡ true))
  drained_all rb n v pos le = elim (Bool-cases rb.empty) [
    | inl e ↦ rw (read-empty rb n (omega arith) e) (sym (contents-empty v e), λ _. e)
    | inr e ↦
        rw
          (
            read-some rb n (omega arith) e,
            slice-ret rb (if ltb n (buffered rb) then n else buffered rb) v (size_pos rb v e)
                (ground arith),
          )
          (
            ap (bytes rb.vm rb.r) {y = buffered rb} (ground arith),
            λ z. absurd (omega (arith, buffered-pos v e)),
          )
  ]

  module _ (rb : RingBuffer) (p : Pool) (new_cap : ℕ) (choice : Option ℕ) where
    abbrev new_buf : VirtualMem
    new_buf = (Pool.get page p (adjust_buffer_size page new_cap) choice).0

    abbrev rest_pool : Pool
    rest_pool = (Pool.get page p (adjust_buffer_size page new_cap) choice).1

    grow-step :
        new_buf.size ≢ 0
        → grow page rb p new_cap choice ≡ (
            read rb (double_size new_buf.size) >>= λ res. ret (
              grown page rb new_buf (adjust_buffer_size page new_cap) res,
              release page rb rest_pool,
            ))
    unfolding grow
    grow-step h = let e : (new_buf.size == 0) ≡ false = ground arith in rw (e, grow)

    grew_lem :
        (got : List ℕ) (err : Option Error) (drained : RingBuffer) (p' : Pool)
        → IsUsable page (adjust_buffer_size page new_cap) new_buf
        → IsValid rb
        → got ≡ contents rb
        → buffered rb < new_buf.size
        → (buffered rb ≡ 0 → drained.empty ≡ true)
        → GivesExact p new_cap choice
        → IsStocked page p'
        → Grew rb new_cap
            (grown page rb new_buf (adjust_buffer_size page new_cap) (got, err, drained))
            p'
    grew_lem got err drained p' u v same more none_left exact stocked = record {
      sound = record {
        valid =
            subst (λ c. IsValid (grown page rb new_buf c (got, err, drained))) exact
              (grown-IsValid rb new_buf got err drained u.mapped more none_left);
        stocked = stocked;
        pages = subst (λ c. c % page ≡ 0) exact u.pages;
      };
      kept =
          ap
            (λ g.
              contents (grown page rb new_buf (adjust_buffer_size page new_cap) (g, err, drained)))
            same
          ∙ subst
              (λ c. contents (grown page rb new_buf c (contents rb, err, drained)) ≡ contents rb)
              exact (contents-grown rb new_buf err drained u.mapped more none_left);
      size = refl;
    }

    release-IsStocked :
        0 < page
        → IsSound rb p
        → IsStocked page rest_pool
        → IsStocked page (release page rb rest_pool)
    release-IsStocked pos s stocked = elim (Bool-cases (rb.vm.size == 0)) [
      | inl e ↦ rw e stocked
      | inr e ↦ rw e (
          put-IsStocked page rest_pool rb.vm pos s.valid.mapped
            (ap (λ c. c % page) s.valid.exact ∙ s.pages) stocked)
    ]

    -- For a positive page size `Grow` of a ring in good order to more than is buffered keeps the
    -- bytes in order and leaves ring and pool in good order, if the pool gives a memory of exactly
    -- the size asked for.
    pub grow_refines :
        0 < page
        → IsSound rb p
        → buffered rb < new_cap
        → GivesExact p new_cap choice
        → Returns (grow page rb p new_cap choice) (λ (rb', p'). Grew rb new_cap rb' p')
    grow_refines pos s more exact = rw (grow-step (omega (arith, larger))) (
        Returns->>=
          (λ (got, err, drained). (got ≡ contents rb) × (buffered rb ≡ 0 → drained.empty ≡ true))
          (λ (rb', p'). Grew rb new_cap rb' p') (read rb (double_size new_buf.size))
          (λ res. ret (
            grown page rb new_buf (adjust_buffer_size page new_cap) res,
            release page rb rest_pool,
          ))
          (drained_all rb (double_size new_buf.size) s.valid (omega (arith, larger))
            (omega (arith, larger)))
          (λ (got, err, drained) h.
            grew_lem got err drained (release page rb rest_pool) usable.0 s.valid h.0 larger h.1
              exact (release-IsStocked pos s usable.1)))
      where
        rounded : new_cap ≤ adjust_buffer_size page new_cap
        rounded = (adjust_buffer_size_lem page new_cap pos).0

        larger : buffered rb < new_buf.size
        larger = omega (arith, rounded)

        usable : IsUsable page (adjust_buffer_size page new_cap) new_buf × IsStocked page rest_pool
        usable =
            get-IsUsable page p (adjust_buffer_size page new_cap) choice pos
              (omega (arith, rounded)) s.stocked

  -- A new memory has exactly the size asked for.
  pub GivesExact-none : (p : Pool) (n : ℕ) → 0 < page → 0 < n → GivesExact p n none
  unfolding new_virtual_mem
  GivesExact-none p n pos some_bytes =
      ap (λ vm. vm.size)
        (get-none page p (adjust_buffer_size page n)
          (omega (arith, adjust_buffer_size_lem page n pos)))
      ∙ adjust_buffer_size_twice page n pos
