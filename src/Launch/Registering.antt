-- ===== src/Launch/Registering.antt =====
-- The consumers of a reactor, as its balancer knows them.
use mathlib.Core.Path.{subst}
use gain.Base.{
  ℕ, zero, suc, ◌+◌, ◌≡◌, ◌<◌, refl, sym, ap, ◌∙◌, arith, List, [], ◌∷◌, ◌++◌, Bool, some, none,
  inl, inr,
}
use gain.Base.{◌≤◌, length, length-append, get_elem?, get_elem?-snoc, Option}
use gain.LoadBalancer.{Balancer, Generic, round_robin, least_connections, source_ip_hash}
use gain.LoadBalancer.{create_load_balancer, created, register, register_generic}
use gain.Consumer.{Consumer}
use gain.Acceptor.{Acceptor, Handle, register_consumer, handles}
use gain.Config.{Config}
use gain.Errors.{Error}
use gain.Launch.{new_consumer, new_acceptor, register_all, start_reactor, with_balancer}

abbrev pub generic_of : Balancer Handle → Generic Handle
generic_of (round_robin g i) = g
generic_of (least_connections g) = g
generic_of (source_ip_hash g) = g

-- The `n` consumers are registered in their order: each handle has its place for number and address.
pub record IsWired {B Addr : Type 0} (n : ℕ) (a : Acceptor B Addr) : Type 0 where
  pub size : (generic_of a.balancer).size ≡ n
  pub handled : length (generic_of a.balancer).workers ≡ n
  pub placed :
      (i : ℕ) (h : Handle)
      → get_elem? (generic_of a.balancer).workers i ≡ some h
      → (h.id ≡ i) × (h.idx ≡ i)
  pub consumers : length a.consumers ≡ n

-- A balancer that knows no consumer.
IsFresh : Balancer Handle → Type 0
IsFresh b = generic_of b ≡ record { workers = []; size = 0 }

module _ {B Addr : Type 0} where
  generic_of-register :
      (ws : List (Consumer B Addr)) (b : Balancer Handle) (h : Handle)
      → generic_of (register (handles ws) b h) ≡ register_generic (handles ws) (generic_of b) h
  unfolding register
  generic_of-register ws (round_robin g i) h = refl
  generic_of-register ws (least_connections g) h = refl
  generic_of-register ws (source_ip_hash g) h = refl

  register_consumer-IsWired :
      (n : ℕ) (a : Acceptor B Addr) (w : Consumer B Addr)
      → IsWired n a
      → IsWired (n + 1) (register_consumer a w n)
  unfolding register_consumer
  register_consumer-IsWired n a w wired = record {
    size = ap (λ g. g.size) shape' ∙ ap (λ x. x + 1) wired.size;
    handled =
        ap (λ g. length g.workers) shape'
        ∙ length-append (generic_of a.balancer).workers (last ∷ [])
        ∙ ap (λ x. x + 1) wired.handled;
    placed = λ i h e.
        elim (get_elem?-snoc (generic_of a.balancer).workers last i h
          (subst (λ g. get_elem? g.workers i ≡ some h) shape' e)) [
            | inl old ↦ wired.placed i h old
            | inr new ↦ (
              ap (λ x. x.id) (sym new.1) ∙ sym wired.handled ∙ sym new.0,
              ap (λ x. x.idx) (sym new.1) ∙ wired.size ∙ sym wired.handled ∙ sym new.0,
            )
          ];
    consumers = length-append a.consumers (w ∷ []) ∙ ap (λ x. x + 1) wired.consumers;
  }
    where
      shape :
          generic_of (register (handles a.consumers) a.balancer (record { id = n; idx = 0 }))
          ≡ register_generic
              (handles a.consumers)
              (generic_of a.balancer)
              (record { id = n; idx = 0 })
      shape = generic_of-register a.consumers a.balancer (record { id = n; idx = 0 })

      last : Handle
      last = record { id = n; idx = (generic_of a.balancer).size }

      shape' :
          generic_of (register (handles a.consumers) a.balancer (record { id = n; idx = 0 }))
          ≡ record {
            workers = (generic_of a.balancer).workers ++ last ∷ [];
            size = (generic_of a.balancer).size + 1;
          }
      shape' = shape ∙ (unfold register_generic in refl)

  -- The acceptor with `n` consumers, or the error that the creation of one of the rings gave.
  pub Gives : (ℕ → Option Error) → ℕ → Option Error × Option (Acceptor B Addr) → Type 0
  Gives rings n (none, some a) = IsWired n a
  Gives rings n (some err, none) = (i : ℕ) × (i ≤ n) × (rings i ≡ some err)
  Gives rings n (none, none) = ⊥
  Gives rings n (some err, some a) = ⊥

  -- Whatever the creation of a ring gives, if what follows its success does.
  made-Gives :
      (rings : ℕ → Option Error) (i n : ℕ) (o : Option Error)
      (r : Option Error × Option (Acceptor B Addr))
      → rings i ≡ o
      → i ≤ n
      → Gives rings n r
      → Gives rings n (elim o [ some err ↦ (some err, none) | none ↦ r ])
  unfolding Gives
  made-Gives rings i n none r e le g = g
  made-Gives rings i n (some err) r e le g = (i, le, e)

  register_all-Gives :
      (rings : ℕ → Option Error) (rings_messaging : Bool) (left i : ℕ) (a : Acceptor B Addr)
      → IsWired i a
      → Gives rings (i + left) (register_all rings rings_messaging i left a)
  unfolding register_all Gives
  register_all-Gives rings rings_messaging zero i a wired =
      subst (λ n. IsWired n a) (omega arith) wired
  register_all-Gives rings rings_messaging (suc left) i a wired =
      made-Gives rings (i + 1) (i + suc left) (rings (i + 1)) rest refl (omega arith) (
        subst (λ n. Gives rings n rest) (omega arith)
          (register_all-Gives rings rings_messaging left (i + 1)
            (register_consumer a (new_consumer rings_messaging) i)
            (register_consumer-IsWired i a (new_consumer rings_messaging) wired)))
    where
      rest : Option Error × Option (Acceptor B Addr)
      rest =
          register_all rings rings_messaging (i + 1) left
            (register_consumer a (new_consumer rings_messaging) i)

  new_acceptor-IsWired :
      (fd : ℕ) (b : Balancer Handle)
      → IsFresh b
      → IsWired 0 (new_acceptor {B = B} {Addr = Addr} fd b)
  unfolding new_acceptor IsFresh
  new_acceptor-IsWired fd b e = record {
    size = ap (λ g. g.size) e;
    handled = ap (λ g. length g.workers) e;
    placed = λ i h got. absurd (nothing h (sym (ap (λ g. get_elem? g.workers i) e) ∙ got));
    consumers = refl;
  }
    where
      nothing : (h : Handle) → ◌≡◌ {A = Option Handle} none (some h) → ⊥
      nothing h eq = cc

create-IsFresh :
    (kind : ℕ)
    → kind < 3
    → (b : Balancer Handle) × (create_load_balancer kind ≡ created b) × IsFresh b
unfolding create_load_balancer IsFresh
create-IsFresh zero h = (round_robin (record { workers = []; size = 0 }) 0, refl, refl)
create-IsFresh (suc zero) h = (least_connections (record { workers = []; size = 0 }), refl, refl)
create-IsFresh (suc (suc zero)) h = (source_ip_hash (record { workers = []; size = 0 }), refl, refl)
create-IsFresh (suc (suc (suc k))) h = absurd (omega arith)

module _ (B Addr : Type 0) where
  with_balancer-Gives :
      (rings : ℕ → Option Error) (rings_messaging : Bool) (config : Config) (fd : ℕ)
      (b : Balancer Handle)
      → IsFresh b
      → Gives rings config.workers
          (with_balancer {B = B} {Addr = Addr} rings rings_messaging config fd (created b))
  with_balancer-Gives rings rings_messaging config fd b f =
      made-Gives rings 0 config.workers (rings 0) all refl (omega arith) (
        subst (λ n. Gives rings n all) (omega arith)
          (register_all-Gives rings rings_messaging config.workers 0 (new_acceptor fd b)
            (new_acceptor-IsWired fd b f)))
    where
      all : Option Error × Option (Acceptor B Addr)
      all = register_all rings rings_messaging 0 config.workers (new_acceptor fd b)

  -- With one of the three kinds of load balancing, the start of a reactor gives an error that the
  -- creation of one of its rings gave, or else an acceptor with the configured number of
  -- consumers, where the i-th handle of its balancer is numbered i and leads to the i-th of them.
  pub start_reactor-Gives :
      (rings : ℕ → Option Error) (rings_messaging : Bool) (config : Config) (fd : ℕ)
      → config.load_balancing < 3
      → Gives rings config.workers
          (start_reactor {B = B} {Addr = Addr} rings rings_messaging config fd)
  unfolding start_reactor
  start_reactor-Gives rings rings_messaging config fd known =
      let (b, e, f) = create-IsFresh config.load_balancing known in
      subst
        (λ c.
          Gives rings config.workers
            (with_balancer {B = B} {Addr = Addr} rings rings_messaging config fd c))
        (sym e) (with_balancer-Gives rings rings_messaging config fd b f)
