-- ===== src/Acceptor/Delivery.antt =====
-- Each accepted connection goes to one consumer, or is closed.
use gain.Base.{ℕ, zero, suc, ◌+◌, ◌≡◌, refl, ap, ◌∙◌, arith, List, [], ◌∷◌, ◌++◌, Bool, true, false}
use gain.Base.{
  Option, none, some, ret, panic, ◌>>=◌, Safe, Safe-bind, Safe-weaken, if◌then◌else◌, ◌==◌,
  get_elem?, set,
}
use gain.Base.{Bool-cases, inl, inr}
use gain.Base.Maps.{occurrences}
use gain.Errors.{Error}
use gain.Flags.{has_flag, add_conn_flag}
use gain.LoadBalancer.{next}
use gain.Requests.{
  Entry, Request, recv, recv_msg, send, send_msg, close_fd, accept, msg_ring, plain,
  add_accept_request,
}
use gain.Worker.{Completion, count}
use gain.Consumer.{Consumer, set_socket_addr, add_conn_to_queue}
use gain.Acceptor.{
  Acceptor, AcceptorConfig, ClientAddr, known, unknown, Handle, handles, put_consumer, shut_socket,
  add_conn_via_ring, add_conn_via_queue, add_conn, close_if_failed, give, forward, welcome, process,
  accepted_next,
}

-- The messages that carry a descriptor.
abbrev pub carries : ℕ → Request → ℕ
carries fd (recv x y) = 0
carries fd (recv_msg x y) = 0
carries fd (send x y) = 0
carries fd (send_msg x y) = 0
carries fd (close_fd x) = 0
carries fd (accept x) = 0
carries fd (msg_ring x y) = if y == fd then 1 else 0

abbrev pub messages : ℕ → List Entry → ℕ
messages fd [] = 0
messages fd (e ∷ es) = carries fd e.request + messages fd es

abbrev pub in_queue : ℕ → Option (List ℕ) → ℕ
in_queue fd none = 0
in_queue fd (some queue) = occurrences fd queue

abbrev pub waiting : {B Addr : Type 0} → ℕ → Consumer B Addr → ℕ
waiting fd w = in_queue fd w.conn_queue

abbrev pub queued : {B Addr : Type 0} → ℕ → List (Consumer B Addr) → ℕ
queued fd [] = 0
queued fd (w ∷ ws) = waiting fd w + queued fd ws

-- How often a descriptor has been handed on or closed.
abbrev pub delivered : {B Addr : Type 0} → ℕ → Acceptor B Addr → ℕ
delivered fd a = messages fd a.sq + queued fd a.consumers + occurrences fd a.shut

abbrev pub once : Option Error → ℕ → ℕ → ℕ
once none n fd = if n == fd then 1 else 0
once (some err) n fd = 0

messages-append :
    (fd : ℕ) (es ds : List Entry) → messages fd (es ++ ds) ≡ messages fd es + messages fd ds
messages-append fd [] ds = omega arith
messages-append fd (e ∷ es) ds = omega (arith, messages-append fd es ds)

occurrences-append :
    (fd : ℕ) (xs ys : List ℕ) → occurrences fd (xs ++ ys) ≡ occurrences fd xs + occurrences fd ys
unfolding occurrences
occurrences-append fd [] ys = omega arith
occurrences-append fd (x ∷ xs) ys = omega (arith, occurrences-append fd xs ys)

accept-messages :
    (room : List Entry → Bool) (listener : ℕ) (sq : List Entry) (fd : ℕ)
    → messages fd (add_accept_request room listener sq).1 ≡ messages fd sq
unfolding add_accept_request
accept-messages room listener sq fd = elim (Bool-cases (room sq)) [
  | inl e ↦ rw (e, add_accept_request) (messages-append fd sq _ ∙ omega arith)
  | inr e ↦ rw (e, add_accept_request) refl
]

queued-set :
    {B Addr : Type 0} (fd : ℕ) (ws : List (Consumer B Addr)) (i : ℕ) (old new : Consumer B Addr)
    → get_elem? ws i ≡ some old
    → queued fd (set ws i new) + waiting fd old ≡ queued fd ws + waiting fd new
queued-set fd [] i old new e = cc
queued-set fd (w ∷ ws) zero old new e =
    let same : w ≡ old = cc in omega (arith, ap (waiting fd) same)
queued-set fd (w ∷ ws) (suc i) old new e = omega (arith, queued-set fd ws i old new e)

get_elem?-set-some {ℓ} :
    {A : Type ℓ} (xs : List A) (i : ℕ) (x y : A)
    → get_elem? xs i ≡ some x
    → get_elem? (set xs i y) i ≡ some y
get_elem?-set-some [] i x y e = cc
get_elem?-set-some (z ∷ xs) zero x y e = refl
get_elem?-set-some (z ∷ xs) (suc i) x y e = get_elem?-set-some xs i x y e

-- What a step does to the places of every descriptor, for an accepted one.
abbrev pub Accounted :
    {B Addr : Type 0} → ℕ → Acceptor B Addr → Option Error × Acceptor B Addr → Type 0
Accounted n a (err, a') = (fd : ℕ) → delivered fd a' ≡ delivered fd a + once err n fd

module _ {B Addr : Type 0} where
  shut_socket-Accounted : (a : Acceptor B Addr) (n : ℕ) → Accounted n a (none, shut_socket a n)
  unfolding occurrences
  shut_socket-Accounted a n fd = omega arith

  Accounted-behind :
      (n : ℕ) (a b : Acceptor B Addr) (r : Option Error × Acceptor B Addr)
      → ((fd : ℕ) → delivered fd b ≡ delivered fd a)
      → Accounted n b r
      → Accounted n a r
  Accounted-behind n a b r same h fd = h fd ∙ ap (λ x. x + once r.0 n fd) (same fd)

  put_consumer-same :
      (a : Acceptor B Addr) (i fd : ℕ) (old new : Consumer B Addr)
      → get_elem? a.consumers i ≡ some old
      → waiting fd new ≡ waiting fd old
      → delivered fd (put_consumer a i new) ≡ delivered fd a
  put_consumer-same a i fd old new e same = omega (arith, queued-set fd a.consumers i old new e)

module _ {B Addr : Type 0} (room : List Entry → Bool) (config : AcceptorConfig) (ring_fd : ℕ → ℕ)
    (checksum : Addr → ℕ) where
  via_ring-Accounted :
      (a : Acceptor B Addr) (i n : ℕ)
      → Accounted n a (
          close_if_failed room config ring_fd checksum n
            (add_conn_via_ring room config ring_fd checksum a i n))
  unfolding add_conn_via_ring occurrences
  via_ring-Accounted a i n fd = elim (Bool-cases (room a.sq)) [
    | inl e ↦
        rw (e, add_conn_via_ring)
          (omega
            (arith, messages-append fd a.sq (plain (msg_ring (ring_fd i) n) add_conn_flag ∷ [])))
    | inr e ↦ rw (e, add_conn_via_ring) (omega arith)
  ]

  queue_result :
      (a : Acceptor B Addr) (i n : ℕ) (w : Consumer B Addr)
      → get_elem? a.consumers i ≡ some w
      → (q : Option (List ℕ)) → w.conn_queue ≡ q
      → Accounted n a (
          close_if_failed room config ring_fd checksum n (
            let (err, w') = add_conn_to_queue (record w { conn_queue = q }) n in
            (err, put_consumer a i w')))
  unfolding add_conn_to_queue occurrences
  queue_result a i n w e none q fd =
      omega (
        arith,
        queued-set fd a.consumers i w (record w { conn_queue = none }) e,
        ap (in_queue fd) q,
      )
  queue_result a i n w e (some l) q fd = omega (
    arith,
    queued-set fd a.consumers i w (record w { conn_queue = some (l ++ n ∷ []) }) e,
    occurrences-append fd l (n ∷ []),
    ap (in_queue fd) q,
  )

  via_queue-Accounted :
      (a : Acceptor B Addr) (i n : ℕ) (w : Consumer B Addr)
      → get_elem? a.consumers i ≡ some w
      → Accounted n a (
          close_if_failed room config ring_fd checksum n
            (add_conn_via_queue room config ring_fd checksum a i w n))
  unfolding add_conn_via_queue
  via_queue-Accounted a i n w e = queue_result a i n w e w.conn_queue refl

  add_conn-Accounted :
      (a : Acceptor B Addr) (i n : ℕ) (w : Consumer B Addr)
      → get_elem? a.consumers i ≡ some w
      → Accounted n a (
          close_if_failed room config ring_fd checksum n
            (add_conn room config ring_fd checksum a i w n))
  unfolding add_conn
  add_conn-Accounted a i n w e =
      elim config.rings_messaging
        as (λ b. Accounted n a (
          close_if_failed room config ring_fd checksum n (
            if b
            then add_conn_via_ring room config ring_fd checksum a i n
            else add_conn_via_queue room config ring_fd checksum a i w n))) [
              | true ↦ via_ring-Accounted a i n
              | false ↦ via_queue-Accounted a i n w e
            ]

  give-Accounted :
      (a : Acceptor B Addr) (h : Handle) (n : ℕ) (addr : Addr)
      → Safe (give room config ring_fd checksum a h n addr) (Accounted n a)
  unfolding give set_socket_addr
  give-Accounted a h n addr = found (get_elem? a.consumers h.id) refl
    where
      found :
          (o : Option (Consumer B Addr))
          → get_elem? a.consumers h.id ≡ o
          → Safe
              (elim o [ none ↦ panic | some x ↦ ret x ] >>= λ w.
                let w' = set_socket_addr w n addr in
                ret (
                  close_if_failed room config ring_fd checksum n
                    (add_conn room config ring_fd checksum (put_consumer a h.id w') h.id w' n)))
              (Accounted n a)
      found none e = tt
      found (some w) e =
          Accounted-behind n a (put_consumer a h.id (set_socket_addr w n addr))
            (close_if_failed room config ring_fd checksum n (
              add_conn room config ring_fd checksum (put_consumer a h.id (set_socket_addr w n addr))
                h.id (set_socket_addr w n addr) n))
            (λ fd. put_consumer-same a h.id fd w (set_socket_addr w n addr) e refl)
            (add_conn-Accounted (put_consumer a h.id (set_socket_addr w n addr)) h.id n
              (set_socket_addr w n addr)
              (get_elem?-set-some a.consumers h.id w (set_socket_addr w n addr) e))

  forward-Accounted :
      (a : Acceptor B Addr) (n : ℕ) (client : ClientAddr Addr)
      → Safe (forward room config ring_fd checksum a n client) (Accounted n a)
  unfolding forward
  forward-Accounted a n (unknown err) = shut_socket-Accounted a n
  forward-Accounted a n (known addr) =
      Safe-bind (Accounted n a) (next (handles a.consumers) checksum a.balancer addr) _
        (λ chosen. give-Accounted (record a { balancer = chosen.1 }) chosen.0 n addr)

  welcome-Accounted :
      (a : Acceptor B Addr) (n : ℕ) (client : ClientAddr Addr)
      → Safe (welcome room config ring_fd checksum a n client) (Accounted n a)
  unfolding welcome
  welcome-Accounted a n client =
      failing (if config.keeps_alive then config.set_keep_alive n else none)
    where
      failing :
          (failed : Option Error)
          → Safe
              (elim failed [
                | some err ↦ ret (some err, a)
                | none ↦ forward room config ring_fd checksum a n client
              ])
              (Accounted n a)
      failing none = forward-Accounted a n client
      failing (some err) = λ fd. omega arith

  -- Where the acceptor returns from the completion of an accept, the accepted descriptor is handed
  -- to a consumer by a message or its queue, or shut down, exactly once, and no other descriptor
  -- is; where it returns an error, none is.
  pub process-Accounted :
      (a : Acceptor B Addr) (cqe : Completion) (n : ℕ) (client : ClientAddr Addr)
      → cqe.res ≡ count n
      → (cqe.user_data == 0) ≡ false
      → has_flag add_conn_flag cqe.user_data ≡ false
      → Safe (process room config ring_fd checksum a cqe client) (Accounted n a)
  unfolding process
  process-Accounted a cqe n client e some_data no_message =
      rw (no_message, process)
        (behind (add_accept_request room a.fd a.sq) (accept-messages room a.fd a.sq))
    where
      behind :
          (r : Option Error × List Entry)
          → ((fd : ℕ) → messages fd r.1 ≡ messages fd a.sq)
          → Safe (accepted_next room config ring_fd checksum cqe client a r) (Accounted n a)
      behind (some err, sq) same = λ fd. omega arith
      behind (none, sq) same = rw e (
          rw some_data (
            Safe-weaken (welcome room config ring_fd checksum (record a { sq = sq }) n client)
              (welcome-Accounted (record a { sq = sq }) n client)
              (λ r h.
                Accounted-behind n a (record a { sq = sq }) r
                  (λ fd. ap (λ x. x + queued fd a.consumers + occurrences fd a.shut) (same fd)) h)))
