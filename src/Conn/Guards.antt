-- ===== src/Conn/Guards.antt =====
-- The user's side can do nothing to a connection that is closed or the kernel's, and never touches
-- what identifies it.
use gain.Base.{ℕ, ◌≡◌, refl, ◌∙◌, List, [], Option, none, some, Bool, true, false, if◌then◌else◌}
use gain.Base.{Outcome, ret, panic, ◌>>=◌, Safe, Safe->>=, Safe-weaken, ◌||◌}
use gain.Errors.{Error, connection_already_closed}
use gain.Buffer.{Buffer}
use gain.Conn.{
  Connection, guarded, user_op_allowed, next, discard, peek, read, write, write_to, read_from,
  close, tcp, udp, Network,
}
use gain.Conn.User.{
  UserOp, op_next, op_discard, op_peek, op_read, op_write, op_write_to, op_read_from, op_close,
  Reply, got, counted, Program, finished, ask, perform, run,
}

-- The answer to an operation that is refused.
pub refusal : UserOp → Error → Reply
refusal (op_next n) e = got [] (some e)
refusal (op_discard n) e = counted (some 0) (some e)
refusal (op_peek n) e = got [] (some e)
refusal (op_read n) e = got [] (some e)
refusal (op_write src) e = counted (some 0) (some e)
refusal (op_write_to writer) e = counted (some 0) (some e)
refusal (op_read_from chunks) e = counted (some 0) (some e)
refusal op_close e = counted (some 0) (some e)

unfoldable pub closes : UserOp → Bool
closes op_close = true
closes (op_next n) = false
closes (op_discard n) = false
closes (op_peek n) = false
closes (op_read n) = false
closes (op_write src) = false
closes (op_write_to writer) = false
closes (op_read_from chunks) = false

module _ {B Addr : Type 0} (buf : Buffer B) where
  guarded-refused :
      {R : Type 0} (refused : R) (c : Connection B Addr)
      (m : Outcome (R × Option Error × Connection B Addr)) (e : Error)
      → user_op_allowed c ≡ some e
      → guarded refused c m ≡ ret (refused, some e, c)
  guarded-refused refused c m e h = rw (guarded, h) refl

  -- On a connection that is closed or the kernel's, every user operation but `Close` answers with
  -- the guard's error and changes nothing.
  pub perform-refused :
      (op : UserOp) (c : Connection B Addr) (e : Error)
      → closes op ≡ false
      → user_op_allowed c ≡ some e
      → perform buf op c ≡ ret (refusal op e, c)
  unfolding perform refusal closes next discard peek read write write_to read_from
  perform-refused (op_next n) c e o h = rw (guarded, h) refl
  perform-refused (op_discard n) c e o h = rw (guarded, h) refl
  perform-refused (op_peek n) c e o h = rw (guarded, h) refl
  perform-refused (op_read n) c e o h = rw (guarded, h) refl
  perform-refused (op_write src) c e o h = rw (guarded, h) refl
  perform-refused (op_write_to writer) c e o h = rw (guarded, h) refl
  perform-refused (op_read_from chunks) c e o h = rw (guarded, h) refl
  perform-refused op_close c e o h = cc

-- What the user cannot change: a connection's identity and its place in the kernel's protocol. A
-- closed connection stays closed.
pub record Kept {B Addr : Type 0} (c c' : Connection B Addr) : Type 0 where
  pub fd : c'.fd ≡ c.fd
  pub key : c'.key ≡ c.key
  pub network : c'.network ≡ c.network
  pub state : c'.state ≡ c.state
  pub mode : c'.mode ≡ c.mode
  pub msg_hdr : c'.msg_hdr ≡ c.msg_hdr
  pub closed : (c.closed || c'.closed) ≡ c'.closed

or_self : (b : Bool) → (b || b) ≡ b
or_self true = refl
or_self false = refl

or_true : (b : Bool) → (b || true) ≡ true
or_true true = refl
or_true false = refl

or_trans : (a b c : Bool) → (a || b) ≡ b → (b || c) ≡ c → (a || c) ≡ c
or_trans true true c p q = q
or_trans true false c p q = cc
or_trans false b c p q = refl

module _ {B Addr : Type 0} where
  Kept-self : (c : Connection B Addr) → Kept c c
  Kept-self c = record {
    fd = refl;
    key = refl;
    network = refl;
    state = refl;
    mode = refl;
    msg_hdr = refl;
    closed = or_self c.closed;
  }

  Kept-inbound : (c : Connection B Addr) (b : B) → Kept c (record c { inbound = b })
  Kept-inbound c b = record {
    fd = refl;
    key = refl;
    network = refl;
    state = refl;
    mode = refl;
    msg_hdr = refl;
    closed = or_self c.closed;
  }

  Kept-outbound : (c : Connection B Addr) (b : B) → Kept c (record c { outbound = b })
  Kept-outbound c b = record {
    fd = refl;
    key = refl;
    network = refl;
    state = refl;
    mode = refl;
    msg_hdr = refl;
    closed = or_self c.closed;
  }

  Kept-trans : (c d e : Connection B Addr) → Kept c d → Kept d e → Kept c e
  Kept-trans c d e k l = record {
    fd = l.fd ∙ k.fd;
    key = l.key ∙ k.key;
    network = l.network ∙ k.network;
    state = l.state ∙ k.state;
    mode = l.mode ∙ k.mode;
    msg_hdr = l.msg_hdr ∙ k.msg_hdr;
    closed = or_trans c.closed d.closed e.closed k.closed l.closed;
  }

  Kept-close : (c : Connection B Addr) → Kept c (close c).1
  unfolding close
  Kept-close c = go c.network c.closed refl
    where
      closed_by : Network → Bool → Option Error × Connection B Addr
      closed_by n b = elim n [
        | udp ↦ (none, c)
        | tcp ↦
            if b then (some connection_already_closed, c) else (none, record c { closed = true })
      ]

      go : (n : Network) (b : Bool) → c.closed ≡ b → Kept c (closed_by n b).1
      go udp b e = Kept-self c
      go tcp true e = Kept-self c
      go tcp false e = record {
        fd = refl;
        key = refl;
        network = refl;
        state = refl;
        mode = refl;
        msg_hdr = refl;
        closed = or_true c.closed;
      }

  guarded-Kept :
      {R : Type 0} (refused : R) (c : Connection B Addr)
      (m : Outcome (R × Option Error × Connection B Addr))
      → Safe m (λ r. Kept c r.2)
      → Safe (guarded refused c m) (λ r. Kept c r.2)
  guarded-Kept refused c m h =
      elim (user_op_allowed c)
        as (λ o.
          Safe (elim o [ some err ↦ ret (refused, some err, c) | none ↦ m ]) (λ r. Kept c r.2)) [
            | none ↦ h
            | some e ↦ Kept-self c
          ]

  -- What an operation does to one of the two buffers.
  taken_in :
      {R : Type 0} (c : Connection B Addr) (m : Outcome (R × Option Error × B))
      → Safe {A = R × Option Error × Connection B Addr}
          (m >>= λ (x, err, b). ret (x, err, record c { inbound = b }))
          (λ r. Kept c r.2)
  taken_in c (ret (x, err, b)) = Kept-inbound c b
  taken_in c panic = tt

  peeked :
      (c : Connection B Addr) (m : Outcome (List ℕ))
      → Safe {A = List ℕ × Option Error × Connection B Addr}
          (m >>= λ bs. ret (bs, none, c))
          (λ r. Kept c r.2)
  peeked c (ret bs) = Kept-self c
  peeked c panic = tt

  put_out :
      (c : Connection B Addr) (m : Outcome (ℕ × B))
      → Safe {A = ℕ × Option Error × Connection B Addr}
          (m >>= λ (n, b). ret (n, none, record c { outbound = b }))
          (λ r. Kept c r.2)
  put_out c (ret (n, b)) = Kept-outbound c b
  put_out c panic = tt

  filled :
      (c : Connection B Addr) (m : Outcome (Option (ℕ × Option Error) × B))
      → Safe {A = Option ℕ × Option Error × Connection B Addr}
          (m >>= λ (result, b). ret (elim result [
            | none ↦ (none, none, record c { outbound = b })
            | some (n, err) ↦ (some n, err, record c { outbound = b })
          ]))
          (λ r. Kept c r.2)
  filled c (ret (none, b)) = Kept-outbound c b
  filled c (ret (some (n, err), b)) = Kept-outbound c b
  filled c panic = tt

  answered :
      {R : Type 0} (c : Connection B Addr) (reply : R × Option Error × Connection B Addr → Reply)
      (m : Outcome (R × Option Error × Connection B Addr))
      → Safe m (λ r. Kept c r.2)
      → Safe {A = Reply × Connection B Addr} (m >>= λ r. ret (reply r, r.2)) (λ r. Kept c r.1)
  answered c reply (ret r) h = h
  answered c reply panic h = tt

module _ {B Addr : Type 0} (buf : Buffer B) where
  perform-Kept : (op : UserOp) (c : Connection B Addr) → Safe (perform buf op c) (λ r. Kept c r.1)
  unfolding perform next discard peek read write write_to read_from
  perform-Kept (op_next n) c =
      answered c (λ r. got r.0 r.1) (next buf c n)
        (guarded-Kept [] c _ (taken_in c (buf.next c.inbound n)))
  perform-Kept (op_discard n) c =
      answered c (λ r. counted (some r.0) r.1) (discard buf c n)
        (guarded-Kept 0 c _ (Kept-inbound c _))
  perform-Kept (op_peek n) c =
      answered c (λ r. got r.0 r.1) (peek buf c n)
        (guarded-Kept [] c _ (peeked c (buf.peek c.inbound n)))
  perform-Kept (op_read n) c =
      answered c (λ r. got r.0 r.1) (read buf c n)
        (guarded-Kept [] c _ (taken_in c (buf.read c.inbound n)))
  perform-Kept (op_write src) c =
      answered c (λ r. counted (some r.0) r.1) (write buf c src)
        (guarded-Kept 0 c _ (put_out c (buf.write c.outbound src)))
  perform-Kept (op_write_to writer) c =
      answered c (λ r. counted (some r.0) r.1) (write_to buf c writer)
        (guarded-Kept 0 c _ (taken_in c (buf.write_to c.inbound writer)))
  perform-Kept (op_read_from chunks) c =
      answered c (λ r. counted r.0 r.1) (read_from buf c chunks)
        (guarded-Kept (some 0) c _ (filled c (buf.read_from c.outbound chunks)))
  perform-Kept op_close c = Kept-close c

  -- Whatever program of operations a handler runs, where it returns, the connection has the same
  -- descriptor, key, network, state, mode and message header, and is still closed if it was.
  pub run-Kept : (p : Program) (c : Connection B Addr) → Safe (run buf p c) (Kept c)
  unfolding run
  run-Kept finished c = Kept-self c
  run-Kept (ask op rest) c =
      Safe->>= (λ r. Kept c r.1) (Kept c) (perform buf op c) (λ (r, c'). run buf (rest r) c')
        (perform-Kept op c)
        (λ r k.
          Safe-weaken (run buf (rest r.0) r.1) (run-Kept (rest r.0) r.1)
            (λ d l. Kept-trans c r.1 d k l))
