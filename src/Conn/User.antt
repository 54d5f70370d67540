-- ===== src/Conn/User.antt =====
-- interfaces.go: what an event handler may do with a connection, as a program of operations, each of
-- which may depend on the answers before it.
use gain.Base.{ℕ, List, Option, some, Outcome, ret, ◌>>=◌}
use gain.Errors.{Error}
use gain.Buffer.{Buffer, Chunk}
use gain.Conn
use gain.Conn.{Connection}

pub data UserOp : Type 0 where
  op_next op_discard op_peek op_read : ℕ → UserOp
  op_write : List ℕ → UserOp
  op_write_to : (List ℕ → ℕ × Option Error) → UserOp
  op_read_from : List Chunk → UserOp
  op_close : UserOp

pub data Reply : Type 0 where
  got : List ℕ → Option Error → Reply
  counted : Option ℕ → Option Error → Reply

pub data Program : Type 0 where
  finished : Program
  ask : UserOp → (Reply → Program) → Program

module _ {B Addr : Type 0} (buf : Buffer B) where
  abbrev pub as_got : List ℕ × Option Error × Connection B Addr → Reply × Connection B Addr
  as_got (bs, err, c) = (got bs err, c)

  abbrev pub as_counted : ℕ × Option Error × Connection B Addr → Reply × Connection B Addr
  as_counted (n, err, c) = (counted (some n) err, c)

  abbrev pub as_maybe : Option ℕ × Option Error × Connection B Addr → Reply × Connection B Addr
  as_maybe (n, err, c) = (counted n err, c)

  unfoldable pub perform : UserOp → Connection B Addr → Outcome (Reply × Connection B Addr)
  perform (op_next n) c = Conn.next buf c n >>= λ r. ret (as_got r)
  perform (op_discard n) c = Conn.discard buf c n >>= λ r. ret (as_counted r)
  perform (op_peek n) c = Conn.peek buf c n >>= λ r. ret (as_got r)
  perform (op_read n) c = Conn.read buf c n >>= λ r. ret (as_got r)
  perform (op_write src) c = Conn.write buf c src >>= λ r. ret (as_counted r)
  perform (op_write_to writer) c = Conn.write_to buf c writer >>= λ r. ret (as_counted r)
  perform (op_read_from chunks) c = Conn.read_from buf c chunks >>= λ r. ret (as_maybe r)
  perform op_close c = ret (counted (some 0) (Conn.close c).0, (Conn.close c).1)

  -- A handler's program on the connection that it was called with.
  unfoldable pub run : Program → Connection B Addr → Outcome (Connection B Addr)
  run finished c = ret c
  run (ask op rest) c = perform op c >>= λ (r, c'). run (rest r) c'
