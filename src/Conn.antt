-- ===== src/Conn.antt =====
-- conn.go: a connection, whose operations the kernel side and the user side take turns at.
pub mod Forking
pub mod User
pub mod Guards
mod Tests
use gain.Base.{ℕ, List, [], Bool, true, false, Option, none, some, if◌then◌else◌}
use gain.Base.{Outcome, ret, ◌>>=◌}
use gain.Errors.{Error, connection_closed, connection_already_closed, op_not_available_in_mode}
use gain.Buffer.{Buffer, Chunk}

pub data ConnectionState : Type 0 where
  conn_invalid conn_accept conn_read conn_write conn_close : ConnectionState

pub data Mode : Type 0 where
  kernel_space user_space : Mode

pub data AsyncOp : Type 0 where
  no_op read_op write_op close_op : AsyncOp

pub data Network : Type 0 where
  tcp udp : Network

-- What the first io vector of the message header points to: the whole inbound buffer, or so many
-- bytes of the outbound one.
pub data Iov : Type 0 where
  to_inbound : ℕ → Iov
  from_outbound : ℕ → Iov

-- `raw_sockaddr` is what `anyToSockaddr` makes of the address that the kernel stored, if anything;
-- the context is the user's alone and left out.
pub record Connection (B Addr : Type 0) : Type 0 where
  pub fd : ℕ
  pub key : ℕ
  pub network : Network
  pub inbound : B
  pub outbound : B
  pub state : ConnectionState
  pub mode : Mode
  pub closed : Bool
  pub msg_hdr : Option Iov
  pub raw_sockaddr : Option Addr
  pub local_addr : Option Addr
  pub remote_addr : Option Addr
  pub next_async_op : AsyncOp

abbrev mode_number : Mode → ℕ
mode_number kernel_space = 0
mode_number user_space = 1

module _ {B Addr : Type 0} where
  unfoldable pub set_kernel_space : Connection B Addr → Connection B Addr
  set_kernel_space c = record c { mode = kernel_space }

  unfoldable pub set_user_space : Connection B Addr → Connection B Addr
  set_user_space c = record c { mode = user_space }

  -- `userOpAllowed`: the error, if the operation is not allowed.
  pub user_op_allowed : Connection B Addr → Option Error
  user_op_allowed c = if c.closed then some connection_closed else elim c.mode [
    | user_space ↦ none
    | kernel_space ↦ some (op_not_available_in_mode (mode_number kernel_space))
  ]

  -- An operation that is refused gives `refused` with the error and changes nothing.
  abbrev pub guarded :
      {R : Type 0}
      → R
      → Connection B Addr
      → Outcome (R × Option Error × Connection B Addr)
      → Outcome (R × Option Error × Connection B Addr)
  guarded refused c run = elim (user_op_allowed c) [
    | some err ↦ ret (refused, some err, c)
    | none ↦ run
  ]

  -- `Close` leaves the shared socket of a UDP connection alone.
  pub close : Connection B Addr → Option Error × Connection B Addr
  close c = elim c.network [
    | udp ↦ (none, c)
    | tcp ↦
        if c.closed then (some connection_already_closed, c) else (none, record c { closed = true })
  ]

module _ {B Addr : Type 0} (buf : Buffer B) where
  pub on_kernel_read : Connection B Addr → ℕ → Outcome (Connection B Addr)
  on_kernel_read c n = do b ← buf.advance_write c.inbound n; ret (record c { inbound = b })

  pub on_kernel_write : Connection B Addr → ℕ → Outcome (Connection B Addr)
  on_kernel_write c n = do b ← buf.advance_read c.outbound n; ret (record c { outbound = b })

  pub next : Connection B Addr → ℕ → Outcome (List ℕ × Option Error × Connection B Addr)
  next c n =
      guarded [] c
        (do (got, err, b) ← buf.next c.inbound n; ret (got, err, record c { inbound = b }))

  pub discard : Connection B Addr → ℕ → Outcome (ℕ × Option Error × Connection B Addr)
  discard c n =
      guarded 0 c (
        ret ((buf.discard c.inbound n).0, none, record c { inbound = (buf.discard c.inbound n).1 }))

  pub peek : Connection B Addr → ℕ → Outcome (List ℕ × Option Error × Connection B Addr)
  peek c n = guarded [] c (do got ← buf.peek c.inbound n; ret (got, none, c))

  -- `Read` into a buffer of `len` bytes.
  pub read : Connection B Addr → ℕ → Outcome (List ℕ × Option Error × Connection B Addr)
  read c len =
      guarded [] c
        (do (got, err, b) ← buf.read c.inbound len; ret (got, err, record c { inbound = b }))

  pub write : Connection B Addr → List ℕ → Outcome (ℕ × Option Error × Connection B Addr)
  write c src =
      guarded 0 c (do (n, b) ← buf.write c.outbound src; ret (n, none, record c { outbound = b }))

  pub write_to :
      Connection B Addr
      → (List ℕ → ℕ × Option Error)
      → Outcome (ℕ × Option Error × Connection B Addr)
  write_to c writer =
      guarded 0 c
        (do (n, err, b) ← buf.write_to c.inbound writer; ret (n, err, record c { inbound = b }))

  -- No number stands for a reader that goes on after the chunks.
  pub read_from :
      Connection B Addr → List Chunk → Outcome (Option ℕ × Option Error × Connection B Addr)
  read_from c chunks = guarded (some 0) c (do
    (result, b) ← buf.read_from c.outbound chunks
    ret (elim result [
      | none ↦ (none, none, record c { outbound = b })
      | some (n, err) ↦ (some n, err, record c { outbound = b })
    ]))

  unfoldable pub outbound_buffered : Connection B Addr → ℕ
  outbound_buffered c = buf.buffered c.outbound

  pub inbound_buffered : Connection B Addr → ℕ
  inbound_buffered c = buf.buffered c.inbound

  unfoldable pub set_msg_header_write : Connection B Addr → Connection B Addr
  set_msg_header_write c = record c { msg_hdr = some (from_outbound (outbound_buffered c)) }

  -- A fresh header and a fresh address, which the kernel fills.
  pub init_msg_header : Connection B Addr → Connection B Addr
  init_msg_header c = record c {
    msg_hdr = some (to_inbound (buf.cap c.inbound));
    raw_sockaddr = none;
  }

  -- `fork`: the new connection takes the buffers and the header of the main one, which gets fresh
  -- ones. First of the result is the new connection, then the main one.
  pub fork :
      Connection B Addr → Connection B Addr → ℕ → Bool → Connection B Addr × Connection B Addr
  fork c new_conn key write_header =
      let forked = record new_conn {
        inbound = c.inbound;
        outbound = c.outbound;
        msg_hdr = c.msg_hdr;
        raw_sockaddr = c.raw_sockaddr;
        state = c.state;
        fd = c.fd;
        key = key;
        network = udp;
        remote_addr = elim c.raw_sockaddr [ some a ↦ some a | none ↦ new_conn.remote_addr ];
      } in
      (
        if write_header then set_msg_header_write forked else forked,
        init_msg_header (record c { inbound = buf.fresh; outbound = buf.fresh }),
      )

  unfoldable pub new_connection : Connection B Addr
  new_connection = record {
    fd = 0;
    key = 0;
    network = tcp;
    inbound = buf.fresh;
    outbound = buf.fresh;
    state = conn_invalid;
    mode = kernel_space;
    closed = false;
    msg_hdr = none;
    raw_sockaddr = none;
    local_addr = none;
    remote_addr = none;
    next_async_op = no_op;
  }
