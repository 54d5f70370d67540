-- ===== src/Worker/Dispatch.antt =====
-- What is asked of the kernel once the handler has run, in the three places that decide on it.
use mathlib.Core.Path.{subst}
use gain.Base.{
  ℕ, ◌≡◌, refl, sym, ap, ◌∙◌, List, [], ◌∷◌, ◌++◌, append_assoc, Bool, true, false, none, some, inl,
  inr, Bool-cases,
}
use gain.Base.{Outcome, ret, ◌>>=◌, if◌then◌else◌, ltb, Returns, Returns->>=, ◌||◌, not}
use gain.Buffer.{Buffer, BufferLaws}
use gain.Conn.{
  Connection, write_op, set_msg_header_write, conn_close, kernel_space, set_kernel_space,
  outbound_buffered,
}
use gain.Flags.{user_data, read_data_flag, write_data_flag, close_conn_flag}
use gain.Requests.{
  uint32, Entry, recv, send, close_fd, plain, add_read_request, add_write_request,
  add_close_conn_request, add_close_request, closing, reading, writing,
}
use gain.Worker.{Config, Local, write_data, respond, add_next_request, handle_async_op, choose_next}
use gain.Worker.{async_write, close_behind}

module _ {B Addr : Type 0} (buf : Buffer B) (room : List Entry → Bool) (config : Config Addr) where
  behind :
      (closed : Bool) (l : Local B Addr)
      → (elim l.0 [
        | some err ↦ (some err, l.1, l.2)
        | none ↦ if closed then add_close_conn_request room l.1 l.2 else (none, l.1, l.2)
      ])
        ≡ close_behind buf room config closed l
  behind closed (some err, c, sq) = refl
  behind closed (none, c, sq) = refl

  -- The two writes differ in when they ask whether the connection is closed.
  async_write-write_data :
      (c : Connection B Addr) (sq : List Entry)
      → async_write buf room config c sq ≡ write_data buf room config c sq
  unfolding async_write write_data set_msg_header_write
  async_write-write_data c sq = elim (Bool-cases config.send_recv_msg) [
    | inl e ↦
        rw e (
          behind c.closed
            (add_write_request buf room true (set_msg_header_write buf c) c.closed sq))
    | inr e ↦ rw e (behind c.closed (add_write_request buf room false c c.closed sq))
  ]

  -- For every connection and queue, the loop over the asynchronous operations, with its own code
  -- for a write, asks the kernel for what `onRead` would ask for at once, errors included.
  pub handle_async_op-choose_next :
      (c : Connection B Addr) (sq : List Entry)
      → handle_async_op buf room config (choose_next buf c) sq
        ≡ respond buf room config (choose_next buf c) sq
  unfolding handle_async_op choose_next respond outbound_buffered
  handle_async_op-choose_next c sq = elim (Bool-cases (ltb 0 (buf.buffered c.outbound))) [
    | inl some_out ↦
        rw some_out (ap ret (async_write-write_data (record c { next_async_op = write_op }) sq))
    | inr none_out ↦ elim (Bool-cases c.closed) [
      | inl shut ↦ rw (none_out, shut) refl
      | inr still_open ↦ rw (none_out, still_open) refl
    ]
  ]

  -- Where sockets are read without message headers, `addNextRequest` asks the kernel for what
  -- `onRead` asks for, errors included.
  pub add_next_request-respond :
      (c : Connection B Addr) (sq : List Entry)
      → config.send_recv_msg ≡ false
      → add_next_request buf room config c sq ≡ respond buf room config c sq
  unfolding add_next_request respond write_data
  add_next_request-respond c sq stream = rw stream refl

-- The entries due for a connection of a stream with so many bytes to send, so much room to receive.
pub entries_due : ℕ → ℕ → Bool → ℕ → List Entry
entries_due fd out closed space =
    if ltb 0 out
    then record {
      request = send fd (uint32 out);
      data_of = user_data write_data_flag fd;
      link = closed;
    }
      ∷ (if closed then plain (close_fd fd) (user_data close_conn_flag fd) ∷ [] else [])
    else if closed
    then plain (close_fd fd) (user_data close_conn_flag fd) ∷ []
    else plain (recv fd (uint32 space)) (user_data read_data_flag fd) ∷ []

module _ {B Addr : Type 0} (buf : Buffer B) (laws : BufferLaws B buf) (room : List Entry → Bool)
    (config : Config Addr) where
  -- All entries went out, the bytes of both buffers are still there, and the kernel has the
  -- connection unless it is only to be closed.
  pub record Asked (c : Connection B Addr) (sq : List Entry) (l : Local B Addr) : Type 0 where
    pub no_error : l.0 ≡ none
    pub entries :
        l.2 ≡ sq ++ entries_due c.fd (buf.buffered c.outbound) c.closed (buf.available l.1.inbound)
    pub unread : laws.contents l.1.inbound ≡ laws.contents c.inbound
    pub unsent : laws.contents l.1.outbound ≡ laws.contents c.outbound
    pub with_kernel :
        l.1.mode
        ≡ (if ltb 0 (buf.buffered c.outbound) || not c.closed then kernel_space else c.mode)

  abbrev send_entry : Connection B Addr → Entry
  send_entry c = record {
    request = send c.fd (uint32 (buf.buffered c.outbound));
    data_of = user_data write_data_flag c.fd;
    link = c.closed;
  }

  abbrev close_entry : Connection B Addr → Entry
  close_entry c = plain (close_fd c.fd) (user_data close_conn_flag c.fd)

  abbrev recv_entry : Connection B Addr → Entry
  recv_entry c =
      plain (recv c.fd (uint32 (buf.available c.inbound))) (user_data read_data_flag c.fd)

  module _ (c : Connection B Addr) (sq : List Entry) (stream : config.send_recv_msg ≡ false)
      (free : (entries : List Entry) → room entries ≡ true) where
    respond-send :
        ltb 0 (buf.buffered c.outbound) ≡ true
        → c.closed ≡ false
        → respond buf room config c sq ≡ ret (none, writing buf room c, sq ++ send_entry c ∷ [])
    unfolding respond write_data outbound_buffered add_write_request
    respond-send out e = rw (out, stream, free sq, e) refl

    add_close-free :
        (fd : ℕ) (entries : List Entry)
        → add_close_request room fd entries
          ≡ (none, entries ++ plain (close_fd fd) (user_data close_conn_flag fd) ∷ [])
    unfolding add_close_request
    add_close-free fd entries = rw (free entries) refl

    close-free :
        (d : Connection B Addr) (entries : List Entry)
        → add_close_conn_request room d entries
          ≡ (none, record d { state = conn_close }, entries ++ close_entry d ∷ [])
    unfolding add_close_conn_request
    close-free d entries = ap (closing room d) (add_close-free d.fd entries)

    respond-send_then :
        ltb 0 (buf.buffered c.outbound) ≡ true
        → c.closed ≡ true
        → respond buf room config c sq
          ≡ ret (add_close_conn_request room (writing buf room c) (sq ++ send_entry c ∷ []))
    unfolding respond write_data outbound_buffered add_write_request
    respond-send_then out e = rw (out, stream, free sq, e) refl

    respond-send_close :
        ltb 0 (buf.buffered c.outbound) ≡ true
        → c.closed ≡ true
        → respond buf room config c sq
          ≡ ret (
            none,
            record (writing buf room c) { state = conn_close },
            (sq ++ send_entry c ∷ []) ++ close_entry c ∷ [],
          )
    unfolding set_kernel_space
    respond-send_close out e =
        respond-send_then out e ∙ ap ret (close-free (writing buf room c) (sq ++ send_entry c ∷ []))

    respond-close_step :
        ltb 0 (buf.buffered c.outbound) ≡ false
        → c.closed ≡ true
        → respond buf room config c sq ≡ ret (add_close_conn_request room c sq)
    unfolding respond outbound_buffered
    respond-close_step out e = rw (out, e) refl

    respond-close :
        ltb 0 (buf.buffered c.outbound) ≡ false
        → c.closed ≡ true
        → respond buf room config c sq
          ≡ ret (none, record c { state = conn_close }, sq ++ close_entry c ∷ [])
    respond-close out e = respond-close_step out e ∙ ap ret (close-free c sq)

    abbrev received : B → Local B Addr
    received b = (
      none,
      reading buf room (record c { inbound = b }),
      sq ++ recv_entry (record c { inbound = b }) ∷ [],
    )

    respond-recv :
        ltb 0 (buf.buffered c.outbound) ≡ false
        → c.closed ≡ false
        → respond buf room config c sq ≡ (buf.make_room c.inbound >>= λ b. ret (received b))
    unfolding respond outbound_buffered add_read_request
    respond-recv out e = rw (out, e, free sq, stream) refl

  -- After the handler, with room in the submission queue and a good inbound buffer, a stream's
  -- connection gets exactly one of: a send, a send with a linked close behind it, a close, or a
  -- receive, with lengths modulo 2^32; the bytes of both buffers stay, and the kernel has the
  -- connection unless it is only to be closed.
  pub respond-Asked :
      (c : Connection B Addr) (sq : List Entry)
      → config.send_recv_msg ≡ false
      → ((entries : List Entry) → room entries ≡ true)
      → laws.IsGood c.inbound
      → Returns (respond buf room config c sq) (Asked c sq)
  unfolding entries_due set_kernel_space
  respond-Asked c sq stream free good = elim (Bool-cases (ltb 0 (buf.buffered c.outbound))) [
    | inl out ↦ elim (Bool-cases c.closed) [
      | inl shut ↦ answered (respond-send_close c sq stream free out shut) (closing_send out shut)
      | inr still_open ↦
          answered (respond-send c sq stream free out still_open) (plain_send out still_open)
    ]
    | inr out ↦ elim (Bool-cases c.closed) [
      | inl shut ↦ answered (respond-close c sq stream free out shut) (closing out shut)
      | inr still_open ↦
          subst (λ m. Returns m (Asked c sq)) (sym (respond-recv c sq stream free out still_open))
            (Returns->>= (λ b. (laws.contents b ≡ laws.contents c.inbound) × laws.IsGood b)
              (Asked c sq) (buf.make_room c.inbound) (λ b. ret (received c sq stream free b))
              (laws.make_room_keeps c.inbound good) (λ b kept. receiving out still_open b kept.0))
    ]
  ]
    where
      answered :
          {m : Outcome (Local B Addr)} {l : Local B Addr}
          → m ≡ ret l
          → Asked c sq l
          → Returns m (Asked c sq)
      answered e a = subst (λ m. Returns m (Asked c sq)) (sym e) a

      plain_send :
          ltb 0 (buf.buffered c.outbound) ≡ true
          → c.closed ≡ false
          → Asked c sq (none, writing buf room c, sq ++ send_entry c ∷ [])
      plain_send out e = record {
        no_error = refl;
        entries = rw (out, e) refl;
        unread = refl;
        unsent = refl;
        with_kernel = rw (out, set_kernel_space) refl;
      }

      closing_send :
          ltb 0 (buf.buffered c.outbound) ≡ true
          → c.closed ≡ true
          → Asked c sq (
            none,
            record (writing buf room c) { state = conn_close },
            (sq ++ send_entry c ∷ []) ++ close_entry c ∷ [],
          )
      closing_send out e = record {
        no_error = refl;
        entries = append_assoc sq (send_entry c ∷ []) (close_entry c ∷ []) ∙ rw (out, e) refl;
        unread = refl;
        unsent = refl;
        with_kernel = rw (out, set_kernel_space) refl;
      }

      closing :
          ltb 0 (buf.buffered c.outbound) ≡ false
          → c.closed ≡ true
          → Asked c sq (none, record c { state = conn_close }, sq ++ close_entry c ∷ [])
      closing out e = record {
        no_error = refl;
        entries = rw (out, e) refl;
        unread = refl;
        unsent = refl;
        with_kernel = rw (out, e) refl;
      }

      receiving :
          ltb 0 (buf.buffered c.outbound) ≡ false
          → c.closed ≡ false
          → (b : B) → laws.contents b ≡ laws.contents c.inbound
          → Asked c sq (received c sq stream free b)
      receiving out e b kept = record {
        no_error = refl;
        entries = rw (out, e) refl;
        unread = kept;
        unsent = refl;
        with_kernel = rw (out, e, set_kernel_space) refl;
      }
