-- ===== src/Conn/Forking.antt =====
-- What `fork` makes of the main connection of a UDP socket.
use gain.Base.{ℕ, ◌≡◌, refl, Bool, true, false, some}
use gain.Buffer.{Buffer}
use gain.Conn.{
  Connection, from_outbound, to_inbound, fork, outbound_buffered, udp, set_msg_header_write,
  init_msg_header,
}

module _ {B Addr : Type 0} (buf : Buffer B) where
  pub fork-key :
      (c blank : Connection B Addr) (key : ℕ) (write : Bool)
      → (fork buf c blank key write).0.key ≡ key
  unfolding fork set_msg_header_write
  fork-key c blank key true = refl
  fork-key c blank key false = refl

  -- What a fork moves and what it leaves.
  pub record Split (c : Connection B Addr) (key : ℕ) (forked main : Connection B Addr)
      : Type 0 where
    pub key_of : forked.key ≡ key
    pub fd_of : forked.fd ≡ c.fd
    pub datagram : forked.network ≡ udp
    pub taken_in : forked.inbound ≡ c.inbound
    pub taken_out : forked.outbound ≡ c.outbound
    pub header : forked.msg_hdr ≡ some (from_outbound (buf.buffered c.outbound))
    pub main_key : main.key ≡ c.key
    pub main_fd : main.fd ≡ c.fd
    pub empty_in : main.inbound ≡ buf.fresh
    pub empty_out : main.outbound ≡ buf.fresh
    pub main_header : main.msg_hdr ≡ some (to_inbound (buf.cap buf.fresh))

  -- `fork` for a write gives the new connection both buffers of the main one with a header over the
  -- bytes to send, and leaves the main one fresh buffers with a header over the whole inbound one.
  pub fork-splits :
      (c blank : Connection B Addr) (key : ℕ)
      → Split c key (fork buf c blank key true).0 (fork buf c blank key true).1
  unfolding fork set_msg_header_write init_msg_header outbound_buffered
  fork-splits c blank key = record {
    key_of = refl;
    fd_of = refl;
    datagram = refl;
    taken_in = refl;
    taken_out = refl;
    header = refl;
    main_key = refl;
    main_fd = refl;
    empty_in = refl;
    empty_out = refl;
    main_header = refl;
  }
