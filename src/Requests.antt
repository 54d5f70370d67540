-- ===== src/Requests.antt =====
-- read.go, write.go, conn_closer.go and acceptor.go: the entries that go to the submission queue of io_uring.
use gain.Base.{ℕ, ◌%◌, ◌^◌, List, [], ◌∷◌, ◌++◌, Bool, false, Option, none, some, if◌then◌else◌}
use gain.Base.{Outcome, ret, ◌>>=◌}
use gain.Errors.{Error, getting_sqe}
use gain.Buffer.{Buffer}
use gain.Conn.{Connection, Iov, conn_read, conn_write, conn_close, set_kernel_space}
use gain.Flags.{accept_data_flag, user_data, read_data_flag, write_data_flag, close_conn_flag}

-- What an entry asks the kernel for. The address of a receive is the write address of the inbound
-- buffer, that of a send the read address of the outbound one.
pub data Request : Type 0 where
  recv : ℕ → ℕ → Request  -- the descriptor and the length
  recv_msg : ℕ → Option Iov → Request
  send : ℕ → ℕ → Request  -- the descriptor and the length
  send_msg : ℕ → Option Iov → Request
  close_fd : ℕ → Request
  accept : ℕ → Request
  msg_ring : ℕ → ℕ → Request  -- the descriptor of a ring and the number to send

-- The conversion of a length, which drops what does not fit 32 bits.
abbrev pub uint32 : ℕ → ℕ
uint32 n = n % 2 ^ 32

pub record Entry : Type 0 where
  pub request : Request
  pub data_of : ℕ
  pub link : Bool

abbrev pub plain : Request → ℕ → Entry
plain request data_of = record { request = request; data_of = data_of; link = false }

-- `GetSQE` is giouring's: `room` says whether the entries that wait leave room for one more.
module _ (room : List Entry → Bool) where
  unfoldable pub add_close_request : ℕ → List Entry → Option Error × List Entry
  add_close_request fd sq =
      if room sq
      then (none, sq ++ plain (close_fd fd) (user_data close_conn_flag fd) ∷ [])
      else (some getting_sqe, sq)

  -- `addAcceptRequest` of the acceptor, for the listening descriptor.
  unfoldable pub add_accept_request : ℕ → List Entry → Option Error × List Entry
  add_accept_request fd sq =
      if room sq
      then (none, sq ++ plain (accept fd) (user_data accept_data_flag fd) ∷ [])
      else (some getting_sqe, sq)

  abbrev pub closing :
      {B Addr : Type 0}
      → Connection B Addr
      → Option Error × List Entry
      → Option Error × Connection B Addr × List Entry
  closing c (some e, sq) = (some e, c, sq)
  closing c (none, sq) = (none, record c { state = conn_close }, sq)

  unfoldable pub add_close_conn_request :
      {B Addr : Type 0}
      → Connection B Addr
      → List Entry
      → Option Error × Connection B Addr × List Entry
  add_close_conn_request c sq = closing c (add_close_request c.fd sq)

module _ {B Addr : Type 0} (buf : Buffer B) (room : List Entry → Bool) where
  -- The entry of a receive, once the buffer has room.
  abbrev pub read_entry : Bool → Connection B Addr → Entry
  read_entry recv_msg_mode c =
      if recv_msg_mode
      then plain (recv_msg c.fd c.msg_hdr) (user_data read_data_flag c.key)
      else plain (recv c.fd (uint32 (buf.available c.inbound))) (user_data read_data_flag c.fd)

  abbrev pub reading : Connection B Addr → Connection B Addr
  reading c = set_kernel_space (record c { state = conn_read })

  unfoldable pub add_read_request :
      Bool
      → Connection B Addr
      → List Entry
      → Outcome (Option Error × Connection B Addr × List Entry)
  add_read_request recv_msg_mode c sq =
      if room sq
      then (do
        b ← buf.make_room c.inbound
        ret (
          none,
          reading (record c { inbound = b }),
          sq ++ read_entry recv_msg_mode (record c { inbound = b }) ∷ [],
        ))
      else ret (some getting_sqe, c, sq)

  abbrev pub write_entry : Bool → Connection B Addr → Bool → Entry
  write_entry send_msg_mode c link =
      if send_msg_mode
      then record {
        request = send_msg c.fd c.msg_hdr;
        data_of = user_data write_data_flag c.key;
        link = link;
      }
      else record {
        request = send c.fd (uint32 (buf.buffered c.outbound));
        data_of = user_data write_data_flag c.fd;
        link = link;
      }

  abbrev pub writing : Connection B Addr → Connection B Addr
  writing c = set_kernel_space (record c { state = conn_write })

  unfoldable pub add_write_request :
      Bool → Connection B Addr → Bool → List Entry → Option Error × Connection B Addr × List Entry
  add_write_request send_msg_mode c link sq =
      if room sq
      then (none, writing c, sq ++ write_entry send_msg_mode c link ∷ [])
      else (some getting_sqe, c, sq)
