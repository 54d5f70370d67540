-- ===== src/ConnPool.antt =====
-- conn_pool.go: connections kept for reuse.
use gain.Base.{ℕ, Option, none, some, false}
use gain.SyncPool
use gain.SyncPool.{SyncPool}
use gain.Buffer.{Buffer}
use gain.Conn.{Connection, conn_invalid, kernel_space, tcp, new_connection}

-- The built-in pool is threaded through; `choice` is what its `sync.Pool` gives (see SyncPool.get).
module _ {B Addr : Type 0} (buf : Buffer B) where
  -- The fields that `Put` clears; a nil buffer stands as a fresh one, which `Get` sets anyway. The
  -- addresses and the next operation are not cleared.
  unfoldable pub cleared : Connection B Addr → Connection B Addr
  cleared c = record c {
    inbound = buf.fresh;
    outbound = buf.fresh;
    fd = 0;
    key = 0;
    state = conn_invalid;
    msg_hdr = none;
    raw_sockaddr = none;
    mode = kernel_space;
    closed = false;
    network = tcp;
  }

  pub put : SyncPool (Connection B Addr) → Connection B Addr → SyncPool (Connection B Addr)
  put p c = SyncPool.put p (cleared c)

  -- What `Get` makes of what the `sync.Pool` gave.
  pub reused : Option (Connection B Addr) → Connection B Addr
  reused none = new_connection buf
  reused (some c) = record c { inbound = buf.fresh; outbound = buf.fresh }

  pub get :
      SyncPool (Connection B Addr) → Option ℕ → Connection B Addr × SyncPool (Connection B Addr)
  get p choice = let (o, p') = SyncPool.get p choice in (reused o, p')
