-- ===== src/Listener.antt =====
-- socket.go: the address that a server is started with, and its listening sockets.
pub mod Parsing
pub mod Choosing
mod Tests
use Prim.Native.Char.{code}
use Prim.Native.String.{String}
use gain.Base.{
  ℕ, zero, suc, ◌+◌, List, [], ◌∷◌, ◌++◌, map, Bool, true, false, Option, none, some, ◌&&◌, ◌||◌,
}
use gain.Base.{if◌then◌else◌, ltb, leb, ◌==◌}
use gain.Errors.{Error, unsupported_protocol}
use gain.Config.{Config, Architecture, reactor, socket_sharding}

-- A text as its bytes.
abbrev pub codes : String → List ℕ
codes String.[] = []
codes (String.◌∷◌ c s) = code c ∷ codes s

abbrev pub same_text : List ℕ → List ℕ → Bool
same_text [] [] = true
same_text [] (y ∷ ys) = false
same_text (x ∷ xs) [] = false
same_text (x ∷ xs) (y ∷ ys) = (x == y) && same_text xs ys

-- `strings.ToLower` on ASCII.
unfoldable pub to_lower : ℕ → ℕ
to_lower c = if leb b'A' c && leb c b'Z' then c + 32 else c

abbrev pub separator : List ℕ
separator = b':' ∷ b'/' ∷ b'/' ∷ []

abbrev pub starts : List ℕ → Bool
starts [] = false
starts (a ∷ []) = false
starts (a ∷ b ∷ []) = false
starts (a ∷ b ∷ c ∷ rest) = (a == b':') && (b == b'/') && (c == b'/')

abbrev behind_separator : List ℕ → List ℕ
behind_separator [] = []
behind_separator (a ∷ []) = []
behind_separator (a ∷ b ∷ []) = []
behind_separator (a ∷ b ∷ c ∷ rest) = rest

-- What stands before and behind the first separator, if there is one.
pub cut : List ℕ → Option (List ℕ × List ℕ)
cut [] = none
cut (c ∷ cs) =
    if starts (c ∷ cs)
    then some ([], behind_separator (c ∷ cs))
    else elim (cut cs) [ none ↦ none | some (before, behind) ↦ some (c ∷ before, behind) ]

-- The first of the parts that `strings.Split` gives.
abbrev pub before_cut : Option (List ℕ × List ℕ) → List ℕ → List ℕ
before_cut none s = s
before_cut (some (before, behind)) s = before

pub first_part : List ℕ → List ℕ
unfolding cut
first_part s = before_cut (cut s) s

abbrev pub split_address : Option (List ℕ × List ℕ) → List ℕ → List ℕ × List ℕ
split_address none address = (codes "tcp", address)
split_address (some (network, behind)) address = (network, first_part behind)

-- The network and the address; what stands behind a second separator is dropped.
pub parse_proto_addr : List ℕ → List ℕ × List ℕ
unfolding cut first_part to_lower
parse_proto_addr addr = let address = map to_lower addr in split_address (cut address) address

-- A socket option with its value.
pub data SockOpt : Type 0 where
  reuseport reuse_addr no_delay quick_ack fast_open : SockOpt
  recv_buffer send_buffer : ℕ → SockOpt

abbrev pub is_tcp : List ℕ → Bool
is_tcp n = same_text n (codes "tcp") || same_text n (codes "tcp4") || same_text n (codes "tcp6")

abbrev pub is_udp : List ℕ → Bool
is_udp n = same_text n (codes "udp") || same_text n (codes "udp4") || same_text n (codes "udp6")

-- `strings.HasPrefix(network, "tcp")`
abbrev pub has_tcp_prefix : List ℕ → Bool
has_tcp_prefix [] = false
has_tcp_prefix (a ∷ []) = false
has_tcp_prefix (a ∷ b ∷ []) = false
has_tcp_prefix (a ∷ b ∷ c ∷ rest) = (a == b't') && (b == b'c') && (c == b'p')

-- What the system gives for a socket: the descriptor, the bound address and the error.
pub record Opened (Addr : Type 0) : Type 0 where
  pub fd : ℕ
  pub addr : Option Addr
  pub error : Option Error

pub record Listener (Addr : Type 0) : Type 0 where
  pub fd : ℕ
  pub addr : Option Addr
  pub network : List ℕ
  pub sock_opts : List SockOpt

abbrev optional : ℕ → (ℕ → SockOpt) → List SockOpt
optional size opt = if ltb 0 size then opt size ∷ [] else []

-- The options that `initListener` collects.
pub options : List ℕ → Config → List SockOpt
options network config =
    (reuseport ∷ reuse_addr ∷ [])
    ++ ((if has_tcp_prefix network then no_delay ∷ quick_ack ∷ fast_open ∷ [] else [])
        ++ (optional config.socket_recv_buffer_size recv_buffer
            ++ optional config.socket_send_buffer_size send_buffer))

-- `tcp_socket` and `udp_socket` open the system's sockets (pkg/socket), and `filter_error` is what
-- applying the packet filter to a descriptor gives.
module _ {Addr : Type 0} (tcp_socket udp_socket : List ℕ → List ℕ → List SockOpt → Opened Addr)
    (filter_error : ℕ → Option Error) where
  abbrev listening : List ℕ → List SockOpt → Opened Addr → Listener Addr × Option Error
  listening network opts o =
      (record { fd = o.fd; addr = o.addr; network = network; sock_opts = opts }, o.error)

  -- `normalize` of a listener that has no socket yet
  pub normalize : List ℕ → List ℕ → List SockOpt → Listener Addr × Option Error
  normalize network address opts =
      if is_tcp network
      then listening (codes "tcp") opts (tcp_socket network address opts)
      else if is_udp network
      then listening (codes "udp") opts (udp_socket network address opts)
      else (
        record { fd = 0; addr = none; network = network; sock_opts = opts },
        some unsupported_protocol,
      )

  pub init_listener : List ℕ → List ℕ → Config → Listener Addr × Option Error
  init_listener network address config =
      let (ln, err) = normalize network address (options network config) in
      (ln, if config.cbpf_filter then filter_error ln.fd else err)

-- The choice of `start` between the two architectures, by the network of the address.
pub uses_sharding : Config → List ℕ → Bool
uses_sharding config network = elim config.architecture [
  | socket_sharding ↦ true
  | reactor ↦ same_text network (codes "udp")
]

-- `sendRecvMsg` of the shard workers
pub uses_messages : List ℕ → Bool
uses_messages network = same_text network (codes "udp")
