-- ===== src/Sockaddr.antt =====
-- pkg/socket/socktoaddr.go: the kernel's socket addresses as Go's.
pub mod Decimal
mod Tests
use gain.Base.{
  ℕ, zero, suc, ◌+◌, ◌-◌, ◌*◌, ◌/◌, ◌%◌, ◌^◌, List, [], ◌∷◌, ◌++◌, Option, none, some, Bool, true,
  false,
}
use gain.Base.{Outcome, ret, panic, ◌>>=◌, if◌then◌else◌, ◌==◌, set, drop, length}

-- The loop of `int2decimal` over a slice of 32 bytes, from behind; the fuel is the number of bits.
pub fill : ℕ → ℕ → ℕ → List ℕ → Outcome (ℕ × List ℕ)
fill zero value pos buf = ret (pos, buf)
fill (suc fuel) value pos buf = elim (value == 0) [
  | true ↦ ret (pos, buf)
  | false ↦ elim (pos == 0) [
    | true ↦ panic
    | false ↦ fill fuel (value / 10) (pos - 1) (set buf (pos - 1) (value % 10 + b'0'))
  ]
]

-- `buf` is what the pool of byte slices gives for 32 bytes.
pub int2decimal : ℕ → List ℕ → Outcome (List ℕ)
unfolding fill
int2decimal value buf =
    if value == 0
    then ret (b'0' ∷ [])
    else fill 64 value 32 buf >>= λ (pos, written). ret (drop pos written)

-- `syscall.SockaddrInet4`, `SockaddrInet6` and `SockaddrUnix`; anything else is `other`.
pub data Sockaddr : Type 0 where
  inet4 : ℕ → List ℕ → Sockaddr
  inet6 : ℕ → ℕ → List ℕ → Sockaddr  -- the port, the zone and the address
  unix : List ℕ → Sockaddr
  other : Sockaddr

pub data Addr : Type 0 where
  tcp_addr : List ℕ → ℕ → List ℕ → Addr  -- the IP, the port and the zone
  udp_addr : List ℕ → ℕ → List ℕ → Addr
  unix_addr : List ℕ → Addr

abbrev pub ipv4_in_ipv6_prefix : List ℕ
ipv4_in_ipv6_prefix = 0 ∷ 0 ∷ 0 ∷ 0 ∷ 0 ∷ 0 ∷ 0 ∷ 0 ∷ 0 ∷ 0 ∷ 255 ∷ 255 ∷ []

-- The address has 4 bytes, the IP 16.
pub sockaddr_inet4_to_ip : List ℕ → List ℕ
sockaddr_inet4_to_ip addr = ipv4_in_ipv6_prefix ++ addr

-- `interface_name` is `net.InterfaceByIndex`.
module _ (interface_name : ℕ → Option (List ℕ)) (buf : List ℕ) where
  pub ip6_zone_to_string : ℕ → Outcome (List ℕ)
  ip6_zone_to_string zone =
      if zone == 0
      then ret []
      else elim (interface_name zone) [ some name ↦ ret name | none ↦ int2decimal zone buf ]

  -- `nil` is `none`.
  pub sockaddr_to_tcp_or_unix_addr : Sockaddr → Outcome (Option Addr)
  sockaddr_to_tcp_or_unix_addr (inet4 port addr) =
      ret (some (tcp_addr (sockaddr_inet4_to_ip addr) port []))
  sockaddr_to_tcp_or_unix_addr (inet6 port zone_id addr) = do
    zone ← ip6_zone_to_string zone_id
    ret (some (tcp_addr addr port zone))
  sockaddr_to_tcp_or_unix_addr (unix name) = ret (some (unix_addr name))
  sockaddr_to_tcp_or_unix_addr other = ret none

  pub sockaddr_to_udp_addr : Sockaddr → Outcome (Option Addr)
  sockaddr_to_udp_addr (inet4 port addr) = ret (some (udp_addr (sockaddr_inet4_to_ip addr) port []))
  sockaddr_to_udp_addr (inet6 port zone_id addr) = do
    zone ← ip6_zone_to_string zone_id
    ret (some (udp_addr addr port zone))
  sockaddr_to_udp_addr (unix name) = ret none
  sockaddr_to_udp_addr other = ret none
