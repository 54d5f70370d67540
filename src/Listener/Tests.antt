-- ===== src/Listener/Tests.antt =====
-- Addresses as they are written, and listeners with a packet filter.
use gain.Base.{ℕ, ◌≡◌, refl, arith, List, [], ◌∷◌, ◌++◌, true, false, none, some}
use gain.Errors.{sys}
use gain.Config.{Config, new_config, with_cbpf, with_workers}
use gain.Listener.{codes, separator, cut, parse_proto_addr, SockOpt, Opened, init_listener}
use gain.Listener.{normalize, uses_sharding, uses_messages, to_lower}
use gain.Listener.Parsing.{parse_proto_addr-separator}

shouted : parse_proto_addr (codes "UDP://Host:80") ≡ (codes "udp", codes "host:80")
unfolding parse_proto_addr
shouted = refl

-- What stands behind a second separator is dropped.
dropped : parse_proto_addr (codes "tcp://a://b") ≡ (codes "tcp", codes "a")
unfolding parse_proto_addr
dropped = refl

parse_proto_addr-separator_example :
    parse_proto_addr (codes "udp" ++ (separator ++ codes "localhost:8080"))
    ≡ (codes "udp", codes "localhost:8080")
unfolding cut to_lower
parse_proto_addr-separator_example =
    parse_proto_addr-separator (codes "udp") (codes "localhost:8080") refl refl
      ((λ e. omega arith), ((λ e. omega arith), ((λ e. omega arith), tt))) refl

-- Opening a socket fails with the error 98.
abbrev address_in_use : List ℕ → List ℕ → List SockOpt → Opened ℕ
address_in_use network address opts = record { fd = 0; addr = none; error = some (sys 98) }

abbrev filtered : Config
unfolding new_config with_cbpf
filtered = new_config 4 (with_cbpf true ∷ [])

abbrev plain : Config
unfolding new_config with_workers
plain = new_config 4 (with_workers 2 ∷ [])

-- The listener of udp4 is that of udp, but neither the shards nor messages are used for it.
udp4_on_reactor :
    let r =
      init_listener address_in_use address_in_use
        (λ _. none)
        (codes "udp4")
        (codes "localhost:80")
        plain in
    (uses_sharding plain (codes "udp4") ≡ false)
    × (uses_messages (codes "udp4") ≡ false)
    × (r.0.network ≡ codes "udp")
unfolding new_config with_workers uses_sharding uses_messages init_listener normalize
udp4_on_reactor = (refl, refl, refl)
