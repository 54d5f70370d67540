-- ===== src/Listener/Choosing.antt =====
-- What becomes of the network of an address: the socket, the architecture and the kind of requests.
use gain.Base.{ℕ, ◌≡◌, refl, List, true, Option}
use gain.Errors.{Error}
use gain.Config.{Config}
use gain.Listener.{SockOpt, Opened, init_listener}

module _ {Addr : Type 0} (tcp_socket udp_socket : List ℕ → List ℕ → List SockOpt → Opened Addr)
    (filter_error : ℕ → Option Error) where
  -- With the packet filter configured, the error returned is the filter's, also when the socket
  -- could not be opened.
  pub init_listener-hides :
      (network address : List ℕ) (config : Config)
      → config.cbpf_filter ≡ true
      → let r = init_listener tcp_socket udp_socket filter_error network address config in
        r.1 ≡ filter_error r.0.fd
  unfolding init_listener
  init_listener-hides network address config on = rw on refl
