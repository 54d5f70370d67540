-- ===== src/Config.antt =====
-- config.go: the settings of a server and the options that change them.
use gain.Base.{ℕ, Bool, false, List, [], ◌∷◌}

pub data Architecture : Type 0 where
  reactor socket_sharding : Architecture

-- Sizes and numbers of workers are ints that are not negative; the kind of load balancing is that of
-- LoadBalancer, the keep-alive time is in nanoseconds, and the logger's level is a number.
pub record Config : Type 0 where
  pub architecture : Architecture
  pub async_handler : Bool
  pub goroutine_pool : Bool
  pub cpu_affinity : Bool
  pub process_priority : Bool
  pub workers : ℕ
  pub cbpf_filter : Bool
  pub load_balancing : ℕ
  pub socket_recv_buffer_size : ℕ
  pub socket_send_buffer_size : ℕ
  pub tcp_keep_alive : ℕ
  pub logger_level : ℕ
  pub pretty_logger : Bool
  pub max_sq_entries : ℕ
  pub max_cq_events : ℕ

-- `ConfigOption`
abbrev pub ConfigOption : Type 0
ConfigOption = Config → Config

abbrev default_max_sq_entries : ℕ
default_max_sq_entries = 16384

abbrev default_max_cq_events : ℕ
default_max_cq_events = 16384

abbrev error_level : ℕ
error_level = 3

unfoldable pub with_architecture : Architecture → ConfigOption
with_architecture value c = record c { architecture = value }

unfoldable pub with_async_handler : Bool → ConfigOption
with_async_handler value c = record c { async_handler = value }

unfoldable pub with_goroutine_pool : Bool → ConfigOption
with_goroutine_pool value c = record c { goroutine_pool = value }

unfoldable pub with_cpu_affinity : Bool → ConfigOption
with_cpu_affinity value c = record c { cpu_affinity = value }

unfoldable pub with_process_priority : Bool → ConfigOption
with_process_priority value c = record c { process_priority = value }

unfoldable pub with_workers : ℕ → ConfigOption
with_workers value c = record c { workers = value }

unfoldable pub with_cbpf : Bool → ConfigOption
with_cbpf value c = record c { cbpf_filter = value }

unfoldable pub with_load_balancing : ℕ → ConfigOption
with_load_balancing value c = record c { load_balancing = value }

unfoldable pub with_socket_recv_buffer_size : ℕ → ConfigOption
with_socket_recv_buffer_size value c = record c { socket_recv_buffer_size = value }

unfoldable pub with_socket_send_buffer_size : ℕ → ConfigOption
with_socket_send_buffer_size value c = record c { socket_send_buffer_size = value }

unfoldable pub with_tcp_keep_alive : ℕ → ConfigOption
with_tcp_keep_alive value c = record c { tcp_keep_alive = value }

unfoldable pub with_logger_level : ℕ → ConfigOption
with_logger_level value c = record c { logger_level = value }

unfoldable pub with_pretty_logger : Bool → ConfigOption
with_pretty_logger value c = record c { pretty_logger = value }

unfoldable pub with_max_sq_entries : ℕ → ConfigOption
with_max_sq_entries value c = record c { max_sq_entries = value }

unfoldable pub with_max_cq_events : ℕ → ConfigOption
with_max_cq_events value c = record c { max_cq_events = value }

-- The loop over the options
unfoldable pub apply_all : List ConfigOption → Config → Config
apply_all [] c = c
apply_all (opt ∷ opts) c = apply_all opts (opt c)

-- `cpus` is `runtime.NumCPU()`.
unfoldable pub new_config : ℕ → List ConfigOption → Config
unfolding apply_all
new_config cpus opts = apply_all opts (record {
  architecture = reactor;
  async_handler = false;
  goroutine_pool = false;
  cpu_affinity = false;
  process_priority = false;
  logger_level = error_level;
  pretty_logger = false;
  workers = cpus;
  cbpf_filter = false;
  load_balancing = 0;
  socket_recv_buffer_size = 0;
  socket_send_buffer_size = 0;
  tcp_keep_alive = 0;
  max_sq_entries = default_max_sq_entries;
  max_cq_events = default_max_cq_events;
})
