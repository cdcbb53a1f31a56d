-- ===== src/Config.antt =====
-- include/tunio/tun_config.hpp: the engine's configuration, its counters and the flow keys.
pub mod Keys
use tunio.Base.{ℕ, ◌+◌, ◌-◌, ◌%◌, ◌^◌, List}

-- The limits and timeouts of `tun_config` that the engines read; times are in milliseconds.
pub record Config : Type 0 where
  pub mtu : ℕ
  pub max_tcp_flows : ℕ
  pub max_udp_flows : ℕ
  pub max_rx_queue_per_flow : ℕ
  pub tcp_ooo_max_segments : ℕ
  pub max_total_buffer : ℕ
  pub udp_idle_timeout : ℕ
  pub tcp_time_wait_timeout : ℕ
  pub tcp_accept_timeout : ℕ
  pub tcp_syn_timeout : ℕ
  pub tcp_close_timeout : ℕ
  pub tcp_persist_timeout : ℕ
  pub tcp_persist_max_probes : ℕ
  pub tcp_rto_timeout : ℕ
  pub tcp_rto_max_retransmits : ℕ

-- `engine_stats`: 64-bit counters.
pub record Stats : Type 0 where
  pub rx_packets : ℕ
  pub tx_packets : ℕ
  pub rx_dropped : ℕ
  pub rx_ooo : ℕ
  pub tcp_connections : ℕ
  pub udp_sessions : ℕ
  pub icmp_replies : ℕ
  pub tx_dropped : ℕ

-- `fetch_add(1)` and `fetch_sub(1)`.
abbrev pub incr : ℕ → ℕ
incr n = (n + 1) % 2 ^ 64

abbrev pub decr : ℕ → ℕ
decr n = (n + 2 ^ 64 - 1) % 2 ^ 64
