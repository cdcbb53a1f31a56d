-- ===== src/Tests/Samples.antt =====
-- Sample values: an established flow with three bytes queued, of which it books all in the budget.
use tunio.Base.{ℕ, List, [], ◌∷◌, replicate, true, false, none, some}
use tunio.Config.{Config, Stats}
use tunio.Config.Keys.{FiveTuple}
use tunio.Tcp.Types.{
  established, syn_rcvd, syn_ack_sent, opened, WriteOp, Flow, Segment, Engine, Sys,
}
use tunio.Tcp.Segments.{TcpHeader}

abbrev pub source_ip : List ℕ
source_ip = 10 ∷ 0 ∷ 0 ∷ 2 ∷ replicate 12 0

abbrev pub target_ip : List ℕ
target_ip = 93 ∷ 184 ∷ 216 ∷ 34 ∷ replicate 12 0

abbrev pub sample_key : FiveTuple
sample_key = record {
  src_ip = source_ip;
  dst_ip = target_ip;
  src_port = 40000;
  dst_port = 443;
  protocol = 6;
  family = 4;
}

abbrev pub sample_cfg : Config
sample_cfg = record {
  mtu = 1500;
  max_tcp_flows = 2;
  max_udp_flows = 2;
  max_rx_queue_per_flow = 262144;
  tcp_ooo_max_segments = 64;
  max_total_buffer = 67108864;
  udp_idle_timeout = 30000;
  tcp_time_wait_timeout = 10000;
  tcp_accept_timeout = 30000;
  tcp_syn_timeout = 30000;
  tcp_close_timeout = 30000;
  tcp_persist_timeout = 5000;
  tcp_persist_max_probes = 15;
  tcp_rto_timeout = 200;
  tcp_rto_max_retransmits = 8;
}

abbrev pub sample_stats : Stats
sample_stats = record {
  rx_packets = 0;
  tx_packets = 0;
  rx_dropped = 0;
  rx_ooo = 0;
  tcp_connections = 1;
  udp_sessions = 0;
  icmp_replies = 0;
  tx_dropped = 0;
}

abbrev pub sample_write : WriteOp
sample_write = record {
  buffers = (1 ∷ 2 ∷ []) ∷ [] ∷ (3 ∷ 4 ∷ 5 ∷ []) ∷ [];
  total = 5;
  offset = 2;
  buf_index = 0;
  buf_off = 2;
  start_seq = 4294967294;
  implicit_accept = false;
  handler = 9;
}

abbrev pub sample_flow : Flow
sample_flow = record {
  id = 0;
  key = sample_key;
  snd_nxt = 0;
  snd_una = 4294967294;
  rcv_nxt = 4294967295;
  iss = 4294967293;
  irs = 4294967291;
  state = established;
  peer_wnd = 65535;
  snd_wnd_scale = 0;
  rcv_wnd_scale = 7;
  wscale_ok = true;
  last_wnd_advertised = 0;
  fin_sent = false;
  fin_received = false;
  fin_pending = false;
  rst = false;
  app_closed = false;
  rx_shutdown = false;
  accepted = true;
  pending_accept = false;
  probe_in_flight = false;
  created_at = 100;
  destroy_at = 0;
  close_started_at = 0;
  ack_pending = false;
  ack_timer = none;
  rx = record { rx_data = 7 ∷ 8 ∷ 9 ∷ []; rx_head = 0; rx_bytes = 3 };
  ooo = record { segments = []; ooo_bytes = 0; ooo_count = 0 };
  active_read = none;
  active_write = some sample_write;
  write_ch = opened;
}

abbrev pub sample_engine : Engine
sample_engine = record {
  cfg = sample_cfg;
  account = record { limit = 67108864; used = 3 };
  stats = sample_stats;
  flows = (sample_key, 0) ∷ [];
  pending_accepts = [];
  pending_flows = [];
  ip_id = 65535;
  now = 50000;
  out = [];
}

abbrev pub sample_sys : Sys
sample_sys = record { flow = sample_flow; eng = sample_engine }

-- Before and in the handshake.
abbrev pub asked_sys : Sys
asked_sys = record sample_sys { flow = record sample_flow { state = syn_rcvd } }

abbrev pub answered_sys : Sys
answered_sys = record sample_sys { flow = record sample_flow { state = syn_ack_sent } }

-- Five bytes and a FIN, one byte of them known already.
abbrev pub sample_header : TcpHeader
sample_header = record {
  src_port = 40000;
  dst_port = 443;
  seq = 4294967294;
  ack = 0;
  data_offset = 80;
  flags = 17;
  window = 512;
}

abbrev pub sample_bytes : List ℕ
sample_bytes = 10 ∷ 11 ∷ 12 ∷ 13 ∷ 14 ∷ []

abbrev pub syn_header : TcpHeader
syn_header = record {
  src_port = 40000;
  dst_port = 443;
  seq = 4294967291;
  ack = 0;
  data_offset = 112;
  flags = 2;
  window = 65535;
}

abbrev pub sample_segment : Segment
sample_segment = record {
  key = sample_key;
  ip_id = 1;
  seq = 4294967293;
  ack = 4294967292;
  flags = 18;
  window = 8192;
  with_mss = true;
  mss = 1460;
  wscale_ok = true;
  payload = 72 ∷ 105 ∷ [];
}
