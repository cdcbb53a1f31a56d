-- ===== src/Tcp/Output.antt =====
-- src/tcp_engine.cpp: the advertised window, and the building and sending of segments.
pub mod Window
pub mod Packet
pub mod Frames
pub mod Delayed
use tunio.Base.{
  ℕ, ◌+◌, ◌-◌, ◌*◌, ◌/◌, ◌%◌, ◌^◌, List, [], ◌∷◌, ◌++◌, Bool, true, false, ◌&&◌, ◌||◌, not, Option,
  none, some, length, bytes16, bytes32, u8, u16, u32, min, ltb, leb, ◌==◌, if◌then◌else◌,
}
use tunio.Config.{Config}
use tunio.Checksum.{tcp_udp_checksum}
use tunio.Headers.{ip_protocol_tcp, ip_header_size, build_ip_header}
use tunio.Tcp.Types.{
  TcpState, closed, syn_rcvd, syn_ack_sent, established, fin_wait_1, fin_wait_2, close_wait,
  last_ack, time_wait, Flow, Engine, Sys, Segment, Effect, send,
}

abbrev pub tcp_fin : ℕ
tcp_fin = 0x01

abbrev pub tcp_syn : ℕ
tcp_syn = 0x02

abbrev pub tcp_rst : ℕ
tcp_rst = 0x04

abbrev pub tcp_psh : ℕ
tcp_psh = 0x08

abbrev pub tcp_ack : ℕ
tcp_ack = 0x10

abbrev pub fixed_rcv_wnd : ℕ
fixed_rcv_wnd = 1048576

abbrev pub k_rcv_wnd_scale : ℕ
k_rcv_wnd_scale = 7

abbrev pub is_closed : TcpState → Bool
is_closed closed = true
is_closed _ = false

abbrev pub is_syn_ack_sent : TcpState → Bool
is_syn_ack_sent syn_ack_sent = true
is_syn_ack_sent _ = false

-- `mss4_` and `mss6_` of the constructor, and `mss(family)`.
unfoldable pub mss : Config → ℕ → ℕ
mss cfg family =
    if family == 6
    then (if ltb 60 cfg.mtu then cfg.mtu - 60 else 1220)
    else (if ltb 40 cfg.mtu then cfg.mtu - 40 else 536)

-- `queued` and `global_avail` of `current_wnd`.
abbrev pub queued : Flow → ℕ
queued f = u32 (f.rx_bytes + f.ooo_bytes)

abbrev pub global_avail : Engine → ℕ
global_avail e = if ltb e.account.used e.account.limit then e.account.limit - e.account.used else 0

-- The window that the flow's own queue limit leaves, the one that the shared budget leaves, and 0
-- below one segment.
unfoldable pub current_wnd : Sys → ℕ
current_wnd s =
    let max_rx = s.eng.cfg.max_rx_queue_per_flow in
    let local =
      if ltb (queued s.flow) max_rx then min fixed_rcv_wnd (u32 (max_rx - queued s.flow)) else 0 in
    let wnd = if s.eng.account.limit == 0 then local else min local (u32 (global_avail s.eng)) in
    if ltb wnd (mss s.eng.cfg s.flow.key.family) then 0 else wnd

-- The window field: the window scaled down, at most 65535.
unfoldable pub window_field : Sys → ℕ
window_field s =
    let scale = if is_syn_ack_sent s.flow.state then 0 else s.flow.rcv_wnd_scale in
    min (current_wnd s / 2 ^ scale) 65535

-- `++ip_id_` of the writer.
abbrev pub next_ip_id : ℕ → ℕ
next_ip_id n = u16 (n + 1)

-- `build_segment`: the header fields that it computes.
unfoldable pub segment_fields : Sys → ℕ → ℕ → List ℕ → Bool → Segment
segment_fields s seq flags payload with_mss = record {
  key = s.flow.key;
  ip_id = next_ip_id s.eng.ip_id;
  seq = seq;
  ack = s.flow.rcv_nxt;
  flags = flags;
  window = window_field s;
  with_mss = with_mss;
  mss = mss s.eng.cfg s.flow.key.family;
  wscale_ok = s.flow.wscale_ok;
  payload = payload;
}

-- `build_segment`: what it leaves behind in the flow and the writer.
unfoldable pub build_segment : Sys → ℕ → ℕ → List ℕ → Bool → Sys × Segment
build_segment s seq flags payload with_mss = (
  record {
    flow = record s.flow { last_wnd_advertised = current_wnd s };
    eng = record s.eng { ip_id = next_ip_id s.eng.ip_id };
  },
  segment_fields s seq flags payload with_mss,
)

-- The options of a SYN-ACK: MSS, then window scale and a NOP or four NOPs.
unfoldable pub options : Segment → List ℕ
options g =
    if g.with_mss
    then (2 ∷ 4 ∷ bytes16 (u16 g.mss))
      ++ (if g.wscale_ok then 3 ∷ 3 ∷ k_rcv_wnd_scale ∷ 1 ∷ [] else 1 ∷ 1 ∷ 1 ∷ 1 ∷ [])
    else []

-- The TCP header up to its checksum, and from behind it on.
unfoldable pub segment_before : Segment → List ℕ
segment_before g =
    bytes16 g.key.dst_port
    ++ (bytes16 g.key.src_port
        ++ (bytes32 g.seq
            ++ (bytes32 g.ack
                ++ ((if g.with_mss then 0x70 else 0x50) ∷ g.flags ∷ bytes16 g.window))))

unfoldable pub segment_after : Segment → List ℕ
unfolding options
segment_after g = bytes16 0 ++ (options g ++ g.payload)

-- The TCP part of the packet, its checksum taken over itself with the field at 0.
unfoldable pub segment_bytes : Segment → List ℕ
unfolding segment_before segment_after tcp_udp_checksum
segment_bytes g =
    let blank = segment_before g ++ (bytes16 0 ++ segment_after g) in
    segment_before g
    ++ (bytes16 (tcp_udp_checksum g.key.family g.key.dst_ip g.key.src_ip ip_protocol_tcp blank)
        ++ segment_after g)

-- The whole packet of `build_segment`, from the flow's destination back to its source.
unfoldable pub packet_bytes : Segment → List ℕ
unfolding segment_bytes build_ip_header ip_header_size
packet_bytes g =
    build_ip_header g.key.family g.key.dst_ip g.key.src_ip ip_protocol_tcp
      (ip_header_size g.key.family + (if g.with_mss then 28 else 20) + length g.payload) g.ip_id 64
    ++ segment_bytes g

unfoldable pub emit : Sys → Effect → Sys
emit s e = record s { eng = record s.eng { out = s.eng.out ++ (e ∷ []) } }

-- Nothing is sent on a closed flow; every segment carries the acknowledgement that was pending.
unfoldable pub send_segment : Sys → ℕ → ℕ → List ℕ → Bool → Sys
send_segment s seq flags payload with_mss =
    if is_closed s.flow.state
    then s
    else (let (built, segment) =
          build_segment (record s { flow = record s.flow { ack_pending = false } }) seq flags
            payload with_mss in
        emit built (send segment))

unfoldable pub send_ack : Sys → Sys
send_ack s = send_segment s s.flow.snd_nxt tcp_ack [] false

unfoldable pub flush_pending_ack : Sys → Sys
flush_pending_ack s = if s.flow.ack_pending then send_ack s else s

-- The second segment in a row is acknowledged at once; the first starts the 40 ms timer.
unfoldable pub note_data_ack : Sys → Sys
note_data_ack s =
    if s.flow.ack_pending
    then send_ack s
    else record s { flow = record s.flow { ack_pending = true; ack_timer = some (s.eng.now + 40) } }

-- The delayed acknowledgement's timer fires.
unfoldable pub expire_ack : Sys → Sys
expire_ack s =
    let t = record s { flow = record s.flow { ack_timer = none } } in
    if is_closed s.flow.state || not s.flow.ack_pending then t else send_ack t

-- A window that opens again, or grows by more than one segment, is announced.
unfoldable pub notify_window_updated : Sys → Sys
notify_window_updated s =
    if is_closed s.flow.state
    then s
    else (let wnd = current_wnd s in
        let mss_bytes = mss s.eng.cfg s.flow.key.family in
        let last = s.flow.last_wnd_advertised in
        let told =
          if (last == 0 && leb mss_bytes wnd) || (not (last == 0) && ltb (last + mss_bytes) wnd)
          then send_ack s
          else s in
        record told { flow = record told.flow { last_wnd_advertised = wnd } })
