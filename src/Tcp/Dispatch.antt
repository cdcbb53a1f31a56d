-- ===== src/Tcp/Dispatch.antt =====
-- src/tcp_engine.cpp: the engine around its flows, and the arriving packets.
pub mod Options
use tunio.Base.{
  ℕ, zero, suc, ◌+◌, ◌-◌, ◌*◌, ◌/◌, ◌%◌, ◌^◌, List, [], ◌∷◌, ◌++◌, Bool, true, false, ◌&&◌, ◌||◌,
  not, Option, none, some, u32, length, drop, be16, be32, get_or, ltb, leb, ◌==◌, if◌then◌else◌,
}
use tunio.Config.{Config, incr}
use tunio.Config.Keys.{FiveTuple, make_five_tuple}
use tunio.Account.{reserve}
use tunio.Checksum.{tcp_udp_checksum}
use tunio.Headers.{ip_protocol_tcp}
use tunio.Tcp.Types.{
  TcpState, closed, syn_rcvd, syn_ack_sent, established, fin_wait_1, fin_wait_2, last_ack,
  time_wait, absent, success, operation_aborted, Flow, Engine, Sys, accept_done,
}
use tunio.Tcp.Output.{tcp_syn, tcp_ack, k_rcv_wnd_scale, is_closed}
use tunio.Tcp.Lifecycle.{find_flow, no_rx, no_ooo, close_flow, abort_flow, notify_accept}
use tunio.Tcp.Receive.{drop_packet}
use tunio.Tcp.Segments.{TcpHeader, has, handle_segment}

-- What `parse_syn_wscale` has found so far.
pub record Scale : Type 0 where
  pub wscale : ℕ
  pub wscale_ok : Bool

-- The loop over the options, from byte `o` to the header's end. Every round moves on by a byte or more.
unfoldable pub scan_options : ℕ → List ℕ → ℕ → ℕ → Scale → Scale
scan_options zero p hlen o found = found
scan_options (suc fuel) p hlen o found =
    let kind = get_or p o 0 in
    let olen = get_or p (o + 1) 0 in
    let value = get_or p (o + 2) 0 in
    let after_nop = scan_options fuel p hlen (o + 1) found in
    let after_option = scan_options fuel p hlen (o + olen) (
      if kind == 3 && (olen == 3 && leb value 14)
      then (record { wscale = value; wscale_ok = true })
      else found) in
    if ltb hlen (o + 2) || kind == 0
    then found
    else if kind == 1
    then after_nop
    else if ltb olen 2 || ltb hlen (o + olen)
    then found
    else after_option

unfoldable pub parse_syn_wscale : List ℕ → ℕ → Scale
parse_syn_wscale p hlen = scan_options hlen p hlen 20 (record { wscale = 0; wscale_ok = false })

-- The header at the front of the payload.
abbrev pub read_header : List ℕ → TcpHeader
read_header p = record {
  src_port = be16 p 0;
  dst_port = be16 p 2;
  seq = be32 p 4;
  ack = be32 p 8;
  data_offset = get_or p 12 0;
  flags = get_or p 13 0;
  window = be16 p 14;
}

abbrev pub header_len : TcpHeader → ℕ
header_len th = th.data_offset / 16 * 4

-- The engine with the objects behind its flow pointers; the next object has the identity `fresh`.
pub record World : Type 0 where
  pub eng : Engine
  pub objects : ℕ → Flow
  pub fresh : ℕ

-- An operation on one object.
abbrev pub view : World → ℕ → Sys
view w i = record { flow = w.objects i; eng = w.eng }

abbrev pub put : World → ℕ → Sys → World
put w i s = record w { eng = s.eng; objects = λ j. if j == i then s.flow else w.objects j }

abbrev pub on_flow : World → ℕ → (Sys → Sys) → World
on_flow w i op = put w i (op (view w i))

-- The fields of `ip_packet_info` that the engine reads.
pub record IpInfo : Type 0 where
  pub family : ℕ
  pub src_ip : List ℕ
  pub dst_ip : List ℕ

abbrev pub count_drop : World → World
count_drop w = record w {
  eng = record w.eng { stats = record w.eng.stats { rx_dropped = incr w.eng.stats.rx_dropped } };
}

-- The control block that a SYN creates; `iss` is the random number.
abbrev pub new_flow : World → FiveTuple → TcpHeader → Scale → ℕ → Flow
new_flow w key th scale iss = record {
  id = w.fresh;
  key = key;
  snd_nxt = iss;
  snd_una = iss;
  rcv_nxt = u32 (th.seq + 1);
  iss = iss;
  irs = th.seq;
  state = syn_rcvd;
  peer_wnd = th.window;
  snd_wnd_scale = if scale.wscale_ok then scale.wscale else 0;
  rcv_wnd_scale = if scale.wscale_ok then k_rcv_wnd_scale else 0;
  wscale_ok = scale.wscale_ok;
  last_wnd_advertised = 0;
  fin_sent = false;
  fin_received = false;
  fin_pending = false;
  rst = false;
  app_closed = false;
  rx_shutdown = false;
  accepted = false;
  pending_accept = false;
  probe_in_flight = false;
  created_at = w.eng.now;
  destroy_at = 0;
  close_started_at = 0;
  ack_pending = false;
  ack_timer = none;
  rx = no_rx;
  ooo = no_ooo;
  active_read = none;
  active_write = none;
  write_ch = absent;
}

-- The SYN's own data are queued when they fit; the handshake acknowledges them.
unfoldable pub take_syn_data : Sys → List ℕ → Sys
take_syn_data s bytes =
    let len = length bytes in
    let (account, fits) = reserve s.eng.account len in
    if len == 0
    then s
    else if leb (s.flow.rx_bytes + len) s.eng.cfg.max_rx_queue_per_flow && fits
    then (record {
      flow = record s.flow {
        rcv_nxt = u32 (s.flow.rcv_nxt + len);
        rx = record s.flow.rx {
          rx_data = s.flow.rx_data ++ bytes;
          rx_bytes = s.flow.rx_bytes + len;
        };
      };
      eng = record s.eng { account = account };
    })
    else drop_packet s

-- A SYN without a flow: a new one within the limit, offered to the application.
unfoldable pub open_from_syn : World → FiveTuple → TcpHeader → Scale → ℕ → List ℕ → World
open_from_syn w key th scale iss bytes =
    if leb w.eng.cfg.max_tcp_flows (length w.eng.flows)
    then count_drop w
    else (let s : Sys = record {
      flow = new_flow w key th scale iss;
      eng = record w.eng { flows = (key, w.fresh) ∷ w.eng.flows };
    } in
        put (record w { fresh = suc w.fresh }) w.fresh (notify_accept (take_syn_data s bytes)))

abbrev pub is_syn : TcpHeader → Bool
is_syn th = has th.flags tcp_syn && not (has th.flags tcp_ack)

abbrev pub is_time_wait : TcpState → Bool
is_time_wait time_wait = true
is_time_wait _ = false

-- A segment without a flow.
unfoldable pub unknown_flow : World → FiveTuple → TcpHeader → Scale → ℕ → List ℕ → World
unknown_flow w key th scale iss bytes =
    if is_syn th then open_from_syn w key th scale iss bytes else w

-- By what the table holds; a SYN to a flow in TIME_WAIT ends that flow and starts a new one.
unfoldable pub route : Option ℕ → World → FiveTuple → TcpHeader → Scale → ℕ → List ℕ → World
route none w key th scale iss bytes = unknown_flow w key th scale iss bytes
route (some i) w key th scale iss bytes =
    if is_time_wait (w.objects i).state && is_syn th
    then unknown_flow (on_flow w i (λ s. close_flow s success)) key th scale iss bytes
    else on_flow w i (λ s. handle_segment s th bytes)

-- `on_packet`, with the packet's payload and the number that `random_iss` gives.
unfoldable pub on_packet : World → IpInfo → List ℕ → ℕ → World
on_packet w ip p iss =
    let th = read_header p in
    let hlen = header_len th in
    let key =
      make_five_tuple ip.src_ip ip.dst_ip th.src_port th.dst_port ip_protocol_tcp ip.family in
    if ltb (length p) 20
    then count_drop w
    else if not (tcp_udp_checksum ip.family ip.src_ip ip.dst_ip ip_protocol_tcp p == 0)
    then count_drop w
    else if ltb hlen 20 || ltb (length p) hlen
    then count_drop w
    else route (find_flow key w.eng.flows) w key th (parse_syn_wscale p hlen) iss (drop hlen p)
