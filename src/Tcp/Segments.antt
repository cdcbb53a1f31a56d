-- ===== src/Tcp/Segments.antt =====
-- src/tcp_engine.cpp: the handling of a segment that belongs to a flow.
use tunio.Base.{
  ℕ, zero, suc, ◌+◌, ◌-◌, ◌*◌, ◌/◌, ◌%◌, ◌^◌, List, [], ◌∷◌, Bool, true, false, ◌&&◌, ◌||◌, not,
  Option, none, some, u32, sub32, length, drop, ltb, ◌==◌, if◌then◌else◌,
}
use tunio.Config.{incr}
use tunio.Seq.{seq_gt, seq_ge}
use tunio.Account.{release}
use tunio.Tcp.Types.{
  TcpState, closed, syn_rcvd, syn_ack_sent, established, fin_wait_1, fin_wait_2, last_ack,
  time_wait, success, connection_reset, Channel, opened, OooSegment, WriteOp, Sys, signal_writer,
}
use tunio.Tcp.Output.{
  tcp_fin, tcp_syn, tcp_rst, tcp_ack, is_closed, emit, send_ack, send_segment,
  notify_window_updated,
}
use tunio.Tcp.Lifecycle.{close_flow, send_fin, notify_accept}
use tunio.Tcp.Receive.{drop_packet, flush_reads, handle_fin, deliver_data}
use tunio.Tcp.Ooo.{Cache, erase_segment, end_of, ooo_append}

-- The fields of a TCP header that the engine reads, and the flags of `flags & X`.
pub record TcpHeader : Type 0 where
  pub src_port : ℕ
  pub dst_port : ℕ
  pub seq : ℕ
  pub ack : ℕ
  pub data_offset : ℕ
  pub flags : ℕ
  pub window : ℕ

-- `flags & bit`, for a flag that is a power of two.
abbrev pub has : ℕ → ℕ → Bool
has flags bit = flags / bit % 2 == 1

-- A cached entry gives its bytes back and leaves.
unfoldable pub discard : Sys → ℕ → ℕ → Sys
discard s k len =
    let f = s.flow in
    record {
      flow = record f {
        ooo = record f.ooo { segments = erase_segment k f.segments; ooo_bytes = f.ooo_bytes - len };
      };
      eng = if ltb 0 len then record s.eng { account = release s.eng.account len } else s.eng;
    }

-- A state on its way through a loop: whether anything was done, and whether the function returned.
pub record Progress : Type 0 where
  pub sys : Sys
  pub done : Bool
  pub returned : Bool

-- The first loop of `flush_ooo`: an entry that the stream has passed is dropped, its FIN first.
unfoldable pub prune_step : ℕ × OooSegment → Progress → Progress
prune_step (k, g) p =
    let s = p.sys in
    let end = end_of k g in
    if not (seq_ge s.flow.rcv_nxt end)
    then p
    else (let t = if g.fin && end == s.flow.rcv_nxt then handle_fin s end else s in
        if is_closed t.flow.state
        then (record p { sys = t; returned = true })
        else (record { sys = discard t k (length g.bytes); done = true; returned = false }))

unfoldable pub prune_loop : Cache → Progress → Progress
prune_loop [] p = p
prune_loop (x ∷ xs) p = let rest = prune_loop xs (prune_step x p) in if p.returned then p else rest

-- The entry that holds the next byte of the stream, the first in the order of the keys.
unfoldable pub find_next : ℕ → Cache → Option (ℕ × OooSegment)
find_next rcv_nxt [] = none
find_next rcv_nxt ((k, g) ∷ m) =
    if k == rcv_nxt || (seq_gt rcv_nxt k && seq_gt (end_of k g) rcv_nxt)
    then some (k, g)
    else find_next rcv_nxt m

-- A cached entry leaves, and its bytes go back to the budget.
abbrev pub take_out : Sys → ℕ → ℕ → Sys
take_out s k len =
    let f = s.flow in
    record {
      flow = record f {
        ooo = record {
          segments = erase_segment k f.segments;
          ooo_bytes = f.ooo_bytes - len;
          ooo_count = f.ooo_count - 1;
        };
      };
      eng = record s.eng { account = release s.eng.account len };
    }

-- One round of the second loop: the entry leaves the cache, and what is new of it is delivered.
unfoldable pub uncache : Sys → ℕ → ℕ → Sys
uncache s k len = notify_window_updated (take_out s k len)

unfoldable pub deliver_cached : Sys → ℕ → OooSegment → Sys
deliver_cached s k g =
    let t = uncache s k (length g.bytes) in
    let skip = if k == t.flow.rcv_nxt then 0 else sub32 t.flow.rcv_nxt k in
    let u = if ltb skip (length g.bytes) then deliver_data t (drop skip g.bytes) else t in
    if g.fin && end_of k g == u.flow.rcv_nxt then handle_fin u (end_of k g) else u

unfoldable pub deliver_loop : ℕ → Progress → Progress
deliver_loop zero p = p
deliver_loop (suc fuel) p = elim (find_next p.sys.flow.rcv_nxt p.sys.flow.segments) [
  | none ↦ p
  | some (k, g) ↦
      let t = deliver_cached p.sys k g in
      let rest = deliver_loop fuel (record { sys = t; done = true; returned = false }) in
      if is_closed t.flow.state then (record { sys = t; done = p.done; returned = true }) else rest
]

-- What `flush_ooo` does when it ends without an early return.
unfoldable pub end_flush : Bool → Progress → Sys
end_flush pruned p =
    let s = p.sys in
    if p.returned
    then s
    else if p.done && not (is_closed s.flow.state)
    then send_ack s
    else if pruned && not (is_closed s.flow.state)
    then notify_window_updated s
    else s

-- Each round of the second loop removes an entry, so their number is fuel enough.
unfoldable pub flush_ooo : Sys → Sys
flush_ooo s =
    let first = prune_loop s.flow.segments (record { sys = s; done = false; returned = false }) in
    if first.returned
    then first.sys
    else (let f = first.sys.flow in
        let counted = record first.sys {
          flow = record f { ooo = record f.ooo { ooo_count = length f.segments } };
        } in
        end_flush first.done (
          deliver_loop (suc (length f.segments))
            (record { sys = counted; done = false; returned = false })))

abbrev pub count_ooo : Sys → Sys
count_ooo s = record s {
  eng = record s.eng { stats = record s.eng.stats { rx_ooo = incr s.eng.stats.rx_ooo } };
}

-- What `ooo_append` took is counted; what it refused is answered at once.
abbrev pub after_append : Sys × Bool → Sys
after_append (s, true) = count_ooo s
after_append (s, false) = send_ack s

unfoldable pub handle_data : Sys → ℕ → List ℕ → Bool → Sys
handle_data s seq bytes fin =
    let rcv_nxt = s.flow.rcv_nxt in
    if seq == rcv_nxt
    then flush_ooo (deliver_data s bytes)
    else if seq_gt seq rcv_nxt
    then after_append (ooo_append s seq bytes fin)
    else if seq_gt (u32 (seq + length bytes)) rcv_nxt
    then flush_ooo (deliver_data s (drop (sub32 rcv_nxt seq) bytes))
    else send_ack (drop_packet s)

-- The byte of an acknowledged window probe counts as sent.
abbrev pub count_probe : Option WriteOp → Option WriteOp
count_probe none = none
count_probe (some op) =
    if ltb op.offset op.total
    then some (record op { offset = op.offset + 1; buf_off = op.buf_off + 1 })
    else some op

-- The acknowledgement moves the send side, and ends a probe.
unfoldable pub advance_ack : Sys → ℕ → Sys
advance_ack s ack =
    let f = s.flow in
    if seq_gt ack f.snd_una && seq_ge f.snd_nxt ack
    then (record s { flow = record f { snd_una = ack; probe_in_flight = false } })
    else if f.probe_in_flight && (ack == u32 (f.snd_nxt + 1) && seq_gt ack f.snd_una)
    then (record s {
      flow = record f {
        snd_una = ack;
        snd_nxt = ack;
        active_write = count_probe f.active_write;
        probe_in_flight = false;
      };
    })
    else (record s { flow = record f { probe_in_flight = false } })

abbrev pub all_sent : Option WriteOp → Bool
all_sent none = true
all_sent (some op) = op.offset == op.total

-- A FIN that was put off goes out once all data are acknowledged.
unfoldable pub release_fin : Sys → Sys
release_fin s =
    if s.flow.fin_pending && (s.flow.snd_una == s.flow.snd_nxt && all_sent s.flow.active_write)
    then send_fin (record s { flow = record s.flow { fin_pending = false } })
    else s

abbrev pub is_last_ack : TcpState → Bool
is_last_ack last_ack = true
is_last_ack _ = false

abbrev pub is_fin_wait_1 : TcpState → Bool
is_fin_wait_1 fin_wait_1 = true
is_fin_wait_1 _ = false

-- The peer has acknowledged our FIN. The result says whether the flow is still there.
unfoldable pub acknowledge_fin : Sys → ℕ → Sys × Bool
acknowledge_fin s ack =
    let f = s.flow in
    let acknowledged = f.fin_sent && seq_ge ack f.snd_nxt in
    if is_fin_wait_1 f.state && acknowledged
    then (
      record s {
        flow = record f {
          state = if f.fin_received then time_wait else fin_wait_2;
          destroy_at =
              if f.fin_received then s.eng.now + s.eng.cfg.tcp_time_wait_timeout else f.destroy_at;
        };
      },
      true,
    )
    else if is_last_ack f.state && acknowledged
    then (close_flow s success, false)
    else (s, true)

unfoldable pub handle_ack : Sys → ℕ → Sys × Bool
handle_ack s ack = acknowledge_fin (release_fin (advance_ack s ack)) ack

abbrev pub is_opened : Channel → Bool
is_opened opened = true
is_opened _ = false

unfoldable pub signal_write : Sys → Sys
signal_write s = if is_opened s.flow.write_ch then emit s (signal_writer s.flow.id) else s

-- The FIN of a segment: out of order without data it is cached.
unfoldable pub segment_fin : Sys → ℕ → ℕ → Sys
segment_fin s fin_seq data_len =
    if data_len == 0 && seq_gt fin_seq s.flow.rcv_nxt
    then after_append (ooo_append s fin_seq [] true)
    else handle_fin s fin_seq

-- The data and the FIN of a segment on a flow that is past its handshake.
unfoldable pub segment_body : Sys → TcpHeader → List ℕ → Sys
segment_body s th bytes =
    let fin = has th.flags tcp_fin in
    let t = if ltb 0 (length bytes) then handle_data s th.seq bytes fin else s in
    signal_write (if fin then segment_fin t (u32 (th.seq + length bytes)) (length bytes) else t)

-- The client's acknowledgement of our SYN-ACK: a flow that nobody has accepted is offered, and what
-- came with the SYN is delivered.
abbrev pub open_flow : Sys → Sys
open_flow s = record {
  flow = record s.flow { state = established };
  eng = record s.eng {
    stats = record s.eng.stats { tcp_connections = incr s.eng.stats.tcp_connections };
  };
}

unfoldable pub establish : Sys → Sys
establish s = flush_reads (if s.flow.accepted then open_flow s else notify_accept (open_flow s))

-- By the state: before the handshake, in it, and after it.
unfoldable pub segment_state : TcpState → Sys → TcpHeader → List ℕ → Sys
segment_state closed s th bytes = s
segment_state syn_rcvd s th bytes = s
segment_state syn_ack_sent s th bytes =
    if has th.flags tcp_syn && th.seq == s.flow.irs
    then send_segment s s.flow.iss (tcp_syn + tcp_ack) [] true
    else if not (has th.flags tcp_ack) || not (th.ack == u32 (s.flow.iss + 1))
    then s
    else segment_body (establish s) th bytes
segment_state _ s th bytes = segment_body s th bytes

-- A reset ends the flow; else the state decides.
unfoldable pub segment_rest : Sys → TcpHeader → List ℕ → Sys
segment_rest s th bytes =
    if has th.flags tcp_rst
    then close_flow (record s { flow = record s.flow { rst = true } }) connection_reset
    else segment_state s.flow.state s th bytes

-- The window field counts in units of the peer's scale.
abbrev pub update_peer_wnd : Sys → ℕ → Sys
update_peer_wnd s wnd = record s {
  flow = record s.flow { peer_wnd = u32 (wnd * 2 ^ s.flow.snd_wnd_scale) };
}

unfoldable pub handle_segment : Sys → TcpHeader → List ℕ → Sys
handle_segment s th bytes =
    if has th.flags tcp_ack
    then (let (t, alive) = handle_ack s th.ack in
        if alive then segment_rest (update_peer_wnd t th.window) th bytes else t)
    else segment_rest s th bytes
