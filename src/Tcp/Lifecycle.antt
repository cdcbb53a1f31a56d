-- ===== src/Tcp/Lifecycle.antt =====
-- src/tcp_engine.cpp: the life of a flow, from the handshake's approval to its removal.
pub mod Closing
pub mod Handshake
use tunio.Base.{
  ℕ, ◌+◌, List, [], ◌∷◌, ◌++◌, Bool, true, false, ◌&&◌, ◌||◌, not, Option, none, some, u32, ltb,
  ◌==◌, if◌then◌else◌,
}
use tunio.Config.{decr}
use tunio.Config.Keys.{FiveTuple, five_tuple_eq}
use tunio.Account.{release}
use tunio.Tcp.Types.{
  TcpState, closed, syn_rcvd, syn_ack_sent, established, fin_wait_1, fin_wait_2, close_wait,
  last_ack, time_wait, ErrorCode, success, connection_reset, Channel, absent, opened, shut, ReadOp,
  WriteOp, RxQueue, OooCache, Flow, Engine, Sys, Effect, read_done, write_done, accept_done,
}
use tunio.Tcp.Output.{tcp_fin, tcp_syn, tcp_rst, tcp_ack, is_closed, send_segment, emit}

-- `flows_.erase(key)`.
unfoldable pub erase_key : FiveTuple → List (FiveTuple × ℕ) → List (FiveTuple × ℕ)
erase_key k [] = []
erase_key k ((j, i) ∷ m) = if five_tuple_eq j k then m else (j, i) ∷ erase_key k m

-- `flows_.find(key)`.
unfoldable pub find_flow : FiveTuple → List (FiveTuple × ℕ) → Option ℕ
find_flow k [] = none
find_flow k ((j, i) ∷ m) = if five_tuple_eq j k then some i else find_flow k m

-- `std::find` of the flow itself, and the erasure of what it finds.
unfoldable pub erase_flow : ℕ → List ℕ → List ℕ
erase_flow i [] = []
erase_flow i (j ∷ l) = if j == i then l else j ∷ erase_flow i l

abbrev pub no_rx : RxQueue
no_rx = record { rx_data = []; rx_head = 0; rx_bytes = 0 }

abbrev pub no_ooo : OooCache
no_ooo = record { segments = []; ooo_bytes = 0; ooo_count = 0 }

-- Both receive queues are given back to the budget and emptied.
unfoldable pub drop_buffers : Sys → Sys
drop_buffers s =
    let without_rx =
      if ltb 0 s.flow.rx_bytes then release s.eng.account s.flow.rx_bytes else s.eng.account in
    let without_ooo =
      if ltb 0 s.flow.ooo_bytes then release without_rx s.flow.ooo_bytes else without_rx in
    record {
      flow = record s.flow { rx = no_rx; ooo = no_ooo };
      eng = record s.eng { account = without_ooo };
    }

-- The completions of the pending operations, the read first.
abbrev pub end_read : Option ReadOp → ErrorCode → List Effect
end_read none err = []
end_read (some op) err = read_done op.handler err 0 [] ∷ []

abbrev pub end_write : Option WriteOp → ErrorCode → List Effect
end_write none err = []
end_write (some op) err = write_done op.handler err 0 ∷ []

abbrev pub close_channel : Channel → Channel
close_channel absent = absent
close_channel _ = shut

abbrev pub was_counted : TcpState → Bool
was_counted syn_rcvd = false
was_counted syn_ack_sent = false
was_counted _ = true

-- The flow leaves the queue of flows that wait to be accepted.
unfoldable pub forget_pending : Sys → Sys
forget_pending s =
    if s.flow.pending_accept
    then (record {
      flow = record s.flow { pending_accept = false };
      eng = record s.eng { pending_flows = erase_flow s.flow.id s.eng.pending_flows };
    })
    else s

unfoldable pub close_flow : Sys → ErrorCode → Sys
close_flow s err =
    if is_closed s.flow.state
    then s
    else (let t = drop_buffers (forget_pending s) in
        record {
          flow = record t.flow {
            ack_timer = none;
            active_read = none;
            active_write = none;
            state = closed;
            write_ch = close_channel t.flow.write_ch;
          };
          eng = record t.eng {
            stats = record t.eng.stats {
              tcp_connections =
                  if was_counted s.flow.state
                  then decr t.eng.stats.tcp_connections
                  else t.eng.stats.tcp_connections;
            };
            flows = erase_key t.flow.key t.eng.flows;
            out =
                t.eng.out ++ (end_read s.flow.active_read err ++ end_write s.flow.active_write err);
          };
        })

unfoldable pub abort_flow : Sys → Sys
abort_flow s =
    if is_closed s.flow.state
    then s
    else (let t = send_segment s s.flow.snd_nxt (tcp_rst + tcp_ack) [] false in
        close_flow (record t { flow = record t.flow { rst = true } }) connection_reset)

abbrev pub unsent : Option WriteOp → Bool
unsent none = false
unsent (some op) = ltb op.offset op.total

-- A FIN takes the next sequence number.
unfoldable pub fin_segment : Sys → TcpState → Sys
fin_segment s next =
    let t =
      send_segment
        (record s {
          flow = record s.flow { fin_sent = true; state = next; close_started_at = s.eng.now };
        })
        s.flow.snd_nxt (tcp_ack + tcp_fin) [] false in
    record t { flow = record t.flow { snd_nxt = u32 (t.flow.snd_nxt + 1) } }

unfoldable pub send_fin_now : TcpState → Sys → Sys
send_fin_now established s = fin_segment s fin_wait_1
send_fin_now close_wait s = fin_segment s last_ack
send_fin_now syn_rcvd s = abort_flow (record s { flow = record s.flow { fin_sent = true } })
send_fin_now syn_ack_sent s = abort_flow (record s { flow = record s.flow { fin_sent = true } })
send_fin_now _ s = record s { flow = record s.flow { fin_sent = true } }

-- The FIN waits until all data are sent and acknowledged.
unfoldable pub send_fin : Sys → Sys
send_fin s =
    if s.flow.fin_sent || is_closed s.flow.state
    then s
    else if unsent s.flow.active_write || not (s.flow.snd_una == s.flow.snd_nxt)
    then (record s { flow = record s.flow { fin_pending = true } })
    else send_fin_now s.flow.state s

abbrev pub is_syn_rcvd : TcpState → Bool
is_syn_rcvd syn_rcvd = true
is_syn_rcvd _ = false

-- The SYN-ACK is sent before the state changes.
unfoldable pub accept_flow : Sys → Sys
accept_flow s =
    if is_syn_rcvd s.flow.state
    then (let t = send_segment s s.flow.iss (tcp_syn + tcp_ack) [] true in
        record t { flow = record t.flow { snd_nxt = u32 (t.flow.iss + 1); state = syn_ack_sent } })
    else s

unfoldable pub reject_flow : Sys → Sys
reject_flow s = abort_flow s

unfoldable pub hand_over : List ℕ → Sys → Sys
hand_over [] s = record {
  flow = record s.flow { pending_accept = true };
  eng = record s.eng { pending_flows = s.eng.pending_flows ++ (s.flow.id ∷ []) };
}
hand_over (h ∷ rest) s = record {
  flow = record s.flow { accepted = true };
  eng = record s.eng {
    pending_accepts = rest;
    out = s.eng.out ++ (accept_done h success (some s.flow.id) ∷ []);
  };
}

unfoldable pub notify_accept : Sys → Sys
notify_accept s = hand_over s.eng.pending_accepts s
