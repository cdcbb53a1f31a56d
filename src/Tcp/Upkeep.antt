-- ===== src/Tcp/Upkeep.antt =====
-- src/tcp_engine.cpp and include/tunio/detail/tcp_engine.hpp: the engine's upkeep of its flows: the sweep,
-- the acceptance queue, the closing of all.
pub mod Sweep
use tunio.Base.{
  ℕ, zero, suc, ◌+◌, ◌-◌, ◌*◌, ◌/◌, ◌%◌, ◌^◌, List, [], ◌∷◌, ◌++◌, Bool, true, false, ◌&&◌, ◌||◌,
  not, Option, none, some, u32, length, drop, be16, be32, get_or, ltb, leb, ◌==◌, if◌then◌else◌,
}
use tunio.Config.{Config, incr}
use tunio.Config.Keys.{FiveTuple, make_five_tuple}
use tunio.Account.{reserve}
use tunio.Checksum.{tcp_udp_checksum}
use tunio.Headers.{ip_protocol_tcp}
use tunio.Tcp.Types.{
  TcpState, closed, syn_rcvd, syn_ack_sent, established, fin_wait_1, fin_wait_2, last_ack,
  time_wait, absent, success, operation_aborted, Flow, Engine, Sys, accept_done,
}
use tunio.Tcp.Output.{tcp_syn, tcp_ack, k_rcv_wnd_scale, is_closed}
use tunio.Tcp.Lifecycle.{find_flow, no_rx, no_ooo, close_flow, abort_flow, notify_accept}
use tunio.Tcp.Receive.{drop_packet}
use tunio.Tcp.Segments.{TcpHeader, has, handle_segment}
use tunio.Tcp.Dispatch.{World, view, put, on_flow, is_time_wait}

abbrev pub is_half_open : TcpState → Bool
is_half_open syn_rcvd = true
is_half_open syn_ack_sent = true
is_half_open _ = false

abbrev pub is_open_state : TcpState → Bool
is_open_state established = true
is_open_state _ = false

abbrev pub is_closing : TcpState → Bool
is_closing fin_wait_1 = true
is_closing fin_wait_2 = true
is_closing last_ack = true
is_closing _ = false

-- A flow that the sweep takes: an overdue handshake, an unclaimed connection, the end of TIME_WAIT, an
-- overdue closing handshake. The clock never runs back, so the differences do not stop at 0.
unfoldable pub is_victim : Config → ℕ → Flow → Bool
is_victim cfg now f =
    if is_half_open f.state && ltb cfg.tcp_syn_timeout (now - f.created_at)
    then true
    else if (is_open_state f.state && not f.accepted)
        && ltb cfg.tcp_accept_timeout (now - f.created_at)
    then true
    else if is_time_wait f.state && leb f.destroy_at now
    then true
    else is_closing f.state && ltb cfg.tcp_close_timeout (now - f.close_started_at)

unfoldable pub victims : World → List (FiveTuple × ℕ) → List ℕ
victims w [] = []
victims w ((k, i) ∷ m) =
    if is_victim w.eng.cfg w.eng.now (w.objects i) then i ∷ victims w m else victims w m

unfoldable pub reap : Sys → Sys
reap s =
    if is_half_open s.flow.state || (is_open_state s.flow.state && not s.flow.accepted)
    then abort_flow s
    else close_flow s operation_aborted

unfoldable pub reap_all : List ℕ → World → World
reap_all [] w = w
reap_all (i ∷ l) w = reap_all l (on_flow w i reap)

-- `on_sweep`, without an error.
unfoldable pub on_sweep : World → World
on_sweep w = reap_all (victims w w.eng.flows) w

-- `async_accept`: the first flow that waits and is still open, else the handler waits.
unfoldable pub offer_next : List ℕ → World → ℕ → World
offer_next [] w h = record w {
  eng = record w.eng { pending_flows = []; pending_accepts = w.eng.pending_accepts ++ (h ∷ []) };
}
offer_next (i ∷ l) w h =
    let f = record (w.objects i) { pending_accept = false } in
    let eng = record w.eng { pending_flows = l } in
    if is_closed f.state
    then offer_next l (put w i (record { flow = f; eng = eng })) h
    else put w i (record {
      flow = record f { accepted = true };
      eng = record eng { out = eng.out ++ (accept_done h success (some i) ∷ []) };
    })

unfoldable pub async_accept : World → ℕ → World
async_accept w h = offer_next w.eng.pending_flows w h

unfoldable pub cancel_all : List ℕ → Engine → Engine
cancel_all [] e = record e { pending_accepts = [] }
cancel_all (h ∷ l) e =
    cancel_all l (record e { out = e.out ++ (accept_done h operation_aborted none ∷ []) })

unfoldable pub cancel_accepts : Engine → Engine
cancel_accepts e = cancel_all e.pending_accepts e

unfoldable pub close_each : List (FiveTuple × ℕ) → World → World
close_each [] w = w
close_each ((k, i) ∷ m) w = close_each m (on_flow w i (λ s. close_flow s operation_aborted))

-- `close_all`: every flow, then the flows and the handlers that wait.
unfoldable pub close_all : World → World
close_all w =
    let t = close_each w.eng.flows w in
    record t { eng = cancel_accepts (record t.eng { pending_flows = [] }) }
