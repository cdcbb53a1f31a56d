-- ===== src/Tcp/Output/Frames.antt =====
-- What the sending operations leave alone: the queues, the budget and the sequence of the stream.
use tunio.Base.{true, sym, ◌∙◌, refl, if_both, ◌∷◌, ◌++◌, ℕ, List, [], false, Bool, ◌≡◌, arith}
use tunio.Tcp.Types.{Effect, Sys, send}
use tunio.Tcp.Output.{
  is_closed, segment_fields, window_field, current_wnd, tcp_ack, build_segment, send_segment,
  send_ack, flush_pending_ack, note_data_ack, notify_window_updated, emit,
}

-- The receive side and the budget.
pub record SameBooks (s t : Sys) : Type 0 where
  pub rx : t.flow.rx ≡ s.flow.rx
  pub ooo : t.flow.ooo ≡ s.flow.ooo
  pub account : t.eng.account ≡ s.eng.account
  pub cfg : t.eng.cfg ≡ s.eng.cfg
  pub rcv_nxt : t.flow.rcv_nxt ≡ s.flow.rcv_nxt
  pub active_read : t.flow.active_read ≡ s.flow.active_read
  pub rx_shutdown : t.flow.rx_shutdown ≡ s.flow.rx_shutdown
  pub fin_received : t.flow.fin_received ≡ s.flow.fin_received

-- The state and the send side.
pub record SameControl (s t : Sys) : Type 0 where
  pub state : t.flow.state ≡ s.flow.state
  pub snd_nxt : t.flow.snd_nxt ≡ s.flow.snd_nxt
  pub snd_una : t.flow.snd_una ≡ s.flow.snd_una
  pub fin_sent : t.flow.fin_sent ≡ s.flow.fin_sent
  pub fin_received : t.flow.fin_received ≡ s.flow.fin_received
  pub active_write : t.flow.active_write ≡ s.flow.active_write
  pub key : t.flow.key ≡ s.flow.key
  pub id : t.flow.id ≡ s.flow.id
  pub flows : t.eng.flows ≡ s.eng.flows
  pub pending_flows : t.eng.pending_flows ≡ s.eng.pending_flows
  pub connections : t.eng.stats.tcp_connections ≡ s.eng.stats.tcp_connections
  pub now : t.eng.now ≡ s.eng.now

abbrev pub Quiet : Sys → Sys → Type 0
Quiet s t = SameBooks s t × SameControl s t

pub send_segment-Quiet :
    (s : Sys) (seq flags : ℕ) (payload : List ℕ) (with_mss : Bool)
    → Quiet s (send_segment s seq flags payload with_mss)
unfolding send_segment build_segment emit
send_segment-Quiet s seq flags payload with_mss = ground arith

pub send_ack-Quiet : (s : Sys) → Quiet s (send_ack s)
unfolding send_ack
send_ack-Quiet s = send_segment-Quiet s s.flow.snd_nxt tcp_ack [] false

pub flush_pending_ack-Quiet : (s : Sys) → Quiet s (flush_pending_ack s)
unfolding flush_pending_ack
flush_pending_ack-Quiet s = ground (arith, send_ack-Quiet s)

pub note_data_ack-Quiet : (s : Sys) → Quiet s (note_data_ack s)
unfolding note_data_ack
note_data_ack-Quiet s = ground (arith, send_ack-Quiet s)

pub notify_window_updated-Quiet : (s : Sys) → Quiet s (notify_window_updated s)
unfolding notify_window_updated
notify_window_updated-Quiet s = ground (arith, send_ack-Quiet s)

pub emit-Quiet : (s : Sys) (e : Effect) → Quiet s (emit s e)
unfolding emit
emit-Quiet s e = ground arith

case_false : true ≡ false → ⊥
case_false e = cc

-- An open flow sends the segment that `segment_fields` describes.
pub out-send_segment :
    (s : Sys) (seq flags : ℕ) (payload : List ℕ) (with_mss : Bool)
    → is_closed s.flow.state ≡ false
    → (send_segment s seq flags payload with_mss).eng.out
      ≡ s.eng.out ++ (send (segment_fields s seq flags payload with_mss) ∷ [])
unfolding send_segment build_segment emit segment_fields window_field current_wnd
out-send_segment s seq flags payload with_mss o =
    if_both
      (λ (t : Sys).
        t.eng.out ≡ s.eng.out ++ (send (segment_fields s seq flags payload with_mss) ∷ []))
      (is_closed s.flow.state) (λ e. absurd (case_false (sym e ∙ o))) (λ _. refl)
