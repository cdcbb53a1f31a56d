-- ===== src/Tcp/Machine/Closing.antt =====
-- The ends of a flow, its FIN and its approval make moves of the state machine only.
use tunio.Base.{
  Bool, Bool-cases, ◌≢◌, ℕ, ◌+◌, ◌≡◌, refl, [], true, false, arith, ◌==◌, if_both, inl, inr, ◌||◌,
  not,
}
use tunio.Tcp.Types.{
  TcpState, closed, syn_rcvd, syn_ack_sent, established, fin_wait_1, fin_wait_2, close_wait,
  last_ack, time_wait, ErrorCode, Sys, connection_reset,
}
use tunio.Tcp.Output.{tcp_syn, tcp_rst, tcp_ack, tcp_fin, is_closed, send_segment}
use tunio.Tcp.Output.Frames.{SameControl, send_segment-Quiet}
use tunio.Tcp.Lifecycle.{
  drop_buffers, forget_pending, close_flow, abort_flow, fin_segment, send_fin_now, send_fin,
  accept_flow, is_syn_rcvd, unsent,
}
use tunio.Tcp.Receive.{handle_fin, after_fin}
use tunio.Tcp.Machine.{
  Moves, here, next, finish, approve, close_first, peer_closes, close_second, peer_closes_late,
  note_peer_fin, note_own_fin, SameState, Steps, Steps-refl, Steps-trans, Steps-of_eq,
}
use tunio.Tcp.Machine.Receiving.{state-handle_fin}

pub SameState-of_same : {s t : Sys} → SameControl s t → SameState s t
SameState-of_same c = (c.state, c.fin_sent, c.fin_received)

pub Steps-of_same : {s t : Sys} → SameControl s t → Steps s t
Steps-of_same c = Steps-of_eq (SameState-of_same c)

after_fin-Moves : (st : TcpState) (a b : Bool) → Moves (st, a, b) (after_fin st, a, true)
after_fin-Moves established a b = next here peer_closes
after_fin-Moves fin_wait_2 a b = next here peer_closes_late
after_fin-Moves closed a b = next here (note_peer_fin (λ e. cc) (λ e. cc))
after_fin-Moves syn_rcvd a b = next here (note_peer_fin (λ e. cc) (λ e. cc))
after_fin-Moves syn_ack_sent a b = next here (note_peer_fin (λ e. cc) (λ e. cc))
after_fin-Moves fin_wait_1 a b = next here (note_peer_fin (λ e. cc) (λ e. cc))
after_fin-Moves close_wait a b = next here (note_peer_fin (λ e. cc) (λ e. cc))
after_fin-Moves last_ack a b = next here (note_peer_fin (λ e. cc) (λ e. cc))
after_fin-Moves time_wait a b = next here (note_peer_fin (λ e. cc) (λ e. cc))

pub handle_fin-Steps : (s : Sys) (fin_seq : ℕ) → Steps s (handle_fin s fin_seq)
handle_fin-Steps s fin_seq = elim (state-handle_fin s fin_seq) [
  | inl e ↦ Steps-of_eq e
  | inr e ↦ record {
    moves = rw (e.0, e.1, e.2) (after_fin-Moves s.flow.state s.flow.fin_sent s.flow.fin_received);
  }
]

fins-close_flow :
    (s : Sys) (err : ErrorCode)
    → is_closed s.flow.state ≡ false
    → ((close_flow s err).flow.state ≡ closed)
      × ((close_flow s err).flow.fin_sent ≡ s.flow.fin_sent)
      × ((close_flow s err).flow.fin_received ≡ s.flow.fin_received)
unfolding close_flow drop_buffers forget_pending
fins-close_flow s err o = ground arith

-- Closing, also by a reset.
pub close_flow-Steps : (s : Sys) (err : ErrorCode) → Steps s (close_flow s err)
close_flow-Steps s err = elim (Bool-cases (is_closed s.flow.state)) [
  | inl c ↦ Steps-of_eq (stays c)
  | inr o ↦ record {
    moves =
        rw ((fins-close_flow s err o).0, (fins-close_flow s err o).1, (fins-close_flow s err o).2)
          (next here finish);
  }
]
  where
    stays : is_closed s.flow.state ≡ true → SameState s (close_flow s err)
    stays c = unfold close_flow in ground arith

pub abort_flow-Steps : (s : Sys) → Steps s (abort_flow s)
unfolding abort_flow
abort_flow-Steps s =
    let t = send_segment s s.flow.snd_nxt (tcp_rst + tcp_ack) [] false in
    let sent : Steps s (record t { flow = record t.flow { rst = true } }) =
      Steps-of_eq
        (SameState-of_same (send_segment-Quiet s s.flow.snd_nxt (tcp_rst + tcp_ack) [] false).1) in
    if_both (Steps s) (is_closed s.flow.state) (λ _. Steps-refl s)
      (λ _. Steps-trans sent (close_flow-Steps _ connection_reset))

state-fin_segment :
    (s : Sys) (st : TcpState)
    → ((fin_segment s st).flow.state ≡ st)
      × ((fin_segment s st).flow.fin_sent ≡ true)
      × ((fin_segment s st).flow.fin_received ≡ s.flow.fin_received)
unfolding fin_segment
state-fin_segment s st =
    SameState-of_same (send_segment-Quiet _ s.flow.snd_nxt (tcp_ack + tcp_fin) [] false).1

-- In a state without a FIN of its own to send, the FIN is only noted.
own_fin-Moves :
    (s : Sys)
    → s.flow.state ≢ established
    → s.flow.state ≢ close_wait
    → Steps s (record s { flow = record s.flow { fin_sent = true } })
own_fin-Moves s n k = record { moves = next here (note_own_fin n k) }

send_fin_now-Steps :
    (st : TcpState) (s : Sys)
    → s.flow.state ≡ st
    → s.flow.fin_sent ≡ false
    → Steps s (send_fin_now st s)
unfolding send_fin_now
send_fin_now-Steps established s e o =
    let k = state-fin_segment s fin_wait_1 in
    record { moves = rw (k.0, k.1, k.2, e, o) (next here close_first) }
send_fin_now-Steps close_wait s e o =
    let k = state-fin_segment s last_ack in
    record { moves = rw (k.0, k.1, k.2, e, o) (next here close_second) }
send_fin_now-Steps syn_rcvd s e o =
    Steps-trans (own_fin-Moves s (λ f. cc) (λ f. cc)) (abort_flow-Steps _)
send_fin_now-Steps syn_ack_sent s e o =
    Steps-trans (own_fin-Moves s (λ f. cc) (λ f. cc)) (abort_flow-Steps _)
send_fin_now-Steps closed s e o = own_fin-Moves s (λ f. cc) (λ f. cc)
send_fin_now-Steps fin_wait_1 s e o = own_fin-Moves s (λ f. cc) (λ f. cc)
send_fin_now-Steps fin_wait_2 s e o = own_fin-Moves s (λ f. cc) (λ f. cc)
send_fin_now-Steps last_ack s e o = own_fin-Moves s (λ f. cc) (λ f. cc)
send_fin_now-Steps time_wait s e o = own_fin-Moves s (λ f. cc) (λ f. cc)

pub send_fin-Steps : (s : Sys) → Steps s (send_fin s)
unfolding send_fin
send_fin-Steps s =
    if_both (Steps s) (s.flow.fin_sent || is_closed s.flow.state) (λ _. Steps-refl s)
      (λ o.
        if_both (Steps s) (unsent s.flow.active_write || not (s.flow.snd_una == s.flow.snd_nxt))
          (λ _. Steps-of_eq (refl, refl, refl))
          (λ _. send_fin_now-Steps s.flow.state s refl (ground arith)))

pub accept_flow-Steps : (s : Sys) → Steps s (accept_flow s)
unfolding accept_flow
accept_flow-Steps s =
    if_both (Steps s) (is_syn_rcvd s.flow.state)
      (λ e.
        let q = (send_segment-Quiet s s.flow.iss (tcp_syn + tcp_ack) [] true).1 in
        record {
          moves =
              rw (q.fin_sent, q.fin_received, is_syn_rcvd-eq s.flow.state e) (next here approve);
        })
      (λ _. Steps-refl s)
  where
    is_syn_rcvd-eq : (st : TcpState) → is_syn_rcvd st ≡ true → st ≡ syn_rcvd
    is_syn_rcvd-eq st e = ground arith
