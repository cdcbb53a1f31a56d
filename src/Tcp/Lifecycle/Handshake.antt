-- ===== src/Tcp/Lifecycle/Handshake.antt =====
-- The two ways in which a SYN-ACK leaves: `accept_flow`, and the answer to a repeated SYN.
use tunio.Base.{
  case_false, ℕ, ◌+◌, ◌/◌, ◌^◌, ◌≡◌, refl, ap, sym, ◌∙◌, List, [], ◌∷◌, ◌++◌, true, ◌&&◌, arith,
  min, u16, bytes16, ◌==◌, if◌then◌else◌, if_both,
}
use tunio.Tcp.Types.{TcpState, syn_ack_sent, Sys, Segment, send}
use tunio.Tcp.Output.{
  tcp_syn, tcp_ack, tcp_rst, current_wnd, is_closed, is_syn_ack_sent, send_segment, segment_fields,
  window_field, options, mss,
}
use tunio.Tcp.Output.Frames.{out-send_segment}
use tunio.Tcp.Segments.{TcpHeader, has, segment_state, segment_rest, handle_segment}

-- The flow sent one SYN-ACK, and it is `g`.
pub record Answered (s t : Sys) (g : Segment) : Type 0 where
  pub out : t.eng.out ≡ s.eng.out ++ (send g ∷ [])
  pub flags : g.flags ≡ tcp_syn + tcp_ack
  pub seq : g.seq ≡ s.flow.iss
  pub ack : g.ack ≡ s.flow.rcv_nxt
  pub options :
      options g
      ≡ (2 ∷ 4 ∷ bytes16 (u16 (mss s.eng.cfg s.flow.key.family)))
        ++ (if s.flow.wscale_ok then 3 ∷ 3 ∷ 7 ∷ 1 ∷ [] else 1 ∷ 1 ∷ 1 ∷ 1 ∷ [])
  pub no_payload : g.payload ≡ []
  pub key : g.key ≡ s.flow.key

window_field_lem :
    (s : Sys) (st : TcpState)
    → s.flow.state ≡ st
    → window_field s
      ≡ min (current_wnd s / 2 ^ (if is_syn_ack_sent st then 0 else s.flow.rcv_wnd_scale)) 65535
unfolding window_field
window_field_lem s st e =
    ap
      (λ t. min (current_wnd s / 2 ^ (if is_syn_ack_sent t then 0 else s.flow.rcv_wnd_scale)) 65535)
      e

repeated :
    (s : Sys) (th : TcpHeader) (bytes : List ℕ)
    → s.flow.state ≡ syn_ack_sent
    → th.flags ≡ tcp_syn
    → th.seq ≡ s.flow.irs
    → handle_segment s th bytes ≡ send_segment s s.flow.iss (tcp_syn + tcp_ack) [] true
unfolding handle_segment segment_rest
repeated s th bytes e f k =
    if_both IsAnswer (has th.flags tcp_ack)
      (λ h. absurd (case_false (sym h ∙ ap (λ n. has n tcp_ack) f)))
      (λ _.
        if_both IsAnswer (has th.flags tcp_rst)
          (λ h. absurd (case_false (sym h ∙ ap (λ n. has n tcp_rst) f)))
          (λ _. ap (λ st. segment_state st s th bytes) e ∙ in_handshake))
  where
    IsAnswer : Sys → Type 0
    IsAnswer t = t ≡ send_segment s s.flow.iss (tcp_syn + tcp_ack) [] true

    in_handshake : IsAnswer (segment_state syn_ack_sent s th bytes)
    in_handshake =
        unfold segment_state in
        if_both IsAnswer (has th.flags tcp_syn && th.seq == s.flow.irs) (λ _. refl)
          (λ h. absurd (
            case_false
              (sym (ap (λ n. has n tcp_syn && th.seq == s.flow.irs) f ∙ ground (arith, k)) ∙ h)))

-- A repeated SYN, without an acknowledgement, to a flow whose SYN-ACK is out: the SYN-ACK is sent again,
-- with the window itself in the window field, at most 65535.
pub handle_segment-Answered :
    (s : Sys) (th : TcpHeader) (bytes : List ℕ)
    → s.flow.state ≡ syn_ack_sent
    → th.flags ≡ tcp_syn
    → th.seq ≡ s.flow.irs
    → (g : Segment) × Answered s (handle_segment s th bytes) g
      × (g.window ≡ min (current_wnd s) 65535)
unfolding segment_fields options
handle_segment-Answered s th bytes e f k = (
  segment_fields s s.flow.iss (tcp_syn + tcp_ack) [] true,
  record {
    out =
        ap (λ (t : Sys). t.eng.out) (repeated s th bytes e f k)
        ∙ out-send_segment s s.flow.iss (tcp_syn + tcp_ack) [] true (ap is_closed e);
    flags = refl;
    seq = refl;
    ack = refl;
    options = refl;
    no_payload = refl;
    key = refl;
  },
  window_field_lem s syn_ack_sent e ∙ omega arith,
)
