-- ===== src/Tcp/Output/Delayed.antt =====
-- The delayed acknowledgement: two segments in a row, or the timer, whichever comes first.
use tunio.Base.{
  ℕ, ◌+◌, Option, none, some, ◌≡◌, refl, sym, ◌∙◌, [], ◌∷◌, ◌++◌, true, false, not, ◌||◌, arith,
  if_both,
}
use tunio.Tcp.Types.{Sys, Segment, send}
use tunio.Tcp.Output.{
  tcp_ack, is_closed, build_segment, emit, send_segment, send_ack, note_data_ack, expire_ack,
  segment_fields,
}
use tunio.Tcp.Output.Frames.{out-send_segment}

-- From `s` to `t` one segment was sent, an acknowledgement of all that `s` had received, and none is
-- owed any more.
pub record Acknowledged (s t : Sys) : Type 0 where
  pub sent :
      (g : Segment) × (t.eng.out ≡ s.eng.out ++ (send g ∷ []))
      × (g.flags ≡ tcp_ack)
      × (g.ack ≡ s.flow.rcv_nxt)
  pub settled : t.flow.ack_pending ≡ false

case_false : true ≡ false → ⊥
case_false e = cc

ack_pending-send_ack :
    (s : Sys) → is_closed s.flow.state ≡ false → (send_ack s).flow.ack_pending ≡ false
unfolding send_ack send_segment build_segment emit
ack_pending-send_ack s o =
    if_both (λ (t : Sys). t.flow.ack_pending ≡ false) (is_closed s.flow.state)
      (λ e. absurd (case_false (sym e ∙ o))) (λ _. refl)

send_ack-Acknowledged : (s : Sys) → is_closed s.flow.state ≡ false → Acknowledged s (send_ack s)
unfolding send_ack segment_fields
send_ack-Acknowledged s o = record {
  sent = (
    segment_fields s s.flow.snd_nxt tcp_ack [] false,
    out-send_segment s s.flow.snd_nxt tcp_ack [] false o,
    refl,
    refl,
  );
  settled = unfold send_ack in ack_pending-send_ack s o;
}

-- The timer finds nothing to do.
expire_settled : {s : Sys} (t : Sys) → Acknowledged s t → Acknowledged s (expire_ack t)
unfolding expire_ack
expire_settled {s} t a =
    if_both (Acknowledged s) (is_closed t.flow.state || not t.flow.ack_pending)
      (λ _. record { sent = a.sent; settled = a.settled })
      (λ e. absurd (ground (arith, e, a.settled)))

-- The flow whose first segment waits for the timer.
abbrev armed : Sys → Option ℕ → Sys
armed s timer = record s { flow = record s.flow { ack_pending = true; ack_timer = timer } }

expire_ack-armed :
    (s : Sys) (timer : Option ℕ)
    → is_closed s.flow.state ≡ false
    → Acknowledged s (expire_ack (armed s timer))
unfolding expire_ack
expire_ack-armed s timer o =
    if_both (Acknowledged s) (is_closed s.flow.state || not true)
      (λ e. absurd (ground (arith, e, o)))
      (λ _.
        let a = send_ack-Acknowledged (armed s none) o in
        record { sent = a.sent; settled = a.settled })

-- An open flow with a segment to acknowledge, once the timer has fired: whether or not an earlier segment
-- was pending, exactly one acknowledgement was sent, of all that was received, and none is owed.
pub expire_ack-Acknowledged :
    (s : Sys) → is_closed s.flow.state ≡ false → Acknowledged s (expire_ack (note_data_ack s))
unfolding note_data_ack
expire_ack-Acknowledged s o =
    if_both (λ (t : Sys). Acknowledged s (expire_ack t)) s.flow.ack_pending
      (λ _. expire_settled (send_ack s) (send_ack-Acknowledged s o))
      (λ _. expire_ack-armed s (some (s.eng.now + 40)) o)
