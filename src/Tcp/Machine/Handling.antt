-- ===== src/Tcp/Machine/Handling.antt =====
-- The handlers of a segment make moves of the state machine only.
use tunio.Base.{ℕ, ◌≡◌, refl, Bool, true, false, arith, ◌==◌, if◌then◌else◌, if_both, ◌&&◌}
use tunio.Seq.{seq_ge}
use tunio.Tcp.Types.{TcpState, established, fin_wait_1, fin_wait_2, time_wait, Sys, success}
use tunio.Tcp.Segments.{
  advance_ack, release_fin, acknowledge_fin, handle_ack, all_sent, is_fin_wait_1, is_last_ack,
}
use tunio.Tcp.Machine.{
  SameState, Moves, here, next, fin_acknowledged, both_closed, Steps, Steps-refl, Steps-trans,
  Steps-of_eq,
}
use tunio.Tcp.Machine.Closing.{close_flow-Steps, send_fin-Steps}

state-advance_ack : (s : Sys) (ack : ℕ) → SameState s (advance_ack s ack)
unfolding advance_ack
state-advance_ack s ack = ground arith

release_fin-Steps : (s : Sys) → Steps s (release_fin s)
unfolding release_fin
release_fin-Steps s =
    if_both (Steps s)
      (s.flow.fin_pending && (s.flow.snd_una == s.flow.snd_nxt && all_sent s.flow.active_write))
      (λ _.
        Steps-trans (Steps-of_eq (refl, refl, refl))
          (send_fin-Steps (record s { flow = record s.flow { fin_pending = false } })))
      (λ _. Steps-refl s)

is_fin_wait_1-eq : (st : TcpState) → is_fin_wait_1 st ≡ true → st ≡ fin_wait_1
is_fin_wait_1-eq st e = ground arith

acknowledge_fin-Steps : (s : Sys) (ack : ℕ) → Steps s (acknowledge_fin s ack).0
unfolding acknowledge_fin
acknowledge_fin-Steps s ack =
    let acknowledged = s.flow.fin_sent && seq_ge ack s.flow.snd_nxt in
    if_both (λ (r : Sys × Bool). Steps s r.0) (is_fin_wait_1 s.flow.state && acknowledged)
      (λ h. record {
        moves =
            rw (is_fin_wait_1-eq s.flow.state (ground arith), sent ack h)
              (after s.flow.fin_received);
      })
      (λ _.
        if_both (λ (r : Sys × Bool). Steps s r.0) (is_last_ack s.flow.state && acknowledged)
          (λ _. close_flow-Steps s success) (λ _. Steps-refl s))
  where
    sent :
        (ack : ℕ)
        → (is_fin_wait_1 s.flow.state && (s.flow.fin_sent && seq_ge ack s.flow.snd_nxt)) ≡ true
        → s.flow.fin_sent ≡ true
    sent ack h = ground arith

    after :
        (received : Bool)
        → Moves
            (fin_wait_1, true, received)
            (if received then time_wait else fin_wait_2, true, received)
    after true = next here both_closed
    after false = next here fin_acknowledged

pub handle_ack-Steps : (s : Sys) (ack : ℕ) → Steps s (handle_ack s ack).0
unfolding handle_ack
handle_ack-Steps s ack =
    Steps-trans (Steps-of_eq (state-advance_ack s ack))
      (Steps-trans (release_fin-Steps (advance_ack s ack)) (acknowledge_fin-Steps _ ack))

-- The flow is ESTABLISHED, and no FIN is noted.
abbrev Opened : Sys → Sys → Type 0
Opened s t =
    (t.flow.state ≡ established)
    × (t.flow.fin_sent ≡ s.flow.fin_sent)
    × (t.flow.fin_received ≡ s.flow.fin_received)
