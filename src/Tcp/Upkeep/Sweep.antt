-- ===== src/Tcp/Upkeep/Sweep.antt =====
-- The sweep: it closes exactly the flows that are due.
use tunio.Base.{ℕ, ◌-◌, ◌≤◌, ◌<◌, ◌≡◌, ◌⊎◌, List, [], ◌∷◌, true, false, arith, if_both}
use tunio.Config.{Config}
use tunio.Config.Keys.{FiveTuple}
use tunio.Tcp.Types.{
  syn_rcvd, syn_ack_sent, established, fin_wait_1, fin_wait_2, last_ack, time_wait, Sys, ErrorCode,
  Flow, connection_reset,
}
use tunio.Tcp.Output.{is_closed}
use tunio.Tcp.Lifecycle.{close_flow, abort_flow}
use tunio.Tcp.Dispatch.{World}
use tunio.Tcp.Upkeep.{is_victim}

abbrev IsClosed : Flow → Type 0
IsClosed f = is_closed f.state ≡ true

pub close_flow-IsClosed : (s : Sys) (e : ErrorCode) → IsClosed (close_flow s e).flow
unfolding close_flow
close_flow-IsClosed s e = ground arith

pub abort_flow-IsClosed : (s : Sys) → IsClosed (abort_flow s).flow
unfolding abort_flow
abort_flow-IsClosed s =
    if_both (λ (t : Sys). IsClosed t.flow) (is_closed s.flow.state) (λ e. e)
      (λ _. close_flow-IsClosed _ connection_reset)

abbrev pub IsIn : ℕ → List ℕ → Type 0
IsIn i [] = ⊥
IsIn i (j ∷ l) = (i ≡ j) ⊎ IsIn i l

-- The flow stands in the table.
abbrev pub Holds : ℕ → List (FiveTuple × ℕ) → Type 0
Holds i [] = ⊥
Holds i ((k, j) ∷ m) = (i ≡ j) ⊎ Holds i m

abbrev IsDue : World → ℕ → Type 0
IsDue w i = is_victim w.eng.cfg w.eng.now (w.objects i) ≡ true

-- A connection that is refused: its handshake, or its acceptance by the user, takes longer than the configured time.
abbrev pub Refused : Config → ℕ → Flow → Type 0
Refused cfg now f =
    (((f.state ≡ syn_rcvd) ⊎ (f.state ≡ syn_ack_sent)) × (cfg.tcp_syn_timeout < now - f.created_at))
    ⊎ ((f.state ≡ established)
        × (f.accepted ≡ false)
        × (cfg.tcp_accept_timeout < now - f.created_at))

-- A connection that is over: the end of TIME_WAIT has come, or the other closing states take longer than the
-- configured time.
abbrev pub Over : Config → ℕ → Flow → Type 0
Over cfg now f =
    ((f.state ≡ time_wait) × (f.destroy_at ≤ now))
    ⊎ (((f.state ≡ fin_wait_1) ⊎ ((f.state ≡ fin_wait_2) ⊎ (f.state ≡ last_ack)))
        × (cfg.tcp_close_timeout < now - f.close_started_at))
