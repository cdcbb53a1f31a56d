-- ===== src/Udp/Limits.antt =====
-- The limits on the sessions of the table and on those that wait to be accepted.
use tunio.Base.{
  ℕ, suc, ◌+◌, ◌-◌, ◌≤◌, ◌≡◌, refl, ap, ◌∙◌, List, [], ◌∷◌, false, ◌&&◌, ◌||◌, not, Option, none,
  some, ltb, leb, length, length-append, take, be16, arith, if_both,
}
use tunio.Config.{Config}
use tunio.Config.Keys.{UdpSessionKey, udp_session_key_eq}
use tunio.Account.{reserve}
use tunio.Tcp.Dispatch.{IpInfo}
use tunio.Udp.Types.{
  count_drop, Endpoint, ReadOp, UdpEngine, ExpiryEntry, find_session, erase_session,
  max_pending_new_sessions, k_expiry_push_interval,
}
use tunio.Udp.Expiry.{pop_stale, arm_top, arm_expiry_timer, refresh_expiry}
use tunio.Udp.Delivery.{
  hand_over, deliver_datagram, notify_session, open_session, route_datagram, bad_checksum,
  on_packet, with_session, is_empty,
}

pub record InLimits (u : UdpEngine) : Type 0 where
  pub sessions : length u.sessions ≤ u.cfg.max_udp_flows
  pub pending : length u.pending_new_sessions ≤ max_pending_new_sessions

-- The tables are left alone.
record Steady (u x : UdpEngine) : Type 0 where
  cfg : x.cfg ≡ u.cfg
  sessions : x.sessions ≡ u.sessions
  pending_new : x.pending_new_sessions ≡ u.pending_new_sessions
  accepts : x.pending_accepts ≡ u.pending_accepts

steady : (u x : UdpEngine) → Steady u x → InLimits u → InLimits x
steady u x h v = record {
  sessions =
      omega (arith, v.sessions, ap length h.sessions, ap (λ (c : Config). c.max_udp_flows) h.cfg);
  pending = omega (arith, v.pending, ap length h.pending_new);
}

Steady-trans : (u x y : UdpEngine) → Steady u x → Steady x y → Steady u y
Steady-trans u x y h k = record {
  cfg = k.cfg ∙ h.cfg;
  sessions = k.sessions ∙ h.sessions;
  pending_new = k.pending_new ∙ h.pending_new;
  accepts = k.accepts ∙ h.accepts;
}

arm_top-Steady : (x : UdpEngine) (heap : List ExpiryEntry) → Steady x (arm_top x heap)
unfolding arm_top
arm_top-Steady x [] = record { cfg = refl; sessions = refl; pending_new = refl; accepts = refl }
arm_top-Steady x (e ∷ es) =
    if_both (Steady x) (x.timer_waiting && leb x.armed_target e.at)
      (λ h. record { cfg = refl; sessions = refl; pending_new = refl; accepts = refl })
      (λ h. record { cfg = refl; sessions = refl; pending_new = refl; accepts = refl })

arm_expiry_timer-Steady : (u : UdpEngine) → Steady u (arm_expiry_timer u)
unfolding arm_expiry_timer
arm_expiry_timer-Steady u =
    let popped : UdpEngine = record u { expiry_heap = pop_stale u u.expiry_heap } in
    Steady-trans u popped (arm_top popped (pop_stale u u.expiry_heap))
      (record { cfg = refl; sessions = refl; pending_new = refl; accepts = refl })
      (arm_top-Steady popped (pop_stale u u.expiry_heap))

refresh_expiry-Steady : (u : UdpEngine) (i : ℕ) → Steady u (refresh_expiry u i)
unfolding refresh_expiry
refresh_expiry-Steady u i =
    if_both (Steady u) (u.objects i).closed
      (λ h. record { cfg = refl; sessions = refl; pending_new = refl; accepts = refl })
      (λ h.
        if_both (Steady u)
          ((u.objects i).heap_live
            && ltb (u.now - (u.objects i).last_heap_push) k_expiry_push_interval)
          (λ k. record { cfg = refl; sessions = refl; pending_new = refl; accepts = refl })
          (λ k.
            let r = arm_expiry_timer-Steady _ in
            record {
              cfg = r.cfg;
              sessions = r.sessions;
              pending_new = r.pending_new;
              accepts = r.accepts;
            }))

hand_over-Steady :
    (u : UdpEngine) (i : ℕ) (reads : List ReadOp) (bytes : List ℕ) (sender : Endpoint)
    → Steady u (hand_over u i reads bytes sender)
unfolding hand_over
hand_over-Steady u i (op ∷ ops) bytes sender = record {
  cfg = refl;
  sessions = refl;
  pending_new = refl;
  accepts = refl;
}
hand_over-Steady u i [] bytes sender =
    if_both (Steady u)
      (ltb u.cfg.max_rx_queue_per_flow ((u.objects i).rx_bytes + length bytes)
        || not (reserve u.account (length bytes)).1)
      (λ h. record { cfg = refl; sessions = refl; pending_new = refl; accepts = refl })
      (λ h. record { cfg = refl; sessions = refl; pending_new = refl; accepts = refl })

deliver_datagram-Steady :
    (u : UdpEngine) (i : ℕ) (bytes : List ℕ) (sender : Endpoint)
    → Steady u (deliver_datagram u i bytes sender)
unfolding deliver_datagram
deliver_datagram-Steady u i bytes sender =
    let x = refresh_expiry u i in
    if_both (Steady u) (u.objects i).closed
      (λ h. record { cfg = refl; sessions = refl; pending_new = refl; accepts = refl })
      (λ h.
        Steady-trans u x (hand_over x i (x.objects i).pending_reads bytes sender)
          (refresh_expiry-Steady u i)
          (hand_over-Steady x i (x.objects i).pending_reads bytes sender))

notify_session-InLimits :
    (u : UdpEngine) (i : ℕ) (waiting : List ℕ)
    → length u.sessions ≤ u.cfg.max_udp_flows
    → (is_empty waiting && leb max_pending_new_sessions (length u.pending_new_sessions)) ≡ false
    → length u.pending_new_sessions ≤ max_pending_new_sessions
    → InLimits (notify_session u i waiting)
unfolding notify_session
notify_session-InLimits u i (h ∷ hs) s e p = record { sessions = s; pending = p }
notify_session-InLimits u i [] s e p = record {
  sessions = s;
  pending = ground (arith, length-append u.pending_new_sessions (i ∷ []));
}

open_session-InLimits :
    (u : UdpEngine) (key : UdpSessionKey) (bytes : List ℕ) (sender : Endpoint)
    → InLimits u
    → InLimits (open_session u key bytes sender)
unfolding open_session
open_session-InLimits u key bytes sender v =
    if_both (λ x. InLimits x) (leb u.cfg.max_udp_flows (length u.sessions))
      (λ e. record { sessions = v.sessions; pending = v.pending })
      (λ e.
        if_both (λ x. InLimits x)
          (is_empty u.pending_accepts
            && leb max_pending_new_sessions (length u.pending_new_sessions))
          (λ f. record { sessions = v.sessions; pending = v.pending })
          (λ f.
            notify_session-InLimits delivered u.fresh delivered.pending_accepts
              (omega (
                arith,
                ap length same.sessions,
                ap (λ (c : Config). c.max_udp_flows) same.cfg,
                room e,
              ))
              (rw (same.accepts, same.pending_new) f)
              (omega (arith, ap length same.pending_new, v.pending))))
  where
    handed : UdpEngine
    handed = deliver_datagram (with_session u key) u.fresh bytes sender

    delivered : UdpEngine
    delivered = refresh_expiry handed u.fresh

    same : Steady (with_session u key) delivered
    same =
        Steady-trans (with_session u key) handed delivered
          (deliver_datagram-Steady (with_session u key) u.fresh bytes sender)
          (refresh_expiry-Steady handed u.fresh)

    room :
        leb u.cfg.max_udp_flows (length u.sessions) ≡ false
        → suc (length u.sessions) ≤ u.cfg.max_udp_flows
    room e = ground arith

length-erase_session :
    (key : UdpSessionKey) (table : List (UdpSessionKey × ℕ))
    → length (erase_session key table) ≤ length table
unfolding erase_session
length-erase_session key [] = omega arith
length-erase_session key (e ∷ es) =
    let rest = length-erase_session key es in
    if_both (λ (t : List (UdpSessionKey × ℕ)). length t ≤ suc (length es))
      (udp_session_key_eq key e.0) (λ h. omega (arith, rest)) (λ h. omega (arith, rest))

route_datagram-InLimits :
    (found : Option ℕ) (u : UdpEngine) (key : UdpSessionKey) (bytes : List ℕ) (sender : Endpoint)
    → InLimits u
    → InLimits (route_datagram found u key bytes sender)
unfolding route_datagram
route_datagram-InLimits none u key bytes sender v = open_session-InLimits u key bytes sender v
route_datagram-InLimits (some i) u key bytes sender v =
    if_both (λ x. InLimits x) (u.objects i).closed
      (λ e.
        open_session-InLimits (record u { sessions = erase_session key u.sessions }) key bytes
          sender
          (record {
            sessions = omega (arith, v.sessions, length-erase_session key u.sessions);
            pending = v.pending;
          }))
      (λ e.
        steady u (deliver_datagram u i bytes sender) (deliver_datagram-Steady u i bytes sender) v)

-- In an engine within its limits, whatever packet arrives, intact or not, for a known session or a new
-- one: the table stays within max_udp_flows, and at most 1024 sessions wait to be accepted.
pub on_packet-InLimits :
    (u : UdpEngine) (ip : IpInfo) (payload : List ℕ)
    → InLimits u
    → InLimits (on_packet u ip payload)
unfolding on_packet
on_packet-InLimits u ip payload v =
    if_both (λ x. InLimits x) (ltb (length payload) 8) (λ e. dropped)
      (λ e.
        if_both (λ x. InLimits x) (ltb (be16 payload 4) 8 || ltb (length payload) (be16 payload 4))
          (λ f. dropped)
          (λ f.
            if_both (λ x. InLimits x) (bad_checksum ip (take (be16 payload 4) payload))
              (λ g. dropped) (λ g. route_datagram-InLimits (find_session _ u.sessions) u _ _ _ v)))
  where
    dropped : InLimits (count_drop u)
    dropped = record { sessions = v.sessions; pending = v.pending }
