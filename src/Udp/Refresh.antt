-- ===== src/Udp/Refresh.antt =====
-- What refresh_expiry leaves alone: the session's queues and the budget.
use tunio.Base.{
  ℕ, ◌+◌, ◌-◌, ◌≡◌, refl, ap, ◌∙◌, List, [], ◌∷◌, Bool, true, ◌&&◌, ltb, leb, arith, if_both,
}
use tunio.Config.{incr}
use tunio.Udp.Types.{Session, UdpEngine, set_session, ExpiryEntry, k_expiry_push_interval}
use tunio.Udp.Expiry.{push_entry, pop_stale, arm_top, arm_expiry_timer, refresh_expiry}

pub at_self : (u : UdpEngine) (i : ℕ) (s : Session) → (set_session u i s).objects i ≡ s
at_self u i s = ground arith

-- What the expiry leaves alone.
pub record Unmoved (u : UdpEngine) (i : ℕ) (x : UdpEngine) : Type 0 where
  pub cfg : x.cfg ≡ u.cfg
  pub account : x.account ≡ u.account
  pub rx_datagrams : (x.objects i).rx_datagrams ≡ (u.objects i).rx_datagrams
  pub rx_bytes : (x.objects i).rx_bytes ≡ (u.objects i).rx_bytes
  pub pending_reads : (x.objects i).pending_reads ≡ (u.objects i).pending_reads
  pub closed : (x.objects i).closed ≡ (u.objects i).closed
  pub out : x.out ≡ u.out

arm_expiry_timer-Unmoved : (u : UdpEngine) (i : ℕ) → Unmoved u i (arm_expiry_timer u)
unfolding arm_expiry_timer arm_top
arm_expiry_timer-Unmoved u i =
    cases (pop_stale u u.expiry_heap) (record u { expiry_heap = pop_stale u u.expiry_heap }) same
  where
    same : Unmoved u i (record u { expiry_heap = pop_stale u u.expiry_heap })
    same = record {
      cfg = refl;
      account = refl;
      rx_datagrams = refl;
      rx_bytes = refl;
      pending_reads = refl;
      closed = refl;
      out = refl;
    }

    cases : (heap : List ExpiryEntry) (x : UdpEngine) → Unmoved u i x → Unmoved u i (arm_top x heap)
    cases [] x h = h
    cases (e ∷ es) x h =
        if_both (Unmoved u i) (x.timer_waiting && leb x.armed_target e.at) (λ k. h)
          (λ k. record {
            cfg = h.cfg;
            account = h.account;
            rx_datagrams = h.rx_datagrams;
            rx_bytes = h.rx_bytes;
            pending_reads = h.pending_reads;
            closed = h.closed;
            out = h.out;
          })

Unmoved-trans : (u x y : UdpEngine) (i : ℕ) → Unmoved u i x → Unmoved x i y → Unmoved u i y
Unmoved-trans u x y i h k = record {
  cfg = k.cfg ∙ h.cfg;
  account = k.account ∙ h.account;
  rx_datagrams = k.rx_datagrams ∙ h.rx_datagrams;
  rx_bytes = k.rx_bytes ∙ h.rx_bytes;
  pending_reads = k.pending_reads ∙ h.pending_reads;
  closed = k.closed ∙ h.closed;
  out = k.out ∙ h.out;
}

-- Another expiry for the session.
abbrev dated : Session → ℕ → ℕ → ℕ → Bool → Session
dated s expiry gen pushed live = record s {
  expiry = expiry;
  expiry_gen = gen;
  last_heap_push = pushed;
  heap_live = live;
}

dated-Unmoved :
    (u : UdpEngine) (i expiry gen pushed : ℕ) (live : Bool) (heap : List ExpiryEntry)
    → Unmoved u i (record (set_session u i (dated (u.objects i) expiry gen pushed live)) {
      expiry_heap = heap;
    })
dated-Unmoved u i expiry gen pushed live heap =
    let here = at_self u i (dated (u.objects i) expiry gen pushed live) in
    record {
      cfg = refl;
      account = refl;
      rx_datagrams = ap (λ (s : Session). s.rx_datagrams) here;
      rx_bytes = ap (λ (s : Session). s.rx_bytes) here;
      pending_reads = ap (λ (s : Session). s.pending_reads) here;
      closed = ap (λ (s : Session). s.closed) here;
      out = refl;
    }

pub refresh_expiry-Unmoved : (u : UdpEngine) (i : ℕ) → Unmoved u i (refresh_expiry u i)
unfolding refresh_expiry
refresh_expiry-Unmoved u i =
    let s = u.objects i in
    if_both (Unmoved u i) s.closed (λ e. same)
      (λ e.
        if_both (Unmoved u i) (s.heap_live && ltb (u.now - s.last_heap_push) k_expiry_push_interval)
          (λ f.
            dated-Unmoved u i (u.now + s.timeout) s.expiry_gen s.last_heap_push s.heap_live
              u.expiry_heap)
          (λ f.
            Unmoved-trans u _ (arm_expiry_timer _) i
              (dated-Unmoved u i (u.now + s.timeout) (incr s.expiry_gen) u.now true (
                push_entry (record { at = u.now + s.timeout; gen = incr s.expiry_gen; session = i })
                  u.expiry_heap))
              (arm_expiry_timer-Unmoved _ i)))
  where
    same : Unmoved u i u
    same = record {
      cfg = refl;
      account = refl;
      rx_datagrams = refl;
      rx_bytes = refl;
      pending_reads = refl;
      closed = refl;
      out = refl;
    }
