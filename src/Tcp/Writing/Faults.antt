-- ===== src/Tcp/Writing/Faults.antt =====
-- When `write_loop` reads an operation that is gone.
use tunio.Base.{
  ℕ, suc, ◌≡◌, refl, ap, Bool, true, false, not, ◌&&◌, ◌||◌, Option, none, some, ltb, ◌==◌, sub32,
  if◌then◌else◌, if_both,
}
use tunio.Tcp.Types.{WriteOp, Sys, Segment}
use tunio.Tcp.Output.{is_closed}
use tunio.Tcp.Lifecycle.{abort_flow}
use tunio.Tcp.Writing.{build_next_segment}
use tunio.Tcp.Writing.Loop.{
  Point, at_head, handshake_wait, window_wait, device_wait, ack_wait, finished, faulted, Writer,
  Wake, signalled, timed_out, written, write_failed, is_established, epilogue, leave, write_chunk,
  write_end, pass, head, probe, after_write, wake_window, wake_ack, resume_at, write_step,
}

abbrev pub is_faulted : Point → Bool
is_faulted faulted = true
is_faulted _ = false

abbrev Sound : Sys × Writer → Type 0
Sound r = is_faulted r.1.point ≡ false

epilogue-Sound : (o : Option WriteOp) (s : Sys) (w : Writer) → Sound (epilogue o s w)
unfolding epilogue
epilogue-Sound none s w = refl
epilogue-Sound (some op) s w = refl

write_chunk-Sound : (s : Sys) (o : Option Segment) (w : Writer) → Sound (write_chunk (s, o) w)
unfolding write_chunk
write_chunk-Sound s none w = epilogue-Sound s.flow.active_write s w
write_chunk-Sound s (some g) w = refl

pass-Sound :
    (s : Sys) (op : WriteOp) (w : Writer) → is_faulted w.point ≡ false → Sound (pass s op w)
unfolding pass
pass-Sound s op w h =
    if_both Sound (op.offset == op.total && s.flow.snd_una == write_end op) (λ _. refl)
      (λ _.
        if_both Sound (not (is_established s.flow.state) && not op.implicit_accept) (λ _. refl)
          (λ _.
            if_both Sound (s.flow.peer_wnd == 0) (λ _. refl)
              (λ _.
                if_both Sound
                  (ltb op.offset op.total
                    && ltb (sub32 s.flow.snd_nxt s.flow.snd_una) s.flow.peer_wnd)
                  (λ _.
                    write_chunk-Sound
                      (build_next_segment s op (sub32 s.flow.snd_nxt s.flow.snd_una)).0
                      (build_next_segment s op (sub32 s.flow.snd_nxt s.flow.snd_una)).1 w)
                  (λ _. if_both Sound (not (s.flow.snd_una == w.last_una)) (λ _. h) (λ _. refl)))))

head-Sound :
    (o : Option WriteOp) (s : Sys) (w : Writer) → is_faulted w.point ≡ false → Sound (head o s w)
unfolding head
head-Sound none s w h = epilogue-Sound s.flow.active_write s w
head-Sound (some op) s w h =
    if_both Sound (is_closed s.flow.state || s.flow.rst)
      (λ _. epilogue-Sound s.flow.active_write s w) (λ _. pass-Sound s op w h)

after_write-Sound :
    (o : Option WriteOp) (s : Sys) (w : Writer) (wake : Wake) → Sound (after_write o s w wake)
unfolding after_write
after_write-Sound o s w write_failed = epilogue-Sound s.flow.active_write s w
after_write-Sound none s w signalled = epilogue-Sound s.flow.active_write s w
after_write-Sound none s w timed_out = epilogue-Sound s.flow.active_write s w
after_write-Sound none s w written = epilogue-Sound s.flow.active_write s w
after_write-Sound (some op) s w signalled = refl
after_write-Sound (some op) s w timed_out = refl
after_write-Sound (some op) s w written = refl

wake_ack-Sound : (wake : Wake) (s : Sys) (w : Writer) (last : ℕ) → Sound (wake_ack wake s w last)
unfolding wake_ack
wake_ack-Sound timed_out s w last =
    if_both Sound (not (s.flow.snd_una == w.last_una)) (λ _. refl)
      (λ _.
        if_both Sound (ltb s.eng.cfg.tcp_rto_max_retransmits (suc w.retransmits))
          (λ _. epilogue-Sound (abort_flow s).flow.active_write (abort_flow s) _) (λ _. refl))
wake_ack-Sound signalled s w last =
    if_both (λ (v : Writer). is_faulted v.point ≡ false) (s.flow.snd_una == w.last_una) (λ _. refl)
      (λ _. refl)
wake_ack-Sound written s w last =
    if_both (λ (v : Writer). is_faulted v.point ≡ false) (s.flow.snd_una == w.last_una) (λ _. refl)
      (λ _. refl)
wake_ack-Sound write_failed s w last =
    if_both (λ (v : Writer). is_faulted v.point ≡ false) (s.flow.snd_una == w.last_una) (λ _. refl)
      (λ _. refl)

abbrev pub is_window_wait : Point → Bool
is_window_wait (window_wait last) = true
is_window_wait _ = false

abbrev pub is_timed_out : Wake → Bool
is_timed_out timed_out = true
is_timed_out _ = false

abbrev pub is_none {ℓ} : {A : Type ℓ} → Option A → Bool
is_none none = true
is_none (some a) = false

-- The persist timer fires in the window wait, with probes left, when the operation is gone.
unfoldable pub loses_operation : Wake → Sys → Writer → Bool
loses_operation wake s w =
    is_window_wait w.point
    && (is_timed_out wake
        && (not (ltb s.eng.cfg.tcp_persist_max_probes (suc w.persist_probes))
            && is_none s.flow.active_write))

probe_lem :
    (o : Option WriteOp) (s : Sys) (w : Writer) (last : ℕ)
    → is_faulted (probe o s w last).1.point ≡ is_none o
unfolding probe
probe_lem none s w last = refl
probe_lem (some op) s w last = refl

only_below :
    (over : Bool) (x y : Sys × Writer) (n : Bool)
    → Sound x
    → is_faulted y.1.point ≡ n
    → is_faulted (if over then x else y).1.point ≡ not over && n
only_below true x y n h k = h
only_below false x y n h k = k

wake_window_lem :
    (wake : Wake) (s : Sys) (w : Writer) (last : ℕ)
    → is_faulted (wake_window wake s w last).1.point ≡ (
        is_timed_out wake
        && (not (ltb s.eng.cfg.tcp_persist_max_probes (suc w.persist_probes))
            && is_none s.flow.active_write))
unfolding wake_window
wake_window_lem timed_out s w last =
    let counted = record w { persist_probes = suc w.persist_probes } in
    only_below (ltb s.eng.cfg.tcp_persist_max_probes (suc w.persist_probes))
      (leave (abort_flow s) counted) (probe s.flow.active_write s counted last)
      (is_none s.flow.active_write)
      (epilogue-Sound (abort_flow s).flow.active_write (abort_flow s) counted)
      (probe_lem s.flow.active_write s counted last)
wake_window_lem signalled s w last = refl
wake_window_lem written s w last = refl
wake_window_lem write_failed s w last = refl

resume_at-Faults :
    (p : Point) (wake : Wake) (s : Sys) (w : Writer)
    → w.point ≡ p
    → is_faulted p ≡ false
    → is_faulted (resume_at p wake s w).1.point ≡ (
        is_window_wait p
        && (is_timed_out wake
            && (not (ltb s.eng.cfg.tcp_persist_max_probes (suc w.persist_probes))
                && is_none s.flow.active_write)))
unfolding resume_at
resume_at-Faults at_head wake s w e f = head-Sound s.flow.active_write s w (ap is_faulted e)
resume_at-Faults (handshake_wait last) wake s w e f = refl
resume_at-Faults (window_wait last) wake s w e f = wake_window_lem wake s w last
resume_at-Faults device_wait wake s w e f = after_write-Sound s.flow.active_write s w wake
resume_at-Faults (ack_wait last) wake s w e f = wake_ack-Sound wake s w last
resume_at-Faults finished wake s w e f = ap is_faulted e
resume_at-Faults faulted wake s w e f = absurd (case_true f)
  where
    case_true : true ≡ false → ⊥
    case_true e = cc

-- A step of a coroutine that has not faulted reads an operation that is gone exactly when the persist
-- timer fires in the window wait, with probes left, while the flow has no write operation any more.
pub write_step_faults :
    (wake : Wake) (s : Sys) (w : Writer)
    → is_faulted w.point ≡ false
    → is_faulted (write_step wake (s, w)).1.point ≡ loses_operation wake s w
unfolding write_step loses_operation
write_step_faults wake s w f = resume_at-Faults w.point wake s w refl f
