-- ===== src/Tcp/Machine/Flushing.antt =====
-- The reordering cache and the data path make moves of the state machine only.
use tunio.Base.{
  ℕ, zero, suc, ◌+◌, refl, List, [], ◌∷◌, Bool, true, false, Option, none, some, arith, length,
  drop, ltb, sub32, u32, ◌==◌, if◌then◌else◌, Option-cases, if_both, inl, inr, ◌&&◌, not,
}
use tunio.Seq.{seq_ge, seq_gt}
use tunio.Tcp.Types.{OooSegment, Sys}
use tunio.Tcp.Output.{is_closed}
use tunio.Tcp.Output.Frames.{send_ack-Quiet, notify_window_updated-Quiet}
use tunio.Tcp.Receive.{drop_packet, handle_fin, deliver_data}
use tunio.Tcp.Ooo.{
  Cache, ooo_append, append_fin, append_data, append_known, FinPlace, free, refused, marks,
  fin_scan, scan, no_overlap, end_of,
}
use tunio.Tcp.Segments.{
  Progress, discard, prune_step, prune_loop, find_next, take_out, uncache, deliver_cached,
  deliver_loop, end_flush, flush_ooo, after_append, handle_data,
}
use tunio.Tcp.Machine.{SameState, SameState-trans, Steps, Steps-refl, Steps-trans, Steps-of_eq}
use tunio.Tcp.Machine.Receiving.{deliver_data-Same}
use tunio.Tcp.Machine.Closing.{SameState-of_same, Steps-of_same, handle_fin-Steps}

state-append_fin : (s : Sys) (seq : ℕ) (p : FinPlace) → SameState s (append_fin s seq p).0
unfolding append_fin drop_packet
state-append_fin s seq free = ground arith
state-append_fin s seq refused = (refl, refl, refl)
state-append_fin s seq (marks m) = (refl, refl, refl)

state-append_known :
    (s : Sys) (o : Option ℕ) (wanted : Bool) → SameState s (append_known s o wanted).0
unfolding append_known
state-append_known s none wanted = (refl, refl, refl)
state-append_known s (some k) wanted = ground arith

pub state-ooo_append :
    (s : Sys) (seq : ℕ) (bytes : List ℕ) (fin : Bool) → SameState s (ooo_append s seq bytes fin).0
unfolding ooo_append append_data drop_packet
state-ooo_append s seq bytes fin =
    let o = scan seq (length bytes) no_overlap s.flow.segments in
    ground (
      arith,
      state-append_fin s seq (fin_scan seq s.flow.segments),
      state-append_known s o.extension (fin && not o.fin_covered),
    )

pub state-after_append : (r : Sys × Bool) → SameState r.0 (after_append r)
state-after_append (s, true) = (refl, refl, refl)
state-after_append (s, false) = SameState-of_same (send_ack-Quiet s).1

-- The loops of `flush_ooo`.
record Reaches (s : Sys) (p : Progress) : Type 0 where
  steps : Steps s p.sys

prune_step-Steps :
    (s : Sys) (x : ℕ × OooSegment) (p : Progress) → Reaches s p → Reaches s (prune_step x p)
unfolding prune_step discard
prune_step-Steps s (k, g) p h =
    if_both (Reaches s) (not (seq_ge p.sys.flow.rcv_nxt (end_of k g))) (λ _. h)
      (λ _.
        if_both (Reaches s) (is_closed now.flow.state) (λ _. record { steps = pruned })
          (λ _. record { steps = Steps-trans pruned (Steps-of_eq (refl, refl, refl)) }))
  where
    now : Sys
    now = if g.fin && end_of k g == p.sys.flow.rcv_nxt then handle_fin p.sys (end_of k g) else p.sys

    pruned : Steps s now
    pruned =
        if_both (Steps s) (g.fin && end_of k g == p.sys.flow.rcv_nxt)
          (λ _. Steps-trans h.steps (handle_fin-Steps p.sys (end_of k g))) (λ _. h.steps)

prune_loop-Steps : (s : Sys) (xs : Cache) (p : Progress) → Reaches s p → Reaches s (prune_loop xs p)
unfolding prune_loop
prune_loop-Steps s [] p h = h
prune_loop-Steps s (x ∷ xs) p h =
    if_both (Reaches s) p.returned (λ _. h)
      (λ _. prune_loop-Steps s xs (prune_step x p) (prune_step-Steps s x p h))

deliver_cached-Steps : (s : Sys) (k : ℕ) (g : OooSegment) → Steps s (deliver_cached s k g)
unfolding deliver_cached
deliver_cached-Steps s k g =
    if_both (Steps s) (g.fin && end_of k g == u.flow.rcv_nxt)
      (λ _. Steps-trans delivered (handle_fin-Steps u (end_of k g))) (λ _. delivered)
  where
    t : Sys
    t = uncache s k (length g.bytes)

    skipped : ℕ
    skipped = if k == t.flow.rcv_nxt then 0 else sub32 t.flow.rcv_nxt k

    uncached : Steps s t
    uncached =
        unfold uncache in
        Steps-of_eq
          (SameState-of_same (notify_window_updated-Quiet (take_out s k (length g.bytes))).1)

    u : Sys
    u = if ltb skipped (length g.bytes) then deliver_data t (drop skipped g.bytes) else t

    delivered : Steps s u
    delivered =
        if_both (Steps s) (ltb skipped (length g.bytes))
          (λ _. Steps-trans uncached (Steps-of_same (deliver_data-Same t (drop skipped g.bytes))))
          (λ _. uncached)

deliver_loop-Steps :
    (s : Sys) (fuel : ℕ) (p : Progress) → Reaches s p → Reaches s (deliver_loop fuel p)
unfolding deliver_loop
deliver_loop-Steps s zero p h = h
deliver_loop-Steps s (suc fuel) p h =
    elim (Option-cases (find_next p.sys.flow.rcv_nxt p.sys.flow.segments)) [
      | inl e ↦ rw (e, deliver_loop) h
      | inr ((k, g), e) ↦
          let reached = Steps-trans h.steps (deliver_cached-Steps p.sys k g) in
          rw (e, deliver_loop)
            (if_both (Reaches s) (is_closed (deliver_cached p.sys k g).flow.state)
              (λ _. record { steps = reached })
              (λ _. deliver_loop-Steps s fuel _ (record { steps = reached })))
    ]

end_flush-Steps :
    (s : Sys) (pruned : Bool) (p : Progress) → Reaches s p → Steps s (end_flush pruned p)
unfolding end_flush
end_flush-Steps s pruned p h =
    if_both (Steps s) p.returned (λ _. h.steps)
      (λ _.
        if_both (Steps s) (p.done && not (is_closed p.sys.flow.state))
          (λ _. Steps-trans h.steps (Steps-of_same (send_ack-Quiet p.sys).1))
          (λ _.
            if_both (Steps s) (pruned && not (is_closed p.sys.flow.state))
              (λ _. Steps-trans h.steps (Steps-of_same (notify_window_updated-Quiet p.sys).1))
              (λ _. h.steps)))

pub flush_ooo-Steps : (s : Sys) → Steps s (flush_ooo s)
unfolding flush_ooo
flush_ooo-Steps s =
    if_both (Steps s) pruned.returned (λ _. first.steps)
      (λ _. end_flush-Steps s pruned.done _ (
        deliver_loop-Steps s _ _
          (record { steps = Steps-trans first.steps (Steps-of_eq (refl, refl, refl)) })))
  where
    pruned : Progress
    pruned = prune_loop s.flow.segments (record { sys = s; done = false; returned = false })

    first : Reaches s pruned
    first = prune_loop-Steps s s.flow.segments _ (record { steps = Steps-refl s })

pub handle_data-Steps :
    (s : Sys) (seq : ℕ) (bytes : List ℕ) (fin : Bool) → Steps s (handle_data s seq bytes fin)
unfolding handle_data drop_packet
handle_data-Steps s seq bytes fin =
    if_both (Steps s) (seq == s.flow.rcv_nxt) (λ _. delivered bytes)
      (λ _.
        if_both (Steps s) (seq_gt seq s.flow.rcv_nxt)
          (λ _. Steps-of_eq (
            SameState-trans s (ooo_append s seq bytes fin).0
              (after_append (ooo_append s seq bytes fin)) (state-ooo_append s seq bytes fin)
              (state-after_append (ooo_append s seq bytes fin))))
          (λ _.
            if_both (Steps s) (seq_gt (u32 (seq + length bytes)) s.flow.rcv_nxt)
              (λ _. delivered (drop (sub32 s.flow.rcv_nxt seq) bytes))
              (λ _. Steps-of_eq (SameState-of_same (send_ack-Quiet (drop_packet s)).1))))
  where
    delivered : (new : List ℕ) → Steps s (flush_ooo (deliver_data s new))
    delivered new =
        Steps-trans (Steps-of_same (deliver_data-Same s new)) (flush_ooo-Steps (deliver_data s new))
