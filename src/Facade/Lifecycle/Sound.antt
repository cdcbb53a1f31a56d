-- ===== src/Facade/Lifecycle/Sound.antt =====
-- Every step of a run keeps IsSound.
use tunio.Base.{
  ℕ, ◌+◌, ◌*◌, ◌/◌, ◌%◌, ◌^◌, ◌≤◌, ◌<◌, ◌≡◌, inl, inr, refl, sym, ap, ◌∙◌, List, [], ◌∷◌, ◌++◌,
  arith, Bool, true, false, not, ◌||◌, Option, none, some, replicate, ◌==◌, if◌then◌else◌, if_both,
  if_no, if_yes, Bool-cases, subst⁻¹, case_false, min, max,
}
use native.Mathlib.Nat.{mod-eq_of_lt}
use tunio.Facade.{Front}
use tunio.Facade.Lifecycle.{
  Impl, Call, Cleanup, ReadEnd, DeviceInfo, got, aborted, device_failed, open_impl, takeover,
  close_impl, run_cleanup, on_read_slot, read_ended, started, start_read_slot, set_slot,
  k_read_slots, tcp_close_all, udp_close_all, emit_for, async_accept_tcp, async_accept_udp,
  cancel_tcp_accepts, cancel_udp_accepts, accept_on, tcp_accept, udp_accept, tcp_cancel_accepts,
  udp_cancel_accepts,
}
use tunio.Facade.Lifecycle.Slots.{
  start_read_slot-again, start_read_slot-IsFramed, started-reads, queues_of,
}
use tunio.Facade.Lifecycle.Opens.{
  called, emit_for_lem, IsCleaned, Opens, failed, opened, open_impl-Opens, run_cleanup-IsCleaned,
}
use tunio.Facade.Lifecycle.Steps.{
  World, leave, Step, opening, closing, cleaning, reading, Reach, here, next, IsRunning, IsStale,
  Made, SameGens, AllStale, IsSound, closed-IsStale, later-IsStale, same-IsStale, append-IsStale,
  remove-IsStale, Waits, IsTidy, append-Waits, remove-Waits, accepting_tcp, accepting_udp,
  cancelling_tcp, cancelling_udp,
}

some_queue : (q : ℕ) → 1 ≤ min (max q 1) 256
some_queue q = ground arith

some_slot : (q : ℕ) → 1 ≤ max 1 q
some_slot q = ground arith

is_running : (o b : Bool) → (not o || not b) ≡ false → o ≡ true
is_running o b h = ground arith

earlier : (a b : ℕ) → a < b → (a == b) ≡ false
earlier a b h = ground arith

-- What close() captures of a facade.
abbrev cleanup_of : Impl → Cleanup
cleanup_of p = record { closed_epoch = p.epoch; closed_tcp = p.tcp; closed_udp = p.udp }

-- Reads and calls are no part of what an open facade has, but for the reads in flight.
kept :
    (p : Impl) (f : Front) (cs : List Call)
    → IsRunning p
    → IsRunning (record p { front = f; calls = cs })
kept p f cs h = record {
  device = h.device;
  gen = h.gen;
  tcp = h.tcp;
  udp = h.udp;
  writer = h.writer;
  made = h.made;
  queues = h.queues;
  slots = h.slots;
  in_flight = h.in_flight;
}

-- An ended read that is started again.
again :
    (p : Impl) (i : ℕ)
    → p.is_open ≡ true
    → IsRunning p
    → IsRunning (start_read_slot (record p { read_inflight = set_slot p.read_inflight i false }) i)
again p i o h =
    let ended : Impl = record p { read_inflight = set_slot p.read_inflight i false } in
    let f = start_read_slot-IsFramed ended i in
    let f_slots = (start_read_slot ended i).slots_per_queue in
    record {
      device = f.device ∙ h.device;
      gen = h.gen;
      tcp = f.tcp ∙ h.tcp;
      udp = f.udp ∙ h.udp;
      writer = f.writer ∙ h.writer;
      made = omega (arith, f.next_gen, h.made);
      queues = omega (arith, f.queues, h.queues);
      slots = omega (arith, f.slots, h.slots);
      in_flight =
          ap
            (λ xs.
              (start_read_slot (record p { read_inflight = set_slot xs i false }) i).read_inflight)
            h.in_flight
          ∙ start_read_slot-again p o (p.num_queues * p.slots_per_queue) i
          ∙ sym (
              ap (λ n. replicate (n * f_slots) true) f.queues
              ∙ ap (λ n. replicate (p.num_queues * n) true) f.slots);
    }

started-IsRunning : (p : Impl) (d : DeviceInfo) → IsRunning (started p d)
started-IsRunning p d = subst⁻¹ IsRunning (started-reads p d) (record {
  device = refl;
  gen = p.next_gen;
  tcp = refl;
  udp = refl;
  writer = refl;
  made = omega arith;
  queues = some_queue d.queue_count;
  slots = some_slot (k_read_slots / queues_of d);
  in_flight = refl;
})

opens-IsSound :
    (w : World) (d : Option DeviceInfo) (r : Impl × Bool)
    → w.impl.epoch + 1 < 2 ^ 64
    → IsSound w
    → Opens w.impl d r
    → IsSound (record w { impl = r.0 })
opens-IsSound w o (_, _) room h (failed q c) = record {
  running = λ e. absurd (case_false (sym e ∙ c.closed));
  stale = closed-IsStale w.impl q w.pending c.same c.gens c.closed h.stale;
  tidy = λ e. inl c.device;
}
opens-IsSound w o (_, _) room h (opened q d same gens g) =
    let epoch : (started q d).epoch ≡ w.impl.epoch + 1 =
      ap (λ (x : Impl). x.epoch) (started-reads q d)
      ∙ ap (λ n. (n + 1) % 2 ^ 64) same
      ∙ mod-eq_of_lt room in
    record {
      running = λ e. started-IsRunning q d;
      stale =
          later-IsStale w.impl (started q d) w.pending epoch
            (ap (λ (x : Impl). x.next_gen) (started-reads q d) ∙ ap (λ n. n + 1) gens)
            (ap (λ (x : Impl). x.tcp) (started-reads q d) ∙ ap some gens)
            (ap (λ (x : Impl). x.udp) (started-reads q d) ∙ ap some gens) h.stale;
      tidy = λ e. absurd (case_false (sym (ap (λ (x : Impl). x.is_open) (started-reads q d)) ∙ e));
    }

-- The engines of an open facade were made.
tcp-Made : (p : Impl) → IsRunning p → Made p.tcp p.next_gen
tcp-Made p r = subst⁻¹ (λ g. Made g p.next_gen) r.tcp r.made

udp-Made : (p : Impl) → IsRunning p → Made p.udp p.next_gen
udp-Made p r = subst⁻¹ (λ g. Made g p.next_gen) r.udp r.made

-- What close() leaves when the facade is open.
closed_world :
    (p : Impl) (cs : List Cleanup)
    → Made p.tcp p.next_gen
    → Made p.udp p.next_gen
    → AllStale p cs
    → IsSound (record { impl = record p { is_open = false }; pending = cs ++ (cleanup_of p ∷ []) })
closed_world p cs t u h = record {
  running = λ e. absurd (case_false (sym e));
  stale = append-IsStale _ cs (cleanup_of p) (closed-IsStale p _ cs refl refl refl h) (record {
    past = omega arith;
    before = λ e. absurd (case_false (sym e));
    tcp_made = t;
    udp_made = u;
    tcp_other = λ e. absurd (case_false (sym e));
    udp_other = λ e. absurd (case_false (sym e));
  });
  tidy = λ e. inr (append-Waits p.epoch cs (cleanup_of p) refl);
}

close_impl-IsSound : (w : World) → IsSound w → IsSound (leave w.pending (close_impl w.impl))
unfolding close_impl
close_impl-IsSound w h =
    if_both (λ r. IsSound (leave w.pending r)) w.impl.is_open
      (λ e.
        let r = h.running e in
        closed_world w.impl w.pending (tcp-Made w.impl r) (udp-Made w.impl r) h.stale)
      (λ e. h)

close_impl-open :
    (p : Impl)
    → p.is_open ≡ true
    → close_impl p ≡ (record p { is_open = false }, some (cleanup_of p))
unfolding close_impl
close_impl-open p o = if_yes _ _ _ o

-- A clean-up that finds the facade open in a later generation makes calls to its own engines only.
pub stale_run :
    (p : Impl) (c : Cleanup)
    → p.is_open ≡ true
    → IsStale p c
    → run_cleanup p c ≡ record p {
      calls = (p.calls ++ called tcp_close_all c.closed_tcp) ++ called udp_close_all c.closed_udp;
    }
unfolding run_cleanup
stale_run p c o h =
    if_no (c.closed_epoch == p.epoch) _ _ (earlier _ _ (h.before o))
    ∙ ap (emit_for udp_close_all c.closed_udp) (emit_for_lem tcp_close_all c.closed_tcp p)
    ∙ emit_for_lem udp_close_all c.closed_udp _

IsTidy-after :
    (p : Impl) (c : Cleanup) (q : Impl) (before after : List Cleanup)
    → IsCleaned p c q
    → IsTidy p (before ++ (c ∷ after))
    → IsTidy q (before ++ after)
IsTidy-after p c q before after k h = elim k.device [
  | inl e ↦ inl e
  | inr e ↦ elim h [
    | inl d ↦ inl (e.0 ∙ d)
    | inr x ↦ inr (
        subst⁻¹ (λ n. Waits n (before ++ after)) k.rest.same
          (remove-Waits p.epoch before after c e.1 x))
  ]
]

run_cleanup-IsSound :
    (p : Impl) (c : Cleanup) (before after : List Cleanup)
    → IsSound (record { impl = p; pending = before ++ (c ∷ after) })
    → IsSound (record { impl = run_cleanup p c; pending = before ++ after })
run_cleanup-IsSound p c before after h =
    let rest = remove-IsStale p before after c h.stale in
    elim (Bool-cases p.is_open) [
      | inl o ↦
          subst⁻¹ (λ q. IsSound (record { impl = q; pending = before ++ after }))
            (stale_run p c o rest.0)
            (record {
              running = λ e. kept p p.front _ (h.running o);
              stale =
                  same-IsStale p _ (before ++ after)
                    (record {
                      epoch = refl;
                      next_gen = refl;
                      tcp = refl;
                      udp = refl;
                      running = refl;
                    })
                    rest.1;
              tidy = λ e. absurd (case_false (sym o ∙ e));
            })
      | inr e ↦
          let k = run_cleanup-IsCleaned p c e in
          record {
            running = λ r. absurd (case_false (sym r ∙ k.rest.closed));
            stale =
                closed-IsStale p _ (before ++ after) k.rest.same k.rest.gens k.rest.closed rest.1;
            tidy = λ _. IsTidy-after p c _ before after k (h.tidy e);
          }
    ]

-- A read that ends on an open facade and is started again.
again-IsSound :
    (w : World) (p : Impl) (i : ℕ)
    → p.is_open ≡ true
    → SameGens w.impl p
    → IsRunning p
    → IsSound w
    → IsSound (record w {
      impl = start_read_slot (record p { read_inflight = set_slot p.read_inflight i false }) i;
    })
again-IsSound w p i o g r h =
    let f =
      start_read_slot-IsFramed (record p { read_inflight = set_slot p.read_inflight i false }) i in
    record {
      running = λ x. again p i o r;
      stale =
          same-IsStale w.impl _ w.pending
            (record {
              epoch = f.epoch ∙ g.epoch;
              next_gen = f.next_gen ∙ g.next_gen;
              tcp = f.tcp ∙ g.tcp;
              udp = f.udp ∙ g.udp;
              running = f.running ∙ g.running;
            })
            h.stale;
      tidy = λ x. absurd (case_false (sym o ∙ sym f.running ∙ x));
    }

read_ended-IsSound :
    (w : World) (i : ℕ) (result : ReadEnd)
    → w.impl.is_open ≡ true
    → IsSound w
    → IsSound (
        leave w.pending (
          read_ended
            (record w.impl { read_inflight = set_slot w.impl.read_inflight i false })
            i
            result))
unfolding read_ended
read_ended-IsSound w i (got bytes) o h =
    again-IsSound w _ i o
      (record { epoch = refl; next_gen = refl; tcp = refl; udp = refl; running = refl })
      (kept w.impl _ _ (h.running o)) h
read_ended-IsSound w i aborted o h =
    subst⁻¹ (λ q. IsSound (record w { impl = q })) (if_yes _ _ _ o)
      (again-IsSound w w.impl i o
        (record { epoch = refl; next_gen = refl; tcp = refl; udp = refl; running = refl })
        (h.running o) h)
read_ended-IsSound w i device_failed o h =
    let ended : Impl = record w.impl { read_inflight = set_slot w.impl.read_inflight i false } in
    subst⁻¹
      (λ (r : Impl × Option Cleanup).
        IsSound (leave w.pending (if r.0.is_open then start_read_slot r.0 i else r.0, r.1)))
      (close_impl-open ended o)
      (closed_world ended w.pending (tcp-Made w.impl (h.running o)) (udp-Made w.impl (h.running o))
        (same-IsStale w.impl ended w.pending
          (record { epoch = refl; next_gen = refl; tcp = refl; udp = refl; running = refl })
          h.stale))

on_read_slot-IsSound :
    (w : World) (i epoch : ℕ) (result : ReadEnd)
    → IsSound w
    → IsSound (leave w.pending (on_read_slot w.impl i epoch result))
unfolding on_read_slot
on_read_slot-IsSound w i epoch result h =
    if_both (λ r. IsSound (leave w.pending r)) (not w.impl.is_open || not (epoch == w.impl.epoch))
      (λ e. h) (λ e. read_ended-IsSound w i result (is_running _ _ e) h)

-- Calls to the outside alone change nothing.
calls-IsSound :
    (w : World) (cs : List Call)
    → IsSound w
    → IsSound (record w { impl = record w.impl { calls = cs } })
calls-IsSound w cs h = record {
  running = λ e. kept w.impl w.impl.front cs (h.running e);
  stale =
      same-IsStale w.impl _ w.pending
        (record { epoch = refl; next_gen = refl; tcp = refl; udp = refl; running = refl }) h.stale;
  tidy = h.tidy;
}

accept_on-IsSound :
    (w : World) (f : ℕ → ℕ → Call) (g : Option ℕ) (epoch handler : ℕ)
    → IsSound w
    → IsSound (record w { impl = accept_on f g w.impl epoch handler })
unfolding accept_on
accept_on-IsSound w f none epoch handler h = calls-IsSound w _ h
accept_on-IsSound w f (some g) epoch handler h =
    if_both (λ p. IsSound (record w { impl = p }))
      (not w.impl.is_open || not (epoch == w.impl.epoch)) (λ e. calls-IsSound w _ h)
      (λ e. calls-IsSound w _ h)

emit_for-IsSound :
    (w : World) (f : ℕ → Call) (g : Option ℕ)
    → IsSound w
    → IsSound (record w { impl = emit_for f g w.impl })
emit_for-IsSound w f none h = h
emit_for-IsSound w f (some g) h = calls-IsSound w _ h

Step-IsSound : {w u : World} → Step w u → IsSound w → IsSound u
unfolding async_accept_tcp async_accept_udp cancel_tcp_accepts cancel_udp_accepts
Step-IsSound (opening w o room) h =
    opens-IsSound w (o.device (takeover o)) (open_impl w.impl o) room h (open_impl-Opens w.impl o)
Step-IsSound (closing w) h = close_impl-IsSound w h
Step-IsSound (cleaning p c before after) h = run_cleanup-IsSound p c before after h
Step-IsSound (reading w i epoch result) h = on_read_slot-IsSound w i epoch result h
Step-IsSound (accepting_tcp w epoch x) h = accept_on-IsSound w tcp_accept w.impl.tcp epoch x h
Step-IsSound (accepting_udp w epoch x) h = accept_on-IsSound w udp_accept w.impl.udp epoch x h
Step-IsSound (cancelling_tcp w) h = emit_for-IsSound w tcp_cancel_accepts w.impl.tcp h
Step-IsSound (cancelling_udp w) h = emit_for-IsSound w udp_cancel_accepts w.impl.udp h

-- Nothing is open and nothing waits, as after the constructor.
pub record IsAtRest (w : World) : Type 0 where
  pub shut : w.impl.is_open ≡ false
  pub device : w.impl.device_open ≡ false
  pub nothing : w.pending ≡ []

pub rest-IsSound : (w : World) → IsAtRest w → IsSound w
rest-IsSound w h = record {
  running = λ e. absurd (case_false (sym e ∙ h.shut));
  stale = subst⁻¹ (AllStale w.impl) h.nothing tt;
  tidy = λ e. inl h.device;
}

pub Reach-IsSound : {s w : World} → IsSound s → Reach s w → IsSound w
Reach-IsSound h here = h
Reach-IsSound h (next r step) = Step-IsSound step (Reach-IsSound h r)
