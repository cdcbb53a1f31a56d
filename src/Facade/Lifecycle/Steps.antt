-- ===== src/Facade/Lifecycle/Steps.antt =====
-- Whatever the application, the device and the strand do: the runs of the facade, and what holds in all of
-- them. Calls are taken one after another.
use tunio.Base.{
  ℕ, ◌+◌, ◌*◌, ◌^◌, ◌≤◌, ◌<◌, ◌≡◌, ◌≢◌, ◌⊎◌, inl, inr, sym, ◌∙◌, List, [], ◌∷◌, ◌++◌, arith, true,
  false, Option, none, some, replicate, case_false, subst⁻¹, some≢none,
}
use tunio.Facade.Lifecycle.{
  Impl, Cleanup, Opening, ReadEnd, open_impl, close_impl, run_cleanup, on_read_slot,
  async_accept_tcp, async_accept_udp, cancel_tcp_accepts, cancel_udp_accepts,
}

-- The facade, and the clean-ups that close() left to the strand.
pub record World : Type 0 where
  pub impl : Impl
  pub pending : List Cleanup

abbrev pub leave : List Cleanup → Impl × Option Cleanup → World
leave pending (p, none) = record { impl = p; pending = pending }
leave pending (p, some c) = record { impl = p; pending = pending ++ (c ∷ []) }

-- Open it, close it, run a clean-up in any order, end a read of any generation with any result, accept or cancel accepts.
pub data Step : World → World → Type 0 where
  opening :
      (w : World) (o : Opening)
      → w.impl.epoch + 1 < 2 ^ 64
      → Step w (record w { impl = (open_impl w.impl o).0 })
  closing : (w : World) → Step w (leave w.pending (close_impl w.impl))
  cleaning :
      (p : Impl) (c : Cleanup) (before after : List Cleanup)
      → Step
          (record { impl = p; pending = before ++ (c ∷ after) })
          (record { impl = run_cleanup p c; pending = before ++ after })
  reading :
      (w : World) (index epoch : ℕ) (result : ReadEnd)
      → Step w (leave w.pending (on_read_slot w.impl index epoch result))
  accepting_tcp :
      (w : World) (epoch handler : ℕ)
      → Step w (record w { impl = async_accept_tcp w.impl epoch handler })
  accepting_udp :
      (w : World) (epoch handler : ℕ)
      → Step w (record w { impl = async_accept_udp w.impl epoch handler })
  cancelling_tcp : (w : World) → Step w (record w { impl = cancel_tcp_accepts w.impl })
  cancelling_udp : (w : World) → Step w (record w { impl = cancel_udp_accepts w.impl })

pub data Reach (s : World) : World → Type 0 where
  here : Reach s s
  next : {t u : World} → Reach s t → Step t u → Reach s u

-- What an open facade has: one generation of engines and writer, an open device, at least one slot for each
-- queue, and a read in flight on every slot.
pub record IsRunning (p : Impl) : Type 0 where
  pub device : p.device_open ≡ true
  pub gen : ℕ
  pub tcp : p.tcp ≡ some gen
  pub udp : p.udp ≡ some gen
  pub writer : p.writer ≡ some gen
  pub made : gen < p.next_gen
  pub queues : 1 ≤ p.num_queues
  pub slots : 1 ≤ p.slots_per_queue
  pub in_flight : p.read_inflight ≡ replicate (p.num_queues * p.slots_per_queue) true

-- An engine that was made before generation `n`.
abbrev pub Made : Option ℕ → ℕ → Type 0
Made none n = Unit {0}
Made (some g) n = g < n

-- A clean-up that waits is of an earlier generation than an open facade, and its engines are others.
pub record IsStale (p : Impl) (c : Cleanup) : Type 0 where
  pub past : c.closed_epoch ≤ p.epoch
  pub before : p.is_open ≡ true → c.closed_epoch < p.epoch
  pub tcp_made : Made c.closed_tcp p.next_gen
  pub udp_made : Made c.closed_udp p.next_gen
  pub tcp_other : p.is_open ≡ true → c.closed_tcp ≢ p.tcp
  pub udp_other : p.is_open ≡ true → c.closed_udp ≢ p.udp

abbrev pub AllStale : Impl → List Cleanup → Type 0
AllStale p [] = Unit {0}
AllStale p (c ∷ cs) = IsStale p c × AllStale p cs

-- A clean-up of the generation `e` waits.
abbrev pub Waits : ℕ → List Cleanup → Type 0
Waits e [] = ⊥
Waits e (c ∷ cs) = (c.closed_epoch ≡ e) ⊎ Waits e cs

abbrev pub IsTidy : Impl → List Cleanup → Type 0
IsTidy p cs = (p.device_open ≡ false) ⊎ Waits p.epoch cs

pub record IsSound (w : World) : Type 0 where
  pub running : w.impl.is_open ≡ true → IsRunning w.impl
  pub stale : AllStale w.impl w.pending
  pub tidy : w.impl.is_open ≡ false → IsTidy w.impl w.pending

-- A facade that is closed, of the same epoch.
pub closed-IsStale :
    (p q : Impl) (cs : List Cleanup)
    → q.epoch ≡ p.epoch
    → q.next_gen ≡ p.next_gen
    → q.is_open ≡ false
    → AllStale p cs
    → AllStale q cs
closed-IsStale p q [] e n f h = tt
closed-IsStale p q (c ∷ cs) e n f h = (
  record {
    past = omega (arith, e, h.0.past);
    before = λ r. absurd (case_false (sym r ∙ f));
    tcp_made = subst⁻¹ (Made c.closed_tcp) n h.0.tcp_made;
    udp_made = subst⁻¹ (Made c.closed_udp) n h.0.udp_made;
    tcp_other = λ r. absurd (case_false (sym r ∙ f));
    udp_other = λ r. absurd (case_false (sym r ∙ f));
  },
  closed-IsStale p q cs e n f h.1,
)

later-Made : (g : Option ℕ) (n : ℕ) → Made g n → Made g (n + 1)
later-Made none n h = tt
later-Made (some g) n h = omega (arith, h)

other-Made : (g : Option ℕ) (n : ℕ) → Made g n → g ≢ some n
other-Made none n h = λ e. some≢none (sym e)
other-Made (some g) n h = λ e. let same : g ≡ n = cc in omega (arith, h, same)

-- A facade of the next epoch, with engines of the next generation.
pub later-IsStale :
    (p q : Impl) (cs : List Cleanup)
    → q.epoch ≡ p.epoch + 1
    → q.next_gen ≡ p.next_gen + 1
    → q.tcp ≡ some p.next_gen
    → q.udp ≡ some p.next_gen
    → AllStale p cs
    → AllStale q cs
later-IsStale p q [] e n t u h = tt
later-IsStale p q (c ∷ cs) e n t u h = (
  record {
    past = omega (arith, e, h.0.past);
    before = λ r. omega (arith, e, h.0.past);
    tcp_made = subst⁻¹ (Made c.closed_tcp) n (later-Made c.closed_tcp p.next_gen h.0.tcp_made);
    udp_made = subst⁻¹ (Made c.closed_udp) n (later-Made c.closed_udp p.next_gen h.0.udp_made);
    tcp_other = λ r x. other-Made c.closed_tcp p.next_gen h.0.tcp_made (x ∙ t);
    udp_other = λ r x. other-Made c.closed_udp p.next_gen h.0.udp_made (x ∙ u);
  },
  later-IsStale p q cs e n t u h.1,
)

-- A facade with the same generations.
pub record SameGens (p q : Impl) : Type 0 where
  pub epoch : q.epoch ≡ p.epoch
  pub next_gen : q.next_gen ≡ p.next_gen
  pub tcp : q.tcp ≡ p.tcp
  pub udp : q.udp ≡ p.udp
  pub running : q.is_open ≡ p.is_open

pub same-IsStale : (p q : Impl) (cs : List Cleanup) → SameGens p q → AllStale p cs → AllStale q cs
same-IsStale p q [] g h = tt
same-IsStale p q (c ∷ cs) g h = (
  record {
    past = omega (arith, g.epoch, h.0.past);
    before = λ r. let b = h.0.before (sym g.running ∙ r) in omega (arith, g.epoch, b);
    tcp_made = subst⁻¹ (Made c.closed_tcp) g.next_gen h.0.tcp_made;
    udp_made = subst⁻¹ (Made c.closed_udp) g.next_gen h.0.udp_made;
    tcp_other = λ r x. h.0.tcp_other (sym g.running ∙ r) (x ∙ g.tcp);
    udp_other = λ r x. h.0.udp_other (sym g.running ∙ r) (x ∙ g.udp);
  },
  same-IsStale p q cs g h.1,
)

pub append-IsStale :
    (p : Impl) (cs : List Cleanup) (c : Cleanup)
    → AllStale p cs
    → IsStale p c
    → AllStale p (cs ++ (c ∷ []))
append-IsStale p [] c h k = (k, tt)
append-IsStale p (x ∷ xs) c h k = (h.0, append-IsStale p xs c h.1 k)

pub remove-IsStale :
    (p : Impl) (before after : List Cleanup) (c : Cleanup)
    → AllStale p (before ++ (c ∷ after))
    → IsStale p c × AllStale p (before ++ after)
remove-IsStale p [] after c h = h
remove-IsStale p (x ∷ xs) after c h = let r = remove-IsStale p xs after c h.1 in (r.0, (h.0, r.1))

pub append-Waits :
    (e : ℕ) (cs : List Cleanup) (c : Cleanup) → c.closed_epoch ≡ e → Waits e (cs ++ (c ∷ []))
append-Waits e [] c h = inl h
append-Waits e (x ∷ xs) c h = inr (append-Waits e xs c h)

pub remove-Waits :
    (e : ℕ) (before after : List Cleanup) (c : Cleanup)
    → c.closed_epoch ≢ e
    → Waits e (before ++ (c ∷ after))
    → Waits e (before ++ after)
remove-Waits e [] after c k (inl h) = absurd (k h)
remove-Waits e [] after c k (inr h) = h
remove-Waits e (x ∷ xs) after c k (inl h) = inl h
remove-Waits e (x ∷ xs) after c k (inr h) = inr (remove-Waits e xs after c k h)
