-- ===== src/Facade/Lifecycle/Runs.antt =====
-- In every run, an open facade has its engines, its writer, its device and its reads, no clean-up that close()
-- left behind reaches them, and a closed one ends with its device closed.
use tunio.Base.{◌≡◌, ◌≢◌, inl, inr, List, [], ◌∷◌, ◌++◌, true, false, subst}
use tunio.Facade.Lifecycle.{Impl, Cleanup, run_cleanup, tcp_close_all, udp_close_all}
use tunio.Facade.Lifecycle.Opens.{called}
use tunio.Facade.Lifecycle.Steps.{World, Reach, IsRunning, remove-IsStale, Waits}
use tunio.Facade.Lifecycle.Sound.{IsAtRest, rest-IsSound, Reach-IsSound, stale_run}

-- Start from a facade at rest and let calls of open() and close(), accepts and their cancellations, clean-ups
-- in any order and ends of reads of any generation follow one another, each open() below the 2^64th. Whenever
-- the facade is open then, both engines and the writer are of one generation, its device is open, there is at
-- least one queue and at least one slot for each, and a read is in flight on every slot.
pub Reach-IsRunning :
    (s w : World) → IsAtRest s → Reach s w → w.impl.is_open ≡ true → IsRunning w.impl
Reach-IsRunning s w h r o = (Reach-IsSound (rest-IsSound s h) r).running o

-- Start from a facade at rest and let calls of open() and close(), accepts and their cancellations, clean-ups
-- in any order and ends of reads of any generation follow one another, each open() below the 2^64th. Whenever
-- the facade is closed then and no clean-up waits, its device is closed.
pub Reach-device :
    (s w : World)
    → IsAtRest s
    → Reach s w
    → w.impl.is_open ≡ false
    → w.pending ≡ []
    → w.impl.device_open ≡ false
Reach-device s w h r c n = elim ((Reach-IsSound (rest-IsSound s h) r).tidy c) [
  | inl e ↦ e
  | inr x ↦ absurd (subst (Waits w.impl.epoch) n x)
]

-- Start from a facade at rest and let calls of open() and close(), accepts and their cancellations, clean-ups
-- in any order and ends of reads of any generation follow one another, each open() below the 2^64th. A
-- clean-up that waits while the facade is open, whichever of them runs first, captured other engines than the
-- facade has now, closes the sessions of those, and changes nothing else: the facade stays open and its
-- device, its writer, its engines and its read slots stay as they are.
pub Reach-run_cleanup :
    (s : World) (p : Impl) (c : Cleanup) (before after : List Cleanup)
    → IsAtRest s
    → Reach s (record { impl = p; pending = before ++ (c ∷ after) })
    → p.is_open ≡ true
    → (run_cleanup p c ≡ record p {
      calls = (p.calls ++ called tcp_close_all c.closed_tcp) ++ called udp_close_all c.closed_udp;
    })
      × (c.closed_tcp ≢ p.tcp)
      × (c.closed_udp ≢ p.udp)
Reach-run_cleanup s p c before after h r o =
    let sound = Reach-IsSound (rest-IsSound s h) r in
    let stale = (remove-IsStale p before after c sound.stale).0 in
    (stale_run p c o stale, stale.tcp_other o, stale.udp_other o)
