-- ===== src/Tests/Runs.antt =====
-- The theorems on opening and closing the facade, applied.
use tunio.Base.{
  ◌≢◌, ◌<◌, ℕ, ◌+◌, ◌≡◌, refl, subst, ap, replicate, Bool, List, [], ◌∷◌, ◌++◌, true, false, none,
  some, arith,
}
use tunio.Facade.Lifecycle.{
  DeviceInfo, Impl, Opening, Cleanup, empty, open_impl, close_impl, run_cleanup, k_read_slots,
  tcp_close_all, udp_close_all, writer_cancel_all, device_close, sweep_started, Call,
}
use tunio.Facade.Lifecycle.Steps.{World, Reach, here, next, opening, closing, cleaning, IsRunning}
use tunio.Facade.Lifecycle.Sound.{IsAtRest}
use tunio.Facade.{Front}
use tunio.Facade.Lifecycle.Slots.{reads}
use tunio.Facade.Lifecycle.Opens.{called}
use tunio.Facade.Lifecycle.Runs.{Reach-IsRunning, Reach-device, Reach-run_cleanup}
use tunio.Facade.Lifecycle.Queues.{IsRead, open_impl-IsRead}
use tunio.Tests.Stack.{sample_front}

abbrev no_address : Front
no_address = record sample_front {
  local = record sample_front.local { have_ip4 = false; have_ip6 = false };
}

-- The facade after its constructor, and a device of two queues.
abbrev new_facade : Impl
new_facade = record {
  is_open = false;
  epoch = 0;
  front = sample_front;
  local_ip = none;
  mtu = 1500;
  device_open = false;
  writer = none;
  tcp = none;
  udp = none;
  next_gen = 0;
  read_bufs = [];
  read_inflight = [];
  num_queues = 1;
  slots_per_queue = k_read_slots;
  calls = [];
}

abbrev two_queue_device : DeviceInfo
two_queue_device = record { device_mtu = 1500; queue_count = 2; read_size_hint = 1500 }

abbrev two_queues : Opening
two_queues = record {
  ipv4_addr = empty;
  ipv6_addr = empty;
  ipv6_prefix_len = 64;
  has_external_handles = false;
  has_external_handle = false;
  device = λ t. some two_queue_device;
}

abbrev at_rest : World
at_rest = record { impl = new_facade; pending = [] }

-- The facade that open() leaves in generation `gen`, after `earlier` calls.
abbrev open_facade : ℕ → List Call → Impl
open_facade gen earlier = record new_facade {
  is_open = true;
  epoch = gen + 1;
  device_open = true;
  writer = some gen;
  tcp = some gen;
  udp = some gen;
  next_gen = gen + 1;
  front = no_address;
  read_bufs = replicate 32 1564;
  read_inflight = replicate 32 true;
  num_queues = 2;
  slots_per_queue = 16;
  calls = (earlier ++ (sweep_started gen ∷ [])) ++ reads 32 0 16 (gen + 1);
}

abbrev once_open : Impl
once_open = open_facade 0 []

abbrev closed_facade : Impl
closed_facade = record once_open { is_open = false }

abbrev first_cleanup : Cleanup
first_cleanup = record { closed_epoch = 1; closed_tcp = some 0; closed_udp = some 0 }

-- Opened, closed, and opened again before the clean-up ran.
abbrev reopened : Impl
reopened = open_facade 1 (
    once_open.calls
    ++ (tcp_close_all 0 ∷ udp_close_all 0 ∷ writer_cancel_all 0 ∷ device_close ∷ []))

first_open : open_impl new_facade two_queues ≡ (once_open, true)
unfolding open_impl
first_open = refl

second_open : open_impl closed_facade two_queues ≡ (reopened, true)
unfolding open_impl
second_open = refl

opened_once : Reach at_rest (record { impl = once_open; pending = [] })
opened_once =
    subst (λ (r : Impl × Bool). Reach at_rest (record { impl = r.0; pending = [] })) first_open
      (next here (opening at_rest two_queues (omega arith)))

closed_once : Reach at_rest (record { impl = closed_facade; pending = first_cleanup ∷ [] })
unfolding close_impl
closed_once = next opened_once (closing (record { impl = once_open; pending = [] }))

opened_twice : Reach at_rest (record { impl = reopened; pending = first_cleanup ∷ [] })
opened_twice =
    subst (λ (r : Impl × Bool). Reach at_rest (record { impl = r.0; pending = first_cleanup ∷ [] }))
      second_open
      (next closed_once (
        opening (record { impl = closed_facade; pending = first_cleanup ∷ [] }) two_queues
          (omega arith)))

settled : Reach at_rest (record { impl = run_cleanup closed_facade first_cleanup; pending = [] })
settled = next closed_once (cleaning closed_facade first_cleanup [] [])

resting : IsAtRest at_rest
resting = record { shut = refl; device = refl; nothing = refl }

Reach-IsRunning_example : IsRunning reopened
Reach-IsRunning_example =
    Reach-IsRunning at_rest (record { impl = reopened; pending = first_cleanup ∷ [] }) resting
      opened_twice refl

Reach-device_example : (run_cleanup closed_facade first_cleanup).device_open ≡ false
unfolding run_cleanup
Reach-device_example =
    Reach-device at_rest (record { impl = run_cleanup closed_facade first_cleanup; pending = [] })
      resting settled refl refl

Reach-run_cleanup_example :
    (run_cleanup reopened first_cleanup ≡ record reopened {
      calls = (reopened.calls ++ called tcp_close_all (some 0)) ++ called udp_close_all (some 0);
    })
    × (some 0 ≢ reopened.tcp)
    × (some 0 ≢ reopened.udp)
Reach-run_cleanup_example =
    Reach-run_cleanup at_rest reopened first_cleanup [] [] resting opened_twice refl

open_impl-IsRead_example :
    IsRead (open_impl new_facade two_queues).0 1
    × (1 < (open_impl new_facade two_queues).0.num_queues)
open_impl-IsRead_example =
    open_impl-IsRead new_facade two_queues two_queue_device 1
      (ap (λ (r : Impl × Bool). r.1) first_open) refl (omega arith) (omega arith)
