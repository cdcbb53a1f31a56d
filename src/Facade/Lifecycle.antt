-- ===== src/Facade/Lifecycle.antt =====
-- src/tunio.cpp and include/tunio/detail/tunio_impl.hpp: opening and closing the facade, its read slots and its
-- generations. Error codes and the exceptions of a read's handler are left out.
pub mod Slots
pub mod Opens
pub mod Steps
pub mod Sound
pub mod Runs
pub mod Queues
use tunio.Base.{
  ℕ, zero, suc, ◌+◌, ◌-◌, ◌*◌, ◌/◌, ◌%◌, ◌^◌, List, [], ◌∷◌, ◌++◌, Bool, true, false, not, ◌&&◌,
  ◌||◌, Option, none, some, length, replicate, get_or, max, min, ltb, leb, ◌==◌, if◌then◌else◌,
}
use tunio.Config.{Stats}
use tunio.Facade
use tunio.Facade.{Local, Front, Verdict}

abbrev pub k_read_slots : ℕ
k_read_slots = 32

abbrev pub k_max_queues : ℕ
k_max_queues = 256

-- What the facade calls outside of itself. An engine or a writer is named by its generation.
pub data Call : Type 0 where
  tcp_close_all udp_close_all writer_cancel_all sweep_started : ℕ → Call
  device_close : Call
  device_read : ℕ → ℕ → ℕ → Call
  packet_handed : Verdict → Call
  tcp_accept udp_accept : ℕ → ℕ → Call
  bad_descriptor : ℕ → Call
  tcp_cancel_accepts udp_cancel_accepts : ℕ → Call

-- `tunio_impl`. The shared pointers are generations; `next_gen` is the one that open() makes next.
pub record Impl : Type 0 where
  pub is_open : Bool
  pub epoch : ℕ
  pub front : Front
  pub local_ip : Option (List ℕ)
  pub mtu : ℕ
  pub device_open : Bool
  pub writer : Option ℕ
  pub tcp : Option ℕ
  pub udp : Option ℕ
  pub next_gen : ℕ
  pub read_bufs : List ℕ
  pub read_inflight : List Bool
  pub num_queues : ℕ
  pub slots_per_queue : ℕ
  pub calls : List Call

abbrev pub emit : Impl → Call → Impl
emit p c = record p { calls = p.calls ++ (c ∷ []) }

abbrev pub emit_for : (ℕ → Call) → Option ℕ → Impl → Impl
emit_for f none p = p
emit_for f (some g) p = emit p (f g)

abbrev pub close_device : Impl → Impl
close_device p = record (emit p device_close) { device_open = false }

-- The clean-up that open(), reset_open_state() and the destructor share.
unfoldable pub shut_down : Impl → Impl
shut_down p = close_device (
    emit_for writer_cancel_all p.writer
      (emit_for udp_close_all p.udp (emit_for tcp_close_all p.tcp p)))

unfoldable pub reset_open_state : Impl → Impl
unfolding shut_down
reset_open_state p = record (shut_down (record p { is_open = false })) {
  tcp = none;
  udp = none;
  writer = none;
  read_bufs = [];
  read_inflight = [];
  mtu = 1500;
  num_queues = 1;
  slots_per_queue = k_read_slots;
}

abbrev pub set_slot : List Bool → ℕ → Bool → List Bool
set_slot [] i v = []
set_slot (x ∷ xs) zero v = v ∷ xs
set_slot (x ∷ xs) (suc i) v = x ∷ set_slot xs i v

unfoldable pub start_read_slot : Impl → ℕ → Impl
start_read_slot p index =
    if not p.is_open || leb (length p.read_inflight) index || get_or p.read_inflight index false
    then p
    else emit (record p { read_inflight = set_slot p.read_inflight index true })
        (device_read index (index / p.slots_per_queue) p.epoch)

-- The loop of start_read() over `n` slots from `index` on.
unfoldable pub start_slots : ℕ → ℕ → Impl → Impl
unfolding start_read_slot
start_slots zero index p = p
start_slots (suc n) index p = start_slots n (index + 1) (start_read_slot p index)

unfoldable pub start_read : Impl → Impl
unfolding start_slots
start_read p = if not p.is_open then p else start_slots (length p.read_inflight) 0 p

-- What open() learns of the configuration's addresses: empty, no address, or its bytes.
pub data AddressText : Type 0 where
  empty malformed : AddressText
  address : List ℕ → AddressText

-- The device when it was taken over.
pub record DeviceInfo : Type 0 where
  pub device_mtu : ℕ
  pub queue_count : ℕ
  pub read_size_hint : ℕ

-- Which call takes the device over: assign_queues, assign or open.
pub data Takeover : Type 0 where
  external_queues external_handle own_device : Takeover

-- What open() reads of `tun_config`, and how the device answers each way of taking it over.
pub record Opening : Type 0 where
  pub ipv4_addr : AddressText
  pub ipv6_addr : AddressText
  pub ipv6_prefix_len : ℕ
  pub has_external_handles : Bool
  pub has_external_handle : Bool
  pub device : Takeover → Option DeviceInfo

unfoldable pub takeover : Opening → Takeover
takeover o =
    if o.has_external_handles
    then external_queues
    else if o.has_external_handle
    then external_handle
    else own_device

abbrev pub set_local : Impl → Local → Option (List ℕ) → Impl
set_local p l ip = record p { front = record p.front { local = l }; local_ip = ip }

-- The addresses; false ends open().
unfoldable pub set_ip4 : AddressText → Impl → Impl × Bool
set_ip4 empty p = (p, true)
set_ip4 malformed p = (p, false)
set_ip4 (address bytes) p =
    (set_local p (record p.front.local { have_ip4 = true; local_ip4 = bytes }) (some bytes), true)

unfoldable pub set_ip6 : AddressText → ℕ → Impl → Impl × Bool
set_ip6 empty prefix_len p = (p, true)
set_ip6 malformed prefix_len p = (p, false)
set_ip6 (address bytes) prefix_len p = if ltb 128 prefix_len then (p, false) else (
  set_local p (record p.front.local { have_ip6 = true; local_ip6 = bytes })
      (if p.front.local.have_ip4 then p.local_ip else some bytes),
  true,
)

-- The rest of open() when the device was taken over.
unfoldable pub started : Impl → DeviceInfo → Impl
unfolding start_read
started p d =
    let queues = min (max d.queue_count 1) k_max_queues in
    let slots = max 1 (k_read_slots / queues) in
    start_read
      (record (emit
        (record p {
          mtu = d.device_mtu;
          device_open = true;
          num_queues = queues;
          slots_per_queue = slots;
          read_bufs = replicate (queues * slots) (d.read_size_hint + 64);
          read_inflight = replicate (queues * slots) false;
          writer = some p.next_gen;
          tcp = some p.next_gen;
          udp = some p.next_gen;
          next_gen = p.next_gen + 1;
        })
        (sweep_started p.next_gen)) { epoch = (p.epoch + 1) % 2 ^ 64; is_open = true })

unfoldable pub with_device : Impl → Option DeviceInfo → Impl × Bool
unfolding reset_open_state started
with_device p none = (reset_open_state p, false)
with_device p (some d) = (started p d, true)

abbrev pub present : Option ℕ → Bool
present none = false
present (some g) = true

-- What open() does first: the last generation, if there was one, is shut down, and the addresses are forgotten.
unfoldable pub retired : Impl → Impl
unfolding shut_down
retired p =
    let had_engine =
      p.is_open || (present p.tcp || (present p.udp || (present p.writer || p.device_open))) in
    let closed : Impl = record p { is_open = false } in
    let rested = if had_engine then shut_down closed else closed in
    set_local rested (record rested.front.local { have_ip4 = false; have_ip6 = false }) none

abbrev pub and_then : Impl × Bool → (Impl → Impl × Bool) → Impl × Bool
and_then (p, false) f = (p, false)
and_then (p, true) f = f p

unfoldable pub open_impl : Impl → Opening → Impl × Bool
unfolding retired set_ip4 set_ip6 takeover with_device
open_impl p o = and_then (set_ip4 o.ipv4_addr (retired p)) (λ q.
    and_then (set_ip6 o.ipv6_addr o.ipv6_prefix_len q) (λ r. with_device r (o.device (takeover o))))

-- What close() captures for the strand.
pub record Cleanup : Type 0 where
  pub closed_epoch : ℕ
  pub closed_tcp : Option ℕ
  pub closed_udp : Option ℕ

unfoldable pub close_impl : Impl → Impl × Option Cleanup
close_impl p =
    if p.is_open
    then (
      record p { is_open = false },
      some (record { closed_epoch = p.epoch; closed_tcp = p.tcp; closed_udp = p.udp }),
    )
    else (p, none)

-- The part of close() on the strand, at whatever later time.
unfoldable pub run_cleanup : Impl → Cleanup → Impl
run_cleanup p c =
    let engines = emit_for udp_close_all c.closed_udp (emit_for tcp_close_all c.closed_tcp p) in
    if c.closed_epoch == p.epoch
    then close_device (emit_for writer_cancel_all p.writer engines)
    else engines

-- How a read of the device ends.
pub data ReadEnd : Type 0 where
  got : List ℕ → ReadEnd
  aborted : ReadEnd
  device_failed : ReadEnd

unfoldable pub read_ended : Impl → ℕ → ReadEnd → Impl × Option Cleanup
unfolding start_read_slot close_impl
read_ended p index (got bytes) =
    let (front, verdict) = Facade.on_read p.front bytes in
    (start_read_slot (emit (record p { front = front }) (packet_handed verdict)) index, none)
read_ended p index aborted = (if p.is_open then start_read_slot p index else p, none)
read_ended p index device_failed =
    let (q, c) = close_impl p in (if q.is_open then start_read_slot q index else q, c)

unfoldable pub on_read_slot : Impl → ℕ → ℕ → ReadEnd → Impl × Option Cleanup
unfolding read_ended
on_read_slot p index epoch result =
    if not p.is_open || not (epoch == p.epoch)
    then (p, none)
    else read_ended (record p { read_inflight = set_slot p.read_inflight index false }) index result

-- `async_accept_tcp` and `async_accept_udp` on the strand, with the epoch of the call.
unfoldable pub accept_on : (ℕ → ℕ → Call) → Option ℕ → Impl → ℕ → ℕ → Impl
accept_on f none p epoch handler = emit p (bad_descriptor handler)
accept_on f (some g) p epoch handler =
    if not p.is_open || not (epoch == p.epoch)
    then emit p (bad_descriptor handler)
    else emit p (f g handler)

unfoldable pub async_accept_tcp : Impl → ℕ → ℕ → Impl
unfolding accept_on
async_accept_tcp p epoch handler = accept_on tcp_accept p.tcp p epoch handler

unfoldable pub async_accept_udp : Impl → ℕ → ℕ → Impl
unfolding accept_on
async_accept_udp p epoch handler = accept_on udp_accept p.udp p epoch handler

-- `cancel_tcp_accepts` and `cancel_udp_accepts`, on the engine of the call.
unfoldable pub cancel_tcp_accepts : Impl → Impl
cancel_tcp_accepts p = emit_for tcp_cancel_accepts p.tcp p

unfoldable pub cancel_udp_accepts : Impl → Impl
cancel_udp_accepts p = emit_for udp_cancel_accepts p.udp p
