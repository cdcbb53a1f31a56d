-- ===== src/Tests/Datagrams.antt =====
-- The theorems on the UDP engine, applied.
use tunio.Account.{reserve}
use tunio.Udp.Presence.{here, next, packet, Reach-HasEntry}
use tunio.Udp.Tracking.{HasEntry}
use tunio.Udp.Completion.{fragmented_done, completed, fragmented_done-once}
use tunio.Writer.{succeeded, device_error, no_space}
use tunio.Base.{
  ℕ, ◌+◌, ◌<◌, ◌≡◌, ◌≢◌, ◌⊎◌, ◌↔◌, inl, refl, List, [], ◌∷◌, replicate, true, false, none, some,
  ◌≤◌, arith, length,
}
use tunio.Config.Keys.{UdpSessionKey, make_udp_session_key, udp_session_key_eq, bytes_eq}
use tunio.Tcp.Dispatch.{IpInfo}
use tunio.Udp.Types.{
  Endpoint, Datagram, ReadOp, Session, UdpEngine, find_session, bad_descriptor,
  family_not_supported, message_size,
}
use tunio.Udp.Datagram.{udp_build_datagram}
use tunio.Udp.Fragments.{udp_write_ipv4_fragments, fragments}
use tunio.Udp.Reassembly.{reassemble, AllFragments, udp_write_ipv4_fragments-reassemble}
use tunio.Udp.Sending.{send_error}
use tunio.Udp.Carriage.{send_error_iff}
use tunio.Udp.Delivery.{
  deliver_datagram, on_packet, route_datagram, bad_checksum, open_session, hand_over,
  notify_session,
}
use tunio.Udp.Idle.{on_expiry_timer-IsEnded}
use tunio.Udp.Expiry.{
  on_expiry_timer, refresh_expiry, arm_expiry_timer, arm_top, pop_stale, push_entry,
}
use tunio.Udp.Arrival.{Arrived, on_packet-Arrived}
use tunio.Udp.Books.{InStep, Kept, deliver_datagram-Kept}
use tunio.Tests.Samples.{source_ip, target_ip, sample_cfg, sample_stats}
use tunio.Tests.Wire.{source-IsAddress, target-IsAddress}

abbrev client : UdpSessionKey
client = record { src_ip = source_ip; src_port = 5353; family = 4 }

abbrev remote : Endpoint
remote = record { family = 4; address = 93 ∷ 184 ∷ 216 ∷ 34 ∷ []; port = 53 }

abbrev first_datagram : Datagram
first_datagram = record { data_ = 1 ∷ 2 ∷ 3 ∷ []; sender = remote }

-- Two datagrams wait.
abbrev sample_session : Session
sample_session = record {
  key = client;
  closed = false;
  pending_accept = false;
  timeout = 30000;
  expiry = 31000;
  expiry_gen = 1;
  last_heap_push = 1000;
  heap_live = true;
  rx_datagrams = first_datagram ∷ record { data_ = 4 ∷ []; sender = remote } ∷ [];
  rx_bytes = 4;
  pending_reads = [];
}

-- An MTU of 60 bytes.
abbrev sample_udp : UdpEngine
sample_udp = record {
  cfg = record sample_cfg { mtu = 60 };
  account = record { limit = 100; used = 10 };
  stats = sample_stats;
  sessions = (client, 0) ∷ [];
  objects = λ i. sample_session;
  fresh = 1;
  pending_accepts = [];
  pending_new_sessions = [];
  expiry_heap = record { at = 31000; gen = 1; session = 0 } ∷ [];
  timer_waiting = true;
  armed_target = 31000;
  wait_gen = 1;
  now = 1200;
  out = [];
}

abbrev long_datagram : List ℕ
long_datagram = replicate 90 7

abbrev two_buffers : ReadOp
two_buffers = record { sizes = 1 ∷ 1 ∷ []; total = 2; handler = 4 }

sample-InStep : InStep sample_udp 0
sample-InStep = record {
  tidy = record { counted = refl; bounded = omega arith; one_side = inl refl; ended = λ h. cc };
  valid = record { within = omega arith; small = omega arith };
  booked = omega arith;
}

udp_write_ipv4_fragments-reassemble_example :
    (ps : List (List ℕ)) × (udp_write_ipv4_fragments 60 9 target_ip source_ip long_datagram
      ≡ fragments ps)
    × (reassemble ps 0 ≡ some long_datagram)
    × AllFragments 60 9 target_ip source_ip ps
udp_write_ipv4_fragments-reassemble_example =
    udp_write_ipv4_fragments-reassemble 60 9 target_ip source_ip long_datagram target-IsAddress
      source-IsAddress (omega arith) (omega arith) (omega arith) (omega arith) (omega arith)

abbrev other_family : ℕ
other_family = 6

send_error_iff_example :
    ((send_error sample_session 60 other_family long_datagram ≡ some bad_descriptor)
      ↔ (sample_session.closed ≡ true))
    × ((send_error sample_session 60 other_family long_datagram ≡ some family_not_supported)
        ↔ ((sample_session.closed ≡ false) × (client.family ≢ other_family)))
    × ((send_error sample_session 60 other_family long_datagram ≡ some message_size) ↔ (
        (sample_session.closed ≡ false)
        × (client.family ≡ other_family)
        × ((65535 < 8 + length long_datagram)
            ⊎ ((other_family ≡ 6) × (60 < 48 + length long_datagram)))))
    × ((send_error sample_session 60 other_family long_datagram ≡ none) ↔ (
        (sample_session.closed ≡ false)
        × (client.family ≡ other_family)
        × (8 + length long_datagram ≤ 65535)
        × ((other_family ≡ 4) ⊎ (48 + length long_datagram ≤ 60))))
send_error_iff_example =
    send_error_iff sample_session 60 other_family long_datagram (inl refl) (omega arith)

abbrev sample_ip : IpInfo
sample_ip = record { family = 4; src_ip = source_ip; dst_ip = target_ip }

-- A read into two buffers waits, and nothing is queued.
abbrev waiting_udp : UdpEngine
waiting_udp = record sample_udp {
  objects = λ i. record sample_session {
    rx_datagrams = [];
    rx_bytes = 0;
    pending_reads = two_buffers ∷ [];
  };
}

found : find_session (make_udp_session_key source_ip 5353 4) waiting_udp.sessions ≡ some 0
unfolding find_session udp_session_key_eq bytes_eq make_udp_session_key
found = refl

roomy : (reserve waiting_udp.account 4).1 ≡ true
unfolding reserve
roomy = refl

on_packet-Arrived_example :
    Arrived waiting_udp 0
      (on_packet waiting_udp sample_ip
        (udp_build_datagram 4 source_ip target_ip 5353 53 (1 ∷ 2 ∷ 3 ∷ 4 ∷ [])))
      (two_buffers ∷ [])
      (1 ∷ 2 ∷ 3 ∷ 4 ∷ [])
      remote
on_packet-Arrived_example =
    on_packet-Arrived waiting_udp 0 sample_ip 5353 53 (1 ∷ 2 ∷ 3 ∷ 4 ∷ []) source-IsAddress
      target-IsAddress (ground arith) (omega arith) (omega arith) (omega arith) found refl
      (refl, tt) (omega arith) roomy

deliver_datagram-Kept_example :
    Kept sample_udp 0 (deliver_datagram sample_udp 0 (5 ∷ 6 ∷ []) remote)
deliver_datagram-Kept_example = deliver_datagram-Kept sample_udp 0 (5 ∷ 6 ∷ []) remote sample-InStep

-- At a time at which the session's timeout is over.
abbrev idle_udp : UdpEngine
idle_udp = record sample_udp { now = 40000 }

on_expiry_timer-IsEnded_example : ((on_expiry_timer idle_udp).objects 0).closed ≡ true
on_expiry_timer-IsEnded_example =
    on_expiry_timer-IsEnded idle_udp 0 1 (tt, tt) (inl (omega arith, refl, refl))
      (record { opened = refl; generation = refl; over = omega arith })

fragmented_done-once_example :
    fragmented_done 4000 3 (succeeded ∷ device_error 5 ∷ no_space ∷ [])
    ≡ completed 4000 (device_error 5) ∷ []
fragmented_done-once_example =
    fragmented_done-once 4000 3 (succeeded ∷ device_error 5 ∷ no_space ∷ []) (omega arith)
      (omega arith) (omega arith)

-- An engine without a session, and a datagram of one byte without a checksum.
abbrev quiet_udp : UdpEngine
quiet_udp = record sample_udp {
  sessions = [];
  objects = λ i. record sample_session { closed = true };
  expiry_heap = [];
  timer_waiting = false;
}

abbrev one_byte : List ℕ
one_byte = 4 ∷ 210 ∷ 0 ∷ 53 ∷ 0 ∷ 9 ∷ 0 ∷ 0 ∷ 65 ∷ []

abbrev with_client : UdpEngine
with_client =
    on_packet quiet_udp (record { family = 4; src_ip = source_ip; dst_ip = target_ip }) one_byte

client_open : (with_client.objects 1).closed ≡ false
unfolding on_packet bad_checksum route_datagram find_session open_session deliver_datagram
    refresh_expiry hand_over notify_session arm_expiry_timer arm_top pop_stale push_entry reserve
client_open = refl

Reach-HasEntry_example :
    ((with_client.objects 1).heap_live ≡ true)
    × HasEntry 1 (with_client.objects 1).expiry_gen with_client.expiry_heap
Reach-HasEntry_example =
    Reach-HasEntry quiet_udp with_client 1 (λ j. refl) (next here (packet quiet_udp _ one_byte))
      client_open
