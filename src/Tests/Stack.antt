-- ===== src/Tests/Stack.antt =====
-- The theorems on the facade, applied.
use tunio.Base.{
  ℕ, ◌≡◌, refl, List, [], ◌∷◌, ◌++◌, replicate, true, false, Option, none, some, arith, IsBytes,
  ◌⊎◌,
}
use tunio.Checksum.{verify_ipv4_checksum, ip_checksum, tcp_udp_checksum}
use tunio.Headers.{ip_protocol_tcp}
use tunio.Headers.Layout.{IsAddress}
use tunio.Config.Keys.{FiveTuple, make_five_tuple, five_tuple_eq, bytes_eq}
use tunio.Tcp.Dispatch.{IpInfo, World, on_packet}
use tunio.Tcp.Lifecycle.{find_flow}
use tunio.Tcp.Segments.{TcpHeader, handle_segment}
use tunio.Tcp.Output.{segment_bytes}
use tunio.Facade.{
  Local, Front, read_ip, is_guarded, src_local, is_reserved_local, classify, admit, read_ipv4,
  to_udp, on_read, handle_icmpv6,
}
use tunio.Facade.Echo.{Answers}
use tunio.Facade.Ping.{EchoRequest, on_read-Answers}
use tunio.Facade.Soundness.{SoundVerdict, classify_sound}
use tunio.Facade.Admission.{reversed, on_packet-handle_segment}
use tunio.Tests.Samples.{
  source_ip, target_ip, sample_segment, sample_stats, sample_flow, sample_engine,
}
use tunio.Tests.Wire.{sample-IsSegment}

abbrev get_some : Option (List ℕ) → List ℕ
get_some none = []
get_some (some x) = x

abbrev own_ip : List ℕ
own_ip = 10 ∷ 0 ∷ 0 ∷ 1 ∷ replicate 12 0

abbrev own_ip6 : List ℕ
own_ip6 = 253 ∷ 0 ∷ replicate 13 0 ++ (1 ∷ [])

abbrev peer_ip6 : List ℕ
peer_ip6 = 253 ∷ 0 ∷ replicate 13 0 ++ (2 ∷ [])

abbrev sample_local : Local
sample_local = record {
  have_ip4 = true;
  local_ip4 = 10 ∷ 0 ∷ 0 ∷ 1 ∷ [];
  have_ip6 = true;
  local_ip6 = own_ip6;
}

abbrev pub sample_front : Front
sample_front = record { local = sample_local; stats = sample_stats; ip_id = 65535; out = [] }

-- An identifier, a sequence number and three bytes.
abbrev echo_rest : List ℕ
echo_rest = 0 ∷ 7 ∷ 0 ∷ 1 ∷ 97 ∷ 98 ∷ 99 ∷ []

own-IsAddress : IsAddress own_ip
own-IsAddress = record { bytes = ground arith; sixteen = refl }

own6-IsAddress : IsAddress own_ip6
own6-IsAddress = record { bytes = ground arith; sixteen = refl }

peer6-IsAddress : IsAddress peer_ip6
peer6-IsAddress = record { bytes = ground arith; sixteen = refl }

echo_rest-IsBytes : IsBytes echo_rest
echo_rest-IsBytes = ground arith

abbrev sample_asked : IpInfo
sample_asked = record { family = 4; src_ip = source_ip; dst_ip = own_ip }

unguarded : is_guarded sample_local sample_asked ≡ false
unfolding is_guarded src_local is_reserved_local bytes_eq
unguarded = refl

-- An echo request of code 5, behind a header with four bytes of options and DF clear.
abbrev sample_request : List ℕ
sample_request =
    (70 ∷ 0 ∷ 0 ∷ 35 ∷ 0 ∷ 9 ∷ 0 ∷ 0 ∷ 64 ∷ 1 ∷ 99 ∷ 206 ∷ 10 ∷ 0 ∷ 0 ∷ 2 ∷ 10 ∷ 0 ∷ 0 ∷ 1 ∷ 1 ∷ 1
      ∷ 1 ∷ 0 ∷ [])
    ++ (8 ∷ 5 ∷ 51 ∷ 144 ∷ echo_rest)

sample-EchoRequest : EchoRequest sample_request
unfolding verify_ipv4_checksum ip_checksum
sample-EchoRequest = record {
  bytes = ground arith;
  version = refl;
  behind = omega arith;
  long = omega arith;
  declared = refl;
  no_offset = refl;
  no_more = refl;
  header = refl;
  protocol = refl;
  kind = refl;
  intact = refl;
}

on_read-Answers_example :
    (reply : List ℕ) × ((on_read sample_front sample_request).0.out ≡ [] ++ (reply ∷ []))
    × ((body : List ℕ) × Answers 4 1 0 sample_asked (8 ∷ 5 ∷ 51 ∷ 144 ∷ echo_rest) reply body
        × (ip_checksum body ≡ 0))
on_read-Answers_example =
    on_read-Answers sample_front sample_request sample-EchoRequest refl refl unguarded

abbrev asked6 : IpInfo
asked6 = record { family = 6; src_ip = peer_ip6; dst_ip = own_ip6 }

-- A request whose checksum is right.
abbrev echo6 : List ℕ
echo6 = 128 ∷ 0 ∷ 193 ∷ 74 ∷ echo_rest

abbrev reply6 : List ℕ
reply6 = get_some (handle_icmpv6 sample_local asked6 echo6)

answered6 : handle_icmpv6 sample_local asked6 echo6 ≡ some reply6
unfolding handle_icmpv6 bytes_eq tcp_udp_checksum
answered6 = refl

echo6-IsBytes : IsBytes echo6
echo6-IsBytes = ground arith

passed : is_guarded sample_local (reversed sample_segment) ≡ false
unfolding is_guarded src_local is_reserved_local bytes_eq
passed = refl

abbrev sample_world : World
sample_world = record { eng = sample_engine; objects = λ i. sample_flow; fresh = 1 }

-- The table knows the segment's flow by the sender's key exchanged.
abbrev far_key : FiveTuple
far_key = make_five_tuple target_ip source_ip 443 40000 ip_protocol_tcp 4

abbrev far_world : World
far_world = record sample_world { eng = record sample_engine { flows = (far_key, 0) ∷ [] } }

far_flow : find_flow far_key far_world.eng.flows ≡ some 0
unfolding find_flow five_tuple_eq bytes_eq make_five_tuple
far_flow = refl

abbrev other : ℕ
other = 1

on_packet-handle_segment_example :
    (th : TcpHeader) × (let t =
        on_packet far_world (reversed sample_segment) (segment_bytes sample_segment) 77 in
      let s =
        handle_segment
          (record { flow = sample_flow; eng = far_world.eng })
          th
          sample_segment.payload in
      (th.seq ≡ sample_segment.seq)
      × (th.ack ≡ sample_segment.ack)
      × (th.flags ≡ sample_segment.flags)
      × (th.window ≡ sample_segment.window)
      × (t.objects 0 ≡ s.flow)
      × (t.eng ≡ s.eng)
      × ((other ≡ 0) ⊎ (t.objects other ≡ far_world.objects other)))
on_packet-handle_segment_example =
    on_packet-handle_segment far_world sample_segment 77 sample-IsSegment 0 other far_flow refl

-- A UDP packet of four bytes of payload.
abbrev odd_packet : List ℕ
odd_packet =
    (69 ∷ 0 ∷ 0 ∷ 24 ∷ 0 ∷ 1 ∷ 64 ∷ 0 ∷ 64 ∷ 17 ∷ 250 ∷ 247 ∷ 10 ∷ 0 ∷ 0 ∷ 2 ∷ 93 ∷ 184 ∷ 216 ∷ 34
      ∷ [])
    ++ (1 ∷ 2 ∷ 3 ∷ 4 ∷ [])

classified :
    classify sample_local odd_packet
    ≡ to_udp (record { family = 4; src_ip = source_ip; dst_ip = target_ip }) (1 ∷ 2 ∷ 3 ∷ 4 ∷ [])
unfolding classify admit read_ip read_ipv4 is_guarded src_local is_reserved_local bytes_eq
    verify_ipv4_checksum
classified = refl

odd_packet-IsBytes : IsBytes odd_packet
odd_packet-IsBytes = ground arith

classify_sound_example : SoundVerdict sample_local odd_packet (classify sample_local odd_packet)
classify_sound_example = classify_sound sample_local odd_packet odd_packet-IsBytes
