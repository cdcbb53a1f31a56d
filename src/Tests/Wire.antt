-- ===== src/Tests/Wire.antt =====
-- The theorems on checksums, headers, keys, sequence numbers, the budget and packets, applied.
use tunio.Base.{ℕ, ◌≡◌, inl, refl, List, [], ◌∷◌, ◌++◌, arith}
use tunio.Checksum.{ip_checksum, tcp_udp_checksum}
use tunio.Checksum.Verify.{with_field}
use tunio.Headers.Layout.{IsAddress}
use tunio.Tcp.Output.{segment_bytes}
use tunio.Tcp.Output.Packet.{IsSegment, Reads, tcp_udp_checksum-segment_bytes, segment_bytes-Reads}
use tunio.Tests.Samples.{source_ip, target_ip, sample_segment}

abbrev front : List ℕ
front = 1 ∷ 2 ∷ 255 ∷ 255 ∷ []

abbrev back : List ℕ
back = 8 ∷ 9 ∷ 10 ∷ []

-- 60660 is the checksum of these bytes.
verified : ip_checksum (with_field front 60660 back) ≡ 0
unfolding ip_checksum
verified = refl

pub source-IsAddress : IsAddress source_ip
source-IsAddress = record { bytes = ground arith; sixteen = refl }

pub target-IsAddress : IsAddress target_ip
target-IsAddress = record { bytes = ground arith; sixteen = refl }

-- A datagram whose checksum comes out as 0.
zero_sum : tcp_udp_checksum 4 source_ip target_ip 17 (with_field (192 ∷ 13 ∷ []) 0 []) ≡ 0
unfolding tcp_udp_checksum
zero_sum = refl

pub sample-IsSegment : IsSegment sample_segment
sample-IsSegment = record {
  source = source-IsAddress;
  target = target-IsAddress;
  family = inl refl;
  src_port = omega arith;
  dst_port = omega arith;
  seq = omega arith;
  ack = omega arith;
  flags = omega arith;
  window = omega arith;
  payload = ground arith;
  small = omega arith;
}

tcp_udp_checksum-segment_bytes_example :
    tcp_udp_checksum 4 target_ip source_ip 6 (segment_bytes sample_segment) ≡ 0
tcp_udp_checksum-segment_bytes_example =
    tcp_udp_checksum-segment_bytes sample_segment sample-IsSegment

segment_bytes-Reads_example : Reads (segment_bytes sample_segment) sample_segment
segment_bytes-Reads_example = segment_bytes-Reads sample_segment sample-IsSegment

-- Twenty bytes of header, a NOP and a window scale of 9.
abbrev scaled_syn : List ℕ
scaled_syn = source_ip ++ (0 ∷ 0 ∷ 0 ∷ 0 ∷ 1 ∷ 3 ∷ 3 ∷ 9 ∷ [])
