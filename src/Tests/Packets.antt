-- ===== src/Tests/Packets.antt =====
-- The theorems on the public packet class, applied.
use tunio.Base.{
  ℕ, ◌+◌, ◌≤◌, ◌<◌, ◌≡◌, inl, inr, refl, List, [], ◌∷◌, ◌++◌, replicate, none, some, arith, length,
  IsBytes,
}
use tunio.Headers.{ip_header_size, build_ip_header, ip_protocol_udp}
use tunio.Facade.Reading.{parsed, read_ip-build_ip_header}
use tunio.IpPacket.Types.{Storage, Builder, IpPacket, cleared, new_builder}
use tunio.IpPacket.Parse.{do_parse, parse}
use tunio.IpPacket.Build.{TcpFields, length_error, begin_udp, finalize}
use tunio.IpPacket.Laid.{begun}
use tunio.IpPacket.UdpPacket.{build_udp, IsUdpPacket, build_udp-IsUdpPacket}
use tunio.IpPacket.TcpPacket.{build_tcp, IsFields, IsTcpPacket, build_tcp-IsTcpPacket}
use tunio.IpPacket.IcmpPacket.{build_echo, IsEchoPacket, build_echo-IsEchoPacket}
use tunio.IpPacket.Sound.{ParseResult, do_parse_sound}
use tunio.IpPacket.Agreement.{IsSame, do_parse-read_ip}
use tunio.IpPacket.Overrun.{begin_udp-overrun}
use tunio.Tests.Samples.{source_ip, target_ip}
use tunio.Tests.Wire.{source-IsAddress, target-IsAddress}

-- A packet object with room for 100 bytes, and one with room for 24.
abbrev fresh_packet : IpPacket
fresh_packet = cleared (record { cells = replicate 100 7; size = 0 }) new_builder

abbrev tight_packet : IpPacket
tight_packet = cleared (record { cells = replicate 24 7; size = 0 }) new_builder

abbrev text : List ℕ
text = 104 ∷ 105 ∷ []

room_udp : ip_header_size 4 + (8 + 2) ≤ 100
unfolding ip_header_size
room_udp = omega arith

build_udp-IsUdpPacket_example :
    (q : IpPacket) × (build_udp fresh_packet 4 source_ip target_ip 64 9 40000 53 text ≡ (q, none))
    × IsUdpPacket q 4 source_ip target_ip 64 9 40000 53 text
build_udp-IsUdpPacket_example =
    build_udp-IsUdpPacket fresh_packet 4 source_ip target_ip 64 9 40000 53 text (inl refl)
      source-IsAddress target-IsAddress (omega arith) (omega arith) (omega arith) (omega arith)
      room_udp

abbrev sample_fields : TcpFields
sample_fields = record {
  src_port = 40000;
  dst_port = 443;
  seq = 4000000000;
  ack = 77;
  flags = 18;
  window = 65535;
  options = 2 ∷ 4 ∷ 5 ∷ 180 ∷ [];
}

room_tcp : ip_header_size 4 + (20 + 4 + 2) ≤ 100
unfolding ip_header_size
room_tcp = omega arith

room_echo : ip_header_size 6 + (8 + 2) ≤ 100
unfolding ip_header_size
room_echo = omega arith

sample-IsFields : IsFields sample_fields
sample-IsFields = omega arith

build_tcp-IsTcpPacket_example :
    (q : IpPacket) × (build_tcp fresh_packet 4 source_ip target_ip 64 9 sample_fields text
      ≡ (q, none))
    × IsTcpPacket q 4 source_ip target_ip 64 9 sample_fields text
build_tcp-IsTcpPacket_example =
    build_tcp-IsTcpPacket fresh_packet 4 source_ip target_ip 64 9 sample_fields text (inl refl)
      source-IsAddress target-IsAddress (omega arith) sample-IsFields (omega arith) (omega arith)
      room_tcp

build_echo-IsEchoPacket_example :
    (q : IpPacket) × (build_echo fresh_packet 6 source_ip target_ip 64 9 128 0 7 1 text ≡ (q, none))
    × IsEchoPacket q 6 source_ip target_ip 128 0 7 1 text
build_echo-IsEchoPacket_example =
    build_echo-IsEchoPacket fresh_packet 6 source_ip target_ip 64 9 128 0 7 1 text (inr refl)
      source-IsAddress target-IsAddress (omega arith) refl (omega arith) (omega arith) (omega arith)
      (omega arith) (omega arith) room_echo

-- A packet with a UDP header whose length field counts one byte more than there is.
abbrev odd_bytes : List ℕ
odd_bytes =
    0x45 ∷ 0 ∷ 0 ∷ 28 ∷ 0 ∷ 9 ∷ 0 ∷ 0 ∷ 64 ∷ 17 ∷ 0 ∷ 0 ∷ 10 ∷ 0 ∷ 0 ∷ 2 ∷ 10 ∷ 0 ∷ 0 ∷ 1 ∷ 0 ∷ 53
    ∷ 0 ∷ 54 ∷ 0 ∷ 9 ∷ 0 ∷ 0 ∷ []

odd-IsBytes : IsBytes odd_bytes
odd-IsBytes = omega arith

do_parse_sound_example : ParseResult odd_bytes (do_parse fresh_packet odd_bytes)
do_parse_sound_example = do_parse_sound fresh_packet odd_bytes odd-IsBytes

abbrev sample_read : List ℕ
sample_read =
    build_ip_header 4 source_ip target_ip ip_protocol_udp (ip_header_size 4 + length text) 9 64
    ++ text

do_parse-read_ip_example :
    IsSame sample_read
      (parsed source_ip target_ip text ip_protocol_udp 4)
      (do_parse fresh_packet sample_read)
do_parse-read_ip_example =
    do_parse-read_ip fresh_packet sample_read (parsed source_ip target_ip text ip_protocol_udp 4) (
      read_ip-build_ip_header source_ip target_ip text source-IsAddress target-IsAddress
        ip_protocol_udp 9 64 (omega arith) (omega arith) (omega arith) refl 4 (inl refl))

-- A datagram of 24 bytes, cut behind 16.
abbrev cut_datagram : List ℕ
cut_datagram = 0 ∷ 53 ∷ 0 ∷ 54 ∷ 0 ∷ 24 ∷ replicate 18 1

abbrev sample_builder : Builder
sample_builder = record new_builder {
  version = 4;
  protocol = 17;
  src = source_ip;
  dst = target_ip;
  ip_hlen = 20;
  transport_hlen = 8;
}

ready : 20 ≡ ip_header_size 4
unfolding ip_header_size
ready = refl

tight : (ip_header_size 4 ≤ 24) × (24 < ip_header_size 4 + 8)
unfolding ip_header_size
tight = omega arith

begin_udp-overrun_example :
    (q : IpPacket) × (begin_udp (begun tight_packet 4 source_ip target_ip 64) 40000 53
      ≡ (q, some length_error))
    × ((done : Storage) × (finalize q ≡ (parse (record q { buf = done }) done q.buf.size, none))
        × (length q.buf.cells < length done.cells))
begin_udp-overrun_example =
    begin_udp-overrun tight_packet 4 source_ip target_ip 64 40000 53 (inl refl) source-IsAddress
      target-IsAddress tight.0 tight.1
