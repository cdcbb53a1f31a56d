-- ===== src/IpPacket/Types.antt =====
-- include/tunio/ip_packet.hpp and packet_buffer.hpp: the packet object, its buffer and the builder's state.
use tunio.Base.{
  ℕ, ◌-◌, ◌*◌, ◌/◌, ◌%◌, List, [], Bool, true, false, Option, none, some, length, replicate, ◌==◌,
}
use tunio.Headers.{ip_protocol_icmp, ip_protocol_tcp, ip_protocol_udp, ip_protocol_icmpv6}

pub data ParseError : Type 0 where
  no_error invalid_version packet_too_short buffer_too_small invalid_ip_header_length
        invalid_total_length invalid_transport_header :
      ParseError

-- `packet_buffer` behind its headroom: the bytes from `data()` to the end, and how many are committed.
pub record Storage : Type 0 where
  pub cells : List ℕ
  pub size : ℕ

abbrev pub writable_size : Storage → ℕ
writable_size b = length b.cells - b.size

-- `builder_state`
pub record Builder : Type 0 where
  pub version : ℕ
  pub protocol : ℕ
  pub src : List ℕ
  pub dst : List ℕ
  pub ttl_hop : ℕ
  pub ip_id : ℕ
  pub sport : ℕ
  pub dport : ℕ
  pub seq : ℕ
  pub ack : ℕ
  pub flags : ℕ
  pub window : ℕ
  pub tcp_options : List ℕ
  pub icmp_type : ℕ
  pub icmp_code : ℕ
  pub icmp_id : ℕ
  pub icmp_seq : ℕ
  pub icmp_echo_set : Bool
  pub ip_hlen : ℕ
  pub transport_hlen : ℕ

-- A builder as it starts; `tcp_options` holds the `tcp_options_len` bytes in use.
abbrev pub new_builder : Builder
new_builder = record {
  version = 0;
  protocol = 0;
  src = replicate 16 0;
  dst = replicate 16 0;
  ttl_hop = 64;
  ip_id = 0;
  sport = 0;
  dport = 0;
  seq = 0;
  ack = 0;
  flags = 0;
  window = 0;
  tcp_options = [];
  icmp_type = 0;
  icmp_code = 0;
  icmp_id = 0;
  icmp_seq = 0;
  icmp_echo_set = false;
  ip_hlen = 0;
  transport_hlen = 0;
}

-- `ip_packet`. The header views are the bytes of their packed structs; `payload` is the distance from
-- `data()`, `none` the null pointer.
pub record IpPacket : Type 0 where
  pub buf : Storage
  pub error : ParseError
  pub version : ℕ
  pub protocol : ℕ
  pub src_ip : List ℕ
  pub dst_ip : List ℕ
  pub total_len : ℕ
  pub fragmented : Bool
  pub frag_offset : ℕ
  pub v4 : List ℕ
  pub v6 : List ℕ
  pub tcp : List ℕ
  pub udp : List ℕ
  pub icmp_type : ℕ
  pub icmp_code : ℕ
  pub icmp_checksum : ℕ
  pub icmp_echo_id : ℕ
  pub icmp_echo_seq : ℕ
  pub payload : Option ℕ
  pub payload_len : ℕ
  pub transport_parsed : Bool
  pub bld : Builder

-- The state that `clear_state` leaves behind a buffer and a builder.
abbrev pub cleared : Storage → Builder → IpPacket
cleared buf bld = record {
  buf = buf;
  error = no_error;
  version = 0;
  protocol = 0;
  src_ip = replicate 16 0;
  dst_ip = replicate 16 0;
  total_len = 0;
  fragmented = false;
  frag_offset = 0;
  v4 = replicate 20 0;
  v6 = replicate 40 0;
  tcp = replicate 20 0;
  udp = replicate 8 0;
  icmp_type = 0;
  icmp_code = 0;
  icmp_checksum = 0;
  icmp_echo_id = 0;
  icmp_echo_seq = 0;
  payload = none;
  payload_len = 0;
  transport_parsed = false;
  bld = bld;
}

unfoldable pub clear_state : IpPacket → IpPacket
clear_state p = cleared p.buf p.bld

abbrev pub emptied : Storage → Storage
emptied b = record b { size = 0 }

unfoldable pub reset : IpPacket → IpPacket
reset p = cleared (emptied p.buf) new_builder

-- `ipv4_header::header_len` and `tcp_header::header_len`, from the byte that holds them.
abbrev pub ihl_len : ℕ → ℕ
ihl_len version_ihl = version_ihl % 16 * 4

abbrev pub data_offset_len : ℕ → ℕ
data_offset_len data_offset = data_offset / 16 * 4

-- `take_state_from`, on the packet whose buffer was moved: a payload pointer is set up anew from the
-- lengths. What the other packet keeps is `clear_state`.
unfoldable pub take_state_from : IpPacket → IpPacket
take_state_from other = record other {
  payload = elim other.payload [
    | none ↦ none
    | some at ↦ some (other.total_len - other.payload_len)
  ];
}

-- The accessors.
abbrev pub valid : ParseError → Bool
valid no_error = true
valid _ = false

abbrev pub is_tcp : IpPacket → Bool
is_tcp p = p.protocol == ip_protocol_tcp

abbrev pub is_udp : IpPacket → Bool
is_udp p = p.protocol == ip_protocol_udp

abbrev pub is_icmp : IpPacket → Bool
is_icmp p = p.protocol == ip_protocol_icmp

abbrev pub is_icmpv6 : IpPacket → Bool
is_icmpv6 p = p.protocol == ip_protocol_icmpv6
