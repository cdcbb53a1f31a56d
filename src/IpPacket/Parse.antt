-- ===== src/IpPacket/Parse.antt =====
-- `do_parse`, `parse_transport`, `copy_and_parse` and the accessors of src/ip_packet.cpp.
use tunio.Base.{
  ℕ, ◌+◌, ◌-◌, ◌*◌, ◌/◌, ◌%◌, ◌^◌, List, ◌++◌, Bool, true, false, ◌&&◌, ◌||◌, not, Option, none,
  some, length, take, drop, replicate, get_or, be16, ltb, ◌==◌, if◌then◌else◌,
}
use tunio.Headers.{ip_protocol_icmp, ip_protocol_tcp, ip_protocol_udp, ip_protocol_icmpv6}
use tunio.IpPacket.Types.{
  ParseError, invalid_version, packet_too_short, buffer_too_small, invalid_ip_header_length,
  invalid_total_length, invalid_transport_header, Storage, writable_size, new_builder, IpPacket,
  cleared, clear_state, emptied, reset, ihl_len, data_offset_len, is_tcp, is_udp, is_icmp,
  is_icmpv6,
}

abbrev pub failed : IpPacket → ParseError → IpPacket
failed p e = record p { error = e }

unfoldable pub parse_tcp : IpPacket → List ℕ → IpPacket
parse_tcp p seg =
    let seen : IpPacket = record p { tcp = take 20 seg } in
    let hlen = data_offset_len (get_or seg 12 0) in
    if ltb (length seg) 20
    then failed p invalid_transport_header
    else if ltb hlen 20 || ltb (length seg) hlen
    then failed seen invalid_transport_header
    else record seen { transport_parsed = true }

unfoldable pub parse_udp : IpPacket → List ℕ → IpPacket
parse_udp p seg =
    let seen : IpPacket = record p { udp = take 8 seg } in
    let ulen = be16 seg 4 in
    if ltb (length seg) 8
    then failed p invalid_transport_header
    else if ltb ulen 8 || ltb (length seg) ulen
    then failed seen invalid_transport_header
    else record seen { transport_parsed = true }

-- An echo request or reply, of either version.
abbrev pub is_echo : ℕ → ℕ → Bool
is_echo protocol kind =
    (protocol == ip_protocol_icmp && (kind == 8 || kind == 0))
    || (protocol == ip_protocol_icmpv6 && (kind == 128 || kind == 129))

unfoldable pub parse_icmp : IpPacket → ℕ → List ℕ → IpPacket
parse_icmp p protocol seg =
    let seen : IpPacket = record p {
      icmp_type = get_or seg 0 0;
      icmp_code = get_or seg 1 0;
      icmp_checksum = be16 seg 2;
    } in
    let with_echo : IpPacket =
      if is_echo protocol (get_or seg 0 0)
      then record seen { icmp_echo_id = be16 seg 4; icmp_echo_seq = be16 seg 6 }
      else seen in
    if ltb (length seg) 8
    then failed p invalid_transport_header
    else record with_echo { transport_parsed = true }

unfoldable pub parse_transport : IpPacket → ℕ → List ℕ → IpPacket
parse_transport p protocol seg =
    let fresh : IpPacket = record p { transport_parsed = false } in
    if protocol == ip_protocol_tcp
    then parse_tcp fresh seg
    else if protocol == ip_protocol_udp
    then parse_udp fresh seg
    else if protocol == ip_protocol_icmp || protocol == ip_protocol_icmpv6
    then parse_icmp fresh protocol seg
    else fresh

-- `do_parse` on a packet of version 4, after `clear_state`; the bytes are `bytes[0, len)`.
unfoldable pub parse_ipv4 : IpPacket → List ℕ → IpPacket
parse_ipv4 p bytes =
    let seen : IpPacket = record p { v4 = take 20 bytes } in
    let ihl = ihl_len (get_or bytes 0 0) in
    let total = be16 bytes 2 in
    let frag = be16 bytes 6 in
    let offset = frag % 8192 * 8 in
    let parsed : IpPacket = record seen {
      version = 4;
      protocol = get_or bytes 9 0;
      src_ip = take 4 (drop 12 bytes) ++ replicate 12 0;
      dst_ip = take 4 (drop 16 bytes) ++ replicate 12 0;
      total_len = total;
      fragmented = not (frag % 16384 == 0);
      frag_offset = offset;
      payload = some ihl;
      payload_len = total - ihl;
    } in
    if ltb ihl 20 || ltb (length bytes) ihl
    then failed seen invalid_ip_header_length
    else if ltb total ihl || ltb (length bytes) total
    then failed seen invalid_total_length
    else if offset == 0
    then parse_transport parsed (get_or bytes 9 0) (take (total - ihl) (drop ihl bytes))
    else parsed

unfoldable pub parse_ipv6 : IpPacket → List ℕ → IpPacket
parse_ipv6 p bytes =
    let seen : IpPacket = record p { v6 = take 40 bytes } in
    let plen = be16 bytes 4 in
    let parsed : IpPacket = record seen {
      version = 6;
      protocol = get_or bytes 6 0;
      src_ip = take 16 (drop 8 bytes);
      dst_ip = take 16 (drop 24 bytes);
      total_len = 40 + plen;
      payload = some 40;
      payload_len = plen;
    } in
    if ltb (length bytes) 40
    then failed p packet_too_short
    else if ltb (length bytes) (40 + plen)
    then failed seen invalid_total_length
    else parse_transport parsed (get_or bytes 6 0) (take plen (drop 40 bytes))

unfoldable pub do_parse : IpPacket → List ℕ → IpPacket
unfolding clear_state
do_parse p bytes =
    let fresh = clear_state p in
    if ltb (length bytes) 20
    then failed fresh packet_too_short
    else if get_or bytes 0 0 / 16 == 4
    then parse_ipv4 fresh bytes
    else if get_or bytes 0 0 / 16 == 6
    then parse_ipv6 fresh bytes
    else failed fresh invalid_version

-- A write to the buffer at a distance from `data()`.
abbrev pub write : List ℕ → ℕ → List ℕ → List ℕ
write cells at bytes = take at cells ++ (bytes ++ drop (at + length bytes) cells)

unfoldable pub copy_and_parse : IpPacket → List ℕ → IpPacket
copy_and_parse p bytes =
    let empty = cleared (emptied p.buf) new_builder in
    if ltb (writable_size (emptied p.buf)) (length bytes)
    then failed empty buffer_too_small
    else do_parse
        (record empty { buf = record { cells = write p.buf.cells 0 bytes; size = length bytes } })
        bytes

-- `parse(src, len)`; what lies behind the committed bytes of `src` counts too.
unfoldable pub parse : IpPacket → Storage → ℕ → IpPacket
parse p src len =
    if ltb (length src.cells) len
    then failed (reset p) buffer_too_small
    else copy_and_parse p (take len src.cells)

unfoldable pub source_port : IpPacket → ℕ
source_port p =
    if is_tcp p && p.transport_parsed
    then be16 p.tcp 0
    else if is_udp p && p.transport_parsed
    then be16 p.udp 0
    else 0

unfoldable pub destination_port : IpPacket → ℕ
destination_port p =
    if is_tcp p && p.transport_parsed
    then be16 p.tcp 2
    else if is_udp p && p.transport_parsed
    then be16 p.udp 2
    else 0

-- How many bytes `transport_data` skips of the payload, when there is one.
abbrev pub transport_skip : IpPacket → ℕ
transport_skip p =
    if is_tcp p && p.transport_parsed
    then data_offset_len (get_or p.tcp 12 0)
    else if is_udp p && p.transport_parsed
    then 8
    else if (is_icmp p || is_icmpv6 p) && p.transport_parsed
    then 8
    else 0

unfoldable pub transport_data : IpPacket → Option ℕ
transport_data p = elim p.payload [ none ↦ none | some at ↦ some (at + transport_skip p) ]

abbrev pub transport_size : IpPacket → ℕ
transport_size p =
    if is_tcp p && p.transport_parsed
    then p.payload_len - data_offset_len (get_or p.tcp 12 0)
    else if is_udp p && p.transport_parsed
    then (be16 p.udp 4 + 2 ^ 64 - 8) % 2 ^ 64
    else if (is_icmp p || is_icmpv6 p) && p.transport_parsed
    then p.payload_len - 8
    else p.payload_len

unfoldable pub transport_data_size : IpPacket → ℕ
transport_data_size p = elim p.payload [ none ↦ 0 | some at ↦ transport_size p ]
