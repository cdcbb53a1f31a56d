-- ===== src/IpPacket/Build.antt =====
-- The builder of src/ip_packet.cpp: begin_*, append_payload and finalize.
use tunio.Base.{
  ℕ, ◌+◌, ◌-◌, ◌*◌, ◌/◌, ◌%◌, ◌^◌, List, [], ◌∷◌, ◌++◌, Bool, true, false, ◌&&◌, ◌||◌, not, Option,
  none, some, length, take, drop, replicate, ltb, ◌==◌, if◌then◌else◌, u16, bytes16, bytes32,
}
use tunio.Checksum.{tcp_udp_checksum, ip_checksum}
use tunio.Headers.{
  ip_protocol_icmp, ip_protocol_tcp, ip_protocol_udp, ip_protocol_icmpv6, build_ip_header,
}
use tunio.IpPacket.Types.{Storage, writable_size, new_builder, IpPacket, Builder, emptied}
use tunio.IpPacket.Parse.{write, parse}

-- The exceptions that the builder throws; what was done before stays done.
pub data Thrown : Type 0 where
  length_error logic_error invalid_argument : Thrown

abbrev pub Outcome : Type 0
Outcome = IpPacket × Option Thrown

-- One call after another: an exception ends the sequence.
infixl 5 ◌>>◌
abbrev pub ◌>>◌ : Outcome → (IpPacket → Outcome) → Outcome
(p, none) >> f = f p
(p, some e) >> f = (p, some e)

-- The part that a buffer gains when zeros or data are written behind its committed bytes.
abbrev pub push : Storage → List ℕ → Storage
push b bytes = record { cells = write b.cells b.size bytes; size = b.size + length bytes }

abbrev pub header_size : ℕ → ℕ
header_size version = if version == 4 then 20 else 40

unfoldable pub builder_begin : IpPacket → ℕ → Outcome
builder_begin p version =
    let begun : IpPacket = record p {
      buf = emptied p.buf;
      bld = record new_builder { version = version; ip_hlen = header_size version };
    } in
    if ltb (writable_size begun.buf) (header_size version)
    then (begun, some length_error)
    else (record begun { buf = push begun.buf (replicate (header_size version) 0) }, none)

unfoldable pub reserve_transport : IpPacket → Outcome
reserve_transport p =
    if ltb (writable_size p.buf) p.bld.transport_hlen
    then (p, some length_error)
    else (record p { buf = push p.buf (replicate p.bld.transport_hlen 0) }, none)

-- The addresses are copied to the front of the builder's 16 bytes.
abbrev pub set_addresses : List ℕ → List ℕ → ℕ → IpPacket → Outcome
set_addresses src dst ttl p =
    (record p { bld = record p.bld { src = src; dst = dst; ttl_hop = ttl } }, none)

unfoldable pub begin_ipv4 : IpPacket → List ℕ → List ℕ → ℕ → Outcome
unfolding builder_begin
begin_ipv4 p src dst ttl =
    builder_begin p 4
    >> set_addresses (take 4 src ++ replicate 12 0) (take 4 dst ++ replicate 12 0) ttl

unfoldable pub begin_ipv6 : IpPacket → List ℕ → List ℕ → ℕ → Outcome
unfolding builder_begin
begin_ipv6 p src dst hop_limit =
    builder_begin p 6 >> set_addresses (take 16 src) (take 16 dst) hop_limit

-- The arguments of `begin_tcp`.
pub record TcpFields : Type 0 where
  pub src_port : ℕ
  pub dst_port : ℕ
  pub seq : ℕ
  pub ack : ℕ
  pub flags : ℕ
  pub window : ℕ
  pub options : List ℕ

abbrev pub started : Builder → Bool
started b = not (b.protocol == 0)

unfoldable pub begin_tcp : IpPacket → TcpFields → Outcome
unfolding reserve_transport
begin_tcp p f =
    if p.bld.version == 0
    then (p, some logic_error)
    else if started p.bld
    then (p, some logic_error)
    else if not (length f.options % 4 == 0) || ltb 40 (length f.options)
    then (p, some invalid_argument)
    else reserve_transport (record p {
      bld = record p.bld {
        protocol = ip_protocol_tcp;
        sport = f.src_port;
        dport = f.dst_port;
        seq = f.seq;
        ack = f.ack;
        flags = f.flags;
        window = f.window;
        transport_hlen = 20 + length f.options;
        tcp_options = f.options;
      };
    })

unfoldable pub begin_udp : IpPacket → ℕ → ℕ → Outcome
unfolding reserve_transport
begin_udp p src_port dst_port =
    if p.bld.version == 0
    then (p, some logic_error)
    else if started p.bld
    then (p, some logic_error)
    else reserve_transport (record p {
      bld = record p.bld {
        protocol = ip_protocol_udp;
        sport = src_port;
        dport = dst_port;
        transport_hlen = 8;
      };
    })

unfoldable pub begin_icmp : IpPacket → ℕ → ℕ → Outcome
unfolding reserve_transport
begin_icmp p kind code =
    if p.bld.version == 0
    then (p, some logic_error)
    else if started p.bld
    then (p, some logic_error)
    else reserve_transport (record p {
      bld = record p.bld {
        protocol = (if p.bld.version == 4 then ip_protocol_icmp else ip_protocol_icmpv6);
        icmp_type = kind;
        icmp_code = code;
        icmp_echo_set = false;
        transport_hlen = 8;
      };
    })

unfoldable pub set_icmp_echo : IpPacket → ℕ → ℕ → IpPacket
set_icmp_echo p id seq = record p {
  bld = record p.bld { icmp_id = id; icmp_seq = seq; icmp_echo_set = true };
}

unfoldable pub set_ip_id : IpPacket → ℕ → IpPacket
set_ip_id p id = record p { bld = record p.bld { ip_id = id } }

unfoldable pub append_payload : IpPacket → List ℕ → Outcome
append_payload p bytes =
    if p.bld.version == 0
    then (p, some logic_error)
    else if ltb (writable_size p.buf) (length bytes)
    then (p, some length_error)
    else (record p { buf = push p.buf bytes }, none)

-- The TCP header that `finalize` copies to the front of the segment, its checksum field at 0.
abbrev pub tcp_fields : Builder → List ℕ
tcp_fields b =
    bytes16 b.sport
    ++ (bytes16 b.dport
        ++ (bytes32 b.seq
            ++ (bytes32 b.ack
                ++ (b.transport_hlen / 4 * 16 % 256 ∷ b.flags ∷ bytes16 b.window
                    ++ (0 ∷ 0 ∷ 0 ∷ 0 ∷ [])))))

-- The cases of `finalize` on the cells from `seg` on.
unfoldable pub fill_tcp : Builder → ℕ → ℕ → List ℕ → List ℕ
fill_tcp b family seg_len seg =
    let fields = write seg 0 (tcp_fields b) in
    let header = if length b.tcp_options == 0 then fields else write fields 20 b.tcp_options in
    write header 16
      (bytes16 (tcp_udp_checksum family b.src b.dst ip_protocol_tcp (take seg_len header)))

unfoldable pub fill_udp : Builder → ℕ → ℕ → List ℕ → List ℕ
fill_udp b family seg_len seg =
    let header =
      write seg 0
        (bytes16 b.sport ++ (bytes16 b.dport ++ (bytes16 (u16 seg_len) ++ (0 ∷ 0 ∷ [])))) in
    let csum = tcp_udp_checksum family b.src b.dst ip_protocol_udp (take seg_len header) in
    write header 6 (bytes16 (if csum == 0 then 0xffff else csum))

unfoldable pub fill_icmp : Builder → ℕ → ℕ → List ℕ → List ℕ
fill_icmp b family seg_len seg =
    let fields = write seg 0 (b.icmp_type ∷ b.icmp_code ∷ 0 ∷ 0 ∷ []) in
    let header =
      if b.icmp_echo_set
      then write fields 4 (bytes16 b.icmp_id ++ bytes16 b.icmp_seq)
      else fields in
    let csum =
      if family == 4
      then ip_checksum (take seg_len header)
      else tcp_udp_checksum 6 b.src b.dst ip_protocol_icmpv6 (take seg_len header) in
    write header 2 (bytes16 csum)

unfoldable pub fill_transport : Builder → ℕ → ℕ → List ℕ → List ℕ
fill_transport b family seg_len seg =
    if b.protocol == ip_protocol_tcp
    then fill_tcp b family seg_len seg
    else if b.protocol == ip_protocol_udp
    then fill_udp b family seg_len seg
    else if b.protocol == ip_protocol_icmp || b.protocol == ip_protocol_icmpv6
    then fill_icmp b family seg_len seg
    else seg

-- `size_t` subtraction and addition.
abbrev pub sub64 : ℕ → ℕ → ℕ
sub64 a b = (a + 2 ^ 64 - b) % 2 ^ 64

abbrev pub add64 : ℕ → ℕ → ℕ
add64 a b = (a + b) % 2 ^ 64

-- The cells of the finished packet.
unfoldable pub filled : Builder → ℕ → ℕ → ℕ → List ℕ → List ℕ
unfolding fill_transport
filled b family total seg_len cells =
    let out = write cells 0 (
      build_ip_header family b.src b.dst b.protocol total (if family == 4 then b.ip_id else 0)
        b.ttl_hop) in
    take b.ip_hlen out ++ fill_transport b family seg_len (drop b.ip_hlen out)

unfoldable pub finish_with : IpPacket → ℕ → ℕ → Outcome
unfolding filled parse
finish_with p total seg_len =
    let b = p.bld in
    let done : Storage = record p.buf {
      cells = filled b (if b.version == 4 then 4 else 6) total seg_len p.buf.cells;
    } in
    if b.version == 0
    then (p, none)
    else if b.version == 4 && ltb 0xffff total
    then (p, some length_error)
    else if b.version == 6 && ltb 0xffff (sub64 total b.ip_hlen)
    then (p, some length_error)
    else (parse (record p { buf = done }) done done.size, none)

abbrev pub payload_size : IpPacket → ℕ
payload_size p = sub64 (sub64 p.buf.size p.bld.ip_hlen) p.bld.transport_hlen

unfoldable pub finalize : IpPacket → Outcome
unfolding finish_with
finalize p =
    finish_with p (add64 (add64 p.bld.ip_hlen p.bld.transport_hlen) (payload_size p))
      (add64 p.bld.transport_hlen (payload_size p))
