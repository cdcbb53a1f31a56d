-- ===== src/Facade.antt =====
-- src/tunio.cpp: the checks between the device and the engines (tunio_impl::handle_packet), and the echo
-- replies that the facade sends itself.
pub mod Admission
pub mod Echo
pub mod Lifecycle
pub mod Ping
pub mod Reading
pub mod Soundness
use tunio.Base.{
  ℕ, ◌+◌, ◌-◌, ◌*◌, ◌/◌, ◌%◌, List, [], ◌∷◌, ◌++◌, Bool, true, false, ◌&&◌, ◌||◌, not, Option, none,
  some, length, take, drop, replicate, get_or, be16, bytes16, ltb, leb, ◌==◌, if◌then◌else◌,
}
use tunio.Checksum.{ip_checksum, tcp_udp_checksum, verify_ipv4_checksum}
use tunio.Headers.{
  ip_protocol_icmp, ip_protocol_tcp, ip_protocol_udp, ip_protocol_icmpv6, build_ip_header,
}
use tunio.Config.Keys.{bytes_eq}
use tunio.Config.{Stats, incr}
use tunio.Tcp.Dispatch.{IpInfo}
use tunio.Tcp.Output.{next_ip_id}

-- `have_ip4_`, `local_ip4_` and their like: the addresses of the virtual interface.
pub record Local : Type 0 where
  pub have_ip4 : Bool
  pub local_ip4 : List ℕ
  pub have_ip6 : Bool
  pub local_ip6 : List ℕ

-- What the IP layer reads: the engines' view of the header, the protocol and the payload.
pub record Parsed : Type 0 where
  pub info : IpInfo
  pub protocol : ℕ
  pub payload : List ℕ

-- An IPv4 packet; `none` drops it.
unfoldable pub read_ipv4 : List ℕ → Option Parsed
read_ipv4 p =
    let ihl = get_or p 0 0 % 16 * 4 in
    let total_len = be16 p 2 in
    let frag = be16 p 6 in
    if ltb ihl 20 || ltb (length p) ihl
    then none
    else if ltb total_len ihl || ltb (length p) total_len
    then none
    else if not (frag % 8192 == 0) || frag / 8192 % 2 == 1
    then none
    else if not (verify_ipv4_checksum (take ihl p) == 0)
    then none
    else some (record {
      info = record {
        family = 4;
        src_ip = take 4 (drop 12 p) ++ replicate 12 0;
        dst_ip = take 4 (drop 16 p) ++ replicate 12 0;
      };
      protocol = get_or p 9 0;
      payload = take (total_len - ihl) (drop ihl p);
    })

-- The next headers that announce an extension header.
abbrev pub is_extension : ℕ → Bool
is_extension h = h == 0 || (h == 43 || (h == 44 || (h == 51 || h == 60)))

unfoldable pub read_ipv6 : List ℕ → Option Parsed
read_ipv6 p =
    let payload_len = be16 p 4 in
    if ltb (length p) 40
    then none
    else if ltb (length p) (40 + payload_len)
    then none
    else if is_extension (get_or p 6 0)
    then none
    else some (record {
      info = record { family = 6; src_ip = take 16 (drop 8 p); dst_ip = take 16 (drop 24 p) };
      protocol = get_or p 6 0;
      payload = take payload_len (drop 40 p);
    })

unfoldable pub read_ip : List ℕ → Option Parsed
read_ip p =
    if ltb (length p) 20
    then none
    else if get_or p 0 0 / 16 == 4
    then read_ipv4 p
    else if get_or p 0 0 / 16 == 6
    then read_ipv6 p
    else none

abbrev pub all_zero : List ℕ → Bool
all_zero [] = true
all_zero (b ∷ bs) = b == 0 && all_zero bs

-- 127.0.0.0/8 and 0.0.0.0/8; ::/128, ::1/128 and fe80::/10.
unfoldable pub is_reserved_local : List ℕ → ℕ → Bool
is_reserved_local a family =
    if family == 4
    then get_or a 0 0 == 127 || get_or a 0 0 == 0
    else if all_zero (take 15 a)
    then get_or a 15 0 == 0 || get_or a 15 0 == 1
    else get_or a 0 0 == 254 && get_or a 1 0 / 64 == 2

-- The source is the interface's own address.
unfoldable pub src_local : Local → IpInfo → Bool
src_local l ip =
    (l.have_ip4 && (ip.family == 4 && bytes_eq (take 4 ip.src_ip) l.local_ip4))
    || (l.have_ip6 && (ip.family == 6 && bytes_eq ip.src_ip l.local_ip6))

-- The guard against loops.
unfoldable pub is_guarded : Local → IpInfo → Bool
is_guarded l ip =
    src_local l ip
    || (is_reserved_local ip.src_ip ip.family || is_reserved_local ip.dst_ip ip.family)

-- Where a packet goes.
pub data Verdict : Type 0 where
  dropped : Verdict
  to_icmp to_icmpv6 to_tcp to_udp : IpInfo → List ℕ → Verdict

abbrev pub by_protocol : Parsed → Verdict
by_protocol q =
    if q.protocol == ip_protocol_icmp
    then to_icmp q.info q.payload
    else if q.protocol == ip_protocol_icmpv6
    then to_icmpv6 q.info q.payload
    else if q.protocol == ip_protocol_tcp
    then to_tcp q.info q.payload
    else if q.protocol == ip_protocol_udp
    then to_udp q.info q.payload
    else dropped

unfoldable pub admit : Local → Option Parsed → Verdict
admit l none = dropped
admit l (some q) = if is_guarded l q.info then dropped else by_protocol q

-- `handle_packet`, up to the call that it ends with.
unfoldable pub classify : Local → List ℕ → Verdict
classify l p = admit l (read_ip p)

-- The part of `on_read` that a packet of `base` bytes passes first: the length that it declares, if
-- that is in range.
unfoldable pub declared_length : List ℕ → Option ℕ
declared_length base =
    let total4 = be16 base 2 in
    let total6 = 40 + be16 base 4 in
    if ltb (length base) 20
    then none
    else if get_or base 0 0 / 16 == 4
    then (if ltb total4 20 || ltb (length base) total4 then none else some total4)
    else if get_or base 0 0 / 16 == 6
    then (if ltb total6 40 || ltb (length base) total6 then none else some total6)
    else none

-- The echo reply's message: the type, a checksum of its own, and the rest of the request.
abbrev pub message : ℕ → List ℕ → ℕ → List ℕ
message kind icmp csum = (kind ∷ get_or icmp 1 0 ∷ []) ++ (bytes16 csum ++ drop 4 icmp)

-- `handle_icmp`: the reply, for an intact echo request to the interface's own address.
unfoldable pub handle_icmp : Local → IpInfo → List ℕ → ℕ → Option (List ℕ)
handle_icmp l ip icmp ip_id =
    if not l.have_ip4 || ltb (length icmp) 8
    then none
    else if not (bytes_eq (take 4 ip.dst_ip) l.local_ip4) || not (get_or icmp 0 0 == 8)
    then none
    else if not (ip_checksum icmp == 0)
    then none
    else some (
        build_ip_header 4 ip.dst_ip ip.src_ip ip_protocol_icmp (20 + length icmp) ip_id 64
        ++ message 0 icmp (ip_checksum (message 0 icmp 0)))

unfoldable pub handle_icmpv6 : Local → IpInfo → List ℕ → Option (List ℕ)
handle_icmpv6 l ip icmp =
    if not l.have_ip6 || ltb (length icmp) 8
    then none
    else if not (bytes_eq ip.dst_ip l.local_ip6) || not (get_or icmp 0 0 == 128)
    then none
    else if not (tcp_udp_checksum 6 ip.src_ip ip.dst_ip ip_protocol_icmpv6 icmp == 0)
    then none
    else some (
        build_ip_header 6 ip.dst_ip ip.src_ip ip_protocol_icmpv6 (40 + length icmp) 0 64
        ++ message 129 icmp
            (tcp_udp_checksum 6 ip.dst_ip ip.src_ip ip_protocol_icmpv6 (message 129 icmp 0)))

-- What the facade itself keeps: the addresses, the counters, the identification counter of the writer,
-- and the packets handed to the writer.
pub record Front : Type 0 where
  pub local : Local
  pub stats : Stats
  pub ip_id : ℕ
  pub out : List (List ℕ)

abbrev pub count_dropped : Front → Front
count_dropped f = record f { stats = record f.stats { rx_dropped = incr f.stats.rx_dropped } }

-- A reply is handed to the writer and counted.
unfoldable pub answer : Front → Option (List ℕ) → ℕ → Front
answer f none ip_id = f
answer f (some reply) ip_id = record f {
  stats = record f.stats { icmp_replies = incr f.stats.icmp_replies };
  ip_id = ip_id;
  out = f.out ++ (reply ∷ []);
}

-- The facade's own part of `handle_packet`; the engines get the rest.
unfoldable pub handle_packet : Front → Verdict → Front
handle_packet f dropped = count_dropped f
handle_packet f (to_icmp ip icmp) =
    answer f (handle_icmp f.local ip icmp (next_ip_id f.ip_id)) (next_ip_id f.ip_id)
handle_packet f (to_icmpv6 ip icmp) = answer f (handle_icmpv6 f.local ip icmp) f.ip_id
handle_packet f (to_tcp ip segment) = f
handle_packet f (to_udp ip datagram) = f

-- A read of the device that succeeds: the packet's checks, then `handle_packet` on the declared length.
unfoldable pub take_packet : Front → List ℕ → Option ℕ → Front × Verdict
take_packet f base none = (count_dropped f, dropped)
take_packet f base (some total_len) =
    let verdict = classify f.local (take total_len base) in
    let counted : Front = record f {
      stats = record f.stats { rx_packets = incr f.stats.rx_packets };
    } in
    (handle_packet counted verdict, verdict)

unfoldable pub on_read : Front → List ℕ → Front × Verdict
on_read f base = take_packet f base (declared_length base)
