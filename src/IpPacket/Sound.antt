-- ===== src/IpPacket/Sound.antt =====
-- What a parsed packet's views are good for: they lie inside the packet, whatever its bytes are.
use tunio.Base.{
  ℕ, ◌+◌, ◌-◌, ◌*◌, ◌/◌, ◌%◌, ◌≤◌, ◌<◌, ◌≡◌, ◌⊎◌, inl, inr, refl, List, ◌++◌, arith, true, false,
  ◌||◌, Option, none, some, length, take, drop, length-append, length-take, length-drop, replicate,
  be16, get_or, get_or-take, get_or-IsByte, IsBytes, take-IsBytes, drop-IsBytes, ltb, ◌==◌,
  if◌then◌else◌, if_both, ==_iff,
}
use tunio.Headers.{ip_protocol_icmp, ip_protocol_tcp, ip_protocol_udp, ip_protocol_icmpv6}
use tunio.IpPacket.Types.{
  no_error, invalid_transport_header, Storage, Builder, IpPacket, cleared, data_offset_len, valid,
}
use tunio.IpPacket.Views.{ihl, total, seen4, seen6}
use tunio.IpPacket.Parse.{
  parse_tcp, parse_udp, parse_icmp, parse_transport, parse_ipv4, parse_ipv6, do_parse,
  transport_skip, transport_size, is_echo,
}

-- A payload that starts `start` bytes into the packet.
pub record IsPlaced (bytes : List ℕ) (payload : Option ℕ) (version payload_len total_len : ℕ)
    (src_ip dst_ip : List ℕ) (start : ℕ) : Type 0 where
  pub pointer : payload ≡ some start
  pub family : (version ≡ 4) ⊎ (version ≡ 6)
  pub whole : start + payload_len ≡ total_len
  pub inside : total_len ≤ length bytes
  pub source : length src_ip ≡ 16
  pub target : length dst_ip ≡ 16

abbrev pub Placed : List ℕ → IpPacket → ℕ → Type 0
Placed bytes q start =
    IsPlaced bytes q.payload q.version q.payload_len q.total_len q.src_ip q.dst_ip start

-- The view of a packet: placed as above, with application data inside the payload, and no error but
-- one of the transport.
pub record IsView (bytes : List ℕ) (q : IpPacket) (start : ℕ) : Type 0 where
  pub placed : Placed bytes q start
  pub within : transport_skip q + transport_size q ≤ q.payload_len
  pub outcome : (q.error ≡ no_error) ⊎ (q.error ≡ invalid_transport_header)

in_bounds : (n lo hi : ℕ) → (ltb n lo || ltb hi n) ≡ false → (lo ≤ n) × (n ≤ hi)
in_bounds n lo hi h = ground arith

at_least : (n lo : ℕ) → ltb n lo ≡ false → lo ≤ n
at_least n lo h = ground arith

-- The sizes of the data for each protocol.
tcp_within :
    (q : IpPacket)
    → q.protocol ≡ ip_protocol_tcp
    → q.transport_parsed ≡ true
    → data_offset_len (get_or q.tcp 12 0) ≤ q.payload_len
    → transport_skip q + transport_size q ≤ q.payload_len
tcp_within q e t h = ground arith

udp_within :
    (q : IpPacket)
    → q.protocol ≡ ip_protocol_udp
    → q.transport_parsed ≡ true
    → 8 ≤ be16 q.udp 4
    → be16 q.udp 4 ≤ q.payload_len
    → be16 q.udp 4 < 65536
    → transport_skip q + transport_size q ≤ q.payload_len
udp_within q e t h k l = ground arith

icmp_within :
    (q : IpPacket)
    → (q.protocol == ip_protocol_tcp) ≡ false
    → (q.protocol == ip_protocol_udp) ≡ false
    → 8 ≤ q.payload_len
    → transport_skip q + transport_size q ≤ q.payload_len
icmp_within q e t h = ground arith

none_within :
    (q : IpPacket)
    → q.transport_parsed ≡ false
    → transport_skip q + transport_size q ≤ q.payload_len
none_within q t = ground arith

module _ (bytes seg : List ℕ) (start : ℕ) (q : IpPacket) (placed : Placed bytes q start)
    (fresh : q.error ≡ no_error) (reset : q.transport_parsed ≡ false)
    (size : length seg ≡ q.payload_len) where
  abbrev P : IpPacket → Type 0
  P r = IsView bytes r start

  refused :
      (tcp udp : List ℕ) → P (record q { tcp = tcp; udp = udp; error = invalid_transport_header })
  refused tcp udp = record {
    placed = placed;
    within = none_within (record q { tcp = tcp; udp = udp }) reset;
    outcome = inr refl;
  }

  plain : P q
  plain = record { placed = placed; within = none_within q reset; outcome = inl fresh }

  parse_tcp_view : q.protocol ≡ ip_protocol_tcp → P (parse_tcp q seg)
  unfolding parse_tcp
  parse_tcp_view e =
      if_both P (ltb (length seg) 20) (λ short. refused q.tcp q.udp)
        (λ long.
          if_both P
            (ltb (data_offset_len (get_or seg 12 0)) 20
              || ltb (length seg) (data_offset_len (get_or seg 12 0)))
            (λ bad. refused (take 20 seg) q.udp)
            (λ good. record {
              placed = placed;
              within =
                  tcp_within (record q { tcp = take 20 seg; transport_parsed = true }) e refl
                    (omega (
                      arith,
                      size,
                      get_or-take 20 12 seg 0 (omega arith),
                      in_bounds (data_offset_len (get_or seg 12 0)) 20 (length seg) good,
                    ));
              outcome = inl fresh;
            }))

  parse_udp_view : IsBytes seg → q.protocol ≡ ip_protocol_udp → P (parse_udp q seg)
  unfolding parse_udp
  parse_udp_view b e =
      if_both P (ltb (length seg) 8) (λ short. refused q.tcp q.udp)
        (λ long.
          if_both P (ltb (be16 seg 4) 8 || ltb (length seg) (be16 seg 4))
            (λ bad. refused q.tcp (take 8 seg))
            (λ good.
              let field = get_or-take 8 4 seg 0 (omega arith) in
              let next = get_or-take 8 5 seg 0 (omega arith) in
              let limits = in_bounds (be16 seg 4) 8 (length seg) good in
              record {
                placed = placed;
                within =
                    udp_within (record q { udp = take 8 seg; transport_parsed = true }) e refl
                      (omega (arith, field, next, limits))
                      (omega (arith, field, next, limits, size))
                      (omega (arith, field, next, get_or-IsByte seg 4 b, get_or-IsByte seg 5 b));
                outcome = inl fresh;
              }))

  parse_icmp_view :
      (protocol : ℕ)
      → (q.protocol == ip_protocol_tcp) ≡ false
      → (q.protocol == ip_protocol_udp) ≡ false
      → P (parse_icmp q protocol seg)
  unfolding parse_icmp
  parse_icmp_view protocol t u =
      if_both P (ltb (length seg) 8) (λ short. refused q.tcp q.udp)
        (λ long.
          if_both (λ r. P (record r { transport_parsed = true }))
            (is_echo protocol (get_or seg 0 0))
            (λ echo. accepted (be16 seg 4) (be16 seg 6) (ltb-no long))
            (λ other. accepted q.icmp_echo_id q.icmp_echo_seq (ltb-no long)))
    where
      ltb-no : ltb (length seg) 8 ≡ false → 8 ≤ length seg
      ltb-no h = ground arith

      accepted :
          (id number : ℕ)
          → 8 ≤ length seg
          → P (record q {
            icmp_type = get_or seg 0 0;
            icmp_code = get_or seg 1 0;
            icmp_checksum = be16 seg 2;
            icmp_echo_id = id;
            icmp_echo_seq = number;
            transport_parsed = true;
          })
      accepted id number h = record {
        placed = placed;
        within = icmp_within (record q { transport_parsed = true }) t u (omega (arith, h, size));
        outcome = inl fresh;
      }

parse_transport-IsView :
    (bytes seg : List ℕ) (start : ℕ) (q : IpPacket)
    → Placed bytes q start
    → q.error ≡ no_error
    → length seg ≡ q.payload_len
    → IsBytes seg
    → IsView bytes (parse_transport q q.protocol seg) start
unfolding parse_transport
parse_transport-IsView bytes seg start q placed fresh size b =
    if_both P' (q.protocol == ip_protocol_tcp)
      (λ t.
        parse_tcp_view bytes seg start f placed fresh refl size
          ((==_iff q.protocol ip_protocol_tcp).0 t))
      (λ t.
        if_both P' (q.protocol == ip_protocol_udp)
          (λ u.
            parse_udp_view bytes seg start f placed fresh refl size b
              ((==_iff q.protocol ip_protocol_udp).0 u))
          (λ u.
            if_both P' (q.protocol == ip_protocol_icmp || q.protocol == ip_protocol_icmpv6)
              (λ i. parse_icmp_view bytes seg start f placed fresh refl size q.protocol t u)
              (λ i. plain bytes seg start f placed fresh refl size)))
  where
    f : IpPacket
    f = record q { transport_parsed = false }

    P' : IpPacket → Type 0
    P' r = IsView bytes r start

-- A packet that is refused has no payload, no version and an error; any other has a view.
abbrev pub ParseResult : List ℕ → IpPacket → Type 0
ParseResult bytes r =
    ((r.payload ≡ none) × (r.version ≡ 0) × (valid r.error ≡ false))
    ⊎ ((start : ℕ) × IsView bytes r start)

module _ (bytes : List ℕ) (b : IsBytes bytes) (buf : Storage) (bld : Builder) where
  abbrev R : IpPacket → Type 0
  R r = ParseResult bytes r

  address_length :
      (n : ℕ) → n + 4 ≤ length bytes → length (take 4 (drop n bytes) ++ replicate 12 0) ≡ 16
  address_length n h = omega (
    arith,
    length-append (take 4 (drop n bytes)) (replicate 12 0),
    length-take 4 (drop n bytes),
    length-drop n bytes,
  )

  placed4 :
      20 ≤ (ihl bytes)
      → (ihl bytes) ≤ (total bytes)
      → (total bytes) ≤ length bytes
      → Placed bytes (seen4 bytes buf bld) (ihl bytes)
  placed4 h k l = record {
    pointer = refl;
    family = inl refl;
    whole = omega arith;
    inside = l;
    source = address_length 12 (omega arith);
    target = address_length 16 (omega arith);
  }

  placed6 : 40 + be16 bytes 4 ≤ length bytes → Placed bytes (seen6 bytes buf bld) 40
  placed6 h = record {
    pointer = refl;
    family = inr refl;
    whole = refl;
    inside = h;
    source = omega (arith, h, length-take 16 (drop 8 bytes), length-drop 8 bytes);
    target = omega (arith, h, length-take 16 (drop 24 bytes), length-drop 24 bytes);
  }

  view4 :
      20 ≤ (ihl bytes)
      → (ihl bytes) ≤ (total bytes)
      → (total bytes) ≤ length bytes
      → R (
          if be16 bytes 6 % 8192 * 8 == 0
          then parse_transport
              (seen4 bytes buf bld)
              (get_or bytes 9 0)
              (take ((total bytes) - (ihl bytes)) (drop (ihl bytes) bytes))
          else (seen4 bytes buf bld))
  view4 h k l =
      if_both R (be16 bytes 6 % 8192 * 8 == 0)
        (λ first. inr (
          (ihl bytes),
          parse_transport-IsView bytes (take ((total bytes) - (ihl bytes)) (drop (ihl bytes) bytes))
              (ihl bytes) (seen4 bytes buf bld) (placed4 h k l) refl
              (omega (
                arith,
                h,
                k,
                l,
                length-take ((total bytes) - (ihl bytes)) (drop (ihl bytes) bytes),
                length-drop (ihl bytes) bytes,
              ))
              (take-IsBytes ((total bytes) - (ihl bytes)) (drop (ihl bytes) bytes)
                (drop-IsBytes (ihl bytes) bytes b)),
        ))
        (λ later. inr (
          (ihl bytes),
          record {
            placed = placed4 h k l;
            within = none_within (seen4 bytes buf bld) refl;
            outcome = inl refl;
          },
        ))

  parse_ipv4_result : R (parse_ipv4 (cleared buf bld) bytes)
  unfolding parse_ipv4
  parse_ipv4_result =
      if_both R (ltb (ihl bytes) 20 || ltb (length bytes) (ihl bytes))
        (λ bad. inl (refl, refl, refl))
        (λ head.
          if_both R (ltb (total bytes) (ihl bytes) || ltb (length bytes) (total bytes))
            (λ bad. inl (refl, refl, refl))
            (λ tail.
              view4 (in_bounds (ihl bytes) 20 (length bytes) head).0
                (in_bounds (total bytes) (ihl bytes) (length bytes) tail).0
                (in_bounds (total bytes) (ihl bytes) (length bytes) tail).1))

  parse_ipv6_result : R (parse_ipv6 (cleared buf bld) bytes)
  unfolding parse_ipv6
  parse_ipv6_result =
      if_both R (ltb (length bytes) 40) (λ bad. inl (refl, refl, refl))
        (λ long.
          if_both R (ltb (length bytes) (40 + be16 bytes 4)) (λ bad. inl (refl, refl, refl))
            (λ tail.
              let h = at_least (length bytes) (40 + be16 bytes 4) tail in
              inr (
                40,
                parse_transport-IsView bytes (take (be16 bytes 4) (drop 40 bytes)) 40
                    (seen6 bytes buf bld) (placed6 h) refl
                    (omega
                      (arith, h, length-take (be16 bytes 4) (drop 40 bytes), length-drop 40 bytes))
                    (take-IsBytes (be16 bytes 4) (drop 40 bytes) (drop-IsBytes 40 bytes b)),
              )))

-- Of any bytes: what the parser refuses has no payload, the version 0 and an error. Any other packet
-- has the version 4 or 6, addresses of 16 bytes, a payload that ends where the declared (total bytes)
-- length does, inside the packet, application data inside the payload, and at most an error about
-- the transport header.
pub do_parse_sound :
    (p : IpPacket) (bytes : List ℕ) → IsBytes bytes → ParseResult bytes (do_parse p bytes)
unfolding do_parse
do_parse_sound p bytes b =
    if_both (ParseResult bytes) (ltb (length bytes) 20) (λ e. inl (refl, refl, refl))
      (λ e.
        if_both (ParseResult bytes) (get_or bytes 0 0 / 16 == 4)
          (λ four. parse_ipv4_result bytes b p.buf p.bld)
          (λ other.
            if_both (ParseResult bytes) (get_or bytes 0 0 / 16 == 6)
              (λ six. parse_ipv6_result bytes b p.buf p.bld) (λ neither. inl (refl, refl, refl))))
