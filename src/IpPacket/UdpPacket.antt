-- ===== src/IpPacket/UdpPacket.antt =====
-- UDP packets through the builder: the bytes that the UDP engine sends, and what is read back.
use tunio.Base.{
  ℕ, ◌+◌, ◌^◌, ◌≤◌, ◌<◌, ◌≡◌, ◌⊎◌, refl, ap, ◌∙◌, List, ◌++◌, arith, none, some, true, length, take,
  drop, replicate, be16, u16, word_bytes16, take-append_eq, take_all, ◌==◌, if◌then◌else◌, if_no,
  le→ltb, length-replicate,
}
use tunio.Checksum.{tcp_udp_checksum}
use tunio.Headers.{ip_protocol_udp, ip_header_size, build_ip_header}
use tunio.Headers.Layout.{IsAddress}
use tunio.Config.Keys.{address_bytes}
use tunio.Udp.Datagram.{udp_build_datagram, datagram_with, never_zero}
use tunio.IpPacket.Types.{no_error, Builder, IpPacket, emptied}
use tunio.IpPacket.Parse.{
  parse_transport, parse_udp, source_port, destination_port, transport_data, transport_data_size,
}
use tunio.IpPacket.Build.{
  Outcome, ◌>>◌, push, begin_udp, append_payload, set_ip_id, finalize, fill_transport, fill_udp,
}
use tunio.IpPacket.Readback.{viewed, in_range}
use tunio.IpPacket.Laid.{begin_ip, begun, begin_udp-lem, no_family}
use tunio.IpPacket.Built.{
  writable_size-push, build_parsed, left, bytes_of, stored, committed, drop-bytes_of,
}

-- The calls that make a UDP packet.
abbrev pub build_udp : IpPacket → ℕ → List ℕ → List ℕ → ℕ → ℕ → ℕ → ℕ → List ℕ → Outcome
build_udp p family src dst ttl ip_id sport dport payload =
    begin_ip p family src dst ttl
    >> (λ q. begin_udp (set_ip_id q ip_id) sport dport)
    >> (λ q. append_payload q payload)
    >> finalize

-- On a zeroed header with the payload behind it, the UDP case writes the datagram of the engine.
fill_udp-lem :
    (b : Builder) (family : ℕ) (payload rest : List ℕ)
    → fill_udp b family (8 + length payload) ((replicate 8 0 ++ payload) ++ rest)
      ≡ udp_build_datagram family b.src b.dst b.sport b.dport payload ++ rest
unfolding fill_udp udp_build_datagram
fill_udp-lem b family payload rest =
    ap
      (λ seg.
        datagram_with b.sport b.dport payload
          (never_zero (tcp_udp_checksum family b.src b.dst ip_protocol_udp seg))
        ++ rest)
      (take-append_eq (8 + length payload) (datagram_with b.sport b.dport payload 0) rest
        (omega arith))

-- The parser's view of a datagram whose length field fits.
parse_udp-accepts :
    (q : IpPacket) (seg : List ℕ)
    → 8 ≤ be16 seg 4
    → be16 seg 4 ≤ length seg
    → parse_udp q seg ≡ record q { udp = take 8 seg; transport_parsed = true }
unfolding parse_udp
parse_udp-accepts q seg h k =
    if_no _ _ _ (le→ltb (length seg) 8 (omega (arith, h, k)))
    ∙ if_no _ _ _ (in_range (be16 seg 4) 8 (length seg) h k)

length_field :
    (family : ℕ) (src dst : List ℕ) (sport dport : ℕ) (payload : List ℕ)
    → length payload ≤ 65527
    → (let seg = udp_build_datagram family src dst sport dport payload in
        (be16 seg 4 ≡ 8 + length payload) × (length seg ≡ 8 + length payload))
unfolding udp_build_datagram
length_field family src dst sport dport payload h =
    (word_bytes16 (u16 (8 + length payload)) (omega arith) ∙ omega arith, omega arith)

-- A packet that was built from these parts.
pub record IsUdpPacket (q : IpPacket) (family : ℕ) (src dst : List ℕ) (ttl ip_id sport dport : ℕ)
    (payload : List ℕ) : Type 0 where
  pub accepted : q.error ≡ no_error
  pub bytes :
      take q.buf.size q.buf.cells
      ≡ build_ip_header family
          (address_bytes family src)
          (address_bytes family dst)
          ip_protocol_udp
          (ip_header_size family + (8 + length payload))
          (if family == 4 then ip_id else 0)
          ttl
        ++ udp_build_datagram family
            (address_bytes family src)
            (address_bytes family dst)
            sport
            dport
            payload
  pub version : q.version ≡ family
  pub source : q.src_ip ≡ address_bytes family src
  pub target : q.dst_ip ≡ address_bytes family dst
  pub from_port : source_port q ≡ sport
  pub to_port : destination_port q ≡ dport
  pub start : transport_data q ≡ some (ip_header_size family + 8)
  pub size : transport_data_size q ≡ length payload
  pub content :
      take (length payload) (drop (ip_header_size family + 8) (take q.buf.size q.buf.cells))
      ≡ payload

module _ (p : IpPacket) (family : ℕ) (src dst : List ℕ) (ttl ip_id sport dport : ℕ)
    (payload : List ℕ) (f : (family ≡ 4) ⊎ (family ≡ 6)) (s : IsAddress src) (d : IsAddress dst)
    (t : ttl < 256) (sp : sport < 2 ^ 16) (dp : dport < 2 ^ 16) (fits : length payload ≤ 65487)
    (room : ip_header_size family + (8 + length payload) ≤ length p.buf.cells) where
  abbrev builder : Builder
  builder = record (begun p family src dst ttl).bld {
    ip_id = ip_id;
    protocol = ip_protocol_udp;
    sport = sport;
    dport = dport;
    transport_hlen = 8;
  }

  abbrev datagram : List ℕ
  datagram =
      udp_build_datagram family (address_bytes family src) (address_bytes family dst) sport dport
        payload

  room' : ip_header_size family + 8 + length payload ≤ length p.buf.cells
  room' = omega (arith, room)

  abbrev packet_bytes : List ℕ
  packet_bytes =
      bytes_of p builder (replicate 8 0) payload datagram src dst family ip_protocol_udp s d f

  abbrev behind : List ℕ
  behind = left p builder (replicate 8 0) payload datagram src dst family ip_protocol_udp s d f

  abbrev result : IpPacket
  result =
      record (viewed
        (stored p builder (replicate 8 0) payload datagram src dst family ip_protocol_udp s d f) src
        dst datagram ip_protocol_udp family packet_bytes) {
          udp = take 8 datagram;
          transport_parsed = true;
        }

  datagram_fields : (be16 datagram 4 ≡ 8 + length payload) × (length datagram ≡ 8 + length payload)
  datagram_fields =
      length_field family (address_bytes family src) (address_bytes family dst) sport dport payload
        (omega arith)

  zeros_size : length (replicate {A = ℕ} (ip_header_size family) 0) ≡ ip_header_size family
  zeros_size = length-replicate {A = ℕ} (ip_header_size family) 0

  step : begin_udp (set_ip_id (begun p family src dst ttl) ip_id) sport dport ≡ (
    record p {
      buf = push (push (emptied p.buf) (replicate (ip_header_size family) 0)) (replicate 8 0);
      bld = builder;
    },
    none,
  )
  unfolding set_ip_id
  step =
      begin_udp-lem (set_ip_id (begun p family src dst ttl) ip_id) sport dport (no_family family f)
        refl
        (omega (
          arith,
          room,
          zeros_size,
          writable_size-push p.buf (replicate (ip_header_size family) 0)
              (omega (arith, room, zeros_size)),
        ))

  build_udp-result : build_udp p family src dst ttl ip_id sport dport payload ≡ (result, none)
  unfolding fill_transport parse_transport
  build_udp-result =
      build_parsed p builder (replicate 8 0) payload datagram src dst family ip_protocol_udp s d f
        (omega arith) t refl (omega arith) (omega arith) room' datagram_fields.1
        (fill_udp-lem builder family payload behind)
        (λ q. begin_udp (set_ip_id q ip_id) sport dport) step
      ∙ ap (λ q. (q, none))
          (parse_udp-accepts
            (viewed
              (stored p builder (replicate 8 0) payload datagram src dst family ip_protocol_udp s d
                f)
              src dst datagram ip_protocol_udp family packet_bytes)
            datagram (omega (arith, datagram_fields)) (omega (arith, datagram_fields)))

  views :
      (source_port result ≡ sport)
      × (destination_port result ≡ dport)
      × (transport_data result ≡ some (ip_header_size family + 8))
      × (transport_data_size result ≡ length payload)
  unfolding source_port destination_port transport_data transport_data_size udp_build_datagram
  views = (word_bytes16 sport sp, word_bytes16 dport dp, refl, omega (arith, fits))

  content_lem : take (length payload) (drop (ip_header_size family + 8) packet_bytes) ≡ payload
  unfolding udp_build_datagram
  content_lem =
      ap (take (length payload)) (
        drop-bytes_of p builder (replicate 8 0) payload datagram src dst family ip_protocol_udp s d
          f 8)
      ∙ take_all (length payload) payload (omega arith)

  -- Between address buffers, with a time to live of one byte, 16-bit ports and at most 65487 bytes of
  -- payload, in a buffer with room for the packet: the calls begin_ipv4 or begin_ipv6, set_ip_id,
  -- begin_udp, append_payload and finalize throw nothing. The buffer then holds the header for these
  -- addresses and the very datagram that the UDP engine builds, and the accessors give the version,
  -- the addresses, the ports and the payload back.
  pub build_udp-IsUdpPacket :
      (q : IpPacket) × (build_udp p family src dst ttl ip_id sport dport payload ≡ (q, none))
      × IsUdpPacket q family src dst ttl ip_id sport dport payload
  build_udp-IsUdpPacket = (
    result,
    build_udp-result,
    record {
      accepted = refl;
      bytes =
          committed p builder (replicate 8 0) payload datagram src dst family ip_protocol_udp s d f
          ∙ ap
              (λ n.
                build_ip_header family (address_bytes family src) (address_bytes family dst)
                  ip_protocol_udp (ip_header_size family + n) (if family == 4 then ip_id else 0) ttl
                ++ datagram)
              datagram_fields.1;
      version = refl;
      source = refl;
      target = refl;
      from_port = views.0;
      to_port = views.1;
      start = views.2;
      size = views.3;
      content =
          ap (λ xs. take (length payload) (drop (ip_header_size family + 8) xs))
            (committed p builder (replicate 8 0) payload datagram src dst family ip_protocol_udp s d
              f)
          ∙ content_lem;
    },
  )
