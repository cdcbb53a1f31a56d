-- ===== src/IpPacket/TcpPacket.antt =====
-- TCP packets through the builder: the segment that `finalize` fills in, and what is read back.
use tunio.Base.{
  ℕ, ◌+◌, ◌%◌, ◌^◌, ◌≤◌, ◌<◌, ◌≡◌, ◌⊎◌, refl, ap, ◌∙◌, List, ◌++◌, arith, none, some, length, take,
  drop, length-append, replicate, be16, be32, word_bytes16, word_bytes32, true, take-append_eq,
  take_all, drop-append_eq, le→ltb, get_or, IsBytes, IsBytes-append, length-replicate, ◌==◌,
  if◌then◌else◌, if_no,
}
use tunio.Checksum.{tcp_udp_checksum}
use tunio.Checksum.Verify.{tcp_udp_checksum_verifies}
use tunio.Headers.{ip_protocol_tcp, ip_header_size, build_ip_header}
use tunio.Headers.Layout.{IsAddress}
use tunio.Config.Keys.{address_bytes}
use tunio.IpPacket.Types.{no_error, Builder, IpPacket, emptied, data_offset_len}
use tunio.IpPacket.Parse.{
  parse_transport, parse_tcp, source_port, destination_port, transport_data, transport_data_size,
}
use tunio.IpPacket.Build.{
  Outcome, ◌>>◌, push, begin_tcp, TcpFields, append_payload, set_ip_id, finalize, fill_transport,
}
use tunio.IpPacket.Writes.{drop_behind}
use tunio.IpPacket.Readback.{viewed, in_range}
use tunio.IpPacket.Laid.{begin_ip, begun, begin_tcp-lem, no_family}
use tunio.IpPacket.Built.{
  address_bytes-IsAddress, writable_size-push, build_parsed, left, bytes_of, stored, committed,
  drop-bytes_of, take-bytes_of,
}
use tunio.IpPacket.Segment.{before, after, segment, fill_tcp-lem}

-- The calls that make a TCP packet.
abbrev pub build_tcp : IpPacket → ℕ → List ℕ → List ℕ → ℕ → ℕ → TcpFields → List ℕ → Outcome
build_tcp p family src dst ttl ip_id g payload =
    begin_ip p family src dst ttl
    >> (λ q. begin_tcp (set_ip_id q ip_id) g)
    >> (λ q. append_payload q payload)
    >> finalize

-- The parser's view of a segment whose header length fits.
parse_tcp-accepts :
    (q : IpPacket) (seg : List ℕ)
    → 20 ≤ data_offset_len (get_or seg 12 0)
    → data_offset_len (get_or seg 12 0) ≤ length seg
    → parse_tcp q seg ≡ record q { tcp = take 20 seg; transport_parsed = true }
unfolding parse_tcp
parse_tcp-accepts q seg h k =
    if_no _ _ _ (le→ltb (length seg) 20 (omega (arith, h, k)))
    ∙ if_no _ _ _ (in_range (data_offset_len (get_or seg 12 0)) 20 (length seg) h k)

-- The fields that fit the header of a segment.
pub record IsFields (g : TcpFields) : Type 0 where
  pub src_port : g.src_port < 2 ^ 16
  pub dst_port : g.dst_port < 2 ^ 16
  pub seq : g.seq < 2 ^ 32
  pub ack : g.ack < 2 ^ 32
  pub flags : g.flags < 256
  pub window : g.window < 2 ^ 16
  pub options : IsBytes g.options
  pub words : length g.options % 4 ≡ 0
  pub short : length g.options ≤ 40

-- A packet that was built from these parts.
pub record IsTcpPacket (q : IpPacket) (family : ℕ) (src dst : List ℕ) (ttl ip_id : ℕ)
    (g : TcpFields) (payload : List ℕ) : Type 0 where
  pub accepted : q.error ≡ no_error
  pub header :
      take (ip_header_size family) (take q.buf.size q.buf.cells)
      ≡ build_ip_header family
          (address_bytes family src)
          (address_bytes family dst)
          ip_protocol_tcp
          (ip_header_size family + (20 + length g.options + length payload))
          (if family == 4 then ip_id else 0)
          ttl
  pub intact :
      tcp_udp_checksum family
        (address_bytes family src)
        (address_bytes family dst)
        ip_protocol_tcp
        (drop (ip_header_size family) (take q.buf.size q.buf.cells))
      ≡ 0
  pub version : q.version ≡ family
  pub source : q.src_ip ≡ address_bytes family src
  pub target : q.dst_ip ≡ address_bytes family dst
  pub from_port : source_port q ≡ g.src_port
  pub to_port : destination_port q ≡ g.dst_port
  pub seq : be32 q.tcp 4 ≡ g.seq
  pub ack : be32 q.tcp 8 ≡ g.ack
  pub flags : get_or q.tcp 13 0 ≡ g.flags
  pub window : be16 q.tcp 14 ≡ g.window
  pub options :
      take (length g.options) (drop (ip_header_size family + 20) (take q.buf.size q.buf.cells))
      ≡ g.options
  pub start : transport_data q ≡ some (ip_header_size family + (20 + length g.options))
  pub size : transport_data_size q ≡ length payload
  pub content :
      take
        (length payload)
        (drop (ip_header_size family + (20 + length g.options)) (take q.buf.size q.buf.cells))
      ≡ payload

module _ (p : IpPacket) (family : ℕ) (src dst : List ℕ) (ttl ip_id : ℕ) (g : TcpFields)
    (payload : List ℕ) (f : (family ≡ 4) ⊎ (family ≡ 6)) (s : IsAddress src) (d : IsAddress dst)
    (t : ttl < 256) (v : IsFields g) (b : IsBytes payload)
    (fits : 20 + length g.options + length payload ≤ 65495)
    (room : ip_header_size family + (20 + length g.options + length payload)
      ≤ length p.buf.cells) where
  abbrev builder : Builder
  builder = record (begun p family src dst ttl).bld {
    ip_id = ip_id;
    protocol = ip_protocol_tcp;
    sport = g.src_port;
    dport = g.dst_port;
    seq = g.seq;
    ack = g.ack;
    flags = g.flags;
    window = g.window;
    transport_hlen = 20 + length g.options;
    tcp_options = g.options;
  }

  abbrev zt : List ℕ
  zt = replicate (20 + length g.options) 0

  abbrev body : List ℕ
  body = segment builder family payload

  zt_size : length zt ≡ 20 + length g.options
  zt_size = length-replicate {A = ℕ} (20 + length g.options) 0

  zeros_size : length (replicate {A = ℕ} (ip_header_size family) 0) ≡ ip_header_size family
  zeros_size = length-replicate {A = ℕ} (ip_header_size family) 0

  abbrev whole : List ℕ
  whole = bytes_of p builder zt payload body src dst family ip_protocol_tcp s d f

  abbrev result : IpPacket
  result =
      record (viewed (stored p builder zt payload body src dst family ip_protocol_tcp s d f) src dst
        body ip_protocol_tcp family whole) { tcp = take 20 body; transport_parsed = true }

  body_size : length body ≡ 20 + length g.options + length payload
  unfolding segment
  body_size = omega (arith, length-append g.options payload)

  body_offset : data_offset_len (get_or body 12 0) ≡ 20 + length g.options
  unfolding segment
  body_offset = omega (arith, v.words, v.short)

  step : begin_tcp (set_ip_id (begun p family src dst ttl) ip_id) g ≡ (
    record p {
      buf = push (push (emptied p.buf) (replicate (ip_header_size family) 0)) zt;
      bld = builder;
    },
    none,
  )
  unfolding set_ip_id
  step =
      begin_tcp-lem (set_ip_id (begun p family src dst ttl) ip_id) g (no_family family f) refl
        v.words v.short
        (omega (
          arith,
          room,
          zeros_size,
          writable_size-push p.buf (replicate (ip_header_size family) 0)
              (omega (arith, room, zeros_size)),
        ))

  build_tcp-result : build_tcp p family src dst ttl ip_id g payload ≡ (result, none)
  unfolding fill_transport parse_transport
  build_tcp-result =
      build_parsed p builder zt payload body src dst family ip_protocol_tcp s d f (omega arith) t
        zt_size (omega (arith, v.short)) fits (omega (arith, room)) body_size
        (fill_tcp-lem builder family payload
          (left p builder zt payload body src dst family ip_protocol_tcp s d f) refl)
        (λ q. begin_tcp (set_ip_id q ip_id) g) step
      ∙ ap (λ q. (q, none))
          (parse_tcp-accepts
            (viewed (stored p builder zt payload body src dst family ip_protocol_tcp s d f) src dst
              body ip_protocol_tcp family whole)
            body (omega (arith, body_offset)) (omega (arith, body_offset, body_size)))

  committed_lem :
      take
        (length whole)
        (whole ++ left p builder zt payload body src dst family ip_protocol_tcp s d f)
      ≡ whole
  committed_lem = committed p builder zt payload body src dst family ip_protocol_tcp s d f

  behind : (k : ℕ) → drop (ip_header_size family + k) whole ≡ drop k body
  behind = drop-bytes_of p builder zt payload body src dst family ip_protocol_tcp s d f

  intact_lem :
      tcp_udp_checksum family
        (address_bytes family src)
        (address_bytes family dst)
        ip_protocol_tcp
        body
      ≡ 0
  unfolding segment
  intact_lem =
      let s' = address_bytes-IsAddress src s family in
      let d' = address_bytes-IsAddress dst d family in
      tcp_udp_checksum_verifies family ip_protocol_tcp (address_bytes family src)
        (address_bytes family dst) s'.bytes d'.bytes s'.sixteen d'.sixteen (before builder)
        (after builder payload) (omega (arith, v.flags))
        (omega arith, (omega arith, IsBytes-append g.options payload v.options b)) tt
        (omega (arith, fits, length-append g.options payload))

  views :
      (source_port result ≡ g.src_port)
      × (destination_port result ≡ g.dst_port)
      × (be32 result.tcp 4 ≡ g.seq)
      × (be32 result.tcp 8 ≡ g.ack)
      × (get_or result.tcp 13 0 ≡ g.flags)
      × (be16 result.tcp 14 ≡ g.window)
  unfolding source_port destination_port segment
  views = (
    word_bytes16 g.src_port v.src_port,
    word_bytes16 g.dst_port v.dst_port,
    word_bytes32 g.seq v.seq,
    word_bytes32 g.ack v.ack,
    refl,
    word_bytes16 g.window v.window,
  )

  offset_view : data_offset_len (get_or result.tcp 12 0) ≡ 20 + length g.options
  unfolding segment
  offset_view = omega (arith, v.words, v.short)

  start_lem : transport_data result ≡ some (ip_header_size family + (20 + length g.options))
  unfolding transport_data
  start_lem = ap (λ n. some (ip_header_size family + n)) offset_view

  size_lem : transport_data_size result ≡ length payload
  unfolding transport_data_size
  size_lem = omega (arith, offset_view, body_size)

  options_lem : take (length g.options) (drop 20 body) ≡ g.options
  unfolding segment
  options_lem = take-append_eq (length g.options) g.options payload refl

  content_lem : take (length payload) (drop (20 + length g.options) body) ≡ payload
  unfolding segment
  content_lem =
      ap (take (length payload)) (
        drop_behind (take 20 body) (g.options ++ payload) (20 + length g.options) (length g.options)
          (omega arith)
        ∙ drop-append_eq (length g.options) g.options payload refl)
      ∙ take_all (length payload) payload (omega arith)

  header_lem :
      take (ip_header_size family) whole
      ≡ build_ip_header family
          (address_bytes family src)
          (address_bytes family dst)
          ip_protocol_tcp
          (ip_header_size family + (20 + length g.options + length payload))
          (if family == 4 then ip_id else 0)
          ttl
  header_lem =
      take-bytes_of p builder zt payload body src dst family ip_protocol_tcp s d f
      ∙ ap
          (λ n.
            build_ip_header family (address_bytes family src) (address_bytes family dst)
              ip_protocol_tcp (ip_header_size family + n) (if family == 4 then ip_id else 0) ttl)
          body_size

  -- Between address buffers, with a time to live of one byte, fields that fit the header, whole words
  -- of options, at most 40 bytes, and at most 65495 bytes of segment, in a buffer with room for the packet: the
  -- calls begin_ipv4 or begin_ipv6, set_ip_id, begin_tcp, append_payload and finalize throw nothing.
  -- The packet has the header for these addresses and a segment whose checksum a receiver accepts,
  -- and the accessors and views give the version, the addresses, the ports, the numbers, the flags,
  -- the window, the options and the payload back.
  pub build_tcp-IsTcpPacket :
      (q : IpPacket) × (build_tcp p family src dst ttl ip_id g payload ≡ (q, none))
      × IsTcpPacket q family src dst ttl ip_id g payload
  build_tcp-IsTcpPacket = (
    result,
    build_tcp-result,
    record {
      accepted = refl;
      header = ap (take (ip_header_size family)) committed_lem ∙ header_lem;
      intact =
          ap
            (tcp_udp_checksum family (address_bytes family src) (address_bytes family dst)
              ip_protocol_tcp)
            (ap (drop (ip_header_size family)) committed_lem
              ∙ ap (λ n. drop n whole) (omega arith)
              ∙ behind 0)
          ∙ intact_lem;
      version = refl;
      source = refl;
      target = refl;
      from_port = views.0;
      to_port = views.1;
      seq = views.2;
      ack = views.3;
      flags = views.4;
      window = views.5;
      options =
          ap (λ xs. take (length g.options) (drop (ip_header_size family + 20) xs)) committed_lem
          ∙ ap (take (length g.options)) (behind 20)
          ∙ options_lem;
      start = start_lem;
      size = size_lem;
      content =
          ap
            (λ xs.
              take (length payload) (drop (ip_header_size family + (20 + length g.options)) xs))
            committed_lem
          ∙ ap (take (length payload)) (behind (20 + length g.options))
          ∙ content_lem;
    },
  )
