-- ===== src/IpPacket/IcmpPacket.antt =====
-- Echo messages through the builder: the bytes that `finalize` fills in, and what is read back.
use tunio.Base.{
  ℕ, ◌+◌, ◌^◌, ◌≤◌, ◌<◌, ◌≡◌, ◌⊎◌, inl, inr, refl, ap, ◌∙◌, List, [], ◌∷◌, ◌++◌, arith, none, some,
  true, ◌||◌, length, take, drop, replicate, be16, bytes16, word_bytes16, take-append_eq, take_all,
  le→ltb, get_or, IsBytes, length-replicate, ◌==◌, if◌then◌else◌, if_no, Bool-cases,
}
use tunio.Checksum.{tcp_udp_checksum, ip_checksum}
use tunio.Checksum.Verify.{with_field, tcp_udp_checksum_verifies, ip_checksum_verifies}
use tunio.Headers.{
  ip_protocol_tcp, ip_protocol_udp, ip_protocol_icmp, ip_protocol_icmpv6, ip_header_size,
}
use tunio.Headers.Layout.{IsAddress}
use tunio.Config.Keys.{address_bytes}
use tunio.IpPacket.Types.{no_error, Builder, IpPacket, emptied}
use tunio.IpPacket.Parse.{parse_transport, parse_icmp, is_echo, transport_data, transport_data_size}
use tunio.IpPacket.Build.{
  Outcome, ◌>>◌, push, begin_icmp, append_payload, set_ip_id, set_icmp_echo, finalize,
  fill_transport, fill_icmp,
}
use tunio.IpPacket.Readback.{viewed}
use tunio.IpPacket.Laid.{begin_ip, begun, begin_icmp-lem, no_family, ok_then}
use tunio.IpPacket.Built.{
  address_bytes-IsAddress, writable_size-push, build_parsed, left, bytes_of, stored, committed,
  drop-bytes_of,
}

-- The calls that make an echo message.
abbrev begin_echo : ℕ → ℕ → ℕ → ℕ → ℕ → IpPacket → Outcome
begin_echo ip_id kind code id seq q =
    begin_icmp (set_ip_id q ip_id) kind code >> (λ r. (set_icmp_echo r id seq, none))

abbrev pub build_echo : IpPacket → ℕ → List ℕ → List ℕ → ℕ → ℕ → ℕ → ℕ → ℕ → ℕ → List ℕ → Outcome
build_echo p family src dst ttl ip_id kind code id seq payload =
    begin_ip p family src dst ttl
    >> begin_echo ip_id kind code id seq
    >> (λ q. append_payload q payload)
    >> finalize

abbrev pub icmp_protocol : ℕ → ℕ
icmp_protocol family = if family == 4 then ip_protocol_icmp else ip_protocol_icmpv6

-- The checksum of the version: over the message alone, or with the addresses.
abbrev pub icmp_sum : ℕ → List ℕ → List ℕ → List ℕ → ℕ
icmp_sum family src dst message =
    if family == 4
    then ip_checksum message
    else tcp_udp_checksum 6 src dst ip_protocol_icmpv6 message

abbrev rest_of : Builder → List ℕ → List ℕ
rest_of b payload = (bytes16 b.icmp_id ++ bytes16 b.icmp_seq) ++ payload

-- The echo message with the checksum over itself.
message : Builder → ℕ → List ℕ → List ℕ
message b family payload =
    with_field (b.icmp_type ∷ b.icmp_code ∷ [])
      (icmp_sum family b.src b.dst
        (with_field (b.icmp_type ∷ b.icmp_code ∷ []) 0 (rest_of b payload)))
      (rest_of b payload)

fill_icmp-lem :
    (b : Builder) (family : ℕ) (payload rest : List ℕ)
    → b.icmp_echo_set ≡ true
    → fill_icmp b family (8 + length payload) ((replicate 8 0 ++ payload) ++ rest)
      ≡ message b family payload ++ rest
unfolding fill_icmp message
fill_icmp-lem b family payload rest e = rw e (
    ap
      (λ xs.
        with_field (b.icmp_type ∷ b.icmp_code ∷ []) (icmp_sum family b.src b.dst xs)
          (rest_of b payload)
        ++ rest)
      (take-append_eq (8 + length payload)
        (with_field (b.icmp_type ∷ b.icmp_code ∷ []) 0 (rest_of b payload)) rest (omega arith)))

parse_icmp-accepts :
    (q : IpPacket) (protocol : ℕ) (seg : List ℕ)
    → 8 ≤ length seg
    → is_echo protocol (get_or seg 0 0) ≡ true
    → parse_icmp q protocol seg ≡ record q {
      icmp_type = get_or seg 0 0;
      icmp_code = get_or seg 1 0;
      icmp_checksum = be16 seg 2;
      icmp_echo_id = be16 seg 4;
      icmp_echo_seq = be16 seg 6;
      transport_parsed = true;
    }
unfolding parse_icmp
parse_icmp-accepts q protocol seg h e = if_no _ _ _ (le→ltb (length seg) 8 h) ∙ rw e refl

-- Of the tests on the protocol, the one for ICMP holds.
icmp_route {ℓ} :
    {A : Type ℓ} (family : ℕ) (x y z w : A)
    → (if icmp_protocol family == ip_protocol_tcp
        then x
        else if icmp_protocol family == ip_protocol_udp
        then y
        else if icmp_protocol family == ip_protocol_icmp
            || icmp_protocol family == ip_protocol_icmpv6
        then z
        else w)
      ≡ z
icmp_route family x y z w = elim (Bool-cases (family == 4)) [
  | inl e ↦ rw e refl
  | inr e ↦ rw e refl
]

-- A packet that was built from these parts.
pub record IsEchoPacket (q : IpPacket) (family : ℕ) (src dst : List ℕ) (kind code id seq : ℕ)
    (payload : List ℕ) : Type 0 where
  pub accepted : q.error ≡ no_error
  pub intact :
      icmp_sum family
        (address_bytes family src)
        (address_bytes family dst)
        (drop (ip_header_size family) (take q.buf.size q.buf.cells))
      ≡ 0
  pub version : q.version ≡ family
  pub protocol : q.protocol ≡ icmp_protocol family
  pub source : q.src_ip ≡ address_bytes family src
  pub target : q.dst_ip ≡ address_bytes family dst
  pub kind_view : q.icmp_type ≡ kind
  pub code_view : q.icmp_code ≡ code
  pub id_view : q.icmp_echo_id ≡ id
  pub seq_view : q.icmp_echo_seq ≡ seq
  pub start : transport_data q ≡ some (ip_header_size family + 8)
  pub size : transport_data_size q ≡ length payload
  pub content :
      take (length payload) (drop (ip_header_size family + 8) (take q.buf.size q.buf.cells))
      ≡ payload

module _ (p : IpPacket) (family : ℕ) (src dst : List ℕ) (ttl ip_id kind code id seq : ℕ)
    (payload : List ℕ) (f : (family ≡ 4) ⊎ (family ≡ 6)) (s : IsAddress src) (d : IsAddress dst)
    (t : ttl < 256) (echo : is_echo (icmp_protocol family) kind ≡ true) (c : code < 256)
    (i : id < 2 ^ 16) (n : seq < 2 ^ 16) (b : IsBytes payload) (fits : length payload ≤ 65487)
    (room : ip_header_size family + (8 + length payload) ≤ length p.buf.cells) where
  abbrev builder : Builder
  builder = record (begun p family src dst ttl).bld {
    ip_id = ip_id;
    protocol = icmp_protocol family;
    icmp_type = kind;
    icmp_code = code;
    icmp_id = id;
    icmp_seq = seq;
    icmp_echo_set = true;
    transport_hlen = 8;
  }

  abbrev zt : List ℕ
  zt = replicate 8 0

  abbrev body : List ℕ
  body = message builder family payload

  abbrev whole : List ℕ
  whole = bytes_of p builder zt payload body src dst family (icmp_protocol family) s d f

  abbrev behind : List ℕ
  behind = left p builder zt payload body src dst family (icmp_protocol family) s d f

  abbrev viewed_packet : IpPacket
  viewed_packet =
      viewed (stored p builder zt payload body src dst family (icmp_protocol family) s d f) src dst
        body (icmp_protocol family) family whole

  abbrev result : IpPacket
  result = record viewed_packet {
    icmp_type = get_or body 0 0;
    icmp_code = get_or body 1 0;
    icmp_checksum = be16 body 2;
    icmp_echo_id = be16 body 4;
    icmp_echo_seq = be16 body 6;
    transport_parsed = true;
  }

  zeros_size : length (replicate {A = ℕ} (ip_header_size family) 0) ≡ ip_header_size family
  zeros_size = length-replicate {A = ℕ} (ip_header_size family) 0

  body_size : length body ≡ 8 + length payload
  unfolding message
  body_size = omega arith

  kind_size : kind < 256
  kind_size = ground arith

  small : icmp_protocol family < 256
  small = ground arith

  step : begin_echo ip_id kind code id seq (begun p family src dst ttl) ≡ (
    record p {
      buf = push (push (emptied p.buf) (replicate (ip_header_size family) 0)) zt;
      bld = builder;
    },
    none,
  )
  unfolding set_ip_id set_icmp_echo
  step =
      ok_then (λ r. (set_icmp_echo r id seq, none))
        (begin_icmp-lem (set_ip_id (begun p family src dst ttl) ip_id) kind code
          (no_family family f) refl
          (omega (
            arith,
            room,
            zeros_size,
            writable_size-push p.buf (replicate (ip_header_size family) 0)
                (omega (arith, room, zeros_size)),
          )))

  filled_message :
      fill_transport builder family (8 + length payload) ((zt ++ payload) ++ behind)
      ≡ body ++ behind
  unfolding fill_transport
  filled_message = icmp_route family _ _ _ _ ∙ fill_icmp-lem builder family payload behind refl

  echo_body : is_echo (icmp_protocol family) (get_or body 0 0) ≡ true
  unfolding message
  echo_body = echo

  parsed_message : parse_transport viewed_packet (icmp_protocol family) body ≡ result
  unfolding parse_transport
  parsed_message =
      icmp_route family _ _ _ _
      ∙ parse_icmp-accepts viewed_packet (icmp_protocol family) body (omega (arith, body_size))
          echo_body

  build_echo-result :
      build_echo p family src dst ttl ip_id kind code id seq payload ≡ (result, none)
  build_echo-result =
      build_parsed p builder zt payload body src dst family (icmp_protocol family) s d f small t
        refl (omega arith) (omega (arith, fits)) (omega (arith, room)) body_size filled_message
        (begin_echo ip_id kind code id seq) step
      ∙ ap (λ q. (q, none)) parsed_message

  abbrev rest : List ℕ
  rest = rest_of builder payload

  rest_bytes : IsBytes rest
  rest_bytes = (omega arith, (omega arith, (omega arith, (omega arith, b))))

  rest_size : length (kind ∷ code ∷ []) + length rest ≤ 65535
  rest_size = omega (arith, fits)

  from : IsAddress (address_bytes family src)
  from = address_bytes-IsAddress src s family

  to : IsAddress (address_bytes family dst)
  to = address_bytes-IsAddress dst d family

  intact_lem : icmp_sum family (address_bytes family src) (address_bytes family dst) body ≡ 0
  unfolding message
  intact_lem = elim (Bool-cases (family == 4)) [
    | inl e ↦
        rw e (
          ip_checksum_verifies (kind ∷ code ∷ []) rest (kind_size, (c, tt)) rest_bytes tt rest_size)
    | inr e ↦ rw e (
        tcp_udp_checksum_verifies 6 ip_protocol_icmpv6 (address_bytes family src)
          (address_bytes family dst) from.bytes to.bytes from.sixteen to.sixteen (kind ∷ code ∷ [])
          rest (kind_size, (c, tt)) rest_bytes tt rest_size)
  ]

  views :
      (get_or body 0 0 ≡ kind) × (get_or body 1 0 ≡ code) × (be16 body 4 ≡ id) × (be16 body 6 ≡ seq)
  unfolding message
  views = (refl, refl, word_bytes16 id i, word_bytes16 seq n)

  sizes :
      (transport_data result ≡ some (ip_header_size family + 8))
      × (transport_data_size result ≡ length payload)
  unfolding transport_data transport_data_size message
  sizes = elim (Bool-cases (family == 4)) [
    | inl e ↦ rw e (refl, omega (arith, body_size))
    | inr e ↦ rw e (refl, omega (arith, body_size))
  ]

  committed_lem : take (length whole) (whole ++ behind) ≡ whole
  committed_lem = committed p builder zt payload body src dst family (icmp_protocol family) s d f

  beyond : (k : ℕ) → drop (ip_header_size family + k) whole ≡ drop k body
  beyond = drop-bytes_of p builder zt payload body src dst family (icmp_protocol family) s d f

  content_lem : take (length payload) (drop 8 body) ≡ payload
  unfolding message
  content_lem = take_all (length payload) payload (omega arith)

  -- Between address buffers, for an echo type of the version, with a time to live and a code of one byte, a
  -- 16-bit identifier and number and at most 65487 bytes of data, in a buffer with room for the packet: the
  -- calls begin_ipv4 or begin_ipv6, set_ip_id, begin_icmp, set_icmp_echo, append_payload and finalize
  -- throw nothing. The message has a checksum that a receiver accepts, over the message alone for
  -- version 4 and with the addresses for version 6, and the accessors give the version, the
  -- addresses, the type, the code, the identifier, the number and the data back.
  pub build_echo-IsEchoPacket :
      (q : IpPacket) × (build_echo p family src dst ttl ip_id kind code id seq payload ≡ (q, none))
      × IsEchoPacket q family src dst kind code id seq payload
  build_echo-IsEchoPacket = (
    result,
    build_echo-result,
    record {
      accepted = refl;
      intact =
          ap (icmp_sum family (address_bytes family src) (address_bytes family dst)) (
            ap (drop (ip_header_size family)) committed_lem
            ∙ ap (λ n. drop n whole) (omega arith)
            ∙ beyond 0)
          ∙ intact_lem;
      version = refl;
      protocol = refl;
      source = refl;
      target = refl;
      kind_view = views.0;
      code_view = views.1;
      id_view = views.2;
      seq_view = views.3;
      start = sizes.0;
      size = sizes.1;
      content =
          ap (λ xs. take (length payload) (drop (ip_header_size family + 8) xs)) committed_lem
          ∙ ap (take (length payload)) (beyond 8)
          ∙ content_lem;
    },
  )
