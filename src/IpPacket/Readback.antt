-- ===== src/IpPacket/Readback.antt =====
-- What the parser makes of an intact packet behind a header of `build_ip_header`.
use tunio.Base.{
  ℕ, ◌+◌, ◌*◌, ◌/◌, ◌%◌, ◌≤◌, ◌<◌, ◌≡◌, ◌⊎◌, inl, inr, refl, ap, ◌∙◌, List, ◌++◌, arith, some,
  false, true, not, ◌||◌, length, take, drop, length-drop, take_all, replicate, be16, get_or, ltb,
  ◌==◌, if◌then◌else◌, if_no, if_yes, le→ltb,
}
use tunio.Headers.{ip_header_size}
use tunio.Headers.Layout.{IsAddress}
use tunio.Headers.Fields.{Fields4, Fields6, packet, packet-Fields4, packet-Fields6}
use tunio.Config.Keys.{address_bytes}
use tunio.IpPacket.Types.{IpPacket, cleared}
use tunio.IpPacket.Parse.{parse_ipv4, parse_ipv6, parse_transport, do_parse}

-- The view of the IP layer that a packet of these parts gives.
abbrev pub viewed : IpPacket → List ℕ → List ℕ → List ℕ → ℕ → ℕ → List ℕ → IpPacket
viewed q src_ip dst_ip body protocol family bytes = record (cleared q.buf q.bld) {
  v4 = (if family == 4 then take 20 bytes else replicate 20 0);
  v6 = (if family == 4 then replicate 40 0 else take 40 bytes);
  version = family;
  protocol = protocol;
  src_ip = address_bytes family src_ip;
  dst_ip = address_bytes family dst_ip;
  total_len = ip_header_size family + length body;
  payload = some (ip_header_size family);
  payload_len = length body;
}

pub in_range : (n lo hi : ℕ) → lo ≤ n → n ≤ hi → (ltb n lo || ltb hi n) ≡ false
in_range n lo hi h k = ground arith

-- The views of an IPv4 packet of `n` bytes behind its header, without options.
abbrev pub ipv4_view : IpPacket → List ℕ → ℕ → ℕ → IpPacket
ipv4_view q p n frag = record q {
  v4 = take 20 p;
  version = 4;
  protocol = get_or p 9 0;
  src_ip = take 4 (drop 12 p) ++ replicate 12 0;
  dst_ip = take 4 (drop 16 p) ++ replicate 12 0;
  total_len = 20 + n;
  fragmented = not (frag % 16384 == 0);
  frag_offset = frag % 8192 * 8;
  payload = some 20;
  payload_len = n;
}

-- Only the packet whose data starts a datagram has its transport header read.
pub plain_ipv4 :
    (q : IpPacket) (p : List ℕ) (n frag : ℕ)
    → length p ≡ 20 + n
    → get_or p 0 0 ≡ 0x45
    → be16 p 2 ≡ 20 + n
    → be16 p 6 ≡ frag
    → parse_ipv4 q p ≡ (
        if frag % 8192 * 8 == 0
        then parse_transport (ipv4_view q p n frag) (get_or p 9 0) (drop 20 p)
        else ipv4_view q p n frag)
unfolding parse_ipv4
plain_ipv4 q p n frag l v t f =
    rw (v, t, f)
      (if_no _ _ _ (in_range 20 20 (length p) (omega arith) (omega (arith, l)))
        ∙ if_no _ _ _ (in_range (20 + n) 20 (length p) (omega arith) (omega (arith, l)))
        ∙ ap
            (λ k.
              if frag % 8192 * 8 == 0
              then parse_transport (record (ipv4_view q p n frag) { payload_len = k })
                  (get_or p 9 0) (take k (drop 20 p))
              else record (ipv4_view q p n frag) { payload_len = k })
            (omega arith)
        ∙ ap
            (λ seg.
              if frag % 8192 * 8 == 0
              then parse_transport (ipv4_view q p n frag) (get_or p 9 0) seg
              else ipv4_view q p n frag)
            (take_all n (drop 20 p) (omega (arith, l, length-drop 20 p))))

plain_ipv6 :
    (q : IpPacket) (p : List ℕ) (n : ℕ)
    → length p ≡ 40 + n
    → be16 p 4 ≡ n
    → parse_ipv6 q p
      ≡ parse_transport
          (record q {
            v6 = take 40 p;
            version = 6;
            protocol = get_or p 6 0;
            src_ip = take 16 (drop 8 p);
            dst_ip = take 16 (drop 24 p);
            total_len = 40 + n;
            payload = some 40;
            payload_len = n;
          })
          (get_or p 6 0)
          (drop 40 p)
unfolding parse_ipv6
plain_ipv6 q p n l t = rw t (
    if_no _ _ _ (le→ltb (length p) 40 (omega (arith, l)))
    ∙ if_no _ _ _ (le→ltb (length p) (40 + n) (omega (arith, l)))
    ∙ ap (parse_transport _ (get_or p 6 0))
        (take_all n (drop 40 p) (omega (arith, l, length-drop 40 p))))

pub version_test : (n k : ℕ) → n ≡ k → (n == k) ≡ true
version_test n k h = ground arith

module _ (q : IpPacket) (src_ip dst_ip body : List ℕ) (protocol : ℕ) (p : List ℕ) where
  do_parse-Fields4 :
      Fields4 src_ip dst_ip body protocol p
      → do_parse q p ≡ parse_transport (viewed q src_ip dst_ip body protocol 4 p) protocol body
  unfolding do_parse ip_header_size
  do_parse-Fields4 r =
      let plain : parse_ipv4 (cleared q.buf q.bld) p
          ≡ parse_transport (viewed q src_ip dst_ip body protocol 4 p) protocol body =
        plain_ipv4 (cleared q.buf q.bld) p (length body) 0x4000 r.size r.first_byte r.total_len
          r.frag_off
        ∙ rw (r.source, r.target, r.payload, r.protocol_byte) refl in
      if_no _ _ _ (le→ltb (length p) 20 (omega (arith, r.size)))
      ∙ if_yes _ _ _ (version_test _ _ (ap (λ n. n / 16) r.first_byte))
      ∙ plain

  do_parse-Fields6 :
      Fields6 src_ip dst_ip body protocol p
      → do_parse q p ≡ parse_transport (viewed q src_ip dst_ip body protocol 6 p) protocol body
  unfolding do_parse ip_header_size
  do_parse-Fields6 r =
      let plain : parse_ipv6 (cleared q.buf q.bld) p
          ≡ parse_transport (viewed q src_ip dst_ip body protocol 6 p) protocol body =
        plain_ipv6 (cleared q.buf q.bld) p (length body) r.size r.payload_len
        ∙ rw (r.source, r.target, r.payload, r.next_header) refl in
      if_no _ _ _ (le→ltb (length p) 20 (omega (arith, r.size)))
      ∙ if_no _ _ _ (ap (λ n. n == 4) r.version)
      ∙ if_yes _ _ _ (ap (λ n. n == 6) r.version)
      ∙ plain

module _ (q : IpPacket) (src_ip dst_ip body : List ℕ) (s : IsAddress src_ip) (d : IsAddress dst_ip)
    (protocol ip_id ttl : ℕ) (p : protocol < 256) (t : ttl < 256) (fits : length body ≤ 65515) where
  -- The parser hands a packet behind a header of `build_ip_header` to the transport's parser, with the
  -- fields that the header was built from.
  pub do_parse-packet :
      (family : ℕ)
      → (family ≡ 4) ⊎ (family ≡ 6)
      → (let bytes = packet src_ip dst_ip body s d protocol ip_id ttl p t family in
          do_parse q bytes
          ≡ parse_transport (viewed q src_ip dst_ip body protocol family bytes) protocol body)
  do_parse-packet family (inl e) = rw e (
      do_parse-Fields4 q src_ip dst_ip body protocol _
        (packet-Fields4 src_ip dst_ip body s d protocol ip_id ttl p t fits))
  do_parse-packet family (inr e) = rw e (
      do_parse-Fields6 q src_ip dst_ip body protocol _
        (packet-Fields6 src_ip dst_ip body s d protocol ip_id ttl p t fits))
