-- ===== src/IpPacket/FragmentViews.antt =====
-- How the public parser sees the fragments that the UDP engine sends.
use tunio.Base.{
  ℕ, ◌+◌, ◌*◌, ◌/◌, ◌%◌, ◌≤◌, ◌<◌, ◌≡◌, refl, ap, ◌∙◌, List, arith, some, Bool, true, false, not,
  ◌||◌, length, take, length-drop, length-take, be16, get_or, ltb, ◌==◌, if◌then◌else◌, if_no,
  if_yes, get_or-take, le→ltb, subst⁻¹,
}
use tunio.Headers.{ip_protocol_udp}
use tunio.Headers.Layout.{IsAddress}
use tunio.Udp.Fragments.{fragment, fragment_before}
use tunio.Udp.Reassembly.{fragment-facts}
use tunio.IpPacket.Types.{no_error, invalid_transport_header, IpPacket, cleared}
use tunio.IpPacket.Parse.{parse_transport, parse_udp, do_parse}
use tunio.IpPacket.Readback.{ipv4_view, plain_ipv4, version_test}

module _ (src_addr dst_addr : List ℕ) (s : IsAddress src_addr) (d : IsAddress dst_addr)
    (mtu ip_id : ℕ) (i : ip_id < 65536) (mtu_small : mtu < 65536) (p : IpPacket) where
  module _ (off : ℕ) (last : Bool) (bytes : List ℕ) (o : off < 65536) (e : off % 8 ≡ 0)
      (some_data : 0 < length bytes) (fits : 20 + length bytes ≤ mtu) where
    abbrev frag : ℕ
    frag = if last then off / 8 else off / 8 + 8192

    abbrev packet : List ℕ
    packet = fragment ip_id src_addr dst_addr off last bytes

    abbrev view : IpPacket
    view = ipv4_view (cleared p.buf p.bld) packet (length bytes) frag

    first_bytes : (get_or packet 0 0 ≡ 0x45) × (get_or packet 9 0 ≡ ip_protocol_udp)
    unfolding fragment fragment_before
    first_bytes = (refl, refl)

    facts : (be16 packet 2 ≡ 20 + length bytes) × (length packet ≡ 20 + length bytes)
    facts =
        let f = fragment-facts src_addr dst_addr s d mtu ip_id i mtu_small off last bytes o fits in
        omega (arith, f.0.total_len, length-drop 20 packet, ap length f.2)

    do_parse-fragment :
        do_parse p packet
        ≡ (if frag % 8192 * 8 == 0 then parse_transport view ip_protocol_udp bytes else view)
    unfolding do_parse
    do_parse-fragment =
        let f = fragment-facts src_addr dst_addr s d mtu ip_id i mtu_small off last bytes o fits in
        if_no _ _ _ (le→ltb (length packet) 20 (omega (arith, facts)))
        ∙ if_yes _ _ _ (version_test _ _ (ap (λ n. n / 16) first_bytes.0))
        ∙ plain_ipv4 (cleared p.buf p.bld) packet (length bytes) frag facts.1 first_bytes.0 facts.0
            f.1
        ∙ rw (first_bytes.1, f.2) refl

    -- The views of a fragment that is not the first.
    pub later_fragment :
        0 < off
        → (let q = do_parse p packet in
            (q.error ≡ no_error)
            × (q.fragmented ≡ true)
            × (q.frag_offset ≡ off)
            × (q.payload ≡ some 20)
            × (q.payload_len ≡ length bytes))
    later_fragment h =
        subst⁻¹
          (λ q.
            (q.error ≡ no_error)
            × (q.fragmented ≡ true)
            × (q.frag_offset ≡ off)
            × (q.payload ≡ some 20)
            × (q.payload_len ≡ length bytes))
          (do_parse-fragment ∙ if_no _ _ _ (behind off last h e o).0)
          (refl, (behind off last h e o).1, (behind off last h e o).2, refl, refl)
      where
        behind :
            (off : ℕ) (last : Bool)
            → 0 < off
            → off % 8 ≡ 0
            → off < 65536
            → (let frag : ℕ = if last then off / 8 else off / 8 + 8192 in
                ((frag % 8192 * 8 == 0) ≡ false)
                × (not (frag % 16384 == 0) ≡ true)
                × (frag % 8192 * 8 ≡ off))
        behind off true a b c = ground arith
        behind off false a b c = ground arith

  -- An IPv4 fragment that the UDP engine makes of the first bytes of a longer datagram, at least its header,
  -- whose length field is right: the public parser sees the first fragment, but reports an invalid
  -- transport header, because it compares the datagram's length with the fragment's.
  pub first_fragment :
      (datagram : List ℕ) (n : ℕ)
      → 8 ≤ n
      → n < length datagram
      → 20 + n ≤ mtu
      → be16 datagram 4 ≡ length datagram
      → (let q = do_parse p (fragment ip_id src_addr dst_addr 0 false (take n datagram)) in
          (q.error ≡ invalid_transport_header) × (q.fragmented ≡ true) × (q.frag_offset ≡ 0))
  unfolding parse_transport parse_udp
  first_fragment datagram n a b c h =
      subst⁻¹
        (λ q. (q.error ≡ invalid_transport_header) × (q.fragmented ≡ true) × (q.frag_offset ≡ 0))
        (do_parse-fragment 0 false seg (omega arith) refl (omega (arith, size))
            (omega (arith, size))
          ∙ if_no _ _ _ (le→ltb (length seg) 8 (omega (arith, size)))
          ∙ if_yes _ _ _ (
              too_long (be16 seg 4) (length seg) (
                omega (
                  arith,
                  size,
                  h,
                  get_or-take n 4 datagram 0 (omega arith),
                  get_or-take n 5 datagram 0 (omega arith),
                ))))
        (refl, refl, refl)
    where
      seg : List ℕ
      seg = take n datagram

      size : length (take n datagram) ≡ n
      size = omega (arith, length-take n datagram)

      too_long : (u k : ℕ) → k < u → (ltb u 8 || ltb k u) ≡ true
      too_long u k h = ground arith
