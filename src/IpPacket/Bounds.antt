-- ===== src/IpPacket/Bounds.antt =====
-- Where `finalize` writes: inside the buffer after calls that went through, past it after one that threw.
use tunio.Base.{
  ℕ, ◌+◌, ◌-◌, ◌≤◌, ◌≡◌, ◌⊎◌, inl, inr, refl, sym, ◌∙◌, List, [], ◌∷◌, ◌++◌, arith, true, false,
  ◌||◌, length, take, drop, length-append, length-take, length-drop, bytes16, ◌==◌, if◌then◌else◌,
  if_both, subst⁻¹, ==_iff,
}
use tunio.Checksum.{ip_checksum, tcp_udp_checksum}
use tunio.Headers.{
  ip_protocol_icmp, ip_protocol_tcp, ip_protocol_udp, ip_protocol_icmpv6, ip_header_size,
  build_ip_header,
}
use tunio.Headers.Layout.{IsAddress, length-build_ip_header}
use tunio.IpPacket.Types.{Builder}
use tunio.IpPacket.Parse.{write}
use tunio.IpPacket.Build.{filled, fill_tcp, fill_udp, fill_icmp, fill_transport, tcp_fields}

-- A write that ends at `n` makes the cells as many as `n`, if they were fewer.
length-write :
    (cells bytes : List ℕ) (n : ℕ)
    → n ≤ length cells
    → length (write cells n bytes) ≡ n + length bytes + (length cells - (n + length bytes))
length-write cells bytes n h = omega (
  arith,
  length-append (take n cells) (bytes ++ drop (n + length bytes) cells),
  length-append bytes (drop (n + length bytes) cells),
  length-take n cells,
  length-drop (n + length bytes) cells,
)

pub write-fits :
    (cells bytes : List ℕ) (n : ℕ)
    → n + length bytes ≤ length cells
    → length (write cells n bytes) ≡ length cells
write-fits cells bytes n h = omega (arith, length-write cells bytes n (omega arith))

-- A field of two bytes that is computed from the cells.
write-field_size :
    (f : List ℕ → ℕ) (cells : List ℕ) (n m : ℕ)
    → length cells ≡ m
    → n + 2 ≤ m
    → length (write cells n (bytes16 (f cells))) ≡ m
write-field_size f cells n m e h = write-fits cells (bytes16 (f cells)) n (omega (arith, e, h)) ∙ e

-- The transport header lies in the cells behind the IP header.
pub data IsRoom (b : Builder) (n : ℕ) : Type 0 where
  for_tcp : b.protocol ≡ ip_protocol_tcp → 20 + length b.tcp_options ≤ n → IsRoom b n
  for_udp : b.protocol ≡ ip_protocol_udp → 8 ≤ n → IsRoom b n
  for_icmp :
      (b.protocol ≡ ip_protocol_icmp) ⊎ (b.protocol ≡ ip_protocol_icmpv6) → 8 ≤ n → IsRoom b n
  for_none : b.protocol ≡ 0 → IsRoom b n

tcp_room :
    {b : Builder} {n : ℕ}
    → IsRoom b n
    → b.protocol ≡ ip_protocol_tcp
    → 20 + length b.tcp_options ≤ n
tcp_room (for_tcp e h) t = h
tcp_room (for_udp e h) t = ground arith
tcp_room (for_icmp (inl e) h) t = ground arith
tcp_room (for_icmp (inr e) h) t = ground arith
tcp_room (for_none e) t = ground arith

other_room :
    {b : Builder} {n : ℕ}
    → IsRoom b n
    → (b.protocol == ip_protocol_tcp) ≡ false
    → ((b.protocol == ip_protocol_udp) ≡ true)
      ⊎ ((b.protocol == ip_protocol_icmp || b.protocol == ip_protocol_icmpv6) ≡ true)
    → 8 ≤ n
other_room (for_tcp e h) t u = ground arith
other_room (for_udp e h) t u = h
other_room (for_icmp e h) t u = h
other_room (for_none e) t u = ground arith

module _ (b : Builder) (family seg_len : ℕ) (seg : List ℕ) where
  abbrev Same : List ℕ → Type 0
  Same xs = length xs ≡ length seg

  length-fill_tcp :
      20 + length b.tcp_options ≤ length seg → length (fill_tcp b family seg_len seg) ≡ length seg
  unfolding fill_tcp
  length-fill_tcp h =
      let fields = write seg 0 (tcp_fields b) in
      let fields_size : length fields ≡ length seg =
        write-fits seg (tcp_fields b) 0 (omega (arith, h)) in
      let header_size : length
            (if length b.tcp_options == 0 then fields else write fields 20 b.tcp_options)
          ≡ length seg =
        if_both Same (length b.tcp_options == 0) (λ e. fields_size)
          (λ e. write-fits fields b.tcp_options 20 (omega (arith, h, fields_size)) ∙ fields_size) in
      let room : 16 + 2 ≤ length seg = omega (arith, h) in
      write-field_size
        (λ header. tcp_udp_checksum family b.src b.dst ip_protocol_tcp (take seg_len header)) _ 16
        (length seg) header_size room

  length-fill_udp : 8 ≤ length seg → length (fill_udp b family seg_len seg) ≡ length seg
  unfolding fill_udp
  length-fill_udp h = omega (arith, h, length-drop 8 seg)

  length-fill_icmp : 8 ≤ length seg → length (fill_icmp b family seg_len seg) ≡ length seg
  unfolding fill_icmp
  length-fill_icmp h =
      let fields = write seg 0 (b.icmp_type ∷ b.icmp_code ∷ 0 ∷ 0 ∷ []) in
      let fields_size : length fields ≡ length seg =
        write-fits seg (b.icmp_type ∷ b.icmp_code ∷ 0 ∷ 0 ∷ []) 0 (omega (arith, h)) in
      let header_size : length (
            if b.icmp_echo_set
            then write fields 4 (bytes16 b.icmp_id ++ bytes16 b.icmp_seq)
            else fields)
          ≡ length seg =
        if_both Same b.icmp_echo_set
          (λ e.
            write-fits fields (bytes16 b.icmp_id ++ bytes16 b.icmp_seq) 4
              (omega (arith, h, fields_size))
            ∙ fields_size)
          (λ e. fields_size) in
      let room : 2 + 2 ≤ length seg = omega (arith, h) in
      write-field_size
        (λ header.
          if family == 4
          then ip_checksum (take seg_len header)
          else tcp_udp_checksum 6 b.src b.dst ip_protocol_icmpv6 (take seg_len header))
        _ 2 (length seg) header_size room

  length-fill_transport :
      IsRoom b (length seg) → length (fill_transport b family seg_len seg) ≡ length seg
  unfolding fill_transport
  length-fill_transport room =
      if_both Same (b.protocol == ip_protocol_tcp)
        (λ t. length-fill_tcp (tcp_room room ((==_iff b.protocol ip_protocol_tcp).0 t)))
        (λ t.
          if_both Same (b.protocol == ip_protocol_udp)
            (λ u. length-fill_udp (other_room room t (inl u)))
            (λ u.
              if_both Same (b.protocol == ip_protocol_icmp || b.protocol == ip_protocol_icmpv6)
                (λ i. length-fill_icmp (other_room room t (inr i))) (λ i. refl)))

-- Of a buffer with the IP header committed and room for the transport header: finalize changes bytes of
-- the buffer only, so that the cells stay as many as they were.
pub length-filled :
    (b : Builder) (family total seg_len : ℕ) (cells : List ℕ)
    → (family ≡ 4) ⊎ (family ≡ 6)
    → b.ip_hlen ≡ ip_header_size family
    → IsAddress b.src
    → IsAddress b.dst
    → b.ip_hlen ≤ length cells
    → IsRoom b (length cells - b.ip_hlen)
    → length (filled b family total seg_len cells) ≡ length cells
unfolding filled
length-filled b family total seg_len cells f h s d l room =
    let header =
      build_ip_header family b.src b.dst b.protocol total (if family == 4 then b.ip_id else 0)
        b.ttl_hop in
    let out = write cells 0 header in
    let header_size : length header ≡ b.ip_hlen =
      length-build_ip_header b.src b.dst s d family b.protocol total
        (if family == 4 then b.ip_id else 0) b.ttl_hop f
      ∙ sym h in
    let out_size : length out ≡ length cells =
      write-fits cells header 0 (omega (arith, header_size, l)) in
    let rest_size : length (drop b.ip_hlen out) ≡ length cells - b.ip_hlen =
      length-drop b.ip_hlen out ∙ omega (arith, out_size) in
    omega (
      arith,
      length-append (take b.ip_hlen out) (fill_transport b family seg_len (drop b.ip_hlen out)),
      length-take b.ip_hlen out,
      length-fill_transport b family seg_len (drop b.ip_hlen out)
          (subst⁻¹ (IsRoom b) rest_size room),
      rest_size,
      out_size,
      l,
    )
