-- ===== src/Facade/Echo.antt =====
-- The echo replies of handle_icmp and handle_icmpv6.
use tunio.Base.{
  sym, ◌⊎◌, ℕ, ◌+◌, ◌≤◌, ◌<◌, ◌≡◌, inl, inr, refl, List, [], ◌∷◌, ◌++◌, arith, some, false, drop,
  length, length-drop, get_or, get_or-IsByte, IsBytes, drop-IsBytes,
}
use tunio.Checksum.{ip_checksum, tcp_udp_checksum}
use tunio.Checksum.Verify.{ip_checksum_verifies, tcp_udp_checksum_verifies}
use tunio.Headers.{ip_header_size, build_ip_header, ip_protocol_icmp, ip_protocol_icmpv6}
use tunio.Headers.Layout.{IsAddress}
use tunio.Config.Keys.{address_bytes}
use tunio.Tcp.Dispatch.{IpInfo}
use tunio.Facade.{is_extension, Local, read_ip, message, handle_icmp, handle_icmpv6}
use tunio.Facade.Reading.{read_ip-build_ip_header}

-- An echo reply as its receiver sees it: from the address that was asked to the one that asked, and
-- with the request's code, identifier, sequence number and data.
pub record Answers (family protocol kind : ℕ) (ip : IpInfo) (icmp reply body : List ℕ)
    : Type 0 where
  pub reads :
      read_ip reply
      ≡ some (record {
        info = record {
          family = family;
          src_ip = address_bytes family ip.dst_ip;
          dst_ip = address_bytes family ip.src_ip;
        };
        protocol = protocol;
        payload = body;
      })
  pub kind_byte : get_or body 0 0 ≡ kind
  pub code_byte : get_or body 1 0 ≡ get_or icmp 1 0
  pub rest : drop 4 body ≡ drop 4 icmp

length-message :
    (kind csum : ℕ) (icmp : List ℕ)
    → 4 ≤ length icmp
    → length (message kind icmp csum) ≡ length icmp
length-message kind csum icmp h = omega (arith, length-drop 4 icmp)

front-IsBytes :
    (kind : ℕ) (icmp : List ℕ) → kind < 256 → IsBytes icmp → IsBytes (kind ∷ get_or icmp 1 0 ∷ [])
front-IsBytes kind icmp k h = (k, (get_or-IsByte icmp 1 h, tt))

module _ (l : Local) (ip : IpInfo) (icmp reply : List ℕ) (ip_id : ℕ) (s : IsAddress ip.src_ip)
    (d : IsAddress ip.dst_ip) (bytes : IsBytes icmp) (fits : length icmp ≤ 65515) where
  handle_icmp-some :
      handle_icmp l ip icmp ip_id ≡ some reply
      → (4 ≤ length icmp)
        × (reply
            ≡ build_ip_header 4 ip.dst_ip ip.src_ip ip_protocol_icmp (20 + length icmp) ip_id 64
              ++ message 0 icmp (ip_checksum (message 0 icmp 0)))
  unfolding handle_icmp
  handle_icmp-some e = ground arith

  handle_icmpv6-some :
      handle_icmpv6 l ip icmp ≡ some reply
      → (4 ≤ length icmp)
        × (reply
            ≡ build_ip_header 6 ip.dst_ip ip.src_ip ip_protocol_icmpv6 (40 + length icmp) 0 64
              ++ message 129 icmp
                  (tcp_udp_checksum 6 ip.dst_ip ip.src_ip ip_protocol_icmpv6 (message 129 icmp 0)))
  unfolding handle_icmpv6
  handle_icmpv6-some e = ground arith

  -- What `message` makes behind a built header, as the receiver reads it.
  answers :
      (family protocol kind csum total ip_id_ : ℕ)
      → (family ≡ 4) ⊎ (family ≡ 6)
      → is_extension protocol ≡ false
      → protocol < 256
      → 4 ≤ length icmp
      → total ≡ ip_header_size family + length icmp
      → reply
        ≡ build_ip_header family ip.dst_ip ip.src_ip protocol total ip_id_ 64
          ++ message kind icmp csum
      → Answers family protocol kind ip icmp reply (message kind icmp csum)
  answers family protocol kind csum total ip_id_ f x p h t e = record {
    reads =
        rw (e, t, sym (length-message kind csum icmp h))
          (read_ip-build_ip_header ip.dst_ip ip.src_ip (message kind icmp csum) d s protocol ip_id_
            64 p (omega arith) (omega (arith, length-message kind csum icmp h)) x family f);
    kind_byte = refl;
    code_byte = refl;
    rest = refl;
  }

  -- A reply of handle_icmp to at most 65515 bytes of message, between address buffers of bytes: its IPv4
  -- header is accepted and gives the request's addresses exchanged, the ICMP checksum verifies, the type
  -- is 0, and the code and all from byte 4 on are the request's.
  pub handle_icmp-Answers :
      handle_icmp l ip icmp ip_id ≡ some reply
      → (body : List ℕ) × Answers 4 ip_protocol_icmp 0 ip icmp reply body × (ip_checksum body ≡ 0)
  unfolding ip_header_size
  handle_icmp-Answers e =
      let h = handle_icmp-some e in
      let csum = ip_checksum (message 0 icmp 0) in
      (
        message 0 icmp csum,
        answers 4 ip_protocol_icmp 0 csum (20 + length icmp) ip_id (inl refl) refl (omega arith) h.0
            refl h.1,
        ip_checksum_verifies (0 ∷ get_or icmp 1 0 ∷ []) (drop 4 icmp)
            (front-IsBytes 0 icmp (omega arith) bytes) (drop-IsBytes 4 icmp bytes) tt
            (omega (arith, length-drop 4 icmp)),
      )

  -- A reply of handle_icmpv6 to at most 65515 bytes of message, between address buffers of bytes: the
  -- receiver reads the request's addresses exchanged, the ICMPv6 checksum over these addresses
  -- verifies, the type is 129, and the code and all from byte 4 on are the request's.
  pub handle_icmpv6-Answers :
      handle_icmpv6 l ip icmp ≡ some reply
      → (body : List ℕ) × Answers 6 ip_protocol_icmpv6 129 ip icmp reply body
        × (tcp_udp_checksum 6 ip.dst_ip ip.src_ip ip_protocol_icmpv6 body ≡ 0)
  unfolding ip_header_size
  handle_icmpv6-Answers e =
      let h = handle_icmpv6-some e in
      let csum = tcp_udp_checksum 6 ip.dst_ip ip.src_ip ip_protocol_icmpv6 (message 129 icmp 0) in
      (
        message 129 icmp csum,
        answers 6 ip_protocol_icmpv6 129 csum (40 + length icmp) 0 (inr refl) refl (omega arith) h.0
            refl h.1,
        tcp_udp_checksum_verifies 6 ip_protocol_icmpv6 ip.dst_ip ip.src_ip d.bytes s.bytes d.sixteen
            s.sixteen (129 ∷ get_or icmp 1 0 ∷ []) (drop 4 icmp)
            (front-IsBytes 129 icmp (omega arith) bytes) (drop-IsBytes 4 icmp bytes) tt
            (omega (arith, length-drop 4 icmp)),
      )
