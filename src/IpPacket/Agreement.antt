-- ===== src/IpPacket/Agreement.antt =====
-- The two readers of the program on the same packet: `do_parse`, and the facade's `handle_packet`.
use tunio.Base.{
  ℕ, ◌+◌, ◌-◌, ◌*◌, ◌/◌, ◌%◌, ◌≡◌, ◌⊎◌, inl, inr, refl, ap, ◌∙◌, List, arith, Bool, true, false,
  not, ◌||◌, Option, none, some, length, take, drop, be16, get_or, ltb, ◌==◌, if◌then◌else◌,
  if_both, if_no, if_yes, subst⁻¹,
}
use tunio.Headers.{ip_protocol_icmp, ip_protocol_tcp, ip_protocol_udp, ip_protocol_icmpv6}
use tunio.Facade.{Parsed, read_ip, read_ipv4, read_ipv6, is_extension}
use tunio.IpPacket.Types.{
  packet_too_short, invalid_version, Storage, Builder, IpPacket, cleared, clear_state,
  data_offset_len,
}
use tunio.IpPacket.Views.{ihl, total, seen4, seen6}
use tunio.IpPacket.Parse.{
  failed, parse_tcp, parse_udp, parse_icmp, parse_transport, parse_ipv4, parse_ipv6, do_parse,
  is_echo,
}

-- The IP layer of a packet is the one of another.
pub record IsKept (q r : IpPacket) : Type 0 where
  pub version : r.version ≡ q.version
  pub protocol : r.protocol ≡ q.protocol
  pub source : r.src_ip ≡ q.src_ip
  pub target : r.dst_ip ≡ q.dst_ip
  pub fragmented : r.fragmented ≡ q.fragmented
  pub payload : r.payload ≡ q.payload
  pub payload_len : r.payload_len ≡ q.payload_len

-- The transport's parser leaves the IP layer's views alone.
pub parse_transport-IsKept :
    (q : IpPacket) (protocol : ℕ) (seg : List ℕ) → IsKept q (parse_transport q protocol seg)
unfolding parse_transport parse_tcp parse_udp parse_icmp
parse_transport-IsKept q protocol seg =
    if_both K (protocol == ip_protocol_tcp)
      (λ e.
        if_both K (ltb (length seg) 20)
          (λ e. record {
            version = refl;
            protocol = refl;
            source = refl;
            target = refl;
            fragmented = refl;
            payload = refl;
            payload_len = refl;
          })
          (λ e.
            if_both K
              (ltb (data_offset_len (get_or seg 12 0)) 20
                || ltb (length seg) (data_offset_len (get_or seg 12 0)))
              (λ e. record {
                version = refl;
                protocol = refl;
                source = refl;
                target = refl;
                fragmented = refl;
                payload = refl;
                payload_len = refl;
              })
              (λ e. record {
                version = refl;
                protocol = refl;
                source = refl;
                target = refl;
                fragmented = refl;
                payload = refl;
                payload_len = refl;
              })))
      (λ e.
        if_both K (protocol == ip_protocol_udp)
          (λ e.
            if_both K (ltb (length seg) 8)
              (λ e. record {
                version = refl;
                protocol = refl;
                source = refl;
                target = refl;
                fragmented = refl;
                payload = refl;
                payload_len = refl;
              })
              (λ e.
                if_both K (ltb (be16 seg 4) 8 || ltb (length seg) (be16 seg 4))
                  (λ e. record {
                    version = refl;
                    protocol = refl;
                    source = refl;
                    target = refl;
                    fragmented = refl;
                    payload = refl;
                    payload_len = refl;
                  })
                  (λ e. record {
                    version = refl;
                    protocol = refl;
                    source = refl;
                    target = refl;
                    fragmented = refl;
                    payload = refl;
                    payload_len = refl;
                  })))
          (λ e.
            if_both K (protocol == ip_protocol_icmp || protocol == ip_protocol_icmpv6)
              (λ e.
                if_both K (ltb (length seg) 8)
                  (λ e. record {
                    version = refl;
                    protocol = refl;
                    source = refl;
                    target = refl;
                    fragmented = refl;
                    payload = refl;
                    payload_len = refl;
                  })
                  (λ e.
                    if_both (λ r. K (record r { transport_parsed = true }))
                      (is_echo protocol (get_or seg 0 0))
                      (λ e. record {
                        version = refl;
                        protocol = refl;
                        source = refl;
                        target = refl;
                        fragmented = refl;
                        payload = refl;
                        payload_len = refl;
                      })
                      (λ e. record {
                        version = refl;
                        protocol = refl;
                        source = refl;
                        target = refl;
                        fragmented = refl;
                        payload = refl;
                        payload_len = refl;
                      })))
              (λ e. record {
                version = refl;
                protocol = refl;
                source = refl;
                target = refl;
                fragmented = refl;
                payload = refl;
                payload_len = refl;
              })))
  where
    K : IpPacket → Type 0
    K r = IsKept q r

if_some {ℓ} :
    {A : Type ℓ} (b : Bool) (k : Option A) (x : A)
    → (if b then none else k) ≡ some x
    → (b ≡ false) × (k ≡ some x)
if_some true k x h = cc
if_some false k x h = (refl, h)

-- The parser sees the packet that the facade passes on.
pub record IsSame (bytes : List ℕ) (q : Parsed) (r : IpPacket) : Type 0 where
  pub version : r.version ≡ q.info.family
  pub protocol : r.protocol ≡ q.protocol
  pub source : r.src_ip ≡ q.info.src_ip
  pub target : r.dst_ip ≡ q.info.dst_ip
  pub fragmented : r.fragmented ≡ false
  pub start : ℕ
  pub payload : r.payload ≡ some start
  pub bytes_of : take r.payload_len (drop start bytes) ≡ q.payload

IsKept-IsSame :
    (bytes : List ℕ) (x : Parsed) (q r : IpPacket) (start : ℕ)
    → IsKept q r
    → q.version ≡ x.info.family
    → q.protocol ≡ x.protocol
    → q.src_ip ≡ x.info.src_ip
    → q.dst_ip ≡ x.info.dst_ip
    → q.fragmented ≡ false
    → q.payload ≡ some start
    → take q.payload_len (drop start bytes) ≡ x.payload
    → IsSame bytes x r
IsKept-IsSame bytes x q r start k v p s d f a b = record {
  version = k.version ∙ v;
  protocol = k.protocol ∙ p;
  source = k.source ∙ s;
  target = k.target ∙ d;
  fragmented = k.fragmented ∙ f;
  start = start;
  payload = k.payload ∙ a;
  bytes_of = ap (λ n. take n (drop start bytes)) k.payload_len ∙ b;
}

whole_packet :
    (frag : ℕ)
    → (not (frag % 8192 == 0) || frag / 8192 % 2 == 1) ≡ false
    → (not (frag % 16384 == 0) ≡ false) × ((frag % 8192 * 8 == 0) ≡ true)
whole_packet frag h = ground arith

-- Equal packets of the facade have equal parts.
some_parts :
    {x y : Parsed}
    → some x ≡ some y
    → (x.info.family ≡ y.info.family)
      × (x.protocol ≡ y.protocol)
      × (x.info.src_ip ≡ y.info.src_ip)
      × (x.info.dst_ip ≡ y.info.dst_ip)
      × (x.payload ≡ y.payload)
some_parts h = (cc, cc, cc, cc, cc)

module _ (bytes : List ℕ) (buf : Storage) (bld : Builder) (x : Parsed) where
  parse_ipv4-read : read_ipv4 bytes ≡ some x → IsSame bytes x (parse_ipv4 (cleared buf bld) bytes)
  unfolding read_ipv4 parse_ipv4
  parse_ipv4-read h =
      let header = if_some _ _ x h in
      let lengths = if_some _ _ x header.1 in
      let whole = if_some _ _ x lengths.1 in
      let sums = if_some _ _ x whole.1 in
      let parts = some_parts sums.1 in
      let offset = whole_packet (be16 bytes 6) whole.0 in
      subst⁻¹ (IsSame bytes x)
        (if_no _ _ _ header.0 ∙ if_no _ _ _ lengths.0 ∙ if_yes _ _ _ offset.1)
        (IsKept-IsSame bytes x (seen4 bytes buf bld) _ (ihl bytes)
          (parse_transport-IsKept (seen4 bytes buf bld) (get_or bytes 9 0)
            (take (total bytes - ihl bytes) (drop (ihl bytes) bytes)))
          parts.0 parts.1 parts.2 parts.3 offset.0 refl parts.4)

  parse_ipv6-read : read_ipv6 bytes ≡ some x → IsSame bytes x (parse_ipv6 (cleared buf bld) bytes)
  unfolding read_ipv6 parse_ipv6
  parse_ipv6-read h =
      let header = if_some (ltb (length bytes) 40) _ x h in
      let lengths = if_some (ltb (length bytes) (40 + be16 bytes 4)) _ x header.1 in
      let next = if_some (is_extension (get_or bytes 6 0)) _ x lengths.1 in
      let parts = some_parts next.1 in
      subst⁻¹ (IsSame bytes x) (if_no _ _ _ header.0 ∙ if_no _ _ _ lengths.0) (
        IsKept-IsSame bytes x (seen6 bytes buf bld) _ 40
          (parse_transport-IsKept (seen6 bytes buf bld) (get_or bytes 6 0)
            (take (be16 bytes 4) (drop 40 bytes)))
          parts.0 parts.1 parts.2 parts.3 refl refl parts.4)

by_version :
    (a b : Bool) (k l : Option Parsed) (x : Parsed)
    → (if a then k else if b then l else none) ≡ some x
    → ((a ≡ true) × (k ≡ some x)) ⊎ ((a ≡ false) × (b ≡ true) × (l ≡ some x))
by_version true b k l x h = inl (refl, h)
by_version false true k l x h = inr (refl, refl, h)
by_version false false k l x h = cc

-- Each packet that the facade does not drop as malformed, the public parser sees in the same way: the
-- same version, protocol, addresses and payload, and no fragment.
pub do_parse-read_ip :
    (p : IpPacket) (bytes : List ℕ) (x : Parsed)
    → read_ip bytes ≡ some x
    → IsSame bytes x (do_parse p bytes)
unfolding do_parse read_ip
do_parse-read_ip p bytes x h =
    let four = get_or bytes 0 0 / 16 == 4 in
    let six = get_or bytes 0 0 / 16 == 6 in
    let long =
      if_some (ltb (length bytes) 20)
        (if four then read_ipv4 bytes else if six then read_ipv6 bytes else none) x h in
    let start = if_no (ltb (length bytes) 20) (failed (clear_state p) packet_too_short) in
    elim (by_version four six (read_ipv4 bytes) (read_ipv6 bytes) x long.1) [
      | inl (a, e) ↦
          subst⁻¹ (IsSame bytes x)
            (start _ long.0
              ∙ if_yes four (parse_ipv4 (clear_state p) bytes)
                  (if six
                    then parse_ipv6 (clear_state p) bytes
                    else failed (clear_state p) invalid_version)
                  a)
            (parse_ipv4-read bytes p.buf p.bld x e)
      | inr (a, b, e) ↦
          subst⁻¹ (IsSame bytes x)
            (start _ long.0
              ∙ if_no four (parse_ipv4 (clear_state p) bytes) _ a
              ∙ if_yes six (parse_ipv6 (clear_state p) bytes)
                  (failed (clear_state p) invalid_version) b)
            (parse_ipv6-read bytes p.buf p.bld x e)
    ]
