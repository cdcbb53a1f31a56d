-- ===== src/Facade/Reading.antt =====
-- The packets behind a header of `build_ip_header`, read by the facade.
use tunio.Base.{
  ℕ, ◌+◌, ◌-◌, ◌≤◌, ◌<◌, ◌≡◌, ◌⊎◌, inl, inr, refl, sym, ap, ◌∙◌, List, ◌++◌, arith, none, some,
  false, take, drop, length, length-drop, replicate, be16, get_or, ltb, ◌||◌, if◌then◌else◌,
  take_all,
}
use tunio.Checksum.{verify_ipv4_checksum}
use tunio.Headers.{build_ip_header, ip_header_size}
use tunio.Headers.Layout.{IsAddress}
use tunio.Headers.Fields.{Fields4, Fields6, packet, packet-Fields4, packet-Fields6}
use tunio.Config.Keys.{address_bytes}
use tunio.Facade.{declared_length, Parsed, read_ipv4, read_ipv6, read_ip, is_extension}

-- What an intact IPv4 packet without options or fragmentation is read as.
read_ipv4_plain :
    (p : List ℕ)
    → get_or p 0 0 ≡ 0x45
    → be16 p 2 ≡ length p
    → 20 ≤ length p
    → be16 p 6 ≡ 0x4000
    → verify_ipv4_checksum (take 20 p) ≡ 0
    → read_ipv4 p
      ≡ some (record {
        info = record {
          family = 4;
          src_ip = take 4 (drop 12 p) ++ replicate 12 0;
          dst_ip = take 4 (drop 16 p) ++ replicate 12 0;
        };
        protocol = get_or p 9 0;
        payload = drop 20 p;
      })
unfolding read_ipv4
read_ipv4_plain p v t l f k =
    rw (v, t, f, k)
      (ground (arith, take_all (length p - 20) (drop 20 p) (omega (arith, length-drop 20 p))))

read_ipv6_plain :
    (p : List ℕ)
    → 40 ≤ length p
    → 40 + be16 p 4 ≡ length p
    → is_extension (get_or p 6 0) ≡ false
    → read_ipv6 p
      ≡ some (record {
        info = record { family = 6; src_ip = take 16 (drop 8 p); dst_ip = take 16 (drop 24 p) };
        protocol = get_or p 6 0;
        payload = drop 40 p;
      })
unfolding read_ipv6
read_ipv6_plain p l t e =
    ground (arith, e, take_all (be16 p 4) (drop 40 p) (omega (arith, length-drop 40 p)))

-- What the facade makes of a packet with these fields.
abbrev pub parsed : List ℕ → List ℕ → List ℕ → ℕ → ℕ → Parsed
parsed src_ip dst_ip body protocol family = record {
  info = record {
    family = family;
    src_ip = address_bytes family src_ip;
    dst_ip = address_bytes family dst_ip;
  };
  protocol = protocol;
  payload = body;
}

long_enough {ℓ} : {A : Type ℓ} (n : ℕ) (x y : A) → 20 ≤ n → (if ltb n 20 then x else y) ≡ y
long_enough n x y h = ground arith

whole6 :
    (n b : ℕ)
    → n ≡ 40 + b
    → (if ltb n 20 then none else if ltb (40 + b) 40 || ltb n (40 + b) then none else some (40 + b))
      ≡ some n
whole6 n b h = ground arith

module _ (src_ip dst_ip body : List ℕ) (protocol : ℕ) (p : List ℕ) where
  read_ip-Fields4 :
      Fields4 src_ip dst_ip body protocol p
      → (read_ip p ≡ some (parsed src_ip dst_ip body protocol 4))
        × (declared_length p ≡ some (length p))
  unfolding read_ip declared_length
  read_ip-Fields4 r =
      let plain : read_ipv4 p ≡ some (parsed src_ip dst_ip body protocol 4) =
        read_ipv4_plain p r.first_byte (r.total_len ∙ sym r.size) (omega (arith, r.size)) r.frag_off
          r.intact
        ∙ rw (r.source, r.target, r.payload, r.protocol_byte) refl in
      (
        rw (r.first_byte, plain) (ground (arith, r.size)),
        rw (r.first_byte, r.total_len) (ground (arith, r.size)),
      )

  read_ip-Fields6 :
      Fields6 src_ip dst_ip body protocol p
      → is_extension protocol ≡ false
      → (read_ip p ≡ some (parsed src_ip dst_ip body protocol 6))
        × (declared_length p ≡ some (length p))
  unfolding read_ip declared_length
  read_ip-Fields6 r e =
      let plain : read_ipv6 p ≡ some (parsed src_ip dst_ip body protocol 6) =
        read_ipv6_plain p (omega (arith, r.size)) (omega (arith, r.payload_len, r.size))
          (ap is_extension r.next_header ∙ e)
        ∙ rw (r.source, r.target, r.payload, r.next_header) refl in
      (
        rw (r.version, plain) (long_enough (length p) none _ (omega (arith, r.size))),
        rw (r.version, r.payload_len) (whole6 (length p) (length body) r.size),
      )

module _ (src_ip dst_ip body : List ℕ) (s : IsAddress src_ip) (d : IsAddress dst_ip)
    (protocol ip_id ttl : ℕ) (p : protocol < 256) (t : ttl < 256) (fits : length body ≤ 65515)
    (e : is_extension protocol ≡ false) where
  read_lem :
      (family : ℕ)
      → (family ≡ 4) ⊎ (family ≡ 6)
      → (read_ip (packet src_ip dst_ip body s d protocol ip_id ttl p t family)
          ≡ some (parsed src_ip dst_ip body protocol family))
        × (declared_length (packet src_ip dst_ip body s d protocol ip_id ttl p t family)
            ≡ some (length (packet src_ip dst_ip body s d protocol ip_id ttl p t family)))
  read_lem family (inl f) = rw f (
      read_ip-Fields4 src_ip dst_ip body protocol _
        (packet-Fields4 src_ip dst_ip body s d protocol ip_id ttl p t fits))
  read_lem family (inr f) = rw f (
      read_ip-Fields6 src_ip dst_ip body protocol _
        (packet-Fields6 src_ip dst_ip body s d protocol ip_id ttl p t fits) e)

  -- A packet of at most 65515 bytes behind a header of `build_ip_header`, between addresses of 16 bytes,
  -- with a protocol that announces no extension header, is read by the facade as what the header was
  -- built from: the family, the addresses, the protocol and all of the payload.
  pub read_ip-build_ip_header :
      (family : ℕ)
      → (family ≡ 4) ⊎ (family ≡ 6)
      → read_ip (
          build_ip_header family src_ip dst_ip protocol
            (ip_header_size family + length body)
            ip_id
            ttl
          ++ body)
        ≡ some (parsed src_ip dst_ip body protocol family)
  read_ip-build_ip_header family f = (read_lem family f).0

  -- The length that such a packet declares is its own, so that on_read hands all of it on.
  pub declared_length-build_ip_header :
      (family : ℕ)
      → (family ≡ 4) ⊎ (family ≡ 6)
      → (let p =
            build_ip_header family src_ip dst_ip protocol
              (ip_header_size family + length body)
              ip_id
              ttl
            ++ body in
          declared_length p ≡ some (length p))
  declared_length-build_ip_header family f = (read_lem family f).1
