-- ===== src/Headers/Fields.antt =====
-- The bytes of a packet behind a header of `build_ip_header`: the fields, where a receiver reads them.
use tunio.Base.{
  ℕ, ◌+◌, ◌-◌, ◌/◌, ◌≤◌, ◌<◌, ◌≡◌, ◌⊎◌, inl, inr, refl, sym, ap, ◌∙◌, List, ◌++◌, arith, u16, take,
  drop, length, length-append, length-take, take-append_eq, drop-append_eq, append_assoc,
  word_bytes16, be16, get_or, ltb, if◌then◌else◌,
}
use tunio.Checksum.{verify_ipv4_checksum}
use tunio.Headers.{ipv4_before, ipv4_addresses, build_ip_header, ip_header_size}
use tunio.Headers.Layout.{IsAddress, length-build_ip_header, verify-build_ip_header}

-- An intact IPv4 packet without options and fragmentation.
pub record Fields4 (src_ip dst_ip body : List ℕ) (protocol : ℕ) (p : List ℕ) : Type 0 where
  pub first_byte : get_or p 0 0 ≡ 0x45
  pub total_len : be16 p 2 ≡ 20 + length body
  pub frag_off : be16 p 6 ≡ 0x4000
  pub protocol_byte : get_or p 9 0 ≡ protocol
  pub source : take 4 (drop 12 p) ≡ take 4 src_ip
  pub target : take 4 (drop 16 p) ≡ take 4 dst_ip
  pub payload : drop 20 p ≡ body
  pub intact : verify_ipv4_checksum (take 20 p) ≡ 0
  pub size : length p ≡ 20 + length body

pub record Fields6 (src_ip dst_ip body : List ℕ) (protocol : ℕ) (p : List ℕ) : Type 0 where
  pub version : get_or p 0 0 / 16 ≡ 6
  pub payload_len : be16 p 4 ≡ length body
  pub next_header : get_or p 6 0 ≡ protocol
  pub source : take 16 (drop 8 p) ≡ take 16 src_ip
  pub target : take 16 (drop 24 p) ≡ take 16 dst_ip
  pub payload : drop 40 p ≡ body
  pub size : length p ≡ 40 + length body

-- Two addresses of `n` bytes and what follows them, taken apart.
pub parts :
    (n : ℕ) (a b rest : List ℕ)
    → n ≡ length a
    → n ≡ length b
    → (take n ((a ++ b) ++ rest) ≡ a)
      × (take n (drop n ((a ++ b) ++ rest)) ≡ b)
      × (drop (n + n) ((a ++ b) ++ rest) ≡ rest)
parts n a b rest k l = (
  ap (take n) assoc ∙ take-append_eq n a (b ++ rest) k,
  ap (λ xs. take n (drop n xs)) assoc
      ∙ ap (take n) (drop-append_eq n a (b ++ rest) k)
      ∙ take-append_eq n b rest l,
  drop-append_eq (n + n) (a ++ b) rest (omega (arith, length-append a b)),
)
  where
    assoc : (a ++ b) ++ rest ≡ a ++ (b ++ rest)
    assoc = append_assoc a b rest

module _ (src_ip dst_ip body : List ℕ) (s : IsAddress src_ip) (d : IsAddress dst_ip)
    (protocol ip_id ttl : ℕ) (p : protocol < 256) (t : ttl < 256) where
  abbrev pub packet : ℕ → List ℕ
  packet family =
      build_ip_header family src_ip dst_ip protocol (ip_header_size family + length body) ip_id ttl
      ++ body

  length-packet :
      (family : ℕ)
      → (family ≡ 4) ⊎ (family ≡ 6)
      → length (packet family) ≡ ip_header_size family + length body
  length-packet family f = omega (
    arith,
    length-append
        (build_ip_header family src_ip dst_ip protocol (ip_header_size family + length body) ip_id
          ttl)
        body,
    length-build_ip_header src_ip dst_ip s d family protocol (ip_header_size family + length body)
        ip_id ttl f,
  )

  module _ (fits : length body ≤ 65515) where
    intact4 : verify_ipv4_checksum (take 20 (packet 4)) ≡ 0
    unfolding ip_header_size
    intact4 =
        ap verify_ipv4_checksum (
          take-append_eq 20 (build_ip_header 4 src_ip dst_ip protocol (20 + length body) ip_id ttl)
            body
            (sym (
              length-build_ip_header src_ip dst_ip s d 4 protocol (20 + length body) ip_id ttl
                (inl refl))))
        ∙ verify-build_ip_header src_ip dst_ip s d 4 protocol (20 + length body) ip_id ttl p t

    fields4 :
        (get_or (packet 4) 0 0 ≡ 0x45)
        × (be16 (packet 4) 2 ≡ 20 + length body)
        × (be16 (packet 4) 6 ≡ 0x4000)
        × (get_or (packet 4) 9 0 ≡ protocol)
    unfolding build_ip_header ip_header_size ipv4_before
    fields4 = (refl, word_bytes16 (u16 (20 + length body)) (omega arith) ∙ omega arith, refl, refl)

    addresses4 :
        (take 4 (drop 12 (packet 4)) ≡ take 4 src_ip)
        × (take 4 (drop 16 (packet 4)) ≡ take 4 dst_ip)
        × (drop 20 (packet 4) ≡ body)
    unfolding build_ip_header ip_header_size ipv4_before ipv4_addresses
    addresses4 =
        parts 4 (take 4 src_ip) (take 4 dst_ip) body
          (omega (arith, s.sixteen, length-take 4 src_ip))
          (omega (arith, d.sixteen, length-take 4 dst_ip))

    fields6 : (be16 (packet 6) 4 ≡ length body) × (get_or (packet 6) 6 0 ≡ protocol)
    unfolding build_ip_header ip_header_size
    fields6 = (
      word_bytes16 (u16 (if ltb 40 (40 + length body) then 40 + length body - 40 else 0))
            (omega arith)
          ∙ ground arith,
      refl,
    )

    addresses6 :
        (take 16 (drop 8 (packet 6)) ≡ take 16 src_ip)
        × (take 16 (drop 24 (packet 6)) ≡ take 16 dst_ip)
        × (drop 40 (packet 6) ≡ body)
    unfolding build_ip_header ip_header_size
    addresses6 =
        parts 16 (take 16 src_ip) (take 16 dst_ip) body
          (omega (arith, s.sixteen, length-take 16 src_ip))
          (omega (arith, d.sixteen, length-take 16 dst_ip))

    version6 : get_or (packet 6) 0 0 / 16 ≡ 6
    unfolding build_ip_header
    version6 = refl

    pub packet-Fields4 : Fields4 src_ip dst_ip body protocol (packet 4)
    unfolding ip_header_size
    packet-Fields4 = record {
      first_byte = fields4.0;
      total_len = fields4.1;
      frag_off = fields4.2;
      protocol_byte = fields4.3;
      source = addresses4.0;
      target = addresses4.1;
      payload = addresses4.2;
      intact = intact4;
      size = length-packet 4 (inl refl);
    }

    pub packet-Fields6 : Fields6 src_ip dst_ip body protocol (packet 6)
    unfolding ip_header_size
    packet-Fields6 = record {
      version = version6;
      payload_len = fields6.0;
      next_header = fields6.1;
      source = addresses6.0;
      target = addresses6.1;
      payload = addresses6.2;
      size = length-packet 6 (inr refl);
    }
