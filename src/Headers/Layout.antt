-- ===== src/Headers/Layout.antt =====
-- The headers that `build_ip_header` lays out: their length, and that a receiver accepts them.
use tunio.Base.{
  ℕ, ◌<◌, ◌≡◌, refl, ◌⊎◌, List, arith, take, length, length-append, length-take, IsBytes,
  IsBytes-append, take-IsBytes,
}
use tunio.Checksum.{verify_ipv4_checksum}
use tunio.Checksum.Verify.{ipv4_checksum_verifies}
use tunio.Checksum.Sums.{Even-of_length}
use tunio.Headers.{ip_header_size, build_ip_header, ipv4_before, ipv4_addresses}

-- An address buffer: 16 bytes.
pub record IsAddress (ip : List ℕ) : Type 0 where
  pub bytes : IsBytes ip
  pub sixteen : length ip ≡ 16

module _ (src_ip dst_ip : List ℕ) (s : IsAddress src_ip) (d : IsAddress dst_ip) where
  pub length-ipv4_addresses : length (ipv4_addresses src_ip dst_ip) ≡ 8
  unfolding ipv4_addresses
  length-ipv4_addresses = omega (
    arith,
    s.sixteen,
    d.sixteen,
    length-append (take 4 src_ip) (take 4 dst_ip),
    length-take 4 src_ip,
    length-take 4 dst_ip,
  )

  pub ipv4_addresses-IsBytes : IsBytes (ipv4_addresses src_ip dst_ip)
  unfolding ipv4_addresses
  ipv4_addresses-IsBytes =
      IsBytes-append (take 4 src_ip) (take 4 dst_ip) (take-IsBytes 4 src_ip s.bytes)
        (take-IsBytes 4 dst_ip d.bytes)

  module _ (family protocol total_len ip_id ttl : ℕ) where
    -- Between addresses of 16 bytes, a header is as long as `ip_header_size` says, for both families.
    pub length-build_ip_header :
        (family ≡ 4) ⊎ (family ≡ 6)
        → length (build_ip_header family src_ip dst_ip protocol total_len ip_id ttl)
          ≡ ip_header_size family
    unfolding build_ip_header ip_header_size
    length-build_ip_header f = ground (
      arith,
      length-ipv4_addresses,
      s.sixteen,
      d.sixteen,
      length-append (take 16 src_ip) (take 16 dst_ip),
      length-take 16 src_ip,
      length-take 16 dst_ip,
    )

    -- Between addresses of 16 bytes, with a protocol and a time to live of one byte: a receiver that checks
    -- the header checksum accepts the IPv4 header that is built.
    pub verify-build_ip_header :
        protocol < 256
        → ttl < 256
        → verify_ipv4_checksum (build_ip_header 4 src_ip dst_ip protocol total_len ip_id ttl) ≡ 0
    unfolding build_ip_header ipv4_before
    verify-build_ip_header p t =
        ipv4_checksum_verifies (ipv4_before protocol total_len ip_id ttl)
          (ipv4_addresses src_ip dst_ip) 0 (omega arith) ipv4_addresses-IsBytes refl
          (Even-of_length _ 4 length-ipv4_addresses) (omega (arith, length-ipv4_addresses))
