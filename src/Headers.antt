-- ===== src/Headers.antt =====
-- `ip_header_size` and `build_ip_header` of src/ip_packet.cpp, and the constants of the headers.
pub mod Fields
pub mod Layout
use tunio.Base.{ℕ, ◌-◌, List, [], ◌∷◌, ◌++◌, u16, take, bytes16, ltb, ◌==◌, if◌then◌else◌}
use tunio.Checksum.{ipv4_checksum}

abbrev pub ip_protocol_icmp : ℕ
ip_protocol_icmp = 1

abbrev pub ip_protocol_tcp : ℕ
ip_protocol_tcp = 6

abbrev pub ip_protocol_udp : ℕ
ip_protocol_udp = 17

abbrev pub ip_protocol_icmpv6 : ℕ
ip_protocol_icmpv6 = 58

unfoldable pub ip_header_size : ℕ → ℕ
ip_header_size family = if family == 6 then 40 else 20

-- The IPv4 header up to its checksum, and from behind it on.
unfoldable pub ipv4_before : ℕ → ℕ → ℕ → ℕ → List ℕ
ipv4_before protocol total_len ip_id ttl =
    (0x45 ∷ 0 ∷ bytes16 (u16 total_len))
    ++ (bytes16 ip_id ++ (bytes16 0x4000 ++ (ttl ∷ protocol ∷ [])))

unfoldable pub ipv4_addresses : List ℕ → List ℕ → List ℕ
ipv4_addresses src_ip dst_ip = take 4 src_ip ++ take 4 dst_ip

-- The header's bytes. The checksum is computed over the header with its field at 0.
unfoldable pub build_ip_header : ℕ → List ℕ → List ℕ → ℕ → ℕ → ℕ → ℕ → List ℕ
unfolding ipv4_before ipv4_addresses ipv4_checksum
build_ip_header family src_ip dst_ip protocol total_len ip_id ttl =
    if family == 4
    then (let before = ipv4_before protocol total_len ip_id ttl in
        let after = ipv4_addresses src_ip dst_ip in
        before ++ (bytes16 (ipv4_checksum (before ++ (bytes16 0 ++ after))) ++ after))
    else (0x60 ∷ 0 ∷ 0 ∷ 0 ∷ bytes16 (u16 (if ltb 40 total_len then total_len - 40 else 0)))
      ++ ((protocol ∷ ttl ∷ []) ++ (take 16 src_ip ++ take 16 dst_ip))
