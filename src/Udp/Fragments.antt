-- ===== src/Udp/Fragments.antt =====
-- `udp_write_ipv4_fragments`: one datagram as several IPv4 packets.
use tunio.Base.{
  ℕ, zero, suc, ◌+◌, ◌-◌, ◌*◌, ◌/◌, ◌%◌, List, [], ◌∷◌, ◌++◌, Bool, u16, length, take, drop,
  bytes16, min, ltb, leb, ◌==◌, if◌then◌else◌,
}
use tunio.Checksum.{ipv4_checksum}
use tunio.Headers.{ip_protocol_udp, ipv4_addresses}

-- `(mtu > 20 ? mtu - 20 : 0) & ~7`
unfoldable pub max_frag_payload : ℕ → ℕ
max_frag_payload mtu = (if ltb 20 mtu then mtu - 20 else 0) / 8 * 8

unfoldable pub first_data : ℕ → ℕ
first_data mtu = let m = max_frag_payload mtu in if ltb 8 m then (m - 8) / 8 * 8 else 0

-- `x | 0x2000`
abbrev pub with_mf : ℕ → ℕ
with_mf x = x % 8192 + 8192 + x / 16384 * 16384

-- A fragment's header up to its checksum.
unfoldable pub fragment_before : ℕ → ℕ → ℕ → Bool → List ℕ
fragment_before frag_total ip_id off last =
    (0x45 ∷ 0 ∷ bytes16 (u16 frag_total))
    ++ (bytes16 ip_id
        ++ (bytes16 (if last then u16 (off / 8) else with_mf (u16 (off / 8)))
            ++ (64 ∷ ip_protocol_udp ∷ [])))

unfoldable pub fragment : ℕ → List ℕ → List ℕ → ℕ → Bool → List ℕ → List ℕ
fragment ip_id src_addr dst_addr off last bytes =
    let before = fragment_before (20 + length bytes) ip_id off last in
    let after = ipv4_addresses src_addr dst_addr in
    (before ++ (bytes16 (ipv4_checksum (before ++ (bytes16 0 ++ after))) ++ after)) ++ bytes

-- `frag_data` at offset `off`.
unfoldable pub frag_data : ℕ → ℕ → ℕ → ℕ
frag_data mtu off remain =
    if off == 0 then min (8 + first_data mtu) remain else min (max_frag_payload mtu) remain

-- The loop from offset `off` on, where `rest` of the datagram is left. Every round takes a byte or more.
unfoldable pub cut : ℕ → ℕ → ℕ → List ℕ → List ℕ → ℕ → List ℕ → List (List ℕ)
cut zero mtu ip_id src_addr dst_addr off rest = []
cut (suc fuel) mtu ip_id src_addr dst_addr off rest =
    let n = frag_data mtu off (length rest) in
    let more = cut fuel mtu ip_id src_addr dst_addr (off + n) (drop n rest) in
    if length rest == 0
    then []
    else fragment ip_id src_addr dst_addr off (leb (length rest) n) (take n rest) ∷ more

-- What is handed to the writer: nothing, with message_size, or all fragments.
pub data Fragmented : Type 0 where
  message_size : Fragmented
  fragments : List (List ℕ) → Fragmented

unfoldable pub udp_write_ipv4_fragments : ℕ → ℕ → List ℕ → List ℕ → List ℕ → Fragmented
udp_write_ipv4_fragments mtu ip_id src_addr dst_addr datagram =
    if ltb (max_frag_payload mtu) 8
    then message_size
    else fragments (cut (length datagram) mtu ip_id src_addr dst_addr 0 datagram)
