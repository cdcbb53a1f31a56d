-- ===== src/Checksum.antt =====
-- src/ip_packet.cpp: the one's complement checksums of RFC 1071.
pub mod Sums
pub mod Verify
use tunio.Base.{
  ℕ, zero, suc, ◌+◌, ◌-◌, ◌*◌, ◌/◌, ◌%◌, ◌^◌, List, [], ◌∷◌, ◌++◌, Bool, u8, u16, u32, word, take,
  length, ◌==◌, if◌then◌else◌, ltb,
}

-- The scalar loop of `checksum_sum` over `data[0, len)`, with the 32-bit accumulator.
unfoldable pub checksum_sum : List ℕ → ℕ → ℕ
checksum_sum [] sum = sum
checksum_sum (a ∷ []) sum = u32 (sum + u16 (a * 256))
checksum_sum (a ∷ b ∷ rest) sum = checksum_sum rest (u32 (sum + u16 (word a b)))

-- `while (sum >> 16) sum = (sum & 0xffff) + (sum >> 16)`.
pub fold_loop : ℕ → ℕ → ℕ
fold_loop zero sum = sum
fold_loop (suc fuel) sum =
    let rest = fold_loop fuel (u32 (sum % 65536 + sum / 65536)) in
    if sum / 65536 == 0 then sum else rest

-- The accumulator is below 2 ^ 32, so two rounds bring it under 2 ^ 16.
unfoldable pub checksum_fold : ℕ → ℕ
unfolding fold_loop
checksum_fold sum = u16 (2 ^ 32 - 1 - fold_loop 3 sum)

unfoldable pub ip_checksum : List ℕ → ℕ
unfolding checksum_sum checksum_fold
ip_checksum bytes = checksum_fold (checksum_sum bytes 0)

-- The loop of `ipv4_checksum` from index `i`: whole words only, and the word at index 10 counts as 0.
pub ipv4_sum : List ℕ → ℕ → ℕ → ℕ
ipv4_sum [] i sum = sum
ipv4_sum (a ∷ []) i sum = sum
ipv4_sum (a ∷ b ∷ rest) i sum =
    ipv4_sum rest (i + 2) (u32 (sum + (if i == 10 then 0 else u16 (word a b))))

unfoldable pub ipv4_checksum : List ℕ → ℕ
unfolding ipv4_sum checksum_fold
ipv4_checksum ip = checksum_fold (ipv4_sum ip 0 0)

unfoldable pub verify_ipv4_checksum : List ℕ → ℕ
unfolding checksum_sum checksum_fold
verify_ipv4_checksum ip = checksum_fold (checksum_sum ip 0)

-- The sum over an address: whole words only, as its loop's test has it.
pub address_sum : List ℕ → ℕ → ℕ
address_sum [] sum = sum
address_sum (a ∷ []) sum = sum
address_sum (a ∷ b ∷ rest) sum = address_sum rest (u32 (sum + u16 (word a b)))

abbrev pub address_len : ℕ → ℕ
address_len family = if family == 6 then 16 else 4

-- The accumulator before the fold: both addresses, the protocol, the length and the segment.
unfoldable pub pseudo_sum : ℕ → List ℕ → List ℕ → ℕ → List ℕ → ℕ
unfolding address_sum checksum_sum
pseudo_sum family src_ip dst_ip protocol segment =
    let addresses =
      address_sum (take (address_len family) dst_ip)
        (address_sum (take (address_len family) src_ip) 0) in
    u32 (u32 (u32 (addresses + u16 protocol) + u16 (length segment)) + checksum_sum segment 0)

unfoldable pub tcp_udp_checksum : ℕ → List ℕ → List ℕ → ℕ → List ℕ → ℕ
unfolding pseudo_sum checksum_fold
tcp_udp_checksum family src_ip dst_ip protocol segment =
    checksum_fold (pseudo_sum family src_ip dst_ip protocol segment)
