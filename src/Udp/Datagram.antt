-- ===== src/Udp/Datagram.antt =====
-- `udp_build_datagram`: a UDP header, the payload and their checksum.
use tunio.Base.{
  word, ◌/◌, ◌%◌, if_both, ℕ, ◌+◌, ◌-◌, ◌≤◌, ◌<◌, ◌≡◌, refl, sym, ap, ◌∙◌, List, [], ◌∷◌, ◌++◌,
  arith, u16, length, take, take_all, bytes16, be16, IsBytes, ◌==◌, if◌then◌else◌,
}
use tunio.Checksum.{tcp_udp_checksum}
use tunio.Checksum.Verify.{
  tcp_udp_checksum-lt, with_field, tcp_udp_checksum_verifies, tcp_udp_checksum_ffff,
}
use tunio.Headers.{ip_protocol_udp}
use tunio.Headers.Layout.{IsAddress}

-- The loop that collects the payload from the user's buffers.
unfoldable pub gather : List (List ℕ) → ℕ → List ℕ
gather [] payload_len = []
gather (b ∷ bs) payload_len =
    let rest = gather bs (payload_len - length b) in
    if payload_len == 0 then [] else take payload_len b ++ rest

abbrev pub buffer_size : List (List ℕ) → ℕ
buffer_size [] = 0
buffer_size (b ∷ bs) = length b + buffer_size bs

abbrev pub concat : List (List ℕ) → List ℕ
concat [] = []
concat (b ∷ bs) = b ++ concat bs

-- The datagram with `csum` in its checksum field; `payload` is what `gather` collects.
abbrev pub datagram_with : ℕ → ℕ → List ℕ → ℕ → List ℕ
datagram_with src_port dst_port payload csum =
    (bytes16 src_port ++ (bytes16 dst_port ++ bytes16 (u16 (8 + length payload))))
    ++ (bytes16 csum ++ payload)

abbrev pub never_zero : ℕ → ℕ
never_zero csum = if csum == 0 then 0xffff else csum

unfoldable pub udp_build_datagram : ℕ → List ℕ → List ℕ → ℕ → ℕ → List ℕ → List ℕ
udp_build_datagram family src_addr dst_addr src_port dst_port payload =
    datagram_with src_port dst_port payload (
      never_zero (
        tcp_udp_checksum family src_addr dst_addr ip_protocol_udp
          (datagram_with src_port dst_port payload 0)))

concat-nil : (bs : List (List ℕ)) → buffer_size bs ≡ 0 → concat bs ≡ []
concat-nil [] h = refl
concat-nil ([] ∷ bs) h = concat-nil bs (omega arith)
concat-nil ((x ∷ xs) ∷ bs) h = absurd (omega arith)

take_long : (xs : List ℕ) (n : ℕ) → take (length xs + n) xs ≡ xs
take_long xs n = take_all (length xs + n) xs (omega arith)

never_zero_both {ℓ} : (P : ℕ → Type ℓ) (c : ℕ) → P c → (c ≡ 0 → P 0xffff) → P (never_zero c)
never_zero_both P c h k = if_both P (c == 0) (λ e. k (ground arith)) (λ e. h)

-- Buffers whose sizes add up to the payload's length give exactly their bytes, in order.
pub gather-concat : (bs : List (List ℕ)) → gather bs (buffer_size bs) ≡ concat bs
unfolding gather
gather-concat [] = refl
gather-concat (b ∷ bs) =
    if_both (λ xs. xs ≡ b ++ concat bs) (length b + buffer_size bs == 0)
      (λ e. sym (concat-nil (b ∷ bs) (ground arith)))
      (λ e.
        ap (λ xs. xs ++ gather bs (length b + buffer_size bs - length b))
          (take_long b (buffer_size bs))
        ∙ ap (λ n. b ++ gather bs n) (omega arith)
        ∙ ap (λ xs. b ++ xs) (gather-concat bs))

nonzero_field : (c : ℕ) → c < 65536 → 0 < word (never_zero c / 256 % 256) (never_zero c % 256)
nonzero_field c h =
    if_both (λ n. 0 < word (n / 256 % 256) (n % 256)) (c == 0) (λ e. omega arith)
      (λ e. split (ground arith))
  where
    split : 0 < c → 0 < word (c / 256 % 256) (c % 256)
    split k = omega arith

module _ (family src_port dst_port : ℕ) (src_addr dst_addr payload : List ℕ)
    (s : IsAddress src_addr) (d : IsAddress dst_addr) (b : IsBytes payload)
    (fits : length payload ≤ 65527) where
  abbrev before : List ℕ
  before = bytes16 src_port ++ (bytes16 dst_port ++ bytes16 (u16 (8 + length payload)))

  before-IsBytes : IsBytes before
  before-IsBytes = ground arith

  -- A datagram of at most 65527 bytes of payload, between address buffers: a receiver that checks the UDP
  -- checksum accepts it, and its checksum field is never 0, the value that means no checksum.
  pub udp_build_datagram_verifies :
      (tcp_udp_checksum family src_addr dst_addr ip_protocol_udp
          (udp_build_datagram family src_addr dst_addr src_port dst_port payload)
        ≡ 0)
      × (0 < be16 (udp_build_datagram family src_addr dst_addr src_port dst_port payload) 6)
  unfolding udp_build_datagram
  udp_build_datagram_verifies =
      let csum =
        tcp_udp_checksum family src_addr dst_addr ip_protocol_udp (with_field before 0 payload) in
      (
        never_zero_both
            (λ c.
              tcp_udp_checksum family src_addr dst_addr ip_protocol_udp
                (with_field before c payload)
              ≡ 0)
            csum
            (tcp_udp_checksum_verifies family ip_protocol_udp src_addr dst_addr s.bytes d.bytes
              s.sixteen d.sixteen before payload before-IsBytes b tt (omega arith))
            (tcp_udp_checksum_ffff family ip_protocol_udp src_addr dst_addr s.bytes d.bytes
              s.sixteen d.sixteen before payload before-IsBytes b tt (omega arith)),
        nonzero_field csum (
            tcp_udp_checksum-lt family src_addr dst_addr ip_protocol_udp
              (with_field before 0 payload)),
      )
