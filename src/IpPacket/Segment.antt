-- ===== src/IpPacket/Segment.antt =====
-- The TCP segment that `finalize` fills in behind the IP header.
use tunio.Base.{
  ℕ, zero, suc, ◌+◌, ◌*◌, ◌/◌, ◌%◌, ◌≡◌, refl, sym, ap, ◌∙◌, List, [], ◌∷◌, ◌++◌, arith, length,
  take, length-append, replicate, bytes16, bytes32, false, take-append_eq, append_assoc,
  length-replicate, ◌==◌, if◌then◌else◌, if_no,
}
use tunio.Checksum.{tcp_udp_checksum}
use tunio.Checksum.Verify.{with_field}
use tunio.Headers.{ip_protocol_tcp}
use tunio.IpPacket.Types.{Builder}
use tunio.IpPacket.Parse.{write}
use tunio.IpPacket.Build.{fill_tcp, tcp_fields}
use tunio.IpPacket.Writes.{write-field}

-- The segment's bytes up to the checksum, and from behind it on.
abbrev pub before : Builder → List ℕ
before b =
    bytes16 b.sport
    ++ (bytes16 b.dport
        ++ (bytes32 b.seq
            ++ (bytes32 b.ack ++ (b.transport_hlen / 4 * 16 % 256 ∷ b.flags ∷ bytes16 b.window))))

abbrev pub after : Builder → List ℕ → List ℕ
after b payload = 0 ∷ 0 ∷ (b.tcp_options ++ payload)

-- The segment with the checksum over itself.
unfoldable pub segment : Builder → ℕ → List ℕ → List ℕ
segment b family payload =
    with_field (before b)
      (tcp_udp_checksum family b.src b.dst ip_protocol_tcp
        (with_field (before b) 0 (after b payload)))
      (after b payload)

replicate-add : (m n : ℕ) → replicate {A = ℕ} (m + n) 0 ≡ replicate m 0 ++ replicate n 0
replicate-add zero n = let e : 0 + n ≡ n = omega arith in ap (λ k. replicate {A = ℕ} k 0) e
replicate-add (suc m) n =
    let e : suc m + n ≡ suc (m + n) = omega arith in
    ap (λ k. replicate {A = ℕ} k 0) e ∙ ap (◌∷◌ 0) (replicate-add m n)

options_written :
    (fields options payload rest : List ℕ)
    → length fields ≡ 20
    → (let cells = fields ++ ((replicate (length options) 0 ++ payload) ++ rest) in
        (if length options == 0 then cells else write cells 20 options)
        ≡ fields ++ ((options ++ payload) ++ rest))
options_written fields [] payload rest h = refl
options_written fields (x ∷ xs) payload rest h =
    if_no _ _ _ (nonzero (length xs))
    ∙ ap (λ ys. write (fields ++ ys) 20 (x ∷ xs))
        (append_assoc (replicate (suc (length xs)) 0) payload rest)
    ∙ write-field fields (replicate (suc (length xs)) 0) (payload ++ rest) (x ∷ xs) 20
        (omega (arith, h)) (omega (arith, length-replicate (suc (length xs)) zeros_of))
    ∙ ap (λ ys. fields ++ ys) (sym (append_assoc (x ∷ xs) payload rest))
  where
    zeros_of : ℕ
    zeros_of = 0

    nonzero : (n : ℕ) → (suc n == 0) ≡ false
    nonzero n = ground arith

-- On a zeroed header with the payload behind it, the TCP case writes the segment.
pub fill_tcp-lem :
    (b : Builder) (family : ℕ) (payload rest : List ℕ)
    → b.transport_hlen ≡ 20 + length b.tcp_options
    → fill_tcp b family
        (b.transport_hlen + length payload)
        ((replicate (20 + length b.tcp_options) 0 ++ payload) ++ rest)
      ≡ segment b family payload ++ rest
unfolding fill_tcp segment
fill_tcp-lem b family payload rest h =
    ap (λ zeros. fill_tcp b family (b.transport_hlen + length payload) ((zeros ++ payload) ++ rest))
      (replicate-add 20 (length b.tcp_options))
    ∙ ap
        (λ header. write header 16 (
          bytes16 (
            tcp_udp_checksum family b.src b.dst ip_protocol_tcp
              (take (b.transport_hlen + length payload) header))))
        (options_written (tcp_fields b) b.tcp_options payload rest refl)
    ∙ ap
        (λ xs.
          with_field (before b) (tcp_udp_checksum family b.src b.dst ip_protocol_tcp xs)
            (after b payload)
          ++ rest)
        (take-append_eq (b.transport_hlen + length payload)
          (tcp_fields b ++ (b.tcp_options ++ payload)) rest
          (omega (arith, h, length-append b.tcp_options payload)))
