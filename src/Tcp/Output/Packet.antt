-- ===== src/Tcp/Output/Packet.antt =====
-- The packet that `build_segment` writes: a receiver accepts its checksums and reads its fields back.
use tunio.Base.{
  Bool, true, false, subst, sym, [], ◌∷◌, u16, take, word_bytes16, word_bytes32, drop-append_eq, ℕ,
  ◌+◌, ◌*◌, ◌/◌, ◌^◌, ◌≤◌, ◌<◌, ◌≡◌, ◌⊎◌, refl, List, ◌++◌, arith, length, length-append, be16,
  be32, get_or, bytes16, be16, be32, get_or, drop, IsBytes, IsBytes-append, if◌then◌else◌, drop,
}
use tunio.Checksum.{tcp_udp_checksum}
use tunio.Checksum.Verify.{tcp_udp_checksum_verifies}
use tunio.Headers.{ip_protocol_tcp, ip_header_size, build_ip_header}
use tunio.Headers.Layout.{IsAddress, length-build_ip_header}
use tunio.Tcp.Types.{Segment}
use tunio.Tcp.Output.{options, segment_before, segment_after, segment_bytes, packet_bytes}

-- A segment whose fields fit their places, and whose packet fits 16-bit lengths.
pub record IsSegment (g : Segment) : Type 0 where
  pub source : IsAddress g.key.src_ip
  pub target : IsAddress g.key.dst_ip
  pub family : (g.key.family ≡ 4) ⊎ (g.key.family ≡ 6)
  pub src_port : g.key.src_port < 2 ^ 16
  pub dst_port : g.key.dst_port < 2 ^ 16
  pub seq : g.seq < 2 ^ 32
  pub ack : g.ack < 2 ^ 32
  pub flags : g.flags < 2 ^ 8
  pub window : g.window < 2 ^ 16
  pub payload : IsBytes g.payload
  pub small : length g.payload < 65000

pub options-lem :
    (g : Segment) → IsBytes (options g) × (length (options g) ≡ (if g.with_mss then 8 else 0))
unfolding options
options-lem g = ground arith

pub segment_after-IsBytes : (g : Segment) → IsSegment g → IsBytes (segment_after g)
unfolding segment_after
segment_after-IsBytes g v =
    (omega arith, (omega arith, IsBytes-append (options g) g.payload (options-lem g).0 v.payload))

length-segment_after :
    (g : Segment) → length (segment_after g) ≡ 2 + (if g.with_mss then 8 else 0) + length g.payload
unfolding segment_after
length-segment_after g = ground (arith, options-lem g, length-append (options g) g.payload)

pub segment_before-IsBytes : (g : Segment) → IsSegment g → IsBytes (segment_before g)
unfolding segment_before
segment_before-IsBytes g v = ground arith

length-segment_before : (g : Segment) → length (segment_before g) ≡ 16
unfolding segment_before
length-segment_before g = refl

fits :
    (g : Segment) → IsSegment g → length (segment_before g) + 2 + length (segment_after g) ≤ 65535
fits g v = ground (arith, length-segment_before g, length-segment_after g, v.small)

fits_pair :
    (g : Segment) → IsSegment g → length (segment_before g) + length (segment_after g) ≤ 65535
fits_pair g v = omega (arith, fits g v)

-- For a segment whose fields fit, the receiver's check of the TCP checksum, over the addresses as they
-- stand in the packet, gives 0.
pub tcp_udp_checksum-segment_bytes :
    (g : Segment)
    → IsSegment g
    → tcp_udp_checksum g.key.family g.key.dst_ip g.key.src_ip ip_protocol_tcp (segment_bytes g) ≡ 0
unfolding segment_bytes segment_before
tcp_udp_checksum-segment_bytes g v =
    tcp_udp_checksum_verifies g.key.family ip_protocol_tcp g.key.dst_ip g.key.src_ip v.target.bytes
      v.source.bytes v.target.sixteen v.source.sixteen (segment_before g) (segment_after g)
      (segment_before-IsBytes g v) (segment_after-IsBytes g v) tt (fits_pair g v)

pub length-segment_bytes :
    (g : Segment) → length (segment_bytes g) ≡ 20 + (if g.with_mss then 8 else 0) + length g.payload
unfolding segment_bytes segment_before
length-segment_bytes g = omega (arith, length-segment_after g)

-- For a segment whose fields fit, the packet is as long as its IP header, 20 bytes of TCP header, 8 of options on a SYN-ACK, and the payload.
pub length-packet_bytes :
    (g : Segment)
    → IsSegment g
    → length (packet_bytes g)
      ≡ ip_header_size g.key.family + (if g.with_mss then 28 else 20) + length g.payload
unfolding packet_bytes
length-packet_bytes g v = ground (
  arith,
  length-append
      (build_ip_header g.key.family g.key.dst_ip g.key.src_ip ip_protocol_tcp
        (ip_header_size g.key.family + (if g.with_mss then 28 else 20) + length g.payload) g.ip_id
        64)
      (segment_bytes g),
  length-segment_bytes g,
  length-build_ip_header g.key.dst_ip g.key.src_ip v.target v.source g.key.family ip_protocol_tcp
      (ip_header_size g.key.family + (if g.with_mss then 28 else 20) + length g.payload) g.ip_id 64
      v.family,
)

-- The fields of a TCP packet, where a receiver reads them.
pub record Reads (p : List ℕ) (g : Segment) : Type 0 where
  pub src_port : be16 p 0 ≡ g.key.dst_port
  pub dst_port : be16 p 2 ≡ g.key.src_port
  pub seq : be32 p 4 ≡ g.seq
  pub ack : be32 p 8 ≡ g.ack
  pub data_offset : get_or p 12 0 / 16 * 4 ≡ 20 + length (options g)
  pub flags : get_or p 13 0 ≡ g.flags
  pub window : be16 p 14 ≡ g.window
  pub payload : drop (get_or p 12 0 / 16 * 4) p ≡ g.payload
  pub mss : g.with_mss ≡ true → take 4 (drop 20 p) ≡ 2 ∷ 4 ∷ bytes16 (u16 g.mss)
  pub mss_value : g.with_mss ≡ true → be16 p 22 ≡ u16 g.mss
  pub scale :
      g.with_mss ≡ true
      → take 4 (drop 24 p) ≡ (if g.wscale_ok then 3 ∷ 3 ∷ 7 ∷ 1 ∷ [] else 1 ∷ 1 ∷ 1 ∷ 1 ∷ [])

data_offset_lem :
    (g : Segment) → (if g.with_mss then 0x70 else 0x50) / 16 * 4 ≡ 20 + length (options g)
data_offset_lem g = ground (arith, options-lem g)

-- The option bytes of a packet.
abbrev OptionBytes : Segment → Type 0
OptionBytes g =
    let p = segment_bytes g in
    (take 4 (drop 20 p) ≡ 2 ∷ 4 ∷ bytes16 (u16 g.mss))
    × (be16 p 22 ≡ u16 g.mss)
    × (take 4 (drop 24 p) ≡ (if g.wscale_ok then 3 ∷ 3 ∷ 7 ∷ 1 ∷ [] else 1 ∷ 1 ∷ 1 ∷ 1 ∷ []))

of_syn_ack : (g : Segment) (ok : Bool) → OptionBytes (record g { with_mss = true; wscale_ok = ok })
unfolding segment_bytes segment_before segment_after options
of_syn_ack g true = (refl, word_bytes16 (u16 g.mss) (omega arith), refl)
of_syn_ack g false = (refl, word_bytes16 (u16 g.mss) (omega arith), refl)

option_bytes : (g : Segment) → g.with_mss ≡ true → OptionBytes g
option_bytes g e =
    subst (λ b. OptionBytes (record g { with_mss = b })) (sym e) (of_syn_ack g g.wscale_ok)

-- A receiver that reads the bytes of a segment whose fields fit gets back every field of it, and behind
-- the data offset that the header states exactly the payload; in a SYN-ACK
-- the options from byte 20 on are the MSS option with the segment's MSS mod 65536, and then the window scale 7
-- and a NOP, or four NOPs when no scale is announced.
pub segment_bytes-Reads : (g : Segment) → IsSegment g → Reads (segment_bytes g) g
unfolding segment_bytes segment_before segment_after
segment_bytes-Reads g v = record {
  src_port = word_bytes16 g.key.dst_port v.dst_port;
  dst_port = word_bytes16 g.key.src_port v.src_port;
  seq = word_bytes32 g.seq v.seq;
  ack = word_bytes32 g.ack v.ack;
  data_offset = data_offset_lem g;
  flags = refl;
  window = word_bytes16 g.window v.window;
  payload =
      drop-append_eq ((if g.with_mss then 0x70 else 0x50) / 16 * 4)
        (segment_before g
          ++ (bytes16 (
                tcp_udp_checksum g.key.family g.key.dst_ip g.key.src_ip ip_protocol_tcp
                  (segment_before g ++ (bytes16 0 ++ segment_after g)))
              ++ (bytes16 0 ++ options g)))
        g.payload (omega (arith, data_offset_lem g));
  mss = λ e. (option_bytes g e).0;
  mss_value = λ e. (option_bytes g e).1;
  scale = λ e. (option_bytes g e).2;
}
