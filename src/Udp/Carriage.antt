-- ===== src/Udp/Carriage.antt =====
-- What a send call hands to the writer carries the datagram, in one packet or in fragments; and the errors.
use tunio.Base.{
  get_or, take, ℕ, ◌+◌, ◌≤◌, ◌<◌, ◌≡◌, ◌≢◌, ◌⊎◌, ◌↔◌, refl, ◌∙◌, List, [], ◌∷◌, ◌++◌, true, false,
  some, none, length, drop, be16, word_bytes16, u16, IsBytes, arith,
}
use tunio.Checksum.{tcp_udp_checksum, verify_ipv4_checksum}
use tunio.Headers.{ip_protocol_udp, ip_header_size, build_ip_header}
use tunio.Headers.Layout.{IsAddress}
use tunio.Headers.Fields.{Fields4, Fields4}
use tunio.Udp.Types.{Session, bad_descriptor, family_not_supported, message_size}
use tunio.Udp.Datagram.{udp_build_datagram}
use tunio.Udp.Reassembly.{reassemble}
use tunio.Udp.Sending.{send_error}

-- What a receiver at `dst_addr` and a link of this MTU ask of each packet.
pub record IsFit (mtu : ℕ) (src_addr dst_addr p : List ℕ) : Type 0 where
  pub small : length p ≤ mtu
  pub total_len : be16 p 2 ≡ length p
  pub intact : verify_ipv4_checksum (take 20 p) ≡ 0
  pub version : get_or p 0 0 ≡ 0x45
  pub protocol : get_or p 9 0 ≡ 17
  pub source : take 4 (drop 12 p) ≡ take 4 src_addr
  pub target : take 4 (drop 16 p) ≡ take 4 dst_addr

abbrev pub AllFit : ℕ → List ℕ → List ℕ → List (List ℕ) → Type 0
AllFit mtu src_addr dst_addr [] = Unit {0}
AllFit mtu src_addr dst_addr (p ∷ ps) =
    IsFit mtu src_addr dst_addr p × AllFit mtu src_addr dst_addr ps

-- A datagram from the remote port to the client's port.
pub record Carries (src_port dst_port : ℕ) (bytes d : List ℕ) : Type 0 where
  pub from_port : be16 d 0 ≡ src_port
  pub to_port : be16 d 2 ≡ dst_port
  pub udp_length : be16 d 4 ≡ 8 + length bytes
  pub size : length d ≡ 8 + length bytes
  pub payload : drop 8 d ≡ bytes

pub udp_build_datagram-Carries :
    (family src_port dst_port : ℕ) (src_addr dst_addr bytes : List ℕ)
    → src_port < 65536
    → dst_port < 65536
    → 8 + length bytes < 65536
    → Carries src_port dst_port bytes
        (udp_build_datagram family src_addr dst_addr src_port dst_port bytes)
unfolding udp_build_datagram
udp_build_datagram-Carries family src_port dst_port src_addr dst_addr bytes s d h = record {
  from_port = word_bytes16 src_port s;
  to_port = word_bytes16 dst_port d;
  udp_length = word_bytes16 (u16 (8 + length bytes)) (omega arith) ∙ omega arith;
  size = omega arith;
  payload = refl;
}

-- What reaches the link for a send of `bytes` by session `s`.
pub record Sent (s : Session) (mtu : ℕ) (src_addr : List ℕ) (port : ℕ) (bytes : List ℕ)
    (ps : List (List ℕ)) : Type 0 where
  pub datagram : List ℕ
  pub whole : reassemble ps 0 ≡ some datagram
  pub carries : Carries port s.key.src_port bytes datagram
  pub verifies : tcp_udp_checksum 4 src_addr s.key.src_ip ip_protocol_udp datagram ≡ 0
  pub fit : AllFit mtu src_addr s.key.src_ip ps
  pub within : 20 + length datagram ≤ 65535

module _ (s : Session) (mtu : ℕ) (src_addr : List ℕ) (port : ℕ) (bytes : List ℕ) (ip_id : ℕ)
    (a : IsAddress src_addr) (c : IsAddress s.key.src_ip) (b : IsBytes bytes) (p : port < 65536)
    (q : s.key.src_port < 65536) (i : ip_id < 65536) (low : 28 ≤ mtu) (high : mtu < 65536)
    (fits : 28 + length bytes < 65536) where
  abbrev datagram : List ℕ
  datagram = udp_build_datagram 4 src_addr s.key.src_ip port s.key.src_port bytes

  abbrev packet_of : ℕ → List ℕ
  packet_of total_len =
      build_ip_header 4 src_addr s.key.src_ip ip_protocol_udp total_len ip_id 64 ++ datagram

-- The errors of a send, for a session of family 4 or 6 and an MTU of 48 or more: bad_descriptor
-- exactly when the session is closed; family_not_supported exactly when it is open and the remote
-- address is of the other family; message_size exactly when neither is so and the datagram is longer
-- than 65535 bytes, or is an IPv6 one that is longer than the MTU less 40; and there is no error exactly when
-- the session is open, the families agree, the datagram has at most 65535 bytes, and it is an IPv4 one or fits
-- the MTU less 40.
pub send_error_iff :
    (s : Session) (mtu family : ℕ) (bytes : List ℕ)
    → (s.key.family ≡ 4) ⊎ (s.key.family ≡ 6)
    → 48 ≤ mtu
    → ((send_error s mtu family bytes ≡ some bad_descriptor) ↔ (s.closed ≡ true))
      × ((send_error s mtu family bytes ≡ some family_not_supported)
          ↔ ((s.closed ≡ false) × (s.key.family ≢ family)))
      × ((send_error s mtu family bytes ≡ some message_size) ↔ (
          (s.closed ≡ false)
          × (s.key.family ≡ family)
          × ((65535 < 8 + length bytes) ⊎ ((family ≡ 6) × (mtu < 48 + length bytes)))))
      × ((send_error s mtu family bytes ≡ none) ↔ (
          (s.closed ≡ false)
          × (s.key.family ≡ family)
          × (8 + length bytes ≤ 65535)
          × ((family ≡ 4) ⊎ (48 + length bytes ≤ mtu))))
unfolding send_error ip_header_size
send_error_iff s mtu family bytes k m = (ground arith, ground arith, ground arith, ground arith)
