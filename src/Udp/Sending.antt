-- ===== src/Udp/Sending.antt =====
-- `udp_session_start_send`, `udp_send_single` and `udp_send_fragmented`.
use tunio.Base.{
  ℕ, ◌+◌, ◌-◌, List, [], ◌∷◌, ◌++◌, Bool, ◌&&◌, not, Option, none, some, length, ltb, ◌==◌,
  if◌then◌else◌,
}
use tunio.Headers.{ip_protocol_udp, ip_header_size, build_ip_header}
use tunio.Udp.Types.{
  Session, UdpEngine, UdpError, bad_descriptor, family_not_supported, message_size,
}
use tunio.Udp.Datagram.{udp_build_datagram}
use tunio.Udp.Fragments.{Fragmented, fragments, udp_write_ipv4_fragments}
use tunio.Udp.Fragments as Cut
use tunio.Udp.Expiry.{refresh_expiry}

-- The handler's error at once, or the packets that are handed to the writer.
pub data SendResult : Type 0 where
  refused : UdpError → SendResult
  written : List (List ℕ) → SendResult

-- `udp_send_single`
unfoldable pub udp_send_single : Session → ℕ → List ℕ → ℕ → List ℕ → ℕ → List ℕ
udp_send_single s family src_addr port bytes ip_id =
    build_ip_header family src_addr s.key.src_ip ip_protocol_udp
      (ip_header_size family + 8 + length bytes) ip_id 64
    ++ udp_build_datagram family src_addr s.key.src_ip port s.key.src_port bytes

abbrev pub all_written : Fragmented → SendResult
all_written Cut.message_size = refused message_size
all_written (fragments ps) = written ps

-- `udp_send_fragmented`
unfoldable pub udp_send_fragmented : Session → ℕ → List ℕ → ℕ → List ℕ → ℕ → SendResult
udp_send_fragmented s mtu src_addr port bytes ip_id = all_written (
    udp_write_ipv4_fragments mtu ip_id src_addr s.key.src_ip
      (udp_build_datagram 4 src_addr s.key.src_ip port s.key.src_port bytes))

abbrev pub max_udp_payload : ℕ → ℕ → ℕ
max_udp_payload mtu family =
    if ltb (ip_header_size family + 8) mtu then mtu - ip_header_size family - 8 else 0

abbrev pub is_oversized : ℕ → ℕ → List ℕ → Bool
is_oversized mtu family bytes = ltb (max_udp_payload mtu family) (length bytes)

-- The checks of `udp_session_start_send`: the error of the first that fails.
unfoldable pub send_error : Session → ℕ → ℕ → List ℕ → Option UdpError
send_error s mtu remote_family bytes =
    if s.closed
    then some bad_descriptor
    else if not (s.key.family == remote_family)
    then some family_not_supported
    else if ltb 65535 (8 + length bytes)
    then some message_size
    else if is_oversized mtu s.key.family bytes && not (s.key.family == 4)
    then some message_size
    else none

-- Fragments for what exceeds the MTU, else one packet.
unfoldable pub send_packets : Session → ℕ → ℕ → List ℕ → ℕ → List ℕ → ℕ → SendResult
send_packets s mtu family src_addr port bytes ip_id =
    if is_oversized mtu family bytes
    then udp_send_fragmented s mtu src_addr port bytes ip_id
    else written (udp_send_single s family src_addr port bytes ip_id ∷ [])

abbrev pub send_unless : Option UdpError → UdpEngine → ℕ → SendResult → UdpEngine × SendResult
send_unless (some e) u i result = (u, refused e)
send_unless none u i result = (refresh_expiry u i, result)

-- On a session of a live engine; `remote_family`, `src_addr` and `port` are the remote endpoint as
-- `udp_endpoint_to_addr_bytes` gives it, and `ip_id` is the identification that the writer gives.
unfoldable pub start_send : UdpEngine → ℕ → ℕ → List ℕ → ℕ → List ℕ → ℕ → UdpEngine × SendResult
start_send u i remote_family src_addr port bytes ip_id =
    let s = u.objects i in
    send_unless (send_error s u.cfg.mtu remote_family bytes) u i
      (send_packets s u.cfg.mtu s.key.family src_addr port bytes ip_id)
