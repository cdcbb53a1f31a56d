-- ===== src/Udp/Arrival.antt =====
-- A datagram that a host builds, taken by the engine.
use tunio.Base.{
  ◌++◌, ◌∷◌, [], take, min, some, ltb, ap, sym, subst⁻¹, if_both, if_no, if◌then◌else◌, case_false,
  ℕ, ◌+◌, ◌≤◌, ◌<◌, ◌≡◌, refl, ◌∙◌, List, Bool, true, false, ◌&&◌, ◌||◌, not, length, take_all,
  drop, be16, IsBytes, arith, ◌==◌,
}
use tunio.Checksum.{tcp_udp_checksum}
use tunio.Headers.{ip_protocol_udp}
use tunio.Headers.Layout.{IsAddress}
use tunio.Config.Keys.{make_udp_session_key}
use tunio.Tcp.Dispatch.{IpInfo}
use tunio.Config.{Config}
use tunio.Config.Keys.{UdpSessionKey}
use tunio.Account.{Account, reserve}
use tunio.Udp.Types.{Session, Endpoint, ReadOp, UdpEngine, find_session, read_done, success}
use tunio.Udp.Expiry.{refresh_expiry}
use tunio.Udp.Refresh.{at_self, refresh_expiry-Unmoved}
use tunio.Udp.Ending.{total_of, copy_to-take}
use tunio.Udp.Delivery.{
  hand_over, deliver_datagram, make_udp_endpoint, route_datagram, bad_checksum, on_packet,
}
use tunio.Udp.Datagram.{udp_build_datagram, udp_build_datagram_verifies}
use tunio.Udp.Carriage.{udp_build_datagram-Carries}

good_checksum :
    (ip : IpInfo) (p : List ℕ)
    → tcp_udp_checksum ip.family ip.src_ip ip.dst_ip ip_protocol_udp p ≡ 0
    → 0 < be16 p 6
    → bad_checksum ip p ≡ false
unfolding bad_checksum
good_checksum ip p c n = rw c (nonzero (be16 p 6) (ip.family == 6) n)
  where
    nonzero : (k : ℕ) (six : Bool) → 0 < k → ((six && k == 0) || (not (k == 0) && not true)) ≡ false
    nonzero k six h = ground arith

on_packet_accepted :
    (u : UdpEngine) (ip : IpInfo) (p : List ℕ) (n : ℕ)
    → length p ≡ n
    → be16 p 4 ≡ n
    → 8 ≤ n
    → bad_checksum ip p ≡ false
    → on_packet u ip p
      ≡ route_datagram
          (find_session (make_udp_session_key ip.src_ip (be16 p 0) ip.family) u.sessions)
          u
          (make_udp_session_key ip.src_ip (be16 p 0) ip.family)
          (drop 8 p)
          (make_udp_endpoint ip.family ip.dst_ip (be16 p 2))
unfolding on_packet
on_packet_accepted u ip p n l t h b = rw (t, take_all n p (omega (arith, l)), b, l) (ground arith)

-- A datagram that a client builds, between the address buffers of its packet, with ports of 16 bits
-- and at most 65527 bytes: the engine's checks drop it not. It goes to the session of the client's
-- address and port, or to a new one, with exactly the bytes and the address and port that the client
-- sent it to.
pub on_packet-udp_build_datagram :
    (u : UdpEngine) (ip : IpInfo) (src_port dst_port : ℕ) (bytes : List ℕ)
    → IsAddress ip.src_ip
    → IsAddress ip.dst_ip
    → IsBytes bytes
    → src_port < 65536
    → dst_port < 65536
    → 8 + length bytes < 65536
    → on_packet u ip (udp_build_datagram ip.family ip.src_ip ip.dst_ip src_port dst_port bytes) ≡ (
        let key = make_udp_session_key ip.src_ip src_port ip.family in
        route_datagram
          (find_session key u.sessions)
          u
          key
          bytes
          (make_udp_endpoint ip.family ip.dst_ip dst_port))
on_packet-udp_build_datagram u ip src_port dst_port bytes s d b p q h =
    let c =
      udp_build_datagram-Carries ip.family src_port dst_port ip.src_ip ip.dst_ip bytes p q h in
    let v =
      udp_build_datagram_verifies ip.family src_port dst_port ip.src_ip ip.dst_ip bytes s d b
        (omega arith) in
    on_packet_accepted u ip _ (8 + length bytes) c.size c.udp_length (omega arith)
      (good_checksum ip _ v.0 v.1)
    ∙ rw (c.from_port, c.to_port, c.payload) refl

-- Reads whose buffers add up to their total.
abbrev pub AllSized : List ReadOp → Type 0
AllSized [] = Unit {0}
AllSized (op ∷ ops) = (op.total ≡ total_of op.sizes) × AllSized ops

-- The first waiting read of the session is completed with the bytes that its buffers hold, and the others wait
-- on; without a read, the datagram stands behind those that are queued.
abbrev pub Arrived : UdpEngine → ℕ → UdpEngine → List ReadOp → List ℕ → Endpoint → Type 0
Arrived u i x [] bytes sender =
    ((x.objects i).rx_datagrams
      ≡ (u.objects i).rx_datagrams ++ (record { data_ = bytes; sender = sender } ∷ []))
    × (x.out ≡ u.out)
Arrived u i x (op ∷ ops) bytes sender =
    (x.out
      ≡ u.out
        ++ (read_done op.handler success (take (min (length bytes) op.total) bytes) (some sender)
            ∷ []))
    × ((x.objects i).pending_reads ≡ ops)
    × ((x.objects i).rx_datagrams ≡ (u.objects i).rx_datagrams)

module _ (u : UdpEngine) (i : ℕ) (bytes : List ℕ) (sender : Endpoint)
    (room : (u.objects i).rx_bytes + length bytes ≤ u.cfg.max_rx_queue_per_flow)
    (fits : (reserve u.account (length bytes)).1 ≡ true) where
  abbrev refreshed : UdpEngine
  refreshed = refresh_expiry u i

  has_room :
      (ltb refreshed.cfg.max_rx_queue_per_flow ((refreshed.objects i).rx_bytes + length bytes)
        || not (reserve refreshed.account (length bytes)).1)
      ≡ false
  has_room =
      let m = refresh_expiry-Unmoved u i in
      ap
        (λ (c : Config).
          ltb c.max_rx_queue_per_flow ((refreshed.objects i).rx_bytes + length bytes)
          || not (reserve refreshed.account (length bytes)).1)
        m.cfg
      ∙ ap
          (λ n.
            ltb u.cfg.max_rx_queue_per_flow (n + length bytes)
            || not (reserve refreshed.account (length bytes)).1)
          m.rx_bytes
      ∙ ap
          (λ (a : Account).
            ltb u.cfg.max_rx_queue_per_flow ((u.objects i).rx_bytes + length bytes)
            || not (reserve a (length bytes)).1)
          m.account
      ∙ free _ fits
    where
      free :
          (b : Bool)
          → b ≡ true
          → (ltb u.cfg.max_rx_queue_per_flow ((u.objects i).rx_bytes + length bytes) || not b)
            ≡ false
      free b e = ground (arith, room)

  hand_over-Arrived :
      (reads : List ReadOp)
      → AllSized reads
      → Arrived u i (hand_over refreshed i reads bytes sender) reads bytes sender
  unfolding hand_over
  hand_over-Arrived [] a =
      let m = refresh_expiry-Unmoved u i in
      if_both (λ (x : UdpEngine). Arrived u i x [] bytes sender)
        (ltb refreshed.cfg.max_rx_queue_per_flow ((refreshed.objects i).rx_bytes + length bytes)
          || not (reserve refreshed.account (length bytes)).1)
        (λ e. absurd (case_false (sym e ∙ has_room)))
        (λ e. (
          ap (λ (s : Session). s.rx_datagrams) (at_self refreshed i _)
              ∙ ap (λ ds. ds ++ (record { data_ = bytes; sender = sender } ∷ [])) m.rx_datagrams,
          m.out,
        ))
  hand_over-Arrived (op ∷ ops) a =
      let m = refresh_expiry-Unmoved u i in
      (
        ap (λ xs. refreshed.out ++ (read_done op.handler success xs (some sender) ∷ []))
              (copy_to-take op.sizes (min (length bytes) op.total) bytes (omega (arith, a.0)))
            ∙ ap
                (λ o.
                  o
                  ++ (read_done op.handler success (take (min (length bytes) op.total) bytes)
                        (some sender)
                      ∷ []))
                m.out,
        ap (λ (s : Session). s.pending_reads) (at_self refreshed i _),
        ap (λ (s : Session). s.rx_datagrams) (at_self refreshed i _) ∙ m.rx_datagrams,
      )

  pub route_datagram-Arrived :
      (key : UdpSessionKey)
      → (u.objects i).closed ≡ false
      → AllSized (u.objects i).pending_reads
      → Arrived u i
          (route_datagram (some i) u key bytes sender)
          (u.objects i).pending_reads
          bytes
          sender
  unfolding route_datagram deliver_datagram
  route_datagram-Arrived key o a =
      let m = refresh_expiry-Unmoved u i in
      subst⁻¹ (λ x. Arrived u i x (u.objects i).pending_reads bytes sender)
        (if_no _ _ _ o
          ∙ if_no _ _ _ o
          ∙ ap (λ rs. hand_over refreshed i rs bytes sender) m.pending_reads)
        (hand_over-Arrived (u.objects i).pending_reads a)

-- A datagram that a client builds, between the address buffers of its packet, with ports of 16 bits and at most
-- 65527 bytes, for an open session of the client's address and port, whose queue and the shared budget have room
-- for it: the first read that waits is completed with success, the bytes, as many as its buffers hold, and the
-- address and port that the client sent it to, and the later reads wait on; when no read waits, the datagram, with
-- exactly the bytes and that address and port, is queued behind the others.
pub on_packet-Arrived :
    (u : UdpEngine) (i : ℕ) (ip : IpInfo) (src_port dst_port : ℕ) (bytes : List ℕ)
    → IsAddress ip.src_ip
    → IsAddress ip.dst_ip
    → IsBytes bytes
    → src_port < 65536
    → dst_port < 65536
    → 8 + length bytes < 65536
    → find_session (make_udp_session_key ip.src_ip src_port ip.family) u.sessions ≡ some i
    → (u.objects i).closed ≡ false
    → AllSized (u.objects i).pending_reads
    → (u.objects i).rx_bytes + length bytes ≤ u.cfg.max_rx_queue_per_flow
    → (reserve u.account (length bytes)).1 ≡ true
    → Arrived u i
        (on_packet u ip (udp_build_datagram ip.family ip.src_ip ip.dst_ip src_port dst_port bytes))
        (u.objects i).pending_reads
        bytes
        (record {
          family = ip.family;
          address = if ip.family == 6 then take 16 ip.dst_ip else take 4 ip.dst_ip;
          port = dst_port;
        })
on_packet-Arrived u i ip src_port dst_port bytes s d b p q h f o a room fits =
    let sender = make_udp_endpoint ip.family ip.dst_ip dst_port in
    let key = make_udp_session_key ip.src_ip src_port ip.family in
    subst⁻¹ (λ x. Arrived u i x (u.objects i).pending_reads bytes sender)
      (on_packet-udp_build_datagram u ip src_port dst_port bytes s d b p q h
        ∙ ap (λ at. route_datagram at u key bytes sender) f)
      (route_datagram-Arrived u i bytes sender room fits key o a)
