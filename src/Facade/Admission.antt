-- ===== src/Facade/Admission.antt =====
-- The packets that the engine builds pass every check of the receiver.
use tunio.Base.{
  some, if_no, ◌&&◌, take-append_eq, take_all, ℕ, ◌+◌, ◌≤◌, ◌≡◌, ◌⊎◌, inl, inr, refl, sym, ap, ◌∙◌,
  List, ◌++◌, arith, false, take, drop, length, length-take, replicate, be16,
}
use tunio.Checksum.{address_len, pseudo_sum, tcp_udp_checksum}
use tunio.Headers.{build_ip_header, ip_protocol_tcp}
use tunio.Config.Keys.{FiveTuple, address_bytes, make_five_tuple}
use tunio.Tcp.Types.{Segment, Sys}
use tunio.Tcp.Output.{segment_bytes, packet_bytes, options}
use tunio.Tcp.Output.Packet.{
  options-lem, IsSegment, length-segment_bytes, tcp_udp_checksum-segment_bytes, segment_bytes-Reads,
}
use tunio.Tcp.Segments.{TcpHeader, handle_segment}
use tunio.Tcp.Dispatch.{
  is_time_wait, is_syn, on_flow, view, put, IpInfo, World, on_packet, route, read_header,
  header_len, parse_syn_wscale,
}
use tunio.Tcp.Lifecycle.{find_flow}
use tunio.Facade.{Local, to_tcp, read_ip, is_guarded, admit, classify}
use tunio.Facade.Reading.{read_ip-build_ip_header}

-- The receiver's view of where a packet of the segment's flow comes from and goes to.
abbrev pub reversed : Segment → IpInfo
reversed g = record {
  family = g.key.family;
  src_ip = address_bytes g.key.family g.key.dst_ip;
  dst_ip = address_bytes g.key.family g.key.src_ip;
}

-- A packet that the engine builds from a segment whose fields fit, between addresses that pass the guard:
-- the facade hands it to the TCP engine with the addresses of the flow, exchanged, and the whole segment.
pub classify-packet_bytes :
    (l : Local) (g : Segment)
    → IsSegment g
    → is_guarded l (reversed g) ≡ false
    → classify l (packet_bytes g) ≡ to_tcp (reversed g) (segment_bytes g)
unfolding classify packet_bytes admit
classify-packet_bytes l g v h =
    ap (admit l) (
      ap
        (λ n. read_ip (
          build_ip_header g.key.family g.key.dst_ip g.key.src_ip ip_protocol_tcp n g.ip_id 64
          ++ segment_bytes g))
        (ground (arith, length-segment_bytes g))
      ∙ read_ip-build_ip_header g.key.dst_ip g.key.src_ip (segment_bytes g) v.target v.source
          ip_protocol_tcp g.ip_id 64 (omega arith) (omega arith)
          (ground (arith, length-segment_bytes g, v.small)) refl g.key.family v.family)
    ∙ rw h refl

take-address_bytes :
    (family : ℕ) (a : List ℕ)
    → (family ≡ 4) ⊎ (family ≡ 6)
    → length a ≡ 16
    → take (address_len family) (address_bytes family a) ≡ take (address_len family) a
take-address_bytes family a (inl f) h =
    rw f (take-append_eq 4 (take 4 a) (replicate 12 0) (omega (arith, h, length-take 4 a)))
take-address_bytes family a (inr f) h =
    rw f (take_all 16 (take 16 a) (omega (arith, length-take 16 a)))

tcp_udp_checksum-address_bytes :
    (family protocol : ℕ) (a b segment : List ℕ)
    → (family ≡ 4) ⊎ (family ≡ 6)
    → length a ≡ 16
    → length b ≡ 16
    → tcp_udp_checksum family (address_bytes family a) (address_bytes family b) protocol segment
      ≡ tcp_udp_checksum family a b protocol segment
unfolding tcp_udp_checksum pseudo_sum
tcp_udp_checksum-address_bytes family protocol a b segment f h k =
    rw (take-address_bytes family a f h, take-address_bytes family b f k) refl

on_packet_accepted :
    (w : World) (ip : IpInfo) (p : List ℕ) (iss src_port dst_port hlen : ℕ)
    → be16 p 0 ≡ src_port
    → be16 p 2 ≡ dst_port
    → header_len (read_header p) ≡ hlen
    → 20 ≤ hlen
    → hlen ≤ length p
    → tcp_udp_checksum ip.family ip.src_ip ip.dst_ip ip_protocol_tcp p ≡ 0
    → on_packet w ip p iss ≡ (
        let key = make_five_tuple ip.src_ip ip.dst_ip src_port dst_port ip_protocol_tcp ip.family in
        route
          (find_flow key w.eng.flows)
          w
          key
          (read_header p)
          (parse_syn_wscale p hlen)
          iss
          (drop hlen p))
unfolding on_packet
on_packet_accepted w ip p iss src_port dst_port hlen s d n low high c =
    rw (s, d, n, c) (ground arith)

module _ (w : World) (g : Segment) (iss : ℕ) (v : IsSegment g) where
  abbrev header : TcpHeader
  header = read_header (segment_bytes g)

  -- A segment whose fields fit, in the engine that receives it: no check drops it, and it reaches the
  -- flow's handler under the sender's key exchanged, with exactly the payload.
  pub on_packet-segment_bytes : on_packet w (reversed g) (segment_bytes g) iss ≡ (
      let key =
        make_five_tuple
          (reversed g).src_ip
          (reversed g).dst_ip
          g.key.dst_port
          g.key.src_port
          ip_protocol_tcp
          g.key.family in
      route
        (find_flow key w.eng.flows)
        w
        key
        header
        (parse_syn_wscale (segment_bytes g) (20 + length (options g)))
        iss
        g.payload)
  unfolding on_packet
  on_packet-segment_bytes =
      let r = segment_bytes-Reads g v in
      let intact =
        tcp_udp_checksum-address_bytes g.key.family ip_protocol_tcp g.key.dst_ip g.key.src_ip
          (segment_bytes g) v.family v.target.sixteen v.source.sixteen
        ∙ tcp_udp_checksum-segment_bytes g v in
      on_packet_accepted w (reversed g) (segment_bytes g) iss g.key.dst_port g.key.src_port
        (20 + length (options g)) r.src_port r.dst_port r.data_offset (omega arith)
        (ground (arith, length-segment_bytes g, options-lem g)) intact
      ∙ ap (route _ w _ header _ iss)
          (ap (λ n. drop n (segment_bytes g)) (sym r.data_offset) ∙ r.payload)

  abbrev key : FiveTuple
  key =
      make_five_tuple (reversed g).src_ip (reversed g).dst_ip g.key.dst_port g.key.src_port
        ip_protocol_tcp g.key.family

  -- In the engine that receives it, a segment whose fields fit is not dropped, when the table has a flow for the
  -- sender's key exchanged, and that flow is not in TIME_WAIT: handle_segment runs on this flow, with a header
  -- that has the segment's sequence number, acknowledgement, flags and window, and with exactly its payload; the
  -- flow and the engine are what it returns, and the other flows stay as they are.
  pub on_packet-handle_segment :
      (i j : ℕ)
      → find_flow key w.eng.flows ≡ some i
      → is_time_wait (w.objects i).state ≡ false
      → (th : TcpHeader) × (let t = on_packet w (reversed g) (segment_bytes g) iss in
          let s = handle_segment (record { flow = w.objects i; eng = w.eng }) th g.payload in
          (th.seq ≡ g.seq)
          × (th.ack ≡ g.ack)
          × (th.flags ≡ g.flags)
          × (th.window ≡ g.window)
          × (t.objects i ≡ s.flow)
          × (t.eng ≡ s.eng)
          × ((j ≡ i) ⊎ (t.objects j ≡ w.objects j)))
  unfolding route
  on_packet-handle_segment i j f o =
      let r = segment_bytes-Reads g v in
      let handled : on_packet w (reversed g) (segment_bytes g) iss
          ≡ on_flow w i (λ s. handle_segment s header g.payload) =
        on_packet-segment_bytes
        ∙ ap
            (λ x.
              route x w key header (parse_syn_wscale (segment_bytes g) (20 + length (options g)))
                iss g.payload)
            f
        ∙ if_no _ _ _ (ap (λ b. b && is_syn header) o) in
      (
        header,
        (
          r.seq,
          r.ack,
          r.flags,
          r.window,
          ap (λ (t : World). t.objects i) handled
              ∙ at_place i (handle_segment (view w i) header g.payload),
          ap (λ (t : World). t.eng) handled,
          elim (elsewhere i j (handle_segment (view w i) header g.payload)) [
            | inl e ↦ inl e
            | inr e ↦ inr (ap (λ (t : World). t.objects j) handled ∙ e)
          ],
        ),
      )
    where
      at_place : (i : ℕ) (s : Sys) → (put w i s).objects i ≡ s.flow
      at_place i s = ground arith

      elsewhere : (i j : ℕ) (s : Sys) → (j ≡ i) ⊎ ((put w i s).objects j ≡ w.objects j)
      elsewhere i j s = ground arith
