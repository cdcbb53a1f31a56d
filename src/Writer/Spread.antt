-- ===== src/Writer/Spread.antt =====
-- Which queue a packet is given to: one that exists, and the same one for all packets of a flow.
use tunio.Base.{
  bytes16, ◌++◌, inl, inr, ◌⊎◌, refl, ap, ◌∙◌, if◌then◌else◌, true, be16, take, drop, [], ◌∷◌, ◌+◌,
  ℕ, ◌≡◌, false, ◌%◌, ◌<◌, ◌≤◌, List, length, arith, max, if_both, leb, ltb, ◌==◌, ◌||◌, get_or,
  ◌/◌,
}
use native.Mathlib.Nat.{mod-lt}
use tunio.Checksum.{address_len}
use tunio.Headers.{ip_protocol_tcp, build_ip_header, ip_header_size}
use tunio.Headers.Fields.{Fields4, Fields6, packet-Fields4, packet-Fields6}
use tunio.Headers.Layout.{IsAddress}
use tunio.Tcp.Types.{Segment}
use tunio.Tcp.Output.{segment_before, segment_bytes, packet_bytes}
use tunio.Tcp.Output.Packet.{IsSegment, length-segment_bytes}
use tunio.Writer.Pick.{pick_tx_queue, hash4, hash6, mix, has_ports}

-- A queue is picked that exists.
pub pick_tx_queue-lt :
    (p : List ℕ) (queue_count : ℕ) → pick_tx_queue p queue_count < max 1 queue_count
unfolding pick_tx_queue
pick_tx_queue-lt p n =
    if_both Below (leb n 1 || ltb (length p) 20) (λ e. omega arith)
      (λ e.
        if_both Below (get_or p 0 0 / 16 == 4) (λ f. below (hash4 p) e)
          (λ f.
            if_both Below (get_or p 0 0 / 16 == 6)
              (λ g. if_both Below (ltb (length p) 40) (λ h. omega arith) (λ h. below (hash6 p) e))
              (λ g. omega arith)))
  where
    Below : ℕ → Type 0
    Below q = q < max 1 n

    below : (h : ℕ) → (leb n 1 || ltb (length p) 20) ≡ false → h % n < max 1 n
    below h e = ground (arith, mod-lt h {m = n})

-- The hash of a flow: addresses, protocol and ports.
abbrev pub flow_hash : List ℕ → List ℕ → ℕ → List ℕ → ℕ
flow_hash src_ip dst_ip protocol ports =
    mix (mix (mix (mix 1469598103934665603 src_ip) dst_ip) (protocol ∷ [])) ports

hash4_lem :
    (p : List ℕ) (len protocol : ℕ)
    → get_or p 0 0 ≡ 0x45
    → be16 p 2 ≡ 20 + len
    → length p ≡ 20 + len
    → get_or p 9 0 ≡ protocol
    → has_ports protocol ≡ true
    → 4 ≤ len
    → hash4 p ≡ flow_hash (take 4 (drop 12 p)) (take 4 (drop 16 p)) protocol (take 4 (drop 20 p))
unfolding hash4
hash4_lem p len protocol v t l q h low = rw (v, t, l, q, h) (ground arith)

hash6_lem :
    (p : List ℕ) (len protocol : ℕ)
    → be16 p 4 ≡ len
    → length p ≡ 40 + len
    → get_or p 6 0 ≡ protocol
    → has_ports protocol ≡ true
    → 4 ≤ len
    → hash6 p ≡ flow_hash (take 16 (drop 8 p)) (take 16 (drop 24 p)) protocol (take 4 (drop 40 p))
unfolding hash6
hash6_lem p len protocol t l q h low = rw (t, l, q, h) (ground arith)

short :
    (n len low h : ℕ)
    → low ≤ len
    → (if leb n 1 || ltb len low then 0 else h) ≡ (if leb n 1 then 0 else h)
short n len low h l = ground arith

short6 :
    (n len h : ℕ)
    → 40 ≤ len
    → (if leb n 1 || ltb len 20 then 0 else if ltb len 40 then 0 else h)
      ≡ (if leb n 1 then 0 else h)
short6 n len h l = ground arith

pick4_lem :
    (p : List ℕ) (n h : ℕ)
    → 20 ≤ length p
    → get_or p 0 0 ≡ 0x45
    → hash4 p ≡ h
    → pick_tx_queue p n ≡ (if leb n 1 then 0 else h % n)
unfolding pick_tx_queue
pick4_lem p n h l v e = rw (v, e) (short n (length p) 20 (h % n) l)

pick6_lem :
    (p : List ℕ) (n h : ℕ)
    → 40 ≤ length p
    → get_or p 0 0 / 16 ≡ 6
    → hash6 p ≡ h
    → pick_tx_queue p n ≡ (if leb n 1 then 0 else h % n)
unfolding pick_tx_queue
pick6_lem p n h l v e = rw (v, e) (short6 n (length p) (h % n) l)

-- The queue of a flow, by the family's address size.
abbrev pub queue_of : ℕ → List ℕ → List ℕ → ℕ → List ℕ → ℕ → ℕ
queue_of family src_ip dst_ip protocol ports n =
    if leb n 1
    then 0
    else flow_hash (take (address_len family) src_ip) (take (address_len family) dst_ip) protocol
        ports
      % n

module _ (src_ip dst_ip body : List ℕ) (protocol : ℕ) (h : has_ports protocol ≡ true)
    (low : 4 ≤ length body) (n : ℕ) where
  pick-Fields4 :
      (p : List ℕ)
      → Fields4 src_ip dst_ip body protocol p
      → pick_tx_queue p n ≡ queue_of 4 src_ip dst_ip protocol (take 4 body) n
  pick-Fields4 p r =
      pick4_lem p n _ (omega (arith, r.size)) r.first_byte
        (hash4_lem p (length body) protocol r.first_byte r.total_len r.size r.protocol_byte h low)
      ∙ rw (r.source, r.target, r.payload) refl

  pick-Fields6 :
      (p : List ℕ)
      → Fields6 src_ip dst_ip body protocol p
      → pick_tx_queue p n ≡ queue_of 6 src_ip dst_ip protocol (take 4 body) n
  pick-Fields6 p r =
      pick6_lem p n _ (omega (arith, r.size)) r.version
        (hash6_lem p (length body) protocol r.payload_len r.size r.next_header h low)
      ∙ rw (r.source, r.target, r.payload) refl

  pick-build_ip_header :
      (s : IsAddress src_ip) (d : IsAddress dst_ip) (ip_id ttl family : ℕ)
      → protocol < 256
      → ttl < 256
      → length body ≤ 65515
      → (family ≡ 4) ⊎ (family ≡ 6)
      → pick_tx_queue
          (build_ip_header family src_ip dst_ip protocol
              (ip_header_size family + length body)
              ip_id
              ttl
            ++ body)
          n
        ≡ queue_of family src_ip dst_ip protocol (take 4 body) n
  pick-build_ip_header s d ip_id ttl family p t fits (inl f) =
      rw f (pick-Fields4 _ (packet-Fields4 src_ip dst_ip body s d protocol ip_id ttl p t fits))
  pick-build_ip_header s d ip_id ttl family p t fits (inr f) =
      rw f (pick-Fields6 _ (packet-Fields6 src_ip dst_ip body s d protocol ip_id ttl p t fits))

-- The writer gives a packet that the engine builds, from a segment whose fields fit, to a queue that depends
-- on the flow's key alone: the packets of a flow all go to one queue.
pub pick_tx_queue-packet_bytes :
    (g : Segment) (n : ℕ)
    → IsSegment g
    → pick_tx_queue (packet_bytes g) n
      ≡ queue_of g.key.family g.key.dst_ip g.key.src_ip ip_protocol_tcp
          (bytes16 g.key.dst_port ++ bytes16 g.key.src_port)
          n
unfolding packet_bytes segment_bytes segment_before
pick_tx_queue-packet_bytes g n v =
    ap
      (λ k.
        pick_tx_queue
          (build_ip_header g.key.family g.key.dst_ip g.key.src_ip ip_protocol_tcp k g.ip_id 64
            ++ segment_bytes g)
          n)
      (ground (arith, length-segment_bytes g))
    ∙ pick-build_ip_header g.key.dst_ip g.key.src_ip (segment_bytes g) ip_protocol_tcp refl
        (ground (arith, length-segment_bytes g)) n v.target v.source g.ip_id 64 g.key.family
        (omega arith) (omega arith) (ground (arith, length-segment_bytes g, v.small)) v.family
