-- ===== src/IpPacket/Laid.antt =====
-- The buffer and the builder after the begin_* and append_payload calls that go through.
use tunio.Base.{
  ℕ, ◌+◌, ◌-◌, ◌%◌, ◌≤◌, ◌≡◌, ◌⊎◌, inl, inr, ap, ◌∙◌, List, ◌++◌, arith, none, false, not, ◌||◌,
  length, take, replicate, ltb, ◌==◌, if◌then◌else◌, if_no, le→ltb,
}
use tunio.Headers.{
  ip_protocol_tcp, ip_protocol_udp, ip_protocol_icmp, ip_protocol_icmpv6, ip_header_size,
}
use tunio.Config.Keys.{address_bytes}
use tunio.IpPacket.Types.{IpPacket, new_builder, emptied, writable_size}
use tunio.IpPacket.Build.{
  Outcome, ◌>>◌, push, set_addresses, begin_ipv4, begin_ipv6, begin_tcp, TcpFields, begin_udp,
  begin_icmp, reserve_transport, append_payload,
}

abbrev pub begin_ip : IpPacket → ℕ → List ℕ → List ℕ → ℕ → Outcome
begin_ip p family src dst ttl =
    if family == 4 then begin_ipv4 p src dst ttl else begin_ipv6 p src dst ttl

-- The packet after `begin_ipv4` or `begin_ipv6`.
abbrev pub begun : IpPacket → ℕ → List ℕ → List ℕ → ℕ → IpPacket
begun p family src dst ttl = record p {
  buf = push (emptied p.buf) (replicate (ip_header_size family) 0);
  bld = record new_builder {
    version = family;
    ip_hlen = ip_header_size family;
    src = address_bytes family src;
    dst = address_bytes family dst;
    ttl_hop = ttl;
  };
}

-- What follows a call that went through.
pub ok_then : {o : Outcome} {p : IpPacket} (f : IpPacket → Outcome) → o ≡ (p, none) → (o >> f) ≡ f p
ok_then f e = ap (λ o. o >> f) e

pub begin_ip-begun :
    (p : IpPacket) (family : ℕ) (src dst : List ℕ) (ttl : ℕ)
    → (family ≡ 4) ⊎ (family ≡ 6)
    → ip_header_size family ≤ length p.buf.cells
    → begin_ip p family src dst ttl ≡ (begun p family src dst ttl, none)
unfolding begin_ipv4 begin_ipv6 ip_header_size
begin_ip-begun p family src dst ttl (inl e) = rw e λ room.
    ok_then (set_addresses (take 4 src ++ replicate 12 0) (take 4 dst ++ replicate 12 0) ttl)
      (if_no _ _ _ (le→ltb (length p.buf.cells - 0) 20 (omega arith)))
begin_ip-begun p family src dst ttl (inr e) = rw e λ room.
    ok_then (set_addresses (take 16 src) (take 16 dst) ttl)
      (if_no _ _ _ (le→ltb (length p.buf.cells - 0) 40 (omega arith)))

reserved :
    (p : IpPacket)
    → p.bld.transport_hlen ≤ writable_size p.buf
    → reserve_transport p ≡ (record p { buf = push p.buf (replicate p.bld.transport_hlen 0) }, none)
unfolding reserve_transport
reserved p h = if_no _ _ _ (le→ltb _ _ h)

pub append_payload-lem :
    (p : IpPacket) (bytes : List ℕ)
    → (p.bld.version == 0) ≡ false
    → length bytes ≤ writable_size p.buf
    → append_payload p bytes ≡ (record p { buf = push p.buf bytes }, none)
unfolding append_payload
append_payload-lem p bytes v h = if_no _ _ _ v ∙ if_no _ _ _ (le→ltb _ _ h)

pub begin_udp-lem :
    (p : IpPacket) (sport dport : ℕ)
    → (p.bld.version == 0) ≡ false
    → p.bld.protocol ≡ 0
    → 8 ≤ writable_size p.buf
    → begin_udp p sport dport ≡ (
      record p {
        buf = push p.buf (replicate 8 0);
        bld = record p.bld {
          protocol = ip_protocol_udp;
          sport = sport;
          dport = dport;
          transport_hlen = 8;
        };
      },
      none,
    )
unfolding begin_udp
begin_udp-lem p sport dport v z h =
    if_no _ _ _ v
    ∙ if_no _ _ _ (ap (λ n. not (n == 0)) z)
    ∙ reserved
        (record p {
          bld = record p.bld {
            protocol = ip_protocol_udp;
            sport = sport;
            dport = dport;
            transport_hlen = 8;
          };
        })
        h

pub no_family : (family : ℕ) → (family ≡ 4) ⊎ (family ≡ 6) → (family == 0) ≡ false
no_family family f = ground arith

-- Room for a TCP header with options of a length that the builder takes.
pub begin_tcp-lem :
    (p : IpPacket) (f : TcpFields)
    → (p.bld.version == 0) ≡ false
    → p.bld.protocol ≡ 0
    → length f.options % 4 ≡ 0
    → length f.options ≤ 40
    → 20 + length f.options ≤ writable_size p.buf
    → begin_tcp p f ≡ (
      record p {
        buf = push p.buf (replicate (20 + length f.options) 0);
        bld = record p.bld {
          protocol = ip_protocol_tcp;
          sport = f.src_port;
          dport = f.dst_port;
          seq = f.seq;
          ack = f.ack;
          flags = f.flags;
          window = f.window;
          transport_hlen = 20 + length f.options;
          tcp_options = f.options;
        };
      },
      none,
    )
unfolding begin_tcp
begin_tcp-lem p f v z m l h =
    if_no _ _ _ v
    ∙ if_no _ _ _ (ap (λ n. not (n == 0)) z)
    ∙ if_no _ _ _ (options_fit (length f.options) m l)
    ∙ reserved
        (record p {
          bld = record p.bld {
            protocol = ip_protocol_tcp;
            sport = f.src_port;
            dport = f.dst_port;
            seq = f.seq;
            ack = f.ack;
            flags = f.flags;
            window = f.window;
            transport_hlen = 20 + length f.options;
            tcp_options = f.options;
          };
        })
        h
  where
    options_fit : (n : ℕ) → n % 4 ≡ 0 → n ≤ 40 → (not (n % 4 == 0) || ltb 40 n) ≡ false
    options_fit n m l = ground arith

pub begin_icmp-lem :
    (p : IpPacket) (kind code : ℕ)
    → (p.bld.version == 0) ≡ false
    → p.bld.protocol ≡ 0
    → 8 ≤ writable_size p.buf
    → begin_icmp p kind code ≡ (
      record p {
        buf = push p.buf (replicate 8 0);
        bld = record p.bld {
          protocol = (if p.bld.version == 4 then ip_protocol_icmp else ip_protocol_icmpv6);
          icmp_type = kind;
          icmp_code = code;
          icmp_echo_set = false;
          transport_hlen = 8;
        };
      },
      none,
    )
unfolding begin_icmp
begin_icmp-lem p kind code v z h =
    if_no _ _ _ v
    ∙ if_no _ _ _ (ap (λ n. not (n == 0)) z)
    ∙ reserved
        (record p {
          bld = record p.bld {
            protocol = (if p.bld.version == 4 then ip_protocol_icmp else ip_protocol_icmpv6);
            icmp_type = kind;
            icmp_code = code;
            icmp_echo_set = false;
            transport_hlen = 8;
          };
        })
        h
