-- ===== src/IpPacket/Built.antt =====
-- From a laid-out buffer to the parsed packet, for every transport.
use tunio.Base.{
  ℕ, ◌+◌, ◌-◌, ◌≤◌, ◌<◌, ◌≡◌, ◌⊎◌, inl, inr, refl, sym, ap, ◌∙◌, List, [], ◌++◌, arith, none,
  length, take, drop, length-take, length-drop, length-append, length-replicate, replicate,
  take_all, if_both, Bool-cases, take-append_eq, take-IsBytes, IsBytes-append, ◌==◌, if◌then◌else◌,
}
use tunio.Headers.{build_ip_header, ip_header_size}
use tunio.Headers.Layout.{IsAddress, length-build_ip_header}
use tunio.Config.Keys.{address_bytes}
use tunio.IpPacket.Types.{Storage, Builder, IpPacket, cleared, new_builder, emptied, writable_size}
use tunio.IpPacket.Parse.{parse_transport}
use tunio.IpPacket.Build.{Outcome, ◌>>◌, push, finalize, append_payload, fill_transport}
use tunio.IpPacket.Laid.{begin_ip, begun, begin_ip-begun, ok_then, append_payload-lem, no_family}
use tunio.IpPacket.Writes.{drop_behind, Holds, push-Holds, Holds-writable_size}
use tunio.IpPacket.Finish.{finalize-finished}
use tunio.IpPacket.Readback.{viewed, do_parse-packet}

module _ (a : List ℕ) (s : IsAddress a) where
  pub address_bytes-IsAddress : (family : ℕ) → IsAddress (address_bytes family a)
  address_bytes-IsAddress family =
      if_both IsAddress (family == 6)
        (λ e. record {
          bytes = take-IsBytes 16 a s.bytes;
          sixteen = omega (arith, s.sixteen, length-take 16 a);
        })
        (λ e. record {
          bytes =
              IsBytes-append (take 4 a) (replicate 12 0) (take-IsBytes 4 a s.bytes) (ground arith);
          sixteen =
              omega (arith, s.sixteen, length-append (take 4 a) (replicate 12 0), length-take 4 a);
        })

  pub address_bytes_twice :
      (family : ℕ) → address_bytes family (address_bytes family a) ≡ address_bytes family a
  address_bytes_twice family = elim (Bool-cases (family == 6)) [
    | inl e ↦ rw e (take_all 16 (take 16 a) (omega (arith, length-take 16 a)))
    | inr e ↦ rw e (
        ap (λ xs. xs ++ replicate 12 0)
          (take-append_eq 4 (take 4 a) (replicate 12 0)
            (omega (arith, s.sixteen, length-take 4 a))))
  ]

-- Three pushes onto an empty buffer.
unfoldable pub laid : Storage → List ℕ → List ℕ → List ℕ → Storage
laid b zh zt payload = push (push (push (emptied b) zh) zt) payload

pub laid-Holds :
    (b : Storage) (zh zt payload : List ℕ)
    → length zh + length zt + length payload ≤ length b.cells
    → Holds
        (laid b zh zt payload)
        ((zh ++ zt) ++ payload)
        (drop (length payload) (drop (length zt) (drop (length zh) b.cells)))
unfolding laid
laid-Holds b zh zt payload h = push-Holds payload (omega (arith, h, more)) (
    push-Holds zt (omega (arith, h, length-drop (length zh) b.cells))
      (push-Holds {bytes = []} zh (omega (arith, h)) (record { cells = refl; size = refl })))
  where
    more :
        length (drop (length zt) (drop (length zh) b.cells))
        ≡ length b.cells - length zh - length zt
    more =
        omega (
          arith,
          length-drop (length zt) (drop (length zh) b.cells),
          length-drop (length zh) b.cells,
        )

-- The room that is left after the first push, and after the second.
pub writable_size-push :
    (b : Storage) (zh : List ℕ)
    → length zh ≤ length b.cells
    → writable_size (push (emptied b) zh) ≡ length b.cells - length zh
writable_size-push b zh h =
    Holds-writable_size (push-Holds {bytes = []} zh h (record { cells = refl; size = refl }))
    ∙ length-drop (length zh) b.cells

pub writable_size-push-push :
    (b : Storage) (zh zt : List ℕ)
    → length zh + length zt ≤ length b.cells
    → writable_size (push (push (emptied b) zh) zt) ≡ length b.cells - length zh - length zt
writable_size-push-push b zh zt h =
    Holds-writable_size (
      push-Holds zt (omega (arith, h, length-drop (length zh) b.cells))
        (push-Holds {bytes = []} zh (omega (arith, h)) (record { cells = refl; size = refl })))
    ∙ omega
        (arith, length-drop (length zt) (drop (length zh) b.cells), length-drop (length zh) b.cells)

module _ (p : IpPacket) (b : Builder) (zt payload body src dst : List ℕ) (family protocol : ℕ)
    (s : IsAddress src) (d : IsAddress dst) (f : (family ≡ 4) ⊎ (family ≡ 6)) where
  abbrev pub zeros : List ℕ
  zeros = replicate (ip_header_size family) 0

  zeros_size : length zeros ≡ ip_header_size family
  zeros_size = length-replicate {A = ℕ} (ip_header_size family) 0

  abbrev pub left : List ℕ
  left = drop (length payload) (drop (length zt) (drop (length zeros) p.buf.cells))

  -- The builder, with the fields that the header is made of.
  abbrev pub bld : Builder
  bld = record b {
    version = family;
    protocol = protocol;
    src = address_bytes family src;
    dst = address_bytes family dst;
    ip_hlen = ip_header_size family;
  }

  -- The bytes of the finished packet.
  abbrev pub bytes_of : List ℕ
  bytes_of =
      build_ip_header family (address_bytes family src) (address_bytes family dst) protocol
        (ip_header_size family + length body) (if family == 4 then b.ip_id else 0) b.ttl_hop
      ++ body

  abbrev pub stored : IpPacket
  stored = cleared (record { cells = bytes_of ++ left; size = length bytes_of }) new_builder

  -- What the parser makes of them.
  abbrev pub parsed_packet : IpPacket
  parsed_packet =
      parse_transport (viewed stored src dst body protocol family bytes_of) protocol body

  module _ (small : protocol < 256) (ttl : b.ttl_hop < 256) (zt_size : length zt ≡ b.transport_hlen)
      (t : b.transport_hlen ≤ 60) (fits : b.transport_hlen + length payload ≤ 65495)
      (room : ip_header_size family + b.transport_hlen + length payload ≤ length p.buf.cells)
      (body_size : length body ≡ b.transport_hlen + length payload)
      (fill : fill_transport bld family
          (b.transport_hlen + length payload)
          ((zt ++ payload) ++ left)
        ≡ body ++ left) where
    -- The laid-out packet is finished without an exception, and parsed to these views.
    pub finalize-parsed :
        finalize (record p { buf = laid p.buf zeros zt payload; bld = bld }) ≡ (parsed_packet, none)
    finalize-parsed =
        finalize-finished (record p { buf = laid p.buf zeros zt payload; bld = bld }) zeros zt
          payload left body (address_bytes-IsAddress src s family)
          (address_bytes-IsAddress dst d family) f refl (zeros_size) zt_size t fits
          (laid-Holds p.buf zeros zt payload (omega (arith, room, zt_size, zeros_size))) body_size
          fill
        ∙ ap (λ q. (q, none))
            (do_parse-packet stored (address_bytes family src) (address_bytes family dst) body
                (address_bytes-IsAddress src s family) (address_bytes-IsAddress dst d family)
                protocol (if family == 4 then b.ip_id else 0) b.ttl_hop small ttl
                (omega (arith, fits, body_size)) family f
              ∙ rw (address_bytes_twice src s family, address_bytes_twice dst d family) refl)

    -- The calls of the user, when the one for the transport goes through.
    pub build_parsed :
        (begin_transport : IpPacket → Outcome)
        → begin_transport (begun p family src dst b.ttl_hop)
          ≡ (record p { buf = push (push (emptied p.buf) zeros) zt; bld = bld }, none)
        → (begin_ip p family src dst b.ttl_hop
            >> begin_transport
            >> (λ q. append_payload q payload)
            >> finalize)
          ≡ (parsed_packet, none)
    unfolding laid
    build_parsed begin_transport step =
        ok_then finalize (
          ok_then (λ q. append_payload q payload)
            (ok_then begin_transport
                (begin_ip-begun p family src dst b.ttl_hop f (omega (arith, room)))
              ∙ step)
          ∙ append_payload-lem (record p { buf = push (push (emptied p.buf) zeros) zt; bld = bld })
              payload (no_family family f)
              (omega (
                arith,
                room,
                zt_size,
                zeros_size,
                writable_size-push-push p.buf zeros zt (omega (arith, room, zt_size, zeros_size)),
              )))
        ∙ finalize-parsed

  pub committed : take (length bytes_of) (bytes_of ++ left) ≡ bytes_of
  committed = take-append_eq (length bytes_of) bytes_of left refl

  header_length :
      length (
        build_ip_header family
          (address_bytes family src)
          (address_bytes family dst)
          protocol
          (ip_header_size family + length body)
          (if family == 4 then b.ip_id else 0)
          b.ttl_hop)
      ≡ ip_header_size family
  header_length =
      length-build_ip_header (address_bytes family src) (address_bytes family dst)
        (address_bytes-IsAddress src s family) (address_bytes-IsAddress dst d family) family
        protocol (ip_header_size family + length body) (if family == 4 then b.ip_id else 0)
        b.ttl_hop f

  pub take-bytes_of :
      take (ip_header_size family) bytes_of
      ≡ build_ip_header family
          (address_bytes family src)
          (address_bytes family dst)
          protocol
          (ip_header_size family + length body)
          (if family == 4 then b.ip_id else 0)
          b.ttl_hop
  take-bytes_of = take-append_eq (ip_header_size family) _ body (sym header_length)

  -- What stands behind the first bytes of the body.
  pub drop-bytes_of : (k : ℕ) → drop (ip_header_size family + k) bytes_of ≡ drop k body
  drop-bytes_of k = drop_behind _ body (ip_header_size family + k) k (omega (arith, header_length))
