-- ===== src/IpPacket/Overrun.antt =====
-- A builder that threw for want of room is still finished, past the end of its buffer.
use tunio.Base.{
  ℕ, ◌+◌, ◌≤◌, ◌<◌, ◌≡◌, ◌⊎◌, ap, ◌∙◌, List, arith, none, some, length, take, drop, length-append,
  length-take, replicate, length-replicate, ◌==◌, if◌then◌else◌, if_no, if_yes, lt→ltb,
}
use tunio.Headers.{ip_protocol_udp, ip_header_size, build_ip_header}
use tunio.Headers.Layout.{IsAddress, length-build_ip_header}
use tunio.Config.Keys.{address_bytes}
use tunio.IpPacket.Types.{Storage, IpPacket, writable_size}
use tunio.IpPacket.Parse.{write, parse}
use tunio.IpPacket.Build.{
  length_error, begin_udp, filled, fill_udp, fill_transport, finalize, finish_with, add64,
  payload_size,
}
use tunio.IpPacket.Finish.{admitted}
use tunio.IpPacket.Laid.{begun, no_family}
use tunio.IpPacket.Built.{address_bytes-IsAddress, writable_size-push}
use tunio.IpPacket.Bounds.{write-fits}

module _ (p : IpPacket) (family : ℕ) (src dst : List ℕ) (ttl sport dport : ℕ)
    (f : (family ≡ 4) ⊎ (family ≡ 6)) (s : IsAddress src) (d : IsAddress dst)
    (head : ip_header_size family ≤ length p.buf.cells)
    (short : length p.buf.cells < ip_header_size family + 8) where
  -- What `begin_udp` leaves behind when it throws.
  abbrev left_over : IpPacket
  left_over = record (begun p family src dst ttl) {
    bld = record (begun p family src dst ttl).bld {
      protocol = ip_protocol_udp;
      sport = sport;
      dport = dport;
      transport_hlen = 8;
    };
  }

  abbrev zeros : List ℕ
  zeros = replicate (ip_header_size family) 0

  zeros_size : length zeros ≡ ip_header_size family
  zeros_size = length-replicate {A = ℕ} (ip_header_size family) 0

  throws : begin_udp (begun p family src dst ttl) sport dport ≡ (left_over, some length_error)
  unfolding begin_udp
  throws =
      if_no _ _ _ (no_family family f)
      ∙ if_yes _ _ _ (
          lt→ltb (writable_size left_over.buf) 8 (
            omega (
              arith,
              short,
              zeros_size,
              writable_size-push p.buf zeros (omega (arith, head, zeros_size)),
            )))

  -- The cells that `finalize` writes then.
  abbrev written : List ℕ
  written = filled left_over.bld family (ip_header_size family) 0 left_over.buf.cells

  small : ip_header_size family ≤ 40
  unfolding ip_header_size
  small = ground arith

  numbers :
      (add64 (add64 (ip_header_size family) 8) (payload_size left_over) ≡ ip_header_size family)
      × (add64 8 (payload_size left_over) ≡ 0)
  numbers = omega (arith, small, zeros_size)

  finishes : finalize left_over ≡ (
    parse
        (record left_over { buf = record left_over.buf { cells = written } })
        (record left_over.buf { cells = written })
        left_over.buf.size,
    none,
  )
  unfolding finalize ip_header_size
  finishes =
      ap (λ n. finish_with left_over n (add64 8 (payload_size left_over))) numbers.0
      ∙ ap (finish_with left_over (ip_header_size family)) numbers.1
      ∙ admitted left_over (ip_header_size family) 0 f (omega (arith, small)) (omega arith)
          (λ e. ap ip_header_size e)

  past : length left_over.buf.cells < length written
  unfolding filled fill_transport fill_udp
  past =
      let header =
        build_ip_header family (address_bytes family src) (address_bytes family dst) ip_protocol_udp
          (ip_header_size family) (if family == 4 then 0 else 0) ttl in
      let out = write left_over.buf.cells 0 header in
      let header_size : length header ≡ ip_header_size family =
        length-build_ip_header (address_bytes family src) (address_bytes family dst)
          (address_bytes-IsAddress src s family) (address_bytes-IsAddress dst d family) family
          ip_protocol_udp (ip_header_size family) (if family == 4 then 0 else 0) ttl f in
      let cells_size : length left_over.buf.cells ≡ length p.buf.cells =
        write-fits p.buf.cells zeros 0 (omega (arith, zeros_size, head)) in
      let out_size : length out ≡ length p.buf.cells =
        write-fits left_over.buf.cells header 0 (omega (arith, cells_size, header_size, head))
        ∙ cells_size in
      omega (
        arith,
        cells_size,
        out_size,
        short,
        head,
        length-append (take (ip_header_size family) out)
            (fill_udp left_over.bld family 0 (drop (ip_header_size family) out)),
        length-take (ip_header_size family) out,
      )

  -- In a buffer with room for the IP header but not for the UDP header behind it, begin_udp throws a
  -- length_error, and finalize, called on what is left, throws nothing but writes past the buffer.
  pub begin_udp-overrun :
      (q : IpPacket) × (begin_udp (begun p family src dst ttl) sport dport ≡ (q, some length_error))
      × ((done : Storage) × (finalize q ≡ (parse (record q { buf = done }) done q.buf.size, none))
          × (length q.buf.cells < length done.cells))
  begin_udp-overrun =
      (left_over, throws, (record left_over.buf { cells = written }, finishes, past))
