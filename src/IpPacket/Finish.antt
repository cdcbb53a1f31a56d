-- ===== src/IpPacket/Finish.antt =====
-- What `finalize` makes of a buffer that was laid out by the builder.
use tunio.Base.{
  ℕ, ◌+◌, ◌-◌, ◌≤◌, ◌≡◌, ◌⊎◌, inl, inr, refl, sym, ap, ◌∙◌, List, ◌++◌, arith, none, length, take,
  drop, length-append, take-append_eq, drop-append_eq, append_assoc, ltb, ◌==◌, if◌then◌else◌,
  false, ◌&&◌, if_no, le→ltb,
}
use tunio.Headers.{build_ip_header, ip_header_size}
use tunio.Headers.Layout.{IsAddress, length-build_ip_header}
use tunio.IpPacket.Types.{Storage, IpPacket, cleared, new_builder}
use tunio.IpPacket.Parse.{write, parse, copy_and_parse, do_parse}
use tunio.IpPacket.Build.{sub64, add64, filled, finish_with, payload_size, fill_transport, finalize}
use tunio.IpPacket.Writes.{write-front, Holds}

-- A buffer that holds a packet in front: the parser gets exactly the packet's bytes.
pub parse_whole :
    (p : IpPacket) (bytes rest : List ℕ)
    → p.buf.cells ≡ bytes ++ rest
    → parse p p.buf (length bytes)
      ≡ do_parse (cleared (record { cells = bytes ++ rest; size = length bytes }) new_builder) bytes
unfolding parse copy_and_parse
parse_whole p bytes rest c =
    if_no (ltb (length p.buf.cells) (length bytes)) _ _ (le→ltb _ _ enough)
    ∙ ap (copy_and_parse p)
        (ap (take (length bytes)) c ∙ take-append_eq (length bytes) bytes rest refl)
    ∙ if_no (ltb (length p.buf.cells - 0) (length bytes)) _ _ (le→ltb _ _ (omega (arith, enough)))
    ∙ ap
        (λ cells.
          do_parse (cleared (record { cells = cells; size = length bytes }) new_builder) bytes)
        (ap (λ cells. write cells 0 bytes) c ∙ write-front bytes rest bytes refl)
  where
    enough : length bytes ≤ length p.buf.cells
    enough = omega (arith, ap length c, length-append bytes rest)

family_lem : (v : ℕ) → (v ≡ 4) ⊎ (v ≡ 6) → (if v == 4 then 4 else 6) ≡ v
family_lem v f = ground arith

no_version : (v : ℕ) → (v ≡ 4) ⊎ (v ≡ 6) → (v == 0) ≡ false
no_version v f = ground arith

short4 : (v total : ℕ) → total ≤ 65535 → (v == 4 && ltb 0xffff total) ≡ false
short4 v total h = ground arith

short6 :
    (v total hlen : ℕ)
    → hlen ≤ total
    → total ≤ 65575
    → (v ≡ 6 → hlen ≡ 40)
    → (v == 6 && ltb 0xffff (sub64 total hlen)) ≡ false
short6 v total hlen a b c = ground (arith, c)

-- Of a packet within the limits of its version, nothing is refused.
pub admitted :
    (p : IpPacket) (total seg_len : ℕ)
    → (p.bld.version ≡ 4) ⊎ (p.bld.version ≡ 6)
    → total ≤ 65535
    → p.bld.ip_hlen ≤ total
    → (p.bld.version ≡ 6 → p.bld.ip_hlen ≡ 40)
    → (let done : Storage = record p.buf {
      cells = filled p.bld p.bld.version total seg_len p.buf.cells;
    } in
        finish_with p total seg_len ≡ (parse (record p { buf = done }) done done.size, none))
unfolding finish_with
admitted p total seg_len f h k l =
    if_no _ _ _ (no_version p.bld.version f)
    ∙ if_no _ _ _ (short4 p.bld.version total h)
    ∙ if_no _ _ _ (short6 p.bld.version total p.bld.ip_hlen k (omega arith) l)
    ∙ ap
        (λ v.
          let done : Storage = record p.buf { cells = filled p.bld v total seg_len p.buf.cells } in
          (parse (record p { buf = done }) done done.size, none))
        (family_lem p.bld.version f)

module _ (p : IpPacket) (zh zt payload rest body : List ℕ) (s : IsAddress p.bld.src)
    (d : IsAddress p.bld.dst) where
  open p.bld use {version, protocol, ip_hlen, transport_hlen}

  -- The finished packet: the header, and the segment that was filled in.
  abbrev pub finished : List ℕ
  finished =
      build_ip_header version p.bld.src p.bld.dst protocol (ip_header_size version + length body)
        (if version == 4 then p.bld.ip_id else 0) p.bld.ttl_hop
      ++ body

  module _ (family : (version ≡ 4) ⊎ (version ≡ 6)) (head : ip_hlen ≡ ip_header_size version)
      (zh_size : length zh ≡ ip_hlen) (zt_size : length zt ≡ transport_hlen)
      (t : transport_hlen ≤ 60) (fits : transport_hlen + length payload ≤ 65495)
      (held : Holds p.buf ((zh ++ zt) ++ payload) rest)
      (body_size : length body ≡ transport_hlen + length payload)
      (fill : fill_transport p.bld version
          (transport_hlen + length payload)
          ((zt ++ payload) ++ rest)
        ≡ body ++ rest) where
    ends : (version ≡ 4 → ip_hlen ≡ 20) × (version ≡ 6 → ip_hlen ≡ 40)
    unfolding ip_header_size
    ends = (λ e. head ∙ ap ip_header_size e, λ e. head ∙ ap ip_header_size e)

    small : ip_hlen ≤ 40
    small = elim family [ inl e ↦ omega (arith, ends.0 e) | inr e ↦ omega (arith, ends.1 e) ]

    total_size : p.buf.size ≡ ip_hlen + transport_hlen + length payload
    total_size =
        omega (
          arith,
          held.size,
          zh_size,
          zt_size,
          length-append (zh ++ zt) payload,
          length-append zh zt,
        )

    numbers :
        (add64 (add64 ip_hlen transport_hlen) (payload_size p)
          ≡ ip_header_size version + length body)
        × (add64 transport_hlen (payload_size p) ≡ transport_hlen + length payload)
    numbers = omega (arith, small, total_size, head, body_size)

    abbrev header : ℕ → List ℕ
    header f =
        build_ip_header f p.bld.src p.bld.dst protocol (ip_header_size version + length body)
          (if f == 4 then p.bld.ip_id else 0) p.bld.ttl_hop

    length-header : length (header version) ≡ ip_hlen
    length-header =
        length-build_ip_header p.bld.src p.bld.dst s d version protocol
          (ip_header_size version + length body) (if version == 4 then p.bld.ip_id else 0)
          p.bld.ttl_hop family
        ∙ sym head

    laid_out : p.buf.cells ≡ zh ++ ((zt ++ payload) ++ rest)
    laid_out =
        held.cells
        ∙ append_assoc (zh ++ zt) payload rest
        ∙ append_assoc zh zt (payload ++ rest)
        ∙ ap (λ xs. zh ++ xs) (sym (append_assoc zt payload rest))

    out-lem : write p.buf.cells 0 (header version) ≡ header version ++ ((zt ++ payload) ++ rest)
    out-lem =
        ap (λ cells. write cells 0 (header version)) laid_out
        ∙ write-front zh ((zt ++ payload) ++ rest) (header version)
            (omega (arith, length-header, zh_size))

    filled-finished :
        filled p.bld version
          (ip_header_size version + length body)
          (transport_hlen + length payload)
          p.buf.cells
        ≡ finished ++ rest
    unfolding filled
    filled-finished =
        ap
          (λ out.
            take ip_hlen out
            ++ fill_transport p.bld version (transport_hlen + length payload) (drop ip_hlen out))
          out-lem
        ∙ ap
            (λ xs.
              xs
              ++ fill_transport p.bld version (transport_hlen + length payload)
                  (drop ip_hlen (header version ++ ((zt ++ payload) ++ rest))))
            (take-append_eq ip_hlen (header version) _ (sym length-header))
        ∙ ap
            (λ xs.
              header version ++ fill_transport p.bld version (transport_hlen + length payload) xs)
            (drop-append_eq ip_hlen (header version) _ (sym length-header))
        ∙ ap (λ xs. header version ++ xs) fill
        ∙ sym (append_assoc (header version) body rest)

    whole_size : p.buf.size ≡ length finished
    whole_size =
        omega (arith, total_size, length-header, length-append (header version) body, body_size)

    done : Storage
    done = record p.buf {
      cells =
          filled p.bld version (ip_header_size version + length body)
            (transport_hlen + length payload) p.buf.cells;
    }

    -- finalize throws nothing, and parses the finished packet.
    pub finalize-finished : finalize p ≡ (
      do_parse
          (cleared (record { cells = finished ++ rest; size = length finished }) new_builder)
          finished,
      none,
    )
    unfolding finalize done
    finalize-finished =
        ap (λ n. finish_with p n (add64 transport_hlen (payload_size p))) numbers.0
        ∙ ap (finish_with p (ip_header_size version + length body)) numbers.1
        ∙ admitted p (ip_header_size version + length body) (transport_hlen + length payload) family
            (omega (arith, small, head, body_size)) (omega (arith, head, body_size)) (λ e. ends.1 e)
        ∙ ap (λ n. (parse (record p { buf = done }) done n, none)) whole_size
        ∙ ap (λ q. (q, none)) (parse_whole (record p { buf = done }) finished rest filled-finished)
