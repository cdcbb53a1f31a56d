-- ===== src/Udp/Reassembly.antt =====
-- The fragments of a datagram, put together again by a receiver.
use tunio.Base.{
  get_or, drop_all, ◌↔◌, some≢none, ℕ, zero, suc, ◌+◌, ◌-◌, ◌*◌, ◌/◌, ◌%◌, ◌≤◌, ◌<◌, ◌≡◌, refl, sym,
  ap, ◌∙◌, List, [], ◌∷◌, ◌++◌, Bool, true, false, ◌&&◌, Option, none, some, u16, length, take,
  drop, bytes16, be16, min, length-append, length-take, length-drop, take-append-drop,
  take-append_eq, drop-append_eq, take_all, word_bytes16, arith, ltb, leb, ◌==◌, if◌then◌else◌,
  if_both,
}
use mathlib.Core.Option.{map}
use tunio.Checksum.{ipv4_checksum, verify_ipv4_checksum}
use tunio.Checksum.Sums.{Even-of_length}
use tunio.Checksum.Verify.{ipv4_checksum_verifies}
use tunio.Headers.{ipv4_addresses}
use tunio.Headers.Fields.{Fields4, parts}
use tunio.Headers.Layout.{IsAddress, length-ipv4_addresses, ipv4_addresses-IsBytes}
use tunio.Udp.Fragments.{
  max_frag_payload, first_data, with_mf, fragment_before, fragment, frag_data, cut, message_size,
  fragments, udp_write_ipv4_fragments,
}

-- RFC 791, for fragments that arrive in order: each starts where the one before it ended, and all but the last
-- announce more.
pub reassemble : List (List ℕ) → ℕ → Option (List ℕ)
reassemble [] off = none
reassemble (p ∷ []) off =
    if be16 p 6 / 8192 % 2 == 0 && be16 p 6 % 8192 * 8 == off then some (drop 20 p) else none
reassemble (p ∷ q ∷ ps) off =
    let more = reassemble (q ∷ ps) (off + length (drop 20 p)) in
    if be16 p 6 / 8192 % 2 == 1 && be16 p 6 % 8192 * 8 == off
    then map (λ rest. drop 20 p ++ rest) more
    else none

-- What a receiver and a link ask of each fragment.
pub record IsFragment (mtu ip_id : ℕ) (src_addr dst_addr p : List ℕ) : Type 0 where
  pub small : length p ≤ mtu
  pub total_len : be16 p 2 ≡ length p
  pub same_id : be16 p 4 ≡ ip_id
  pub intact : verify_ipv4_checksum (take 20 p) ≡ 0
  pub version : get_or p 0 0 ≡ 0x45
  pub protocol : get_or p 9 0 ≡ 17
  pub source : take 4 (drop 12 p) ≡ take 4 src_addr
  pub target : take 4 (drop 16 p) ≡ take 4 dst_addr

abbrev pub AllFragments : ℕ → ℕ → List ℕ → List ℕ → List (List ℕ) → Type 0
AllFragments mtu ip_id src_addr dst_addr [] = Unit {0}
AllFragments mtu ip_id src_addr dst_addr (p ∷ ps) =
    IsFragment mtu ip_id src_addr dst_addr p × AllFragments mtu ip_id src_addr dst_addr ps

max_frag_payload_lem :
    (mtu : ℕ)
    → (max_frag_payload mtu % 8 ≡ 0) × (8 ≤ max_frag_payload mtu → max_frag_payload mtu + 20 ≤ mtu)
unfolding max_frag_payload
max_frag_payload_lem mtu = (ground arith, ground arith)

room_lem : (mtu : ℕ) → 28 ≤ mtu → 8 ≤ max_frag_payload mtu
unfolding max_frag_payload
room_lem mtu h = ground arith

-- The first fragment takes as much as the others.
frag_data_lem :
    (mtu off remain : ℕ)
    → 8 ≤ max_frag_payload mtu
    → frag_data mtu off remain ≡ min (max_frag_payload mtu) remain
unfolding frag_data first_data
frag_data_lem mtu off remain h =
    if_both (λ n. n ≡ min (max_frag_payload mtu) remain) (off == 0) (λ e. first) (λ e. refl)
  where
    first :
        min
          (8 + (if ltb 8 (max_frag_payload mtu) then (max_frag_payload mtu - 8) / 8 * 8 else 0))
          remain
        ≡ min (max_frag_payload mtu) remain
    first = ground (arith, max_frag_payload_lem mtu)

reassemble_last :
    (p : List ℕ) (off : ℕ)
    → off % 8 ≡ 0
    → off < 65536
    → be16 p 6 ≡ off / 8
    → reassemble (p ∷ []) off ≡ some (drop 20 p)
unfolding reassemble
reassemble_last p off h k e = rw e (ground arith)

reassemble_more :
    (p : List ℕ) (ps : List (List ℕ)) (off : ℕ) (r : List ℕ)
    → off % 8 ≡ 0
    → off < 65536
    → be16 p 6 ≡ off / 8 + 8192
    → reassemble ps (off + length (drop 20 p)) ≡ some r
    → reassemble (p ∷ ps) off ≡ some (drop 20 p ++ r)
unfolding reassemble
reassemble_more p [] off r h k e f = absurd (some≢none (sym f))
reassemble_more p (q ∷ ps) off r h k e f = rw (e, f) (tests _ none off h k)
  where
    tests :
        {A : Type 0} (x y : A) (o : ℕ)
        → o % 8 ≡ 0
        → o < 65536
        → (if (o / 8 + 8192) / 8192 % 2 == 1 && (o / 8 + 8192) % 8192 * 8 == o then x else y) ≡ x
    tests x y o a b = ground arith

address_parts :
    (src_addr dst_addr bytes : List ℕ)
    → IsAddress src_addr
    → IsAddress dst_addr
    → (take 4 (ipv4_addresses src_addr dst_addr ++ bytes) ≡ take 4 src_addr)
      × (take 4 (drop 4 (ipv4_addresses src_addr dst_addr ++ bytes)) ≡ take 4 dst_addr)
unfolding ipv4_addresses
address_parts src_addr dst_addr bytes s d =
    let r =
      parts 4 (take 4 src_addr) (take 4 dst_addr) bytes
        (omega (arith, s.sixteen, length-take 4 src_addr))
        (omega (arith, d.sixteen, length-take 4 dst_addr)) in
    (r.0, r.1)

-- One packet is its own reassembly.
pub reassemble-Fields4 :
    (src_ip dst_ip body p : List ℕ) (protocol : ℕ)
    → Fields4 src_ip dst_ip body protocol p
    → reassemble (p ∷ []) 0 ≡ some body
unfolding reassemble
reassemble-Fields4 src_ip dst_ip body p protocol f = rw (f.frag_off, f.payload) refl

module _ (src_addr dst_addr : List ℕ) (s : IsAddress src_addr) (d : IsAddress dst_addr)
    (mtu ip_id : ℕ) (i : ip_id < 65536) (mtu_small : mtu < 65536) where
  pub fragment-facts :
      (off : ℕ) (last : Bool) (bytes : List ℕ)
      → off < 65536
      → 20 + length bytes ≤ mtu
      → IsFragment mtu ip_id src_addr dst_addr (fragment ip_id src_addr dst_addr off last bytes)
        × (be16 (fragment ip_id src_addr dst_addr off last bytes) 6
            ≡ (if last then off / 8 else off / 8 + 8192))
        × (drop 20 (fragment ip_id src_addr dst_addr off last bytes) ≡ bytes)
  unfolding fragment fragment_before
  fragment-facts off last bytes h k = (
    record {
      small = omega (arith, len);
      total_len = word_bytes16 (u16 (20 + length bytes)) (omega arith) ∙ omega (arith, len);
      same_id = word_bytes16 ip_id i;
      intact =
          ap verify_ipv4_checksum (take-append_eq 20 header bytes (sym len_header))
          ∙ ipv4_checksum_verifies before after 0 (ground arith)
              (ipv4_addresses-IsBytes src_addr dst_addr s d) refl (Even-of_length after 4 len_after)
              (omega (arith, len_after));
      version = refl;
      protocol = refl;
      source = addresses.0;
      target = addresses.1;
    },
    word_bytes16 (flag_bits last) (flags_lem last).0 ∙ (flags_lem last).1,
    drop-append_eq 20 header bytes (sym len_header),
  )
    where
      before : List ℕ
      before = fragment_before (20 + length bytes) ip_id off last

      after : List ℕ
      after = ipv4_addresses src_addr dst_addr

      len_after : length after ≡ 8
      len_after = length-ipv4_addresses src_addr dst_addr s d

      flag_bits : Bool → ℕ
      flag_bits x = if x then u16 (off / 8) else with_mf (u16 (off / 8))

      flags_lem :
          (x : Bool)
          → (flag_bits x < 65536) × (flag_bits x ≡ (if x then off / 8 else off / 8 + 8192))
      flags_lem true = (omega arith, omega arith)
      flags_lem false = (omega arith, omega arith)

      header : List ℕ
      header = before ++ (bytes16 (ipv4_checksum (before ++ (bytes16 0 ++ after))) ++ after)

      len_header : length header ≡ 20
      len_header = omega (arith, len_after)

      addresses :
          (take 4 (drop 12 (header ++ bytes)) ≡ take 4 src_addr)
          × (take 4 (drop 16 (header ++ bytes)) ≡ take 4 dst_addr)
      addresses = let a = address_parts src_addr dst_addr bytes s d in (a.0, a.1)

      len : length (header ++ bytes) ≡ 20 + length bytes
      len = omega (arith, length-append header bytes, len_header)

  abbrev Whole : ℕ → List ℕ → List (List ℕ) → Type 0
  Whole off rest ps = (reassemble ps off ≡ some rest) × AllFragments mtu ip_id src_addr dst_addr ps

  cut_empty : (fuel off : ℕ) → cut fuel mtu ip_id src_addr dst_addr off [] ≡ []
  unfolding cut
  cut_empty zero off = refl
  cut_empty (suc fuel) off = refl

  module _ (big : 8 ≤ max_frag_payload mtu) where
    abbrev room : ℕ
    room = max_frag_payload mtu

    one_lem :
        (off : ℕ) (rest : List ℕ)
        → off % 8 ≡ 0
        → off < 65536
        → length rest ≤ room
        → Whole off rest (fragment ip_id src_addr dst_addr off true rest ∷ [])
    one_lem off rest h k l =
        let f = fragment-facts off true rest k (omega (arith, (max_frag_payload_lem mtu).1 big)) in
        (reassemble_last _ off h k f.1 ∙ ap some f.2, (f.0, tt))

    next_lem :
        (off : ℕ) (rest : List ℕ) (ps : List (List ℕ))
        → off % 8 ≡ 0
        → off < 65536
        → room < length rest
        → Whole (off + room) (drop room rest) ps
        → Whole off rest (fragment ip_id src_addr dst_addr off false (take room rest) ∷ ps)
    next_lem off rest ps h k l w =
        let len : length (take room rest) ≡ room = omega (arith, length-take room rest) in
        let f =
          fragment-facts off false (take room rest) k
            (omega (arith, len, (max_frag_payload_lem mtu).1 big)) in
        (
          reassemble_more _ ps off (drop room rest) h k f.1
                (ap (λ n. reassemble ps (off + n)) (ap length f.2 ∙ len) ∙ w.0)
              ∙ ap (λ (xs : List ℕ). some (xs ++ drop room rest)) f.2
              ∙ ap some (take-append-drop room rest),
          (f.0, w.1),
        )

    cut-Whole :
        (fuel off : ℕ) (rest : List ℕ)
        → off % 8 ≡ 0
        → off + length rest < 65536
        → 0 < length rest
        → length rest ≤ fuel
        → Whole off rest (cut fuel mtu ip_id src_addr dst_addr off rest)
    unfolding cut
    cut-Whole zero off rest h k p l = absurd (omega arith)
    cut-Whole (suc fuel) off rest h k p l =
        if_both (Whole off rest) (length rest == 0) (λ e. absurd (ground arith))
          (λ e.
            round (frag_data mtu off (length rest))
              (leb (length rest) (frag_data mtu off (length rest))) refl
              (frag_data_lem mtu off (length rest) big)
              (λ more.
                cut-Whole fuel (off + room) (drop room rest)
                  (omega (arith, (max_frag_payload_lem mtu).0))
                  (omega (arith, length-drop room rest)) (omega (arith, length-drop room rest))
                  (omega (arith, length-drop room rest))))
      where
        round :
            (n : ℕ) (last : Bool)
            → leb (length rest) n ≡ last
            → n ≡ min room (length rest)
            → (room < length rest
                → Whole
                    (off + room)
                    (drop room rest)
                    (cut fuel mtu ip_id src_addr dst_addr (off + room) (drop room rest)))
            → Whole off rest (
                fragment ip_id src_addr dst_addr off last (take n rest)
                ∷ cut fuel mtu ip_id src_addr dst_addr (off + n) (drop n rest))
        round n true e q again =
            let full : length rest ≤ n = ground arith in
            rw (take_all n rest full, drop_all n rest full, cut_empty fuel (off + n))
              (one_lem off rest h (omega arith) (omega arith))
        round n false e q again =
            let more : room < length rest = ground arith in
            let n_eq : n ≡ room = omega arith in
            rw n_eq (
              next_lem off rest (cut fuel mtu ip_id src_addr dst_addr (off + room) (drop room rest))
                h (omega arith) more (again more))

-- A datagram of 1 to 65535 bytes, between address buffers, and an MTU below 64 KiB that has room for 8 bytes
-- behind an IP header: the fragments, in their order, are put together to exactly the datagram; each is at
-- most as long as the MTU, states its own length, carries the one identification, the protocol UDP
-- and the addresses, and verifies.
pub udp_write_ipv4_fragments-reassemble :
    (mtu ip_id : ℕ) (src_addr dst_addr datagram : List ℕ)
    → IsAddress src_addr
    → IsAddress dst_addr
    → ip_id < 65536
    → 28 ≤ mtu
    → mtu < 65536
    → 0 < length datagram
    → length datagram < 65536
    → (ps : List (List ℕ)) × (udp_write_ipv4_fragments mtu ip_id src_addr dst_addr datagram
        ≡ fragments ps)
      × (reassemble ps 0 ≡ some datagram)
      × AllFragments mtu ip_id src_addr dst_addr ps
unfolding udp_write_ipv4_fragments
udp_write_ipv4_fragments-reassemble mtu ip_id src_addr dst_addr datagram s d i low high p q =
    let big = room_lem mtu low in
    let w =
      cut-Whole src_addr dst_addr s d mtu ip_id i high big (length datagram) 0 datagram
        (omega arith) (omega arith) p (omega arith) in
    (
      cut (length datagram) mtu ip_id src_addr dst_addr 0 datagram,
      if_both (λ r. r ≡ fragments (cut (length datagram) mtu ip_id src_addr dst_addr 0 datagram))
          (ltb (max_frag_payload mtu) 8) (λ e. absurd (ground arith)) (λ e. refl),
      w.0,
      w.1,
    )

-- With less room than that nothing is written, whatever the datagram: the send ends with message_size.
pub udp_write_ipv4_fragments-message_size :
    (mtu ip_id : ℕ) (src_addr dst_addr datagram : List ℕ)
    → (udp_write_ipv4_fragments mtu ip_id src_addr dst_addr datagram ≡ message_size) ↔ (mtu < 28)
unfolding udp_write_ipv4_fragments max_frag_payload
udp_write_ipv4_fragments-message_size mtu ip_id src_addr dst_addr datagram = ground arith
