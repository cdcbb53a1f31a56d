-- ===== src/Facade/Ping.antt =====
-- An echo request from the device to the reply in the writer: on_read, handle_packet and handle_icmp.
use tunio.Base.{
  ℕ, zero, suc, ◌+◌, ◌-◌, ◌*◌, ◌/◌, ◌%◌, ◌≤◌, ◌≡◌, ap, ◌∙◌, List, [], ◌∷◌, ◌++◌, arith, some, true,
  false, take, drop, length, length-take, length-drop, replicate, take-append_eq, take_all, IsBytes,
  get_or, if_both, Option, ltb, ◌==◌, ◌||◌, not, get_or-IsByte, be16, drop-IsBytes, refl,
}
use tunio.Checksum.{ip_checksum, verify_ipv4_checksum}
use tunio.Headers.{build_ip_header, ip_protocol_icmp}
use tunio.Config.Keys.{bytes_eq_iff}
use tunio.Tcp.Dispatch.{IpInfo}
use tunio.Tcp.Output.{next_ip_id}
use tunio.Facade.{
  Front, Local, Parsed, to_icmp, is_guarded, classify, admit, declared_length, take_packet, on_read,
  read_ip, read_ipv4, handle_packet, handle_icmp, answer, message,
}
use tunio.Facade.Soundness.{address4-IsAddress}
use tunio.Facade.Echo.{Answers, handle_icmp-Answers}

abbrev icmp_reply : IpInfo → List ℕ → ℕ → List ℕ
icmp_reply ip icmp ip_id =
    build_ip_header 4 ip.dst_ip ip.src_ip ip_protocol_icmp (20 + length icmp) ip_id 64
    ++ message 0 icmp (ip_checksum (message 0 icmp 0))

handle_icmp_answers :
    (l : Local) (ip : IpInfo) (icmp : List ℕ) (ip_id : ℕ)
    → l.have_ip4 ≡ true
    → 8 ≤ length icmp
    → take 4 ip.dst_ip ≡ l.local_ip4
    → get_or icmp 0 0 ≡ 8
    → ip_checksum icmp ≡ 0
    → handle_icmp l ip icmp ip_id ≡ some (icmp_reply ip icmp ip_id)
unfolding handle_icmp
handle_icmp_answers l ip icmp ip_id h n a k c =
    rw (h, k, c, (bytes_eq_iff (take 4 ip.dst_ip) l.local_ip4).1 a) (ground arith)

get_or-drop : (n : ℕ) (p : List ℕ) → get_or (drop n p) 0 0 ≡ get_or p n 0
get_or-drop zero p = refl
get_or-drop (suc n) [] = refl
get_or-drop (suc n) (x ∷ p) = get_or-drop n p

on_read-to_icmp :
    (f : Front) (p : List ℕ) (ip : IpInfo) (icmp reply : List ℕ)
    → declared_length p ≡ some (length p)
    → classify f.local p ≡ to_icmp ip icmp
    → handle_icmp f.local ip icmp (next_ip_id f.ip_id) ≡ some reply
    → (on_read f p).0.out ≡ f.out ++ (reply ∷ [])
unfolding on_read take_packet handle_packet answer
on_read-to_icmp f p ip icmp reply d c h = rw (d, take_all (length p) p (omega arith), c, h) refl

-- An intact IPv4 echo request that fills its declared length, as it comes from the device: any header length and
-- options, any flags but MF, any code, and no fragment.
pub record EchoRequest (p : List ℕ) : Type 0 where
  pub bytes : IsBytes p
  pub version : get_or p 0 0 / 16 ≡ 4
  pub behind : 20 ≤ get_or p 0 0 % 16 * 4
  pub long : get_or p 0 0 % 16 * 4 + 8 ≤ length p
  pub declared : be16 p 2 ≡ length p
  pub no_offset : be16 p 6 % 8192 ≡ 0
  pub no_more : be16 p 6 / 8192 % 2 ≡ 0
  pub header : verify_ipv4_checksum (take (get_or p 0 0 % 16 * 4) p) ≡ 0
  pub protocol : get_or p 9 0 ≡ 1
  pub kind : get_or p (get_or p 0 0 % 16 * 4) 0 ≡ 8
  pub intact : ip_checksum (drop (get_or p 0 0 % 16 * 4) p) ≡ 0

-- The ends of a packet, and its message.
abbrev pub asked : List ℕ → IpInfo
asked p = record {
  family = 4;
  src_ip = take 4 (drop 12 p) ++ replicate 12 0;
  dst_ip = take 4 (drop 16 p) ++ replicate 12 0;
}

abbrev pub echo_message : List ℕ → List ℕ
echo_message p = drop (get_or p 0 0 % 16 * 4) p

small : (p : List ℕ) → EchoRequest p → length (echo_message p) ≤ 65515
small p q = omega (
  arith,
  q.declared,
  q.behind,
  length-drop (get_or p 0 0 % 16 * 4) p,
  get_or-IsByte p 2 q.bytes,
  get_or-IsByte p 3 q.bytes,
)

module _ (f : Front) (p : List ℕ) (q : EchoRequest p) (h : f.local.have_ip4 ≡ true)
    (a : take 4 (drop 16 p) ≡ f.local.local_ip4) (free : is_guarded f.local (asked p) ≡ false) where
  abbrev reply : List ℕ
  reply = icmp_reply (asked p) (echo_message p) (next_ip_id f.ip_id)

  handled : handle_icmp f.local (asked p) (echo_message p) (next_ip_id f.ip_id) ≡ some reply
  handled =
      handle_icmp_answers f.local (asked p) (echo_message p) (next_ip_id f.ip_id) h
        (omega (arith, q.long, length-drop (get_or p 0 0 % 16 * 4) p))
        (take-append_eq 4 (take 4 (drop 16 p)) (replicate 12 0)
            (omega (arith, q.long, q.behind, length-take 4 (drop 16 p), length-drop 16 p))
          ∙ a)
        (get_or-drop (get_or p 0 0 % 16 * 4) p ∙ q.kind) q.intact

  payload_whole : take (be16 p 2 - get_or p 0 0 % 16 * 4) (echo_message p) ≡ echo_message p
  payload_whole =
      take_all _ (echo_message p) (omega (arith, q.declared, length-drop (get_or p 0 0 % 16 * 4) p))

  abbrev ihl : ℕ
  ihl = get_or p 0 0 % 16 * 4

  abbrev Reads : Option Parsed → Type 0
  Reads r = r ≡ some (record { info = asked p; protocol = 1; payload = echo_message p })

  read : read_ip p ≡ some (record { info = asked p; protocol = 1; payload = echo_message p })
  unfolding read_ip read_ipv4
  read =
      if_both Reads (ltb (length p) 20) (λ e. absurd (ground (arith, q.long, q.behind)))
        (λ _.
          if_both Reads (get_or p 0 0 / 16 == 4)
            (λ _.
              if_both Reads (ltb ihl 20 || ltb (length p) ihl)
                (λ e. absurd (ground (arith, q.long, q.behind)))
                (λ _.
                  if_both Reads (ltb (be16 p 2) ihl || ltb (length p) (be16 p 2))
                    (λ e. absurd (ground (arith, q.declared, q.long)))
                    (λ _.
                      if_both Reads (not (be16 p 6 % 8192 == 0) || be16 p 6 / 8192 % 2 == 1)
                        (λ e. absurd (ground (arith, q.no_offset, q.no_more)))
                        (λ _.
                          if_both Reads (not (verify_ipv4_checksum (take ihl p) == 0))
                            (λ e. absurd (ground (arith, q.header)))
                            (λ _.
                              ap
                                (λ (x : ℕ × List ℕ).
                                  some (record { info = asked p; protocol = x.0; payload = x.1 }))
                                (λ i. (q.protocol i, payload_whole i)))))))
            (λ e. absurd (ground (arith, q.version))))

  classified : classify f.local p ≡ to_icmp (asked p) (echo_message p)
  unfolding classify admit
  classified = ap (admit f.local) read ∙ rw (free) refl

  declares : declared_length p ≡ some (length p)
  unfolding declared_length
  declares = ground (arith, q.version, q.behind, q.long, q.declared)

  -- An intact IPv4 echo request to the interface's own address, between addresses that pass the guard, that fills
  -- its declared length: with whatever options, flags but MF, code and data, on_read puts exactly one packet
  -- behind those handed to the writer, and it is the echo reply, with a checksum that verifies.
  pub on_read-Answers :
      (reply : List ℕ) × ((on_read f p).0.out ≡ f.out ++ (reply ∷ []))
      × ((body : List ℕ) × Answers 4 ip_protocol_icmp 0 (asked p) (echo_message p) reply body
          × (ip_checksum body ≡ 0))
  on_read-Answers = (
    reply,
    on_read-to_icmp f p (asked p) (echo_message p) reply declares classified handled,
    handle_icmp-Answers f.local (asked p) (echo_message p) reply (next_ip_id f.ip_id)
        (address4-IsAddress f.local p q.bytes 12 (omega (arith, q.long, q.behind)))
        (address4-IsAddress f.local p q.bytes 16 (omega (arith, q.long, q.behind)))
        (drop-IsBytes (get_or p 0 0 % 16 * 4) p q.bytes) (small p q) handled,
  )
