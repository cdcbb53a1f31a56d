-- ===== src/Facade/Soundness.antt =====
-- What classify lets through, whatever bytes come.
use tunio.Base.{
  ◌≢◌, [], ◌∷◌, sym, ap, if◌then◌else◌, case_false, ◌∙◌, ℕ, ◌+◌, ◌-◌, ◌*◌, ◌/◌, ◌%◌, ◌≤◌, ◌≡◌, ◌⊎◌,
  inl, inr, refl, List, ◌++◌, arith, Option, none, some, false, take, drop, length, length-append,
  length-take, length-drop, replicate, get_or, be16, IsBytes, take-IsBytes, drop-IsBytes,
  IsBytes-append, ltb, ◌==◌, if_both, not, ◌||◌,
}
use tunio.Checksum.{verify_ipv4_checksum}
use tunio.Headers.{ip_protocol_icmp, ip_protocol_icmpv6, ip_protocol_udp, ip_protocol_tcp}
use tunio.Headers.Layout.{IsAddress}
use tunio.Config.Keys.{bytes_eq_iff}
use tunio.Tcp.Dispatch.{IpInfo}
use tunio.Facade.{
  Local, Parsed, Verdict, dropped, to_icmp, to_icmpv6, to_tcp, to_udp, read_ipv4, read_ipv6,
  read_ip, is_extension, is_guarded, src_local, is_reserved_local, by_protocol, admit, classify,
}

-- Neither of 127.0.0.0/8 and 0.0.0.0/8, by the first byte.
abbrev Routable4 : List ℕ → Type 0
Routable4 a = (get_or a 0 0 ≢ 127) × (get_or a 0 0 ≢ 0)

-- Neither ::1 nor ::.
abbrev Routable6 : List ℕ → Type 0
Routable6 a = (a ≢ replicate 15 0 ++ (1 ∷ [])) × (a ≢ replicate 16 0)

-- What the guard keeps out: the interface's own address as the source, and local addresses at either end.
pub record Unguarded (l : Local) (ip : IpInfo) : Type 0 where
  pub foreign4 : (ip.family ≡ 6) ⊎ ((l.have_ip4 ≡ false) ⊎ (take 4 ip.src_ip ≢ l.local_ip4))
  pub foreign6 : (ip.family ≡ 4) ⊎ ((l.have_ip6 ≡ false) ⊎ (ip.src_ip ≢ l.local_ip6))
  pub routable :
      ((ip.family ≡ 4) × Routable4 ip.src_ip × Routable4 ip.dst_ip)
      ⊎ ((ip.family ≡ 6) × Routable6 ip.src_ip × Routable6 ip.dst_ip)

-- What holds of a packet that goes on to a handler or an engine: the payload stands behind the header and ends
-- where the packet declares its end, inside the packet.
pub record Passed (l : Local) (p : List ℕ) (ip : IpInfo) (payload : List ℕ) : Type 0 where
  pub family : (ip.family ≡ 4) ⊎ (ip.family ≡ 6)
  pub source : IsAddress ip.src_ip
  pub target : IsAddress ip.dst_ip
  pub guard : Unguarded l ip
  pub bytes : IsBytes payload
  pub start : ℕ
  pub header : start ≡ (if ip.family == 4 then get_or p 0 0 % 16 * 4 else 40)
  pub behind : 20 ≤ start
  pub sliced : payload ≡ take (length payload) (drop start p)
  pub declared : start + length payload ≡ (if ip.family == 4 then be16 p 2 else 40 + be16 p 4)
  pub inside : start + length payload ≤ length p

local4 :
    (l : Local) (ip : IpInfo)
    → ip.family ≡ 4
    → src_local l ip ≡ false
    → (l.have_ip4 ≡ false) ⊎ (take 4 ip.src_ip ≢ l.local_ip4)
unfolding src_local
local4 l ip f g = ground (arith, bytes_eq_iff (take 4 ip.src_ip) l.local_ip4)

local6 :
    (l : Local) (ip : IpInfo)
    → ip.family ≡ 6
    → src_local l ip ≡ false
    → (l.have_ip6 ≡ false) ⊎ (ip.src_ip ≢ l.local_ip6)
unfolding src_local
local6 l ip f g = ground (arith, bytes_eq_iff ip.src_ip l.local_ip6)

routable4 : (a : List ℕ) → is_reserved_local a 4 ≡ false → Routable4 a
unfolding is_reserved_local
routable4 a h = ground arith

routable6 : (a : List ℕ) → is_reserved_local a 6 ≡ false → Routable6 a
unfolding is_reserved_local
routable6 a h = (
  λ e. case_false (sym (ap (λ b. is_reserved_local b 6) e) ∙ h),
  λ e. case_false (sym (ap (λ b. is_reserved_local b 6) e) ∙ h),
)

guards_off :
    (l : Local) (ip : IpInfo)
    → is_guarded l ip ≡ false
    → (src_local l ip ≡ false)
      × (is_reserved_local ip.src_ip ip.family ≡ false)
      × (is_reserved_local ip.dst_ip ip.family ≡ false)
unfolding is_guarded
guards_off l ip h = ground arith

unguarded :
    (l : Local) (ip : IpInfo)
    → (ip.family ≡ 4) ⊎ (ip.family ≡ 6)
    → is_guarded l ip ≡ false
    → Unguarded l ip
unguarded l ip (inl f) g =
    let h = guards_off l ip g in
    record {
      foreign4 = inr (local4 l ip f h.0);
      foreign6 = inl f;
      routable = inl (
        f,
        routable4 ip.src_ip (ap (is_reserved_local ip.src_ip) (sym f) ∙ h.1),
        routable4 ip.dst_ip (ap (is_reserved_local ip.dst_ip) (sym f) ∙ h.2),
      );
    }
unguarded l ip (inr f) g =
    let h = guards_off l ip g in
    record {
      foreign4 = inl f;
      foreign6 = inr (local6 l ip f h.0);
      routable = inr (
        f,
        routable6 ip.src_ip (ap (is_reserved_local ip.src_ip) (sym f) ∙ h.1),
        routable6 ip.dst_ip (ap (is_reserved_local ip.dst_ip) (sym f) ∙ h.2),
      );
    }

abbrev Sound : Local → List ℕ → Parsed → Type 0
Sound l p q = is_guarded l q.info ≡ false → Passed l p q.info q.payload

abbrev SoundResult : Local → List ℕ → Option Parsed → Type 0
SoundResult l p none = Unit {0}
SoundResult l p (some q) = Sound l p q

-- A verdict's addresses and payload, if it has any.
abbrev pub SoundVerdict : Local → List ℕ → Verdict → Type 0
SoundVerdict l p dropped = Unit {0}
SoundVerdict l p (to_icmp ip payload) = Passed l p ip payload
SoundVerdict l p (to_icmpv6 ip payload) = Passed l p ip payload
SoundVerdict l p (to_tcp ip payload) = Passed l p ip payload
SoundVerdict l p (to_udp ip payload) = Passed l p ip payload

lengths_in_order :
    (n i t : ℕ)
    → (ltb i 20 || ltb n i) ≡ false
    → (ltb t i || ltb n t) ≡ false
    → (20 ≤ i) × (i ≤ t) × (t ≤ n)
lengths_in_order n i t h k = ground arith

module _ (l : Local) (p : List ℕ) (b : IsBytes p) where
  pub address4-IsAddress :
      (n : ℕ) → n + 4 ≤ length p → IsAddress (take 4 (drop n p) ++ replicate 12 0)
  address4-IsAddress n h = record {
    bytes =
        IsBytes-append (take 4 (drop n p)) (replicate 12 0)
          (take-IsBytes 4 (drop n p) (drop-IsBytes n p b)) (ground arith);
    sixteen = omega (
      arith,
      length-append (take 4 (drop n p)) (replicate 12 0),
      length-take 4 (drop n p),
      length-drop n p,
    );
  }

  address6-IsAddress : (n : ℕ) → n + 16 ≤ length p → IsAddress (take 16 (drop n p))
  address6-IsAddress n h = record {
    bytes = take-IsBytes 16 (drop n p) (drop-IsBytes n p b);
    sixteen = omega (arith, length-take 16 (drop n p), length-drop n p);
  }

  abbrev P : Option Parsed → Type 0
  P = SoundResult l p

  abbrev V : Verdict → Type 0
  V = SoundVerdict l p

  size :
      (ihl total_len : ℕ)
      → (ltb ihl 20 || ltb (length p) ihl) ≡ false
      → (ltb total_len ihl || ltb (length p) total_len) ≡ false
      → length (take (total_len - ihl) (drop ihl p)) ≡ total_len - ihl
  size ihl total_len e f = omega (
    arith,
    lengths_in_order (length p) ihl total_len e f,
    length-take (total_len - ihl) (drop ihl p),
    length-drop ihl p,
  )

  size6 : ltb (length p) (40 + be16 p 4) ≡ false → length (take (be16 p 4) (drop 40 p)) ≡ be16 p 4
  size6 f = ground (arith, length-take (be16 p 4) (drop 40 p), length-drop 40 p)

  read_ipv4_sound : SoundResult l p (read_ipv4 p)
  unfolding read_ipv4
  read_ipv4_sound =
      let ihl = get_or p 0 0 % 16 * 4 in
      let total_len = be16 p 2 in
      if_both P (ltb ihl 20 || ltb (length p) ihl) (λ e. tt)
        (λ e.
          if_both P (ltb total_len ihl || ltb (length p) total_len) (λ f. tt)
            (λ f.
              if_both P (not (be16 p 6 % 8192 == 0) || be16 p 6 / 8192 % 2 == 1) (λ g. tt)
                (λ g.
                  if_both P (not (verify_ipv4_checksum (take ihl p) == 0)) (λ i. tt)
                    (λ i h. record {
                      family = inl refl;
                      source =
                          address4-IsAddress 12
                            (omega (arith, lengths_in_order (length p) ihl total_len e f));
                      target =
                          address4-IsAddress 16
                            (omega (arith, lengths_in_order (length p) ihl total_len e f));
                      guard = unguarded l _ (inl refl) h;
                      bytes = take-IsBytes (total_len - ihl) (drop ihl p) (drop-IsBytes ihl p b);
                      start = ihl;
                      header = refl;
                      behind = (lengths_in_order (length p) ihl total_len e f).0;
                      sliced = ap (λ n. take n (drop ihl p)) (sym (size ihl total_len e f));
                      declared = omega (
                        arith,
                        lengths_in_order (length p) ihl total_len e f,
                        size ihl total_len e f,
                      );
                      inside = omega (
                        arith,
                        lengths_in_order (length p) ihl total_len e f,
                        size ihl total_len e f,
                      );
                    }))))

  read_ipv6_sound : SoundResult l p (read_ipv6 p)
  unfolding read_ipv6
  read_ipv6_sound =
      if_both P (ltb (length p) 40) (λ e. tt)
        (λ e.
          if_both P (ltb (length p) (40 + be16 p 4)) (λ f. tt)
            (λ f.
              if_both P (is_extension (get_or p 6 0)) (λ g. tt)
                (λ g h. record {
                  family = inr refl;
                  source = address6-IsAddress 8 (ground arith);
                  target = address6-IsAddress 24 (ground arith);
                  guard = unguarded l _ (inr refl) h;
                  bytes = take-IsBytes (be16 p 4) (drop 40 p) (drop-IsBytes 40 p b);
                  start = 40;
                  header = refl;
                  behind = omega arith;
                  sliced = ap (λ n. take n (drop 40 p)) (sym (size6 f));
                  declared = omega (arith, size6 f);
                  inside = ground (arith, size6 f);
                })))

  read_ip_sound : SoundResult l p (read_ip p)
  unfolding read_ip
  read_ip_sound =
      if_both P (ltb (length p) 20) (λ e. tt)
        (λ e.
          if_both P (get_or p 0 0 / 16 == 4) (λ f. read_ipv4_sound)
            (λ f. if_both P (get_or p 0 0 / 16 == 6) (λ g. read_ipv6_sound) (λ g. tt)))

  by_protocol_sound : (q : Parsed) → Passed l p q.info q.payload → SoundVerdict l p (by_protocol q)
  by_protocol_sound q h =
      if_both V (q.protocol == ip_protocol_icmp) (λ e. h)
        (λ e.
          if_both V (q.protocol == ip_protocol_icmpv6) (λ e. h)
            (λ e.
              if_both V (q.protocol == ip_protocol_tcp) (λ e. h)
                (λ e. if_both V (q.protocol == ip_protocol_udp) (λ e. h) (λ e. tt))))

  admit_sound : (r : Option Parsed) → SoundResult l p r → SoundVerdict l p (admit l r)
  unfolding admit
  admit_sound none h = tt
  admit_sound (some q) h =
      if_both (SoundVerdict l p) (is_guarded l q.info) (λ e. tt) (λ e. by_protocol_sound q (h e))

  -- Whatever bytes a packet consists of: what classify passes on has the family 4 or 6 and addresses of 16
  -- bytes. The source is not the interface's own address of this family, and neither address is of 127.0.0.0/8
  -- or 0.0.0.0/8, or ::1 or ::. The payload consists of exactly the bytes behind the header, of the length that
  -- an IPv4 header states, up to the end that the packet declares, which lies inside it.
  pub classify_sound : SoundVerdict l p (classify l p)
  unfolding classify
  classify_sound = admit_sound (read_ip p) read_ip_sound
