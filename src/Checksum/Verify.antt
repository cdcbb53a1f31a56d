-- ===== src/Checksum/Verify.antt =====
-- What a sender writes a receiver accepts, and what the checksums detect.
use tunio.Base.{
  ℕ, ◌+◌, ◌-◌, ◌/◌, ◌%◌, ◌^◌, ◌≤◌, ◌<◌, ◌≡◌, ◌≢◌, ◌⊎◌, sym, ap, ◌∙◌, List, ◌∷◌, ◌++◌, arith, u16,
  length, take, length-append, length-take, IsBytes, IsBytes-append, take-IsBytes,
}
use native.Mathlib.Nat.{add-zero}
use tunio.Checksum.{
  checksum_sum, checksum_fold, ip_checksum, ipv4_checksum, verify_ipv4_checksum, pseudo_sum,
  ipv4_sum, tcp_udp_checksum, address_sum, address_len,
}
use tunio.Checksum.Sums.{
  word_sum, Even, Even-of_length, word_sum-append, word_sum-le, checksum_sum-eq, address_sum-eq,
  checksum_fold-zero, checksum_fold-lt, checksum_fold_cancel, checksum_fold_absorbs, ipv4_sum-eq,
}

-- The data with the word `w` in its checksum field, which starts at an even place.
abbrev pub with_field : List ℕ → ℕ → List ℕ → List ℕ
with_field before w after = before ++ (w / 256 % 256 ∷ w % 256 ∷ after)

word_sum-with_field :
    (before after : List ℕ) (w : ℕ)
    → Even before
    → w < 65536
    → word_sum (with_field before w after) ≡ word_sum before + word_sum after + w
word_sum-with_field before after w e h =
    omega (arith, word_sum-append before (w / 256 % 256 ∷ w % 256 ∷ after) e)

with_field-IsBytes :
    (before after : List ℕ) (w : ℕ)
    → IsBytes before
    → IsBytes after
    → IsBytes (with_field before w after)
with_field-IsBytes before after w h k =
    IsBytes-append before (w / 256 % 256 ∷ w % 256 ∷ after) h (omega arith, (omega arith, k))

length-with_field :
    (before after : List ℕ) (w : ℕ)
    → length (with_field before w after) ≡ length before + length after + 2
length-with_field before after w =
    omega (arith, length-append before (w / 256 % 256 ∷ w % 256 ∷ after))

-- The sum of everything but the checksum field, in a segment of at most 65537 bytes.
module _ (before after : List ℕ) (bb : IsBytes before) (ba : IsBytes after) (even : Even before)
    (fits : length before + length after ≤ 65535) where
  abbrev others : ℕ
  others = word_sum before + word_sum after

  others-lt : others + 2 ^ 30 < 2 ^ 32
  others-lt = omega (arith, word_sum-le before bb, word_sum-le after ba)

  checksum_sum-with_field :
      (w : ℕ) → w < 65536 → checksum_sum (with_field before w after) 0 ≡ others + w
  checksum_sum-with_field w h = omega (
    arith,
    checksum_sum-eq (with_field before w after) 0 (with_field-IsBytes before after w bb ba),
    word_sum-with_field before after w even h,
    others-lt,
  )

  ip_checksum-with_field :
      (w : ℕ) → w < 65536 → ip_checksum (with_field before w after) ≡ checksum_fold (others + w)
  unfolding ip_checksum
  ip_checksum-with_field w h = ap checksum_fold (checksum_sum-with_field w h)

  -- Data of at most 65537 bytes with a checksum field at an even place: carrying its own `ip_checksum`,
  -- taken with the field at 0, it has checksum 0.
  pub ip_checksum_verifies :
      ip_checksum (with_field before (ip_checksum (with_field before 0 after)) after) ≡ 0
  ip_checksum_verifies =
      rw
        (
          ip_checksum-with_field 0 (omega arith),
          ip_checksum-with_field (checksum_fold (others + 0)) (checksum_fold-lt _),
          add-zero,
        )
        (checksum_fold_cancel others (omega (arith, others-lt)))

  -- In data of at most 65537 bytes with a word at an even place: of two values of the word that differ mod
  -- 65535, at most one gives data that verifies.
  pub ip_checksum_detects :
      (v w : ℕ)
      → v < 65536
      → w < 65536
      → v % 65535 ≢ w % 65535
      → ip_checksum (with_field before v after) ≡ 0
      → ip_checksum (with_field before w after) ≢ 0
  ip_checksum_detects v w hv hw ne e f = ne (
      ground (
        arith,
        ip_checksum-with_field v hv,
        ip_checksum-with_field w hw,
        checksum_fold-zero (others + v),
        checksum_fold-zero (others + w),
        others-lt,
      ))

module _ (family protocol : ℕ) (src dst : List ℕ) (bs : IsBytes src) (bd : IsBytes dst)
    (ls : length src ≡ 16) (ld : length dst ≡ 16) where
  abbrev source : List ℕ
  source = take (address_len family) src

  abbrev target : List ℕ
  target = take (address_len family) dst

  -- What the pseudo header adds for a segment of `n` bytes.
  abbrev pseudo : ℕ → ℕ
  pseudo n = word_sum source + word_sum target + u16 protocol + u16 n

  address_len-cases : (address_len family ≡ 16) ⊎ (address_len family ≡ 4)
  address_len-cases = ground arith

  addresses :
      (Even source × (word_sum source ≤ 600_000)) × (Even target × (word_sum target ≤ 600_000))
  addresses = (one src bs ls, one dst bd ld)
    where
      one :
          (xs : List ℕ)
          → IsBytes xs
          → length xs ≡ 16
          → Even (take (address_len family) xs)
            × (word_sum (take (address_len family) xs) ≤ 600_000)
      one xs b e =
          let n = address_len family in
          let l : length (take n xs) ≡ n = omega (arith, length-take n xs, address_len-cases) in
          (
            Even-of_length (take n xs) (n / 2) (omega (arith, address_len-cases)),
            omega (arith, word_sum-le (take n xs) (take-IsBytes n xs b), address_len-cases),
          )

  module _ (before after : List ℕ) (bb : IsBytes before) (ba : IsBytes after) (even : Even before)
      (fits : length before + length after ≤ 65535) where
    abbrev base : ℕ
    base = pseudo (length before + length after + 2) + (word_sum before + word_sum after)

    base-lt : base + 65535 < 2 ^ 32
    base-lt = omega (arith, addresses, others-lt before after bb ba even fits)

    pseudo_sum-with_field :
        (w : ℕ)
        → w < 65536
        → pseudo_sum family src dst protocol (with_field before w after) ≡ base + w
    unfolding pseudo_sum
    pseudo_sum-with_field w h = omega (
      arith,
      addresses,
      others-lt before after bb ba even fits,
      checksum_sum-with_field before after bb ba even fits w h,
      length-with_field before after w,
      address_sum-eq source 0 (take-IsBytes (address_len family) src bs) addresses.0.0,
      address_sum-eq target (word_sum source) (take-IsBytes (address_len family) dst bd)
          addresses.1.0,
      address_sum-eq target (address_sum source 0) (take-IsBytes (address_len family) dst bd)
          addresses.1.0,
    )

    tcp_udp_checksum-with_field :
        (w : ℕ)
        → w < 65536
        → tcp_udp_checksum family src dst protocol (with_field before w after)
          ≡ checksum_fold (base + w)
    unfolding tcp_udp_checksum
    tcp_udp_checksum-with_field w h = ap checksum_fold (pseudo_sum-with_field w h)

    -- A segment of at most 65537 bytes between two 16-byte addresses, with its checksum field at an even
    -- place: carrying its own checksum, taken with the field at 0, it has checksum 0.
    pub tcp_udp_checksum_verifies :
        tcp_udp_checksum family src dst protocol (
          with_field before
            (tcp_udp_checksum family src dst protocol (with_field before 0 after))
            after)
        ≡ 0
    tcp_udp_checksum_verifies =
        rw
          (
            tcp_udp_checksum-with_field 0 (omega arith),
            tcp_udp_checksum-with_field (checksum_fold (base + 0)) (checksum_fold-lt _),
            add-zero,
          )
          (checksum_fold_cancel base (omega (arith, base-lt)))

    -- A segment of at most 65537 bytes between two 16-byte addresses, with its checksum field at an even
    -- place, whose checksum is 0: with 0xffff in the field instead it has checksum 0 as well.
    pub tcp_udp_checksum_ffff :
        tcp_udp_checksum family src dst protocol (with_field before 0 after) ≡ 0
        → tcp_udp_checksum family src dst protocol (with_field before 0xffff after) ≡ 0
    tcp_udp_checksum_ffff e =
        tcp_udp_checksum-with_field 0xffff (omega arith)
        ∙ checksum_fold_absorbs base base-lt
            (ap checksum_fold (omega arith) ∙ sym (tcp_udp_checksum-with_field 0 (omega arith)) ∙ e)

-- An IPv4 header of bytes, an even number of them behind the checksum field at byte 10 and at most 65535
-- in all but the field: with the checksum that `ipv4_checksum` takes, whatever stood in the field, it
-- verifies.
pub ipv4_checksum_verifies :
    (before after : List ℕ) (old : ℕ)
    → IsBytes before
    → IsBytes after
    → length before ≡ 10
    → Even after
    → length after ≤ 65535 - 10
    → verify_ipv4_checksum (with_field before (ipv4_checksum (with_field before old after)) after)
      ≡ 0
unfolding ipv4_checksum verify_ipv4_checksum
ipv4_checksum_verifies before after old bb ba l e f =
    rw (skipped, checksum_sum-with_field before after bb ba even fits _ (checksum_fold-lt sum))
      (checksum_fold_cancel sum (omega (arith, others-lt before after bb ba even fits)))
  where
    sum : ℕ
    sum = word_sum before + word_sum after

    even : Even before
    even = Even-of_length before 5 l

    fits : length before + length after ≤ 65535
    fits = omega arith

    skipped : ipv4_sum (with_field before old after) 0 0 ≡ sum
    skipped = omega (
      arith,
      ipv4_sum-eq before after (old / 256 % 256) (old % 256) 0 0 (omega arith) bb ba even e
          (omega (arith, others-lt before after bb ba even fits)),
    )

pub tcp_udp_checksum-lt :
    (family : ℕ) (src dst : List ℕ) (protocol : ℕ) (segment : List ℕ)
    → tcp_udp_checksum family src dst protocol segment < 65536
unfolding tcp_udp_checksum
tcp_udp_checksum-lt family src dst protocol segment =
    checksum_fold-lt (pseudo_sum family src dst protocol segment)
