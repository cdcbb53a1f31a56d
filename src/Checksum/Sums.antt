-- ===== src/Checksum/Sums.antt =====
-- The loops of the checksums as plain sums of 16-bit words, and the fold as arithmetic mod 65535.
use tunio.Base.{
  ℕ, ◌+◌, ◌-◌, ◌*◌, ◌%◌, ◌^◌, ◌≤◌, ◌<◌, ◌≡◌, ◌↔◌, List, [], ◌∷◌, ◌++◌, arith, u16, u32, word,
  length, IsBytes,
}
use tunio.Checksum.{checksum_sum, fold_loop, checksum_fold, ipv4_sum, address_sum}

-- The words of the data, the last one padded with a zero byte.
abbrev pub word_sum : List ℕ → ℕ
word_sum [] = 0
word_sum (a ∷ []) = a * 256
word_sum (a ∷ b ∷ rest) = word a b + word_sum rest

abbrev pub Even : List ℕ → Type 0
Even [] = Unit {0}
Even (a ∷ []) = ⊥
Even (a ∷ b ∷ rest) = Even rest

pub Even-of_length : (xs : List ℕ) (k : ℕ) → length xs ≡ 2 * k → Even xs
Even-of_length [] k e = tt
Even-of_length (x ∷ []) k e = absurd (omega arith)
Even-of_length (x ∷ y ∷ xs) k e = Even-of_length xs (k - 1) (omega arith)

pub word_sum-append : (xs ys : List ℕ) → Even xs → word_sum (xs ++ ys) ≡ word_sum xs + word_sum ys
word_sum-append [] ys h = omega arith
word_sum-append (a ∷ []) ys h = absurd h
word_sum-append (a ∷ b ∷ rest) ys h = omega (arith, word_sum-append rest ys h)

pub word_sum-le : (xs : List ℕ) → IsBytes xs → 2 * word_sum xs ≤ 65535 * (length xs + 1)
word_sum-le [] h = omega arith
word_sum-le (a ∷ []) h = omega arith
word_sum-le (a ∷ b ∷ rest) h = omega (arith, word_sum-le rest h.1.1)

-- Below 2 ^ 32 the accumulator does not wrap.
pub checksum_sum-eq :
    (xs : List ℕ) (sum : ℕ)
    → IsBytes xs
    → sum + word_sum xs < 2 ^ 32
    → checksum_sum xs sum ≡ sum + word_sum xs
unfolding checksum_sum
checksum_sum-eq [] sum h k = omega arith
checksum_sum-eq (a ∷ []) sum h k = omega arith
checksum_sum-eq (a ∷ b ∷ rest) sum h k =
    omega (arith, checksum_sum-eq rest (u32 (sum + u16 (word a b))) h.1.1 (omega arith))

pub address_sum-eq :
    (xs : List ℕ) (sum : ℕ)
    → IsBytes xs
    → Even xs
    → sum + word_sum xs < 2 ^ 32
    → address_sum xs sum ≡ sum + word_sum xs
unfolding address_sum
address_sum-eq [] sum h e k = omega arith
address_sum-eq (a ∷ []) sum h e k = absurd e
address_sum-eq (a ∷ b ∷ rest) sum h e k =
    omega (arith, address_sum-eq rest (u32 (sum + u16 (word a b))) h.1.1 e (omega arith))

-- Two rounds are enough: the third test always stops the loop.
pub fold_loop_lem :
    (sum : ℕ)
    → sum < 2 ^ 32
    → (fold_loop 3 sum < 65536)
      × (fold_loop 3 sum % 65535 ≡ sum % 65535)
      × ((fold_loop 3 sum ≡ 0) ↔ (sum ≡ 0))
unfolding fold_loop
fold_loop_lem sum h = ground arith

-- The checksum is 0 exactly for a sum that is a positive multiple of 65535, "minus zero".
pub checksum_fold-zero :
    (sum : ℕ) → sum < 2 ^ 32 → (checksum_fold sum ≡ 0) ↔ ((0 < sum) × (sum % 65535 ≡ 0))
unfolding checksum_fold
checksum_fold-zero sum h = ground (arith, fold_loop_lem sum h)

pub checksum_fold-lt : (sum : ℕ) → checksum_fold sum < 65536
unfolding checksum_fold
checksum_fold-lt sum = omega arith

-- Adding its checksum to a sum, or 0xffff where the checksum is 0, gives "minus zero".
pub checksum_fold_cancel :
    (sum : ℕ) → sum + 65535 < 2 ^ 32 → checksum_fold (sum + checksum_fold sum) ≡ 0
checksum_fold_cancel sum h =
    (checksum_fold-zero (sum + checksum_fold sum) (omega (arith, checksum_fold-lt sum))).1
      (cancel (omega arith))
  where
    cancel : sum < 2 ^ 32 → (0 < sum + checksum_fold sum) × ((sum + checksum_fold sum) % 65535 ≡ 0)
    cancel k = unfold checksum_fold in ground (arith, fold_loop_lem sum k)

pub checksum_fold_absorbs :
    (sum : ℕ) → sum + 65535 < 2 ^ 32 → checksum_fold sum ≡ 0 → checksum_fold (sum + 65535) ≡ 0
checksum_fold_absorbs sum h e =
    ground (arith, checksum_fold-zero sum, checksum_fold-zero (sum + 65535))

-- `ipv4_checksum` past its own field, and up to it.
ipv4_sum_after :
    (xs : List ℕ) (i sum : ℕ)
    → 10 < i
    → IsBytes xs
    → Even xs
    → sum + word_sum xs < 2 ^ 32
    → ipv4_sum xs i sum ≡ sum + word_sum xs
unfolding ipv4_sum
ipv4_sum_after [] i sum p h e k = omega arith
ipv4_sum_after (a ∷ []) i sum p h e k = absurd e
ipv4_sum_after (a ∷ b ∷ rest) i sum p h e k =
    ground (arith, ipv4_sum_after rest (i + 2) (u32 (sum + u16 (word a b))))

pub ipv4_sum-eq :
    (xs rest : List ℕ) (hi lo i sum : ℕ)
    → i + length xs ≡ 10
    → IsBytes xs
    → IsBytes rest
    → Even xs
    → Even rest
    → sum + word_sum xs + word_sum rest < 2 ^ 32
    → ipv4_sum (xs ++ hi ∷ lo ∷ rest) i sum ≡ sum + word_sum xs + word_sum rest
unfolding ipv4_sum
ipv4_sum-eq [] rest hi lo i sum p h k e f b =
    ground (arith, ipv4_sum_after rest (i + 2) (u32 (sum + 0)))
ipv4_sum-eq (x ∷ []) rest hi lo i sum p h k e f b = absurd e
ipv4_sum-eq (x ∷ y ∷ xs) rest hi lo i sum p h k e f b =
    ground (arith, ipv4_sum-eq xs rest hi lo (i + 2) (u32 (sum + u16 (word x y))))
