-- ===== src/Base/Words.antt =====
-- Fixed-width unsigned words as native numbers: casts wrap by `%`, shifts go by `/` and `*`.
use Prim.Native.Nat.{ℕ, zero, suc, ◌+◌, ◌-◌, ◌*◌, ◌/◌, ◌%◌, ◌^◌, ◌<◌}
use mathlib.Core.Path.{◌≡◌}
use mathlib.Core.List.{List, [], ◌∷◌, ◌++◌}
use native.Mathlib.Omega.{arith}
use tunio.Base.Lists.{get_or, take, drop}

abbrev pub u8 : ℕ → ℕ
u8 n = n % 2 ^ 8

abbrev pub u16 : ℕ → ℕ
u16 n = n % 2 ^ 16

abbrev pub u32 : ℕ → ℕ
u32 n = n % 2 ^ 32

-- `a - b` on `uint32_t`.
abbrev pub sub32 : ℕ → ℕ → ℕ
sub32 a b = u32 (a + 2 ^ 32 - b)

-- `(hi << 8) | lo` of two bytes, a 16-bit word in network byte order.
abbrev pub word : ℕ → ℕ → ℕ
word hi lo = hi * 256 + lo

-- `ntohs` and `ntohl` of the field that starts at byte `i`.
abbrev pub be16 : List ℕ → ℕ → ℕ
be16 p i = word (get_or p i 0) (get_or p (i + 1) 0)

abbrev pub be32 : List ℕ → ℕ → ℕ
be32 p i = be16 p i * 65536 + be16 p (i + 2)

-- The bytes that `htons` and `htonl` store.
abbrev pub bytes16 : ℕ → List ℕ
bytes16 n = n / 256 % 256 ∷ n % 256 ∷ []

abbrev pub bytes32 : ℕ → List ℕ
bytes32 n = bytes16 (n / 65536) ++ bytes16 n

abbrev pub IsBytes : List ℕ → Type 0
IsBytes [] = Unit {0}
IsBytes (x ∷ xs) = (x < 256) × IsBytes xs

pub IsBytes-append : (xs ys : List ℕ) → IsBytes xs → IsBytes ys → IsBytes (xs ++ ys)
IsBytes-append [] ys h k = k
IsBytes-append (x ∷ xs) ys h k = (h.0, IsBytes-append xs ys h.1 k)

pub get_or-IsByte : (xs : List ℕ) (i : ℕ) → IsBytes xs → get_or xs i 0 < 256
get_or-IsByte [] i h = omega arith
get_or-IsByte (x ∷ xs) zero h = h.0
get_or-IsByte (x ∷ xs) (suc i) h = get_or-IsByte xs i h.1

pub take-IsBytes : (n : ℕ) (xs : List ℕ) → IsBytes xs → IsBytes (take n xs)
take-IsBytes zero xs h = tt
take-IsBytes (suc n) [] h = tt
take-IsBytes (suc n) (x ∷ xs) h = (h.0, take-IsBytes n xs h.1)

pub drop-IsBytes : (n : ℕ) (xs : List ℕ) → IsBytes xs → IsBytes (drop n xs)
drop-IsBytes zero xs h = h
drop-IsBytes (suc n) [] h = tt
drop-IsBytes (suc n) (x ∷ xs) h = drop-IsBytes n xs h.1

pub word_bytes16 : (n : ℕ) → n < 2 ^ 16 → word (n / 256 % 256) (n % 256) ≡ n
word_bytes16 n h = omega arith

pub word_bytes32 :
    (n : ℕ)
    → n < 2 ^ 32
    → word (n / 65536 / 256 % 256) (n / 65536 % 256) * 65536 + word (n / 256 % 256) (n % 256) ≡ n
word_bytes32 n h = omega arith
