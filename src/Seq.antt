-- ===== src/Seq.antt =====
-- include/tunio/detail/ip_headers.hpp: the ring order of TCP sequence numbers.
use tunio.Base.{ℕ, ◌+◌, ◌^◌, ◌<◌, ◌≡◌, Bool, true, false, ◌&&◌, ◌||◌, arith, u32, sub32, ltb, ◌==◌}

-- `static_cast<int32_t>(a - b) > 0`: the difference is not 0 and has its top bit clear.
unfoldable pub seq_gt : ℕ → ℕ → Bool
seq_gt a b = ltb 0 (sub32 a b) && ltb (sub32 a b) (2 ^ 31)

unfoldable pub seq_ge : ℕ → ℕ → Bool
unfolding seq_gt
seq_ge a b = a == b || seq_gt a b

-- Within half the ring the order of two sequence numbers is the order of their offsets from any
-- base, also where the numbers themselves wrap.
pub seq_gt_offsets :
    (base i j : ℕ) → i < 2 ^ 31 → j < 2 ^ 31 → seq_gt (u32 (base + i)) (u32 (base + j)) ≡ ltb j i
unfolding seq_gt
seq_gt_offsets base i j hi hj = ground arith

-- Within half the ring `seq_ge` of two sequence numbers is the order, or equality, of their offsets from
-- any base, also where the numbers themselves wrap.
pub seq_ge_offsets :
    (base i j : ℕ)
    → i < 2 ^ 31
    → j < 2 ^ 31
    → seq_ge (u32 (base + i)) (u32 (base + j)) ≡ (i == j || ltb j i)
unfolding seq_ge
seq_ge_offsets base i j hi hj = ground arith

-- No two sequence numbers are each after the other.
pub seq_gt_asymm : (a b : ℕ) → a < 2 ^ 32 → b < 2 ^ 32 → seq_gt a b ≡ true → seq_gt b a ≡ false
unfolding seq_gt
seq_gt_asymm a b ha hb h = ground arith
