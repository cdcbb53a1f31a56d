-- ===== src/Account/Laws.antt =====
-- What a caller of `buffer_accountant` may rely on.
use tunio.Base.{ℕ, ◌+◌, ◌^◌, ◌≤◌, ◌<◌, ◌≡◌, ◌↔◌, true, false, arith}
use tunio.Account.{Account, reserve, release}

-- The budget is respected, and fits a `size_t`.
pub record IsValid (a : Account) : Type 0 where
  pub within : a.used ≤ a.limit
  pub small : a.limit < 2 ^ 64

-- `reserve` succeeds exactly when the bytes still fit; then it books them, and else it changes nothing.
pub reserve_iff :
    (a : Account) (n : ℕ)
    → (((reserve a n).1 ≡ true) ↔ (a.used + n ≤ a.limit))
      × ((reserve a n).1 ≡ true → (reserve a n).0 ≡ record a { used = a.used + n })
      × ((reserve a n).1 ≡ false → (reserve a n).0 ≡ a)
unfolding reserve
reserve_iff a n = ground arith

pub reserve-IsValid : (a : Account) (n : ℕ) → IsValid a → IsValid (reserve a n).0
unfolding reserve
reserve-IsValid a n v = ground arith

pub release-IsValid : (a : Account) (n : ℕ) → IsValid a → n ≤ a.used → IsValid (release a n)
unfolding release
release-IsValid a n v h = ground arith

-- Under the budget the subtraction of `release` does not wrap.
pub release_used : (a : Account) (n : ℕ) → IsValid a → n ≤ a.used → (release a n).used + n ≡ a.used
unfolding release
release_used a n v h = ground arith

-- In a valid account with room for it, giving back what was just reserved restores the account.
pub release-reserve :
    (a : Account) (n : ℕ) → IsValid a → a.used + n ≤ a.limit → release (reserve a n).0 n ≡ a
unfolding reserve release
release-reserve a n v h = ground arith
