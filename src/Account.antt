-- ===== src/Account.antt =====
-- `buffer_accountant` (include/tunio/detail/tcp_engine.hpp, src/tcp_engine.cpp): the budget that the
-- TCP and UDP queues share.
pub mod Laws
use tunio.Base.{ℕ, ◌+◌, ◌-◌, ◌%◌, ◌^◌, Bool, true, false, ◌||◌, ltb, if◌then◌else◌}

pub record Account : Type 0 where
  pub limit : ℕ
  pub used : ℕ

-- `limit - n` is read only where `n ≤ limit`, so it does not wrap.
unfoldable pub reserve : Account → ℕ → Account × Bool
reserve a n =
    if ltb a.limit n || ltb (a.limit - n) a.used
    then (a, false)
    else (record a { used = a.used + n }, true)

-- `used -= n` on `size_t`; the callers release what they reserved.
unfoldable pub release : Account → ℕ → Account
release a n = record a { used = (a.used + 2 ^ 64 - n) % 2 ^ 64 }
