-- ===== src/Tcp/Output/Window.antt =====
-- What `current_wnd` promises the peer, and where it falls short of what is free.
use tunio.Base.{
  ℕ, ◌+◌, ◌-◌, ◌*◌, ◌/◌, ◌%◌, ◌^◌, ◌≤◌, ◌<◌, ◌≡◌, ◌≢◌, ◌⊎◌, arith, leb, if◌then◌else◌, min,
}
use native.Mathlib.Nat.{div-mul-le_self, mul-le-mul_right, le_trans}
use tunio.Tcp.Types.{Sys}
use tunio.Tcp.Output.{mss, current_wnd, window_field, fixed_rcv_wnd, is_syn_ack_sent}

-- With queue counters of 32 bits, the window is at most 1 MiB, what the flow's queue limit leaves, and
-- what the shared budget, if there is one, leaves; and it is 0 or at least one segment.
pub current_wnd_bounds :
    (s : Sys)
    → s.flow.rx_bytes + s.flow.ooo_bytes < 2 ^ 32
    → (current_wnd s ≤ fixed_rcv_wnd)
      × (current_wnd s ≤ s.eng.cfg.max_rx_queue_per_flow - (s.flow.rx_bytes + s.flow.ooo_bytes))
      × (s.eng.account.limit ≢ 0 → current_wnd s ≤ s.eng.account.limit - s.eng.account.used)
      × ((current_wnd s ≡ 0) ⊎ (mss s.eng.cfg s.flow.key.family ≤ current_wnd s))
unfolding current_wnd
current_wnd_bounds s h = ground arith

-- With counters and limits below 4 GiB and a shared budget, the window is exactly the least of the
-- three, or 0 below one segment.
pub current_wnd-eq :
    (s : Sys)
    → s.flow.rx_bytes + s.flow.ooo_bytes < 2 ^ 32
    → s.eng.cfg.max_rx_queue_per_flow < 2 ^ 32
    → s.eng.account.limit < 2 ^ 32
    → s.eng.account.limit ≢ 0
    → let free = min fixed_rcv_wnd (
        min
          (s.eng.cfg.max_rx_queue_per_flow - (s.flow.rx_bytes + s.flow.ooo_bytes))
          (s.eng.account.limit - s.eng.account.used)) in
      current_wnd s ≡ (if leb (mss s.eng.cfg s.flow.key.family) free then free else 0)
unfolding current_wnd
current_wnd-eq s h k l n = ground arith

-- A shared budget with whole multiples of 4 GiB free and less than one segment beyond them is cut to
-- 32 bits: the window is 0 although the budget is almost unused.
pub current_wnd_truncated :
    (s : Sys)
    → s.eng.account.limit ≢ 0
    → s.eng.account.used ≤ s.eng.account.limit
    → (s.eng.account.limit - s.eng.account.used) % 2 ^ 32 < mss s.eng.cfg s.flow.key.family
    → current_wnd s ≡ 0
unfolding current_wnd
current_wnd_truncated s n h k = ground arith

scaled : (w p : ℕ) → min (w / p) 65535 * p ≤ w
scaled w p = le_trans (mul-le-mul_right p (omega arith)) (div-mul-le_self w p)

-- The field fits 16 bits and never promises more than the window.
pub window_field_bounds :
    (s : Sys)
    → (window_field s < 2 ^ 16)
      × (window_field s * 2 ^ (if is_syn_ack_sent s.flow.state then 0 else s.flow.rcv_wnd_scale)
          ≤ current_wnd s)
unfolding window_field
window_field_bounds s =
    let scale = if is_syn_ack_sent s.flow.state then 0 else s.flow.rcv_wnd_scale in
    (omega arith, scaled (current_wnd s) (2 ^ scale))
