-- ===== src/Facade/Lifecycle/Queues.antt =====
-- A successful open() reads every queue of the device.
use tunio.Base.{
  ℕ, zero, suc, ◌+◌, ◌*◌, ◌/◌, ◌%◌, ◌^◌, ◌≤◌, ◌<◌, ◌≡◌, ◌⊎◌, inl, inr, sym, ap, ◌∙◌, List, [], ◌∷◌,
  ◌++◌, arith, Bool, true, Option, some, min, length, length-replicate, subst, subst⁻¹, case_false,
  max,
}
use mathlib.Core.List.{Memᴰ}
use native.Mathlib.Nat.{mul-div_cancel, mul-lt-mul_of_pos_right}
use tunio.Facade.Lifecycle.{
  Impl, Call, Opening, DeviceInfo, open_impl, takeover, started, device_read, sweep_started,
  k_read_slots,
}
use tunio.Facade.Lifecycle.Slots.{reads, started-reads, queues_of, slots_of}
use tunio.Facade.Lifecycle.Opens.{Opens, failed, opened, open_impl-Opens}

from_zero : (a b : ℕ) → a < b → a < 0 + b
from_zero a b h = omega arith

le_cases : (i j : ℕ) → i ≤ j → (i ≡ j) ⊎ (i < j)
le_cases i j h = ground arith

some_slot : (q : ℕ) → 1 ≤ max 1 q
some_slot q = ground arith

mem_right : {c : Call} (xs ys : List Call) → Memᴰ c ys → Memᴰ c (xs ++ ys)
mem_right [] ys h = h
mem_right (x ∷ xs) ys h = Memᴰ.tail (mem_right xs ys h)

mem-reads :
    (n i j slots epoch : ℕ)
    → i ≤ j
    → j < i + n
    → Memᴰ (device_read j (j / slots) epoch) (reads n i slots epoch)
mem-reads zero i j slots epoch h k = absurd (omega arith)
mem-reads (suc n) i j slots epoch h k = elim (le_cases i j h) [
  | inl e ↦ Memᴰ.head (ap (λ m. device_read m (m / slots) epoch) (sym e))
  | inr l ↦ Memᴰ.tail (mem-reads n (i + 1) j slots epoch (omega arith) (omega arith))
]

-- Every queue of the device has a read of its own among the calls.
pub record IsRead (r : Impl) (q : ℕ) : Type 0 where
  pub slot : ℕ
  pub exists : slot < length r.read_bufs
  pub read : Memᴰ (device_read slot q r.epoch) r.calls

started-IsRead : (p : Impl) (d : DeviceInfo) (q : ℕ) → q < queues_of d → IsRead (started p d) q
started-IsRead p d q h =
    let slots = slots_of d in
    let epoch = (p.epoch + 1) % 2 ^ 64 in
    let total = queues_of d * slots in
    let below : q * slots < total =
      mul-lt-mul_of_pos_right h (some_slot (k_read_slots / queues_of d)) in
    subst⁻¹ (λ r. IsRead r q) (started-reads p d)
      (record {
        slot = q * slots;
        exists = omega (arith, below, length-replicate total (d.read_size_hint + 64));
        read = mem_right (p.calls ++ (sweep_started p.next_gen ∷ [])) _ (
            subst (λ k. Memᴰ (device_read (q * slots) k epoch) (reads total 0 slots epoch))
              (mul-div_cancel q (some_slot (k_read_slots / queues_of d)))
              (mem-reads total 0 (q * slots) slots epoch (omega arith) (from_zero _ _ below)));
      })

counts : (x d : DeviceInfo) → some x ≡ some d → x.queue_count ≡ d.queue_count
counts x d e = cc

in_range : (q n : ℕ) → q < n → q < 256 → q < min (max n 1) 256
in_range q n h k = ground arith

opens-IsRead :
    (p : Impl) (d : DeviceInfo) (o : Option DeviceInfo) (r : Impl × Bool) (q : ℕ)
    → Opens p o r
    → r.1 ≡ true
    → o ≡ some d
    → q < d.queue_count
    → q < 256
    → IsRead r.0 q × (q < r.0.num_queues)
opens-IsRead p d o (_, _) q (failed r c) e f h k = absurd (case_false (sym e))
opens-IsRead p d o (_, _) q (opened r x same gens g) e f h k =
    let y : x.queue_count ≡ d.queue_count = counts x d (sym g ∙ f) in
    let below = in_range q x.queue_count (omega arith) k in
    (
      started-IsRead r x q below,
      subst⁻¹ (λ n. q < n) (ap (λ (i : Impl). i.num_queues) (started-reads r x)) below,
    )

-- When open() returns true on a device, for each queue that the device has, the 256 that the kernel allows at
-- most, open() counts the queue, and there is a slot with a buffer whose read of that queue, in the new
-- generation, is among the calls to the device.
pub open_impl-IsRead :
    (p : Impl) (o : Opening) (d : DeviceInfo) (q : ℕ)
    → (open_impl p o).1 ≡ true
    → o.device (takeover o) ≡ some d
    → q < d.queue_count
    → q < 256
    → IsRead (open_impl p o).0 q × (q < (open_impl p o).0.num_queues)
open_impl-IsRead p o d q e f h k =
    opens-IsRead p d (o.device (takeover o)) (open_impl p o) q (open_impl-Opens p o) e f h k
