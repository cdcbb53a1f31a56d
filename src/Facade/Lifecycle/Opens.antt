-- ===== src/Facade/Lifecycle/Opens.antt =====
-- What open() does to the facade: it fails and leaves it closed in its generation, or ends in `started`.
use tunio.Base.{
  ℕ, ◌≡◌, ◌≢◌, ◌⊎◌, inl, inr, refl, sym, ap, ◌∙◌, List, [], ◌∷◌, ◌++◌, append-nil, Bool, true,
  false, ◌||◌, Option, none, some, arith, ltb, if_both, ◌==◌,
}
use tunio.Facade.Lifecycle.{
  Impl, Call, Opening, DeviceInfo, Cleanup, run_cleanup, AddressText, empty, malformed, address,
  open_impl, retired, set_ip4, set_ip6, with_device, started, takeover, shut_down, reset_open_state,
  tcp_close_all, udp_close_all, writer_cancel_all, emit_for, and_then, present,
}

-- The calls of emit_for.
abbrev pub called : (ℕ → Call) → Option ℕ → List Call
called f none = []
called f (some g) = f g ∷ []

pub emit_for_lem :
    (f : ℕ → Call) (g : Option ℕ) (p : Impl)
    → emit_for f g p ≡ record p { calls = p.calls ++ called f g }
emit_for_lem f none p = ap (λ cs. record p { calls = cs }) (sym (append-nil p.calls))
emit_for_lem f (some g) p = refl

-- Closed, in the generation of `p`.
pub record IsClosed (p q : Impl) : Type 0 where
  pub closed : q.is_open ≡ false
  pub same : q.epoch ≡ p.epoch
  pub gens : q.next_gen ≡ p.next_gen

-- Closed as well, and its device closed.
pub record IsDown (p q : Impl) : Type 0 where
  pub closed : q.is_open ≡ false
  pub same : q.epoch ≡ p.epoch
  pub gens : q.next_gen ≡ p.next_gen
  pub device : q.device_open ≡ false

emit_for-IsClosed :
    (p q : Impl) (f : ℕ → Call) (g : Option ℕ) → IsClosed p q → IsClosed p (emit_for f g q)
emit_for-IsClosed p q f none h = h
emit_for-IsClosed p q f (some g) h = record { closed = h.closed; same = h.same; gens = h.gens }

shut_down-IsDown : (p q : Impl) → IsClosed p q → IsDown p (shut_down q)
unfolding shut_down
shut_down-IsDown p q h =
    let tcp = emit_for-IsClosed p q tcp_close_all q.tcp h in
    let udp = emit_for-IsClosed p _ udp_close_all q.udp tcp in
    let writer = emit_for-IsClosed p _ writer_cancel_all q.writer udp in
    record { closed = writer.closed; same = writer.same; gens = writer.gens; device = refl }

-- A clean-up on a closed facade: of its own generation it closes the device, of another it leaves the device.
pub record IsCleaned (p : Impl) (c : Cleanup) (q : Impl) : Type 0 where
  pub rest : IsClosed p q
  pub device :
      (q.device_open ≡ false) ⊎ ((q.device_open ≡ p.device_open) × (c.closed_epoch ≢ p.epoch))

emit_for-device :
    (f : ℕ → Call) (g : Option ℕ) (p : Impl) → (emit_for f g p).device_open ≡ p.device_open
emit_for-device f g p = ap (λ (q : Impl). q.device_open) (emit_for_lem f g p)

other_epoch : (a b : ℕ) → (a == b) ≡ false → a ≢ b
other_epoch a b h = ground arith

pub run_cleanup-IsCleaned :
    (p : Impl) (c : Cleanup) → p.is_open ≡ false → IsCleaned p c (run_cleanup p c)
unfolding run_cleanup
run_cleanup-IsCleaned p c e =
    let tcp =
      emit_for-IsClosed p p tcp_close_all c.closed_tcp
        (record { closed = e; same = refl; gens = refl }) in
    let udp = emit_for-IsClosed p _ udp_close_all c.closed_udp tcp in
    let writer = emit_for-IsClosed p _ writer_cancel_all p.writer udp in
    if_both (IsCleaned p c) (c.closed_epoch == p.epoch)
      (λ e. record {
        rest = record { closed = writer.closed; same = writer.same; gens = writer.gens };
        device = inl refl;
      })
      (λ e. record {
        rest = udp;
        device = inr (
          emit_for-device udp_close_all c.closed_udp _
              ∙ emit_for-device tcp_close_all c.closed_tcp p,
          other_epoch _ _ e,
        );
      })

no_device : (a b c d e : Bool) → (a || (b || (c || (d || e)))) ≡ false → e ≡ false
no_device a b c d e h = ground arith

retired-IsDown : (p : Impl) → IsDown p (retired p)
unfolding retired
retired-IsDown p =
    let closed : Impl = record p { is_open = false } in
    let rested =
      if_both (IsDown p)
        (p.is_open || (present p.tcp || (present p.udp || (present p.writer || p.device_open))))
        (λ e. shut_down-IsDown p closed (record { closed = refl; same = refl; gens = refl }))
        (λ e. record {
          closed = refl;
          same = refl;
          gens = refl;
          device = no_device p.is_open (present p.tcp) (present p.udp) (present p.writer) _ e;
        }) in
    record {
      closed = rested.closed;
      same = rested.same;
      gens = rested.gens;
      device = rested.device;
    }

set_ip4-IsDown : (p q : Impl) (a : AddressText) → IsDown p q → IsDown p (set_ip4 a q).0
unfolding set_ip4
set_ip4-IsDown p q empty h = h
set_ip4-IsDown p q malformed h = h
set_ip4-IsDown p q (address bytes) h = record {
  closed = h.closed;
  same = h.same;
  gens = h.gens;
  device = h.device;
}

set_ip6-IsDown : (p q : Impl) (a : AddressText) (n : ℕ) → IsDown p q → IsDown p (set_ip6 a n q).0
unfolding set_ip6
set_ip6-IsDown p q empty n h = h
set_ip6-IsDown p q malformed n h = h
set_ip6-IsDown p q (address bytes) n h =
    if_both (λ (r : Impl × Bool). IsDown p r.0) (ltb 128 n) (λ e. h)
      (λ e. record { closed = h.closed; same = h.same; gens = h.gens; device = h.device })

-- How open() ends.
pub data Opens (p : Impl) (device : Option DeviceInfo) : Impl × Bool → Type 0 where
  failed : (q : Impl) → IsDown p q → Opens p device (q, false)
  opened :
      (q : Impl) (d : DeviceInfo)
      → q.epoch ≡ p.epoch
      → q.next_gen ≡ p.next_gen
      → device ≡ some d
      → Opens p device (started q d, true)

and_then-Opens :
    (p : Impl) (d : Option DeviceInfo) (r : Impl × Bool) (f : Impl → Impl × Bool)
    → IsDown p r.0
    → ((q : Impl) → IsDown p q → Opens p d (f q))
    → Opens p d (and_then r f)
and_then-Opens p d (q, false) f h k = failed q h
and_then-Opens p d (q, true) f h k = k q h

with_device-Opens : (p q : Impl) (d : Option DeviceInfo) → IsDown p q → Opens p d (with_device q d)
unfolding with_device reset_open_state
with_device-Opens p q none h =
    let down =
      shut_down-IsDown p (record q { is_open = false })
        (record { closed = refl; same = h.same; gens = h.gens }) in
    failed _
      (record { closed = down.closed; same = down.same; gens = down.gens; device = down.device })
with_device-Opens p q (some d) h = opened q d h.same h.gens refl

pub open_impl-Opens : (p : Impl) (o : Opening) → Opens p (o.device (takeover o)) (open_impl p o)
unfolding open_impl
open_impl-Opens p o =
    and_then-Opens p (o.device (takeover o)) (set_ip4 o.ipv4_addr (retired p))
      (λ q.
        and_then (set_ip6 o.ipv6_addr o.ipv6_prefix_len q)
          (λ r. with_device r (o.device (takeover o))))
      (set_ip4-IsDown p _ o.ipv4_addr (retired-IsDown p))
      (λ q h.
        and_then-Opens p (o.device (takeover o)) (set_ip6 o.ipv6_addr o.ipv6_prefix_len q)
          (λ r. with_device r (o.device (takeover o)))
          (set_ip6-IsDown p q o.ipv6_addr o.ipv6_prefix_len h)
          (λ r k. with_device-Opens p r (o.device (takeover o)) k))
