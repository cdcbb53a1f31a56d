-- ===== src/Tcp/Dispatch/Options.antt =====
-- The option scan of a SYN: it ends, its result is in range, and it reads what this engine writes.
use tunio.Base.{
  ℕ, zero, suc, ◌+◌, ◌-◌, ◌<◌, ◌≢◌, ◌⊎◌, ◌≤◌, ◌≡◌, refl, List, Bool, true, false, ◌&&◌, ◌||◌, arith,
  get_or, ltb, leb, ◌==◌, if◌then◌else◌, if_both,
}
use tunio.Tcp.Types.{Segment}
use tunio.Tcp.Output.{k_rcv_wnd_scale, options, segment_before, segment_after, segment_bytes}
use tunio.Tcp.Dispatch.{Scale, scan_options, parse_syn_wscale}

-- A scale that RFC 7323 allows, and 0 where none was announced.
pub record IsScale (r : Scale) : Type 0 where
  pub bound : r.wscale ≤ 14
  pub none_given : r.wscale_ok ≡ false → r.wscale ≡ 0

scan_options-IsScale :
    (fuel : ℕ) (p : List ℕ) (hlen o : ℕ) (found : Scale)
    → IsScale found
    → IsScale (scan_options fuel p hlen o found)
unfolding scan_options
scan_options-IsScale zero p hlen o found v = v
scan_options-IsScale (suc fuel) p hlen o found v =
    let kind = get_or p o 0 in
    let olen = get_or p (o + 1) 0 in
    let value = get_or p (o + 2) 0 in
    if_both IsScale (ltb hlen (o + 2) || kind == 0) (λ _. v)
      (λ _.
        if_both IsScale (kind == 1) (λ _. scan_options-IsScale fuel p hlen (o + 1) found v)
          (λ _.
            if_both IsScale (ltb olen 2 || ltb hlen (o + olen)) (λ _. v)
              (λ _. scan_options-IsScale fuel p hlen (o + olen) _ (
                if_both IsScale (kind == 3 && (olen == 3 && leb value 14)) (λ e. ground arith)
                  (λ _. v)))))

-- Whatever bytes a SYN carries, the scale that the engine takes from it is at most 14, and 0 when the
-- SYN announced none.
pub parse_syn_wscale-IsScale : (p : List ℕ) (hlen : ℕ) → IsScale (parse_syn_wscale p hlen)
unfolding parse_syn_wscale
parse_syn_wscale-IsScale p hlen = scan_options-IsScale hlen p hlen 20 _ (ground arith)

if_same {ℓ} :
    {A : Type ℓ} (b : Bool) {x x' y y' : A}
    → (b ≡ true → x ≡ x')
    → (b ≡ false → y ≡ y')
    → (if b then x else y) ≡ (if b then x' else y')
if_same true h k = h refl
if_same false h k = k refl

-- The scan ends by its own tests: from as much fuel on as there are header bytes left, more fuel changes
-- nothing.
pub scan_options_fuel :
    (fuel big : ℕ) (p : List ℕ) (hlen o : ℕ) (found : Scale)
    → hlen ≤ fuel + o
    → fuel ≤ big
    → scan_options big p hlen o found ≡ scan_options fuel p hlen o found
unfolding scan_options
scan_options_fuel zero zero p hlen o found h k = refl
scan_options_fuel zero (suc big) p hlen o found h k =
    if_both (λ r. r ≡ found) (ltb hlen (o + 2) || get_or p o 0 == 0) (λ _. refl)
      (λ e. absurd (ground arith))
scan_options_fuel (suc fuel) zero p hlen o found h k = absurd (omega arith)
scan_options_fuel (suc fuel) (suc big) p hlen o found h k =
    if_same (ltb hlen (o + 2) || get_or p o 0 == 0) (λ _. refl)
      (λ _.
        if_same (get_or p o 0 == 1)
          (λ _. scan_options_fuel fuel big p hlen (o + 1) found (omega arith) (omega arith))
          (λ _.
            if_same (ltb (get_or p (o + 1) 0) 2 || ltb hlen (o + get_or p (o + 1) 0)) (λ _. refl)
              (λ e.
                scan_options_fuel fuel big p hlen (o + get_or p (o + 1) 0) _ (ground arith)
                  (omega arith))))

-- A run of the scan without fuel, in `rounds` rounds from byte `o` on: it stops at the header's end, at the end
-- mark and at a malformed option, and a NOP or an option takes it on.
pub data Scans (p : List ℕ) (hlen : ℕ) : ℕ → ℕ → Scale → Scale → Type 0 where
  at_end :
      {o : ℕ} {found : Scale} → (hlen < o + 2) ⊎ (get_or p o 0 ≡ 0) → Scans p hlen 0 o found found
  malformed :
      {o : ℕ} {found : Scale}
      → get_or p o 0 ≢ 1
      → (get_or p (o + 1) 0 < 2) ⊎ (hlen < o + get_or p (o + 1) 0)
      → Scans p hlen 0 o found found
  nop :
      {rounds o : ℕ} {found result : Scale}
      → o + 2 ≤ hlen
      → get_or p o 0 ≡ 1
      → Scans p hlen rounds (o + 1) found result
      → Scans p hlen (suc rounds) o found result
  window_scale :
      {rounds o : ℕ} {found result : Scale}
      → get_or p o 0 ≡ 3
      → get_or p (o + 1) 0 ≡ 3
      → get_or p (o + 2) 0 ≤ 14
      → Scans p hlen rounds
          (o + get_or p (o + 1) 0)
          (record { wscale = get_or p (o + 2) 0; wscale_ok = true })
          result
      → Scans p hlen (suc rounds) o found result
  skipped :
      {rounds o : ℕ} {found result : Scale}
      → 2 ≤ get_or p (o + 1) 0
      → o + get_or p (o + 1) 0 ≤ hlen
      → get_or p o 0 ≢ 1
      → (get_or p o 0 ≢ 3) ⊎ ((get_or p (o + 1) 0 ≢ 3) ⊎ (14 < get_or p (o + 2) 0))
      → Scans p hlen rounds (o + get_or p (o + 1) 0) found result
      → Scans p hlen (suc rounds) o found result

-- A run that ends with `result`, in at most as many rounds as there are bytes left.
pub record Ends (p : List ℕ) (hlen o : ℕ) (found result : Scale) : Type 0 where
  pub rounds : ℕ
  pub bounded : rounds ≤ hlen - o
  pub run : Scans p hlen rounds o found result

-- A SYN-ACK that this engine writes, scanned by the engine itself, gives the scale that it announces,
-- and none when it announces none.
pub parse_syn_wscale-segment_bytes :
    (g : Segment) (ok : Bool)
    → parse_syn_wscale (segment_bytes (record g { with_mss = true; wscale_ok = ok })) 28
      ≡ record { wscale = if ok then k_rcv_wnd_scale else 0; wscale_ok = ok }
unfolding parse_syn_wscale scan_options segment_bytes segment_before segment_after options
parse_syn_wscale-segment_bytes g true = refl
parse_syn_wscale-segment_bytes g false = refl
