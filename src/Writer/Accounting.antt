-- ===== src/Writer/Accounting.antt =====
-- What a finished write does to the counters.
use tunio.Base.{
  ℕ, ◌+◌, ◌-◌, ◌%◌, ◌^◌, ◌<◌, ◌≡◌, refl, sym, ap, ◌∙◌, List, [], ◌∷◌, Option, none, some, length,
  get_or, arith, if_both, ltb, ◌&&◌, not, subst, some≢none, if◌then◌else◌, max,
}
use tunio.Config.{incr}
use tunio.Writer.{
  PacketBuffer, WriteError, Entry, Chain, TxWriter, idle, chain_at, set_chain, start_write, recycle,
  complete_write, count_done, count_dropped, finish, done_with, on_write_done, is_transient,
  is_error, aborted,
}
use tunio.Writer.Chains.{
  count_of, waiting_in, flying_in, total, length-set_chain, total-set_chain, get_or-set_chain,
  get_or-set_chain_other, at_or_other, inside_of_current,
}
use tunio.Writer.Invariant.{IsWriter, IsResting, Busy, Counts, ledger, pump-IsWriter, pump-ledger}

-- Two states that agree in all but the pool and the effects.
pub record Same (w x : TxWriter) : Type 0 where
  pub queue_count : x.queue_count ≡ w.queue_count
  pub chains : x.chains ≡ w.chains
  pub queued_total : x.queued_total ≡ w.queued_total
  pub cancelled : x.cancelled ≡ w.cancelled
  pub stats : x.stats ≡ w.stats

pub recycle-Same : (w : TxWriter) (b : PacketBuffer) → Same w (recycle w b)
unfolding recycle
recycle-Same w b = if_both (Same w) _ (λ e. same) (λ e. same_self)
  where
    same : Same w (record w { pool = record b { bytes = [] } ∷ w.pool })
    same = record {
      queue_count = refl;
      chains = refl;
      queued_total = refl;
      cancelled = refl;
      stats = refl;
    }

    same_self : Same w w
    same_self = record {
      queue_count = refl;
      chains = refl;
      queued_total = refl;
      cancelled = refl;
      stats = refl;
    }

pub complete_write-Same :
    (w : TxWriter) (h : Option ℕ) (code : WriteError) (n : ℕ) → Same w (complete_write w h code n)
unfolding complete_write
complete_write-Same w none code n = record {
  queue_count = refl;
  chains = refl;
  queued_total = refl;
  cancelled = refl;
  stats = refl;
}
complete_write-Same w (some h) code n = record {
  queue_count = refl;
  chains = refl;
  queued_total = refl;
  cancelled = refl;
  stats = refl;
}

pub Same-trans : (w x y : TxWriter) → Same w x → Same x y → Same w y
Same-trans w x y s t = record {
  queue_count = t.queue_count ∙ s.queue_count;
  chains = t.chains ∙ s.chains;
  queued_total = t.queued_total ∙ s.queued_total;
  cancelled = t.cancelled ∙ s.cancelled;
  stats = t.stats ∙ s.stats;
}

-- One packet more in the two counters of the end, and nothing else.
pub record Ended (w x : TxWriter) : Type 0 where
  pub queue_count : x.queue_count ≡ w.queue_count
  pub chains : x.chains ≡ w.chains
  pub queued_total : x.queued_total ≡ w.queued_total
  pub cancelled : x.cancelled ≡ w.cancelled
  pub stats :
      (x.stats.tx_packets + x.stats.tx_dropped) % 2 ^ 64
      ≡ (w.stats.tx_packets + w.stats.tx_dropped + 1) % 2 ^ 64

count_done-Ended : (w : TxWriter) (code : WriteError) → Ended w (count_done w code)
unfolding count_done
count_done-Ended w code = if_both (Ended w) (is_error code) (λ e. dropped) (λ e. written)
  where
    dropped : Ended w (count_dropped w)
    dropped = record {
      queue_count = refl;
      chains = refl;
      queued_total = refl;
      cancelled = refl;
      stats = omega arith;
    }

    written : Ended w (record w { stats = record w.stats { tx_packets = incr w.stats.tx_packets } })
    written = record {
      queue_count = refl;
      chains = refl;
      queued_total = refl;
      cancelled = refl;
      stats = omega arith;
    }

Ended-Same : (w x y : TxWriter) → Ended w x → Same x y → Ended w y
Ended-Same w x y s t = record {
  queue_count = t.queue_count ∙ s.queue_count;
  chains = t.chains ∙ s.chains;
  queued_total = t.queued_total ∙ s.queued_total;
  cancelled = t.cancelled ∙ s.cancelled;
  stats = rw t.stats s.stats;
}

-- A state with the same chains but for the current entry of `q`, which has ended.
resting_lem :
    (w x : TxWriter) (q : ℕ) (e : Entry)
    → IsWriter w
    → (chain_at w q).current ≡ some e
    → Ended w x
    → IsResting
        (record x { chains = set_chain x.chains q (record (chain_at x q) { current = none }) })
        q
      × (ledger (record x {
        chains = set_chain x.chains q (record (chain_at x q) { current = none });
      })
            % 2 ^ 64
          ≡ ledger w % 2 ^ 64)
resting_lem w x q e v f t = (
  record {
    inside = omega (arith, inside, len);
    many = len ∙ ap length t.chains ∙ v.many ∙ sym (ap (max 1) t.queue_count);
    count = omega (
      arith,
      v.count,
      t.queued_total,
      ap (total waiting_in) t.chains,
      total-set_chain waiting_in x.chains q c inside,
    );
    bounded = omega (arith, v.bounded, t.queued_total);
    stopped = λ k. t.queued_total ∙ v.stopped (sym t.cancelled ∙ k);
    busy = λ i n.
        subst Busy (sym (get_or-set_chain_other x.chains q i c n))
          (subst (λ (cs : List Chain). Busy (get_or cs i idle)) (sym t.chains) (v.busy i));
  },
  omega (
    arith,
    t.stats,
    t.queued_total,
    ap (total flying_in) t.chains,
    ap (λ (cs : List Chain). flying_in (get_or cs q idle)) t.chains,
    flying,
    total-set_chain flying_in x.chains q c inside,
  ),
)
  where
    c : Chain
    c = record (chain_at x q) { current = none }

    inside : q < length x.chains
    inside = omega (arith, inside_of_current w.chains q e f, ap length t.chains)

    len : length (set_chain x.chains q c) ≡ length x.chains
    len = length-set_chain x.chains q c

    flying : flying_in (chain_at w q) ≡ 1
    flying = ap count_of f

-- The state in which `finish` pumps.
abbrev pub counted_as : TxWriter → WriteError → ℕ → Entry → TxWriter
counted_as w code n e =
    if w.cancelled
    then complete_write (count_done w code) e.handler aborted 0
    else complete_write (count_done w code) e.handler code n

pub finish_state :
    (w : TxWriter) (code : WriteError) (n : ℕ) (e : Entry)
    → Ended w (recycle (counted_as w code n e) e.buf)
finish_state w code n e =
    let counted = count_done w code in
    let completed = counted_as w code n e in
    Ended-Same w counted (recycle completed e.buf) (count_done-Ended w code) (
      Same-trans counted completed (recycle completed e.buf)
        (if_both (Same counted) w.cancelled (λ x. complete_write-Same counted e.handler aborted 0)
          (λ x. complete_write-Same counted e.handler code n))
        (recycle-Same completed e.buf))

finish-Counts :
    (w : TxWriter) (code : WriteError) (n q : ℕ) (e : Entry)
    → IsWriter w
    → (chain_at w q).current ≡ some e
    → Counts w 0 (finish w code n q e)
unfolding finish
finish-Counts w code n q e v f =
    let r = resting_lem w ended q e v f (finish_state w code n e) in
    (pump-IsWriter rested q r.0, omega (arith, pump-ledger rested q r.0, r.1))
  where
    ended : TxWriter
    ended = recycle (counted_as w code n e) e.buf

    rested : TxWriter
    rested = record ended {
      chains = set_chain ended.chains q (record (chain_at ended q) { current = none });
    }

again_lem :
    (w : TxWriter) (q : ℕ) (e a : Entry)
    → IsWriter w
    → (chain_at w q).current ≡ some e
    → Counts w 0 (
        start_write
          (record w { chains = set_chain w.chains q (record (chain_at w q) { current = some a }) })
          a)
unfolding start_write
again_lem w q e a v f = (
  record {
    many = length-set_chain w.chains q c ∙ v.many;
    count = omega (arith, v.count, total-set_chain waiting_in w.chains q c inside);
    bounded = v.bounded;
    stopped = v.stopped;
    busy = λ i.
        at_or_other (λ j. Busy (get_or (set_chain w.chains q c) j idle)) q i
          (λ g. absurd (
            some≢none
              (sym (ap (λ (d : Chain). d.current) (get_or-set_chain w.chains q c inside)) ∙ g)))
          (λ n. subst Busy (sym (get_or-set_chain_other w.chains q i c n)) (v.busy i));
  },
  omega (arith, total-set_chain flying_in w.chains q c inside, flying),
)
  where
    c : Chain
    c = record (chain_at w q) { current = some a }

    inside : q < length w.chains
    inside = inside_of_current w.chains q e f

    flying : flying_in (chain_at w q) ≡ 1
    flying = ap count_of f

-- Whatever the device reports for a write, success, a fault or one to try again, to a writer whose
-- counters and chains are right: they stay right, and the sum of the packets written, dropped, waiting
-- and under way stays as it was, mod 2 ^ 64.
pub on_write_done-Counts :
    (w : TxWriter) (code : WriteError) (n q : ℕ)
    → IsWriter w
    → Counts w 0 (on_write_done w code n q)
unfolding on_write_done done_with
on_write_done-Counts w code n q v = cases (chain_at w q).current refl
  where
    cases : (x : Option Entry) → (chain_at w q).current ≡ x → Counts w 0 (done_with w code n q x)
    cases none f = (v, omega arith)
    cases (some e) f =
        if_both (Counts w 0) (not w.cancelled && (is_transient code && ltb 0 e.retries_left))
          (λ h. again_lem w q e (record e { retries_left = e.retries_left - 1 }) v f)
          (λ h. finish-Counts w code n q e v f)
