-- ===== src/Writer/Cancelling.antt =====
-- What a cancellation does to the counters.
use tunio.Base.{
  ℕ, ◌+◌, ◌-◌, ◌%◌, ◌^◌, ◌≡◌, refl, sym, ap, ◌∙◌, List, [], ◌∷◌, true, length, arith, max,
}
use tunio.Config.{Stats}
use tunio.Writer.{
  Entry, Chain, TxWriter, recycle, complete_write, count_dropped, cancel_entries, cancel_chains,
  cancel_all, aborted,
}
use tunio.Writer.Chains.{
  waiting_in, total, length-emptied, waiting-emptied, flying-emptied, get_or-emptied,
}
use tunio.Writer.Invariant.{IsWriter, Counts}
use tunio.Writer.Accounting.{Same, recycle-Same, complete_write-Same, Same-trans}

-- What the loops of cancel_all leave alone, and the number of entries that they drop.
record Drained (w x : TxWriter) (k : ℕ) : Type 0 where
  queue_count : x.queue_count ≡ w.queue_count
  queued_total : x.queued_total ≡ w.queued_total - k
  cancelled : x.cancelled ≡ w.cancelled
  stats :
      (x.stats.tx_packets + x.stats.tx_dropped) % 2 ^ 64
      ≡ (w.stats.tx_packets + w.stats.tx_dropped + k) % 2 ^ 64

cancel_entries-Drained :
    (w : TxWriter) (es : List Entry) → Drained w (cancel_entries w es) (length es)
unfolding cancel_entries
cancel_entries-Drained w [] = record {
  queue_count = refl;
  queued_total = omega arith;
  cancelled = refl;
  stats = omega arith;
}
cancel_entries-Drained w (e ∷ es) =
    let rest = cancel_entries-Drained next es in
    record {
      queue_count = rest.queue_count ∙ same.queue_count;
      queued_total = omega (arith, rest.queued_total, same.queued_total);
      cancelled = rest.cancelled ∙ same.cancelled;
      stats = omega (
        arith,
        rest.stats,
        ap (λ (t : Stats). t.tx_packets) same.stats,
        ap (λ (t : Stats). t.tx_dropped) same.stats,
      );
    }
  where
    popped : TxWriter
    popped = count_dropped (record w { queued_total = w.queued_total - 1 })

    next : TxWriter
    next = complete_write (recycle popped e.buf) e.handler aborted 0

    same : Same popped next
    same =
        Same-trans popped (recycle popped e.buf) next (recycle-Same popped e.buf)
          (complete_write-Same (recycle popped e.buf) e.handler aborted 0)

cancel_chains-Drained :
    (w : TxWriter) (cs : List Chain) → Drained w (cancel_chains w cs) (total waiting_in cs)
unfolding cancel_chains
cancel_chains-Drained w [] = record {
  queue_count = refl;
  queued_total = omega arith;
  cancelled = refl;
  stats = omega arith;
}
cancel_chains-Drained w (c ∷ cs) =
    let one = cancel_entries-Drained w c.waiting in
    let rest = cancel_chains-Drained (cancel_entries w c.waiting) cs in
    record {
      queue_count = rest.queue_count ∙ one.queue_count;
      queued_total = omega (arith, rest.queued_total, one.queued_total);
      cancelled = rest.cancelled ∙ one.cancelled;
      stats = omega (arith, rest.stats, one.stats);
    }

-- A cancellation of a writer whose counters and chains are right: nothing waits after it, they stay
-- right, and the sum of the packets written, dropped, waiting and under way stays as it was, mod 2 ^
-- 64, so that every packet that waited is counted as dropped and none that is under way is.
pub cancel_all-Counts :
    (w : TxWriter) → IsWriter w → Counts w 0 (cancel_all w) × ((cancel_all w).queued_total ≡ 0)
unfolding cancel_all
cancel_all-Counts w v =
    let d = cancel_chains-Drained (record w { cancelled = true }) w.chains in
    (
      (
        record {
          many = length-emptied w.chains ∙ v.many ∙ sym (ap (max 1) d.queue_count);
          count = omega (arith, d.queued_total, v.count, waiting-emptied w.chains);
          bounded = omega (arith, d.queued_total, v.count);
          stopped = λ h. omega (arith, d.queued_total, v.count);
          busy = λ i h. ap waiting_in (get_or-emptied w.chains i);
        },
        omega (arith, d.stats, d.queued_total, v.count, flying-emptied w.chains),
      ),
      omega (arith, d.queued_total, v.count),
    )
