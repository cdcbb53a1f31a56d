-- ===== src/Writer/Invariant.antt =====
-- The writer's counters and chains stay right on every path, and every packet submitted is accounted for.
use tunio.Base.{
  if◌then◌else◌, subst, some≢none, case_false, ℕ, ◌+◌, ◌-◌, ◌%◌, ◌^◌, ◌≤◌, ◌<◌, ◌≡◌, ◌≢◌, ◌⊎◌, inl,
  inr, refl, sym, ap, ◌∙◌, List, [], ◌∷◌, ◌++◌, Bool, true, false, Option, none, some, length,
  length-append, arith, max, if_both,
}
use tunio.Writer.{
  count_dropped, emit, completion, no_space, PacketBuffer, Entry, Chain, TxWriter, chain_at,
  set_chain, start_write, pump_chain, pump, is_full, enqueue, async_write, async_write_and_forget,
  k_queue_max_entries, k_write_retry_limit, aborted,
}
use tunio.Writer.Pick.{pick_tx_queue}
use tunio.Writer.Spread.{pick_tx_queue-lt}
use tunio.Writer.Chains.{
  waiting_in, flying_in, total, length-set_chain, total-set_chain, get_or-set_chain,
  get_or-set_chain_other, at_or_other, waiting_in-le,
}

-- A chain without a write under way has nothing waiting.
abbrev pub Busy : Chain → Type 0
Busy c = c.current ≡ none → waiting_in c ≡ 0

pub record IsWriter (w : TxWriter) : Type 0 where
  pub many : length w.chains ≡ max 1 w.queue_count
  pub count : w.queued_total ≡ total waiting_in w.chains
  pub bounded : w.queued_total ≤ k_queue_max_entries
  pub stopped : w.cancelled ≡ true → w.queued_total ≡ 0
  pub busy : (i : ℕ) → Busy (chain_at w i)

-- The same, but for chain `q`, which may rest.
pub record IsResting (w : TxWriter) (q : ℕ) : Type 0 where
  pub inside : q < length w.chains
  pub many : length w.chains ≡ max 1 w.queue_count
  pub count : w.queued_total ≡ total waiting_in w.chains
  pub bounded : w.queued_total ≤ k_queue_max_entries
  pub stopped : w.cancelled ≡ true → w.queued_total ≡ 0
  pub busy : (i : ℕ) → i ≢ q → Busy (chain_at w i)

-- The writer after the first waiting entry of chain `q` was started.
abbrev pub started : TxWriter → ℕ → Entry → List Entry → TxWriter
started w q e rest =
    start_write
      (record w {
        chains = set_chain w.chains q (record { waiting = rest; current = some e });
        queued_total = w.queued_total - 1;
      })
      e

pub pump_both {κ} :
    (P : TxWriter → Type κ) (w : TxWriter) (q : ℕ)
    → ((w.cancelled ≡ true) ⊎ Busy (chain_at w q) → P w)
    → ((e : Entry) (rest : List Entry)
        → w.cancelled ≡ false
        → chain_at w q ≡ record { waiting = e ∷ rest; current = none }
        → P (started w q e rest))
    → P (pump w q)
unfolding pump pump_chain
pump_both P w q h k = cases w.cancelled (chain_at w q).current (chain_at w q).waiting refl refl
  where
    cases :
        (x : Bool) (current : Option Entry) (waiting : List Entry)
        → w.cancelled ≡ x
        → chain_at w q ≡ record { waiting = waiting; current = current }
        → P (pump_chain w q x current waiting)
    cases true current waiting e f = h (inl e)
    cases false (some a) waiting e f =
        h (inr (λ g. absurd (some≢none (sym (ap (λ (c : Chain). c.current) f) ∙ g))))
    cases false none [] e f = h (inr (λ g. ap waiting_in f))
    cases false none (a ∷ rest) e f = k a rest e f

pub pump-IsWriter : (w : TxWriter) (q : ℕ) → IsResting w q → IsWriter (pump w q)
unfolding start_write
pump-IsWriter w q v = pump_both IsWriter w q rests starts
  where
    at_rest : (w.cancelled ≡ true) ⊎ Busy (chain_at w q) → Busy (chain_at w q)
    at_rest (inl h) = λ e. omega (arith, v.stopped h, v.count, waiting_in-le w.chains q)
    at_rest (inr h) = h

    rests : (w.cancelled ≡ true) ⊎ Busy (chain_at w q) → IsWriter w
    rests h = record {
      many = v.many;
      count = v.count;
      bounded = v.bounded;
      stopped = v.stopped;
      busy = λ i. at_or_other (λ j. Busy (chain_at w j)) q i (at_rest h) (v.busy i);
    }

    starts :
        (e : Entry) (rest : List Entry)
        → w.cancelled ≡ false
        → chain_at w q ≡ record { waiting = e ∷ rest; current = none }
        → IsWriter (started w q e rest)
    starts e rest c f = record {
      many = length-set_chain w.chains q _ ∙ v.many;
      count = omega (
        arith,
        v.count,
        ap waiting_in f,
        total-set_chain waiting_in w.chains q (record { waiting = rest; current = some e })
            v.inside,
      );
      bounded = omega (arith, v.bounded);
      stopped = λ h. absurd (case_false (sym h ∙ c));
      busy = λ i.
          at_or_other (λ j. Busy (chain_at (started w q e rest) j)) q i
            (λ g. absurd (
              some≢none
                (sym (ap (λ (c : Chain). c.current) (get_or-set_chain w.chains q _ v.inside)) ∙ g)))
            (λ n. subst Busy (sym (get_or-set_chain_other w.chains q i _ n)) (v.busy i n));
    }

-- The packets that were written, were dropped, wait, or are being written.
abbrev pub ledger : TxWriter → ℕ
ledger w = w.stats.tx_packets + w.stats.tx_dropped + w.queued_total + total flying_in w.chains

pub pump-ledger : (w : TxWriter) (q : ℕ) → IsResting w q → ledger (pump w q) ≡ ledger w
unfolding start_write
pump-ledger w q v = pump_both (λ x. ledger x ≡ ledger w) w q (λ h. refl) starts
  where
    starts :
        (e : Entry) (rest : List Entry)
        → w.cancelled ≡ false
        → chain_at w q ≡ record { waiting = e ∷ rest; current = none }
        → ledger (started w q e rest) ≡ ledger w
    starts e rest c f = omega (
      arith,
      v.count,
      ap waiting_in f,
      ap flying_in f,
      waiting_in-le w.chains q,
      total-set_chain flying_in w.chains q (record { waiting = rest; current = some e }) v.inside,
    )

-- A state of the writer that counts `k` more packets than `w`.
abbrev pub Counts : TxWriter → ℕ → TxWriter → Type 0
Counts w k x = IsWriter x × (ledger x % 2 ^ 64 ≡ (ledger w + k) % 2 ^ 64)

count_dropped-Counts : (w : TxWriter) → IsWriter w → Counts w 1 (count_dropped w)
count_dropped-Counts w v = (
  record {
    many = v.many;
    count = v.count;
    bounded = v.bounded;
    stopped = v.stopped;
    busy = v.busy;
  },
  omega arith,
)

enqueue-Counts :
    (w : TxWriter) (b : PacketBuffer) (handler : Option ℕ)
    → IsWriter w
    → is_full w ≡ false
    → Counts w 1 (enqueue w b handler)
unfolding enqueue
enqueue-Counts w b handler v h = (
  pump-IsWriter joined q resting,
  omega (arith, pump-ledger joined q resting, total-set_chain flying_in w.chains q c inside),
)
  where
    q : ℕ
    q = pick_tx_queue b.bytes w.queue_count

    inside : q < length w.chains
    inside = omega (arith, v.many, pick_tx_queue-lt b.bytes w.queue_count)

    e : Entry
    e = record { buf = b; handler = handler; queue = q; retries_left = k_write_retry_limit }

    c : Chain
    c = record (chain_at w q) { waiting = (chain_at w q).waiting ++ (e ∷ []) }

    joined : TxWriter
    joined = record w { chains = set_chain w.chains q c; queued_total = w.queued_total + 1 }

    open_lem : (w.cancelled ≡ false) × (w.queued_total < k_queue_max_entries)
    open_lem = ground arith

    resting : IsResting joined q
    resting = record {
      inside = omega (arith, inside, length-set_chain w.chains q c);
      many = length-set_chain w.chains q c ∙ v.many;
      count = omega (
        arith,
        v.count,
        total-set_chain waiting_in w.chains q c inside,
        length-append (chain_at w q).waiting (e ∷ []),
      );
      bounded = omega (arith, open_lem.1);
      stopped = λ k. absurd (case_false (sym k ∙ open_lem.0));
      busy = λ i n. subst Busy (sym (get_or-set_chain_other w.chains q i c n)) (v.busy i);
    }

-- A writer whose counters and chains are right keeps them so through a submission without a handler:
-- at most 16384 packets wait, none waits behind an idle chain, none at all after a cancellation. The
-- packets written, dropped, waiting and under way grow by exactly one, mod 2 ^ 64.
pub async_write_and_forget-Counts :
    (w : TxWriter) (b : PacketBuffer) → IsWriter w → Counts w 1 (async_write_and_forget w b)
unfolding async_write_and_forget
async_write_and_forget-Counts w b v =
    if_both (Counts w 1) (is_full w) (λ e. count_dropped-Counts w v)
      (λ e. enqueue-Counts w b none v e)

-- A writer whose counters and chains are right keeps them so through a submission with a handler,
-- accepted or refused: at most 16384 packets wait, none waits behind an idle chain, none at all after
-- a cancellation. The packets written, dropped, waiting and under way grow by exactly one, mod 2 ^ 64.
pub async_write-Counts :
    (w : TxWriter) (b : PacketBuffer) (handler : ℕ)
    → IsWriter w
    → Counts w 1 (async_write w b handler)
unfolding async_write
async_write-Counts w b handler v =
    if_both (Counts w 1) (is_full w) (λ e. record_lem) (λ e. enqueue-Counts w b (some handler) v e)
  where
    record_lem :
        Counts w 1 (
          emit (count_dropped w) (completion handler (if w.cancelled then aborted else no_space) 0))
    record_lem = (
      record {
        many = v.many;
        count = v.count;
        bounded = v.bounded;
        stopped = v.stopped;
        busy = v.busy;
      },
      omega arith,
    )
