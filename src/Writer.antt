-- ===== src/Writer.antt =====
-- include/tunio/detail/tun_queue_writer.hpp: the queues in front of the device, one chain of writes each.
pub mod Pick
pub mod Accounting
pub mod Cancelling
pub mod Chains
pub mod Drain
pub mod Invariant
pub mod Order
pub mod Spread
use tunio.Base.{
  ℕ, zero, suc, ◌+◌, ◌-◌, ◌%◌, ◌^◌, List, [], ◌∷◌, ◌++◌, Bool, true, false, ◌&&◌, ◌||◌, not, Option,
  none, some, get_or, ltb, leb, ◌==◌, if◌then◌else◌, replicate, max,
}
use tunio.Config.{Stats, incr}
use tunio.Writer.Pick.{pick_tx_queue}

-- `packet_buffer`: what it holds, and what `acquire` compares.
pub record PacketBuffer : Type 0 where
  pub bytes : List ℕ
  pub capacity : ℕ
  pub headroom : ℕ

-- The error codes that the writer tells apart.
pub data WriteError : Type 0 where
  succeeded aborted no_space try_again : WriteError
  device_error : ℕ → WriteError

-- `entry`; the handler is an identity.
pub record Entry : Type 0 where
  pub buf : PacketBuffer
  pub handler : Option ℕ
  pub queue : ℕ
  pub retries_left : ℕ

-- `queue_state`
pub record Chain : Type 0 where
  pub waiting : List Entry
  pub current : Option Entry

-- A write given to the device, or a completion posted to a handler.
pub data Effect : Type 0 where
  device_write : ℕ → PacketBuffer → Effect
  completion : ℕ → WriteError → ℕ → Effect

-- The back of the pool stands first.
pub record TxWriter : Type 0 where
  pub queue_count : ℕ
  pub chains : List Chain
  pub pool : List PacketBuffer
  pub queued_total : ℕ
  pub cancelled : Bool
  pub stats : Stats
  pub out : List Effect

abbrev pub k_write_retry_limit : ℕ
k_write_retry_limit = 4096

abbrev pub k_queue_max_entries : ℕ
k_queue_max_entries = 16384

abbrev pub k_pool_max : ℕ
k_pool_max = 64

abbrev pub idle : Chain
idle = record { waiting = []; current = none }

-- The constructor's state.
unfoldable pub new_writer : ℕ → Stats → TxWriter
new_writer queue_count stats = record {
  queue_count = queue_count;
  chains = replicate (max 1 queue_count) idle;
  pool = [];
  queued_total = 0;
  cancelled = false;
  stats = stats;
  out = [];
}

abbrev pub pool_size : List PacketBuffer → ℕ
pool_size [] = 0
pool_size (b ∷ bs) = suc (pool_size bs)

-- The loop of `acquire`: what does not fit is thrown away.
unfoldable pub acquire_from : List PacketBuffer → ℕ → ℕ → List PacketBuffer × PacketBuffer
acquire_from [] capacity headroom =
    ([], record { bytes = []; capacity = capacity; headroom = headroom })
acquire_from (b ∷ bs) capacity headroom =
    let rest = acquire_from bs capacity headroom in
    if leb capacity b.capacity && b.headroom == headroom then (bs, b) else rest

unfoldable pub acquire : TxWriter → ℕ → ℕ → TxWriter × PacketBuffer
acquire w capacity headroom =
    let (pool, b) = acquire_from w.pool capacity headroom in (record w { pool = pool }, b)

unfoldable pub recycle : TxWriter → PacketBuffer → TxWriter
recycle w b =
    if ltb (pool_size w.pool) k_pool_max
    then record w { pool = record b { bytes = [] } ∷ w.pool }
    else w

-- `states_[q]`
abbrev pub chain_at : TxWriter → ℕ → Chain
chain_at w q = get_or w.chains q idle

abbrev pub set_chain : List Chain → ℕ → Chain → List Chain
set_chain [] q c = []
set_chain (x ∷ xs) zero c = c ∷ xs
set_chain (x ∷ xs) (suc q) c = x ∷ set_chain xs q c

abbrev pub emit : TxWriter → Effect → TxWriter
emit w e = record w { out = w.out ++ (e ∷ []) }

-- `start_write` on a chain whose current entry is `e`.
unfoldable pub start_write : TxWriter → Entry → TxWriter
start_write w e = emit w (device_write e.queue e.buf)

-- `pump`, by the cancellation and the chain's state.
unfoldable pub pump_chain : TxWriter → ℕ → Bool → Option Entry → List Entry → TxWriter
pump_chain w q true current waiting = w
pump_chain w q false (some e) waiting = w
pump_chain w q false none [] = w
pump_chain w q false none (e ∷ rest) =
    start_write
      (record w {
        chains = set_chain w.chains q (record { waiting = rest; current = some e });
        queued_total = w.queued_total - 1;
      })
      e

unfoldable pub pump : TxWriter → ℕ → TxWriter
pump w q = pump_chain w q w.cancelled (chain_at w q).current (chain_at w q).waiting

abbrev pub is_full : TxWriter → Bool
is_full w = w.cancelled || leb k_queue_max_entries w.queued_total

abbrev pub count_dropped : TxWriter → TxWriter
count_dropped w = record w { stats = record w.stats { tx_dropped = incr w.stats.tx_dropped } }

-- The part that `async_write_and_forget` and `async_write` share.
unfoldable pub enqueue : TxWriter → PacketBuffer → Option ℕ → TxWriter
enqueue w b handler =
    let q = pick_tx_queue b.bytes w.queue_count in
    let e : Entry = record {
      buf = b;
      handler = handler;
      queue = q;
      retries_left = k_write_retry_limit;
    } in
    let c = chain_at w q in
    pump
      (record w {
        chains = set_chain w.chains q (record c { waiting = c.waiting ++ (e ∷ []) });
        queued_total = w.queued_total + 1;
      })
      q

unfoldable pub async_write_and_forget : TxWriter → PacketBuffer → TxWriter
async_write_and_forget w b = if is_full w then count_dropped w else enqueue w b none

unfoldable pub async_write : TxWriter → PacketBuffer → ℕ → TxWriter
async_write w b handler =
    if is_full w
    then emit (count_dropped w) (completion handler (if w.cancelled then aborted else no_space) 0)
    else enqueue w b (some handler)

-- `is_transient_write_error`
abbrev pub is_transient : WriteError → Bool
is_transient no_space = true
is_transient try_again = true
is_transient _ = false

abbrev pub is_error : WriteError → Bool
is_error succeeded = false
is_error _ = true

unfoldable pub count_done : TxWriter → WriteError → TxWriter
count_done w code =
    if is_error code
    then count_dropped w
    else record w { stats = record w.stats { tx_packets = incr w.stats.tx_packets } }

-- `complete_write`, for an entry that has a handler.
unfoldable pub complete_write : TxWriter → Option ℕ → WriteError → ℕ → TxWriter
complete_write w none code n = w
complete_write w (some handler) code n = emit w (completion handler code n)

-- The rest of `on_write_done`, when nothing is tried again.
unfoldable pub finish : TxWriter → WriteError → ℕ → ℕ → Entry → TxWriter
finish w code n q e =
    let completed =
      if w.cancelled
      then complete_write (count_done w code) e.handler aborted 0
      else complete_write (count_done w code) e.handler code n in
    let recycled = recycle completed e.buf in
    pump
      (record recycled {
        chains = set_chain recycled.chains q (record (chain_at recycled q) { current = none });
      })
      q

-- `on_write_done` on the chain's current entry. The device reports only writes that were started.
unfoldable pub done_with : TxWriter → WriteError → ℕ → ℕ → Option Entry → TxWriter
done_with w code n q none = w
done_with w code n q (some e) =
    let again : Entry = record e { retries_left = e.retries_left - 1 } in
    if not w.cancelled && (is_transient code && ltb 0 e.retries_left)
    then start_write
        (record w {
          chains = set_chain w.chains q (record (chain_at w q) { current = some again });
        })
        again
    else finish w code n q e

unfoldable pub on_write_done : TxWriter → WriteError → ℕ → ℕ → TxWriter
on_write_done w code n q = done_with w code n q (chain_at w q).current

-- The loop of `cancel_all` over one queue, and over all of them.
unfoldable pub cancel_entries : TxWriter → List Entry → TxWriter
cancel_entries w [] = w
cancel_entries w (e ∷ es) =
    cancel_entries
      (complete_write
        (recycle (count_dropped (record w { queued_total = w.queued_total - 1 })) e.buf) e.handler
        aborted 0)
      es

unfoldable pub cancel_chains : TxWriter → List Chain → TxWriter
cancel_chains w [] = w
cancel_chains w (c ∷ cs) = cancel_chains (cancel_entries w c.waiting) cs

abbrev pub emptied : List Chain → List Chain
emptied [] = []
emptied (c ∷ cs) = record c { waiting = [] } ∷ emptied cs

unfoldable pub cancel_all : TxWriter → TxWriter
cancel_all w =
    let drained = cancel_chains (record w { cancelled = true }) w.chains in
    record drained { chains = emptied w.chains }
