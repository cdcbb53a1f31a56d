-- ===== src/Tests/Tx.antt =====
-- The theorems on the writer, applied: two queues, one packet under way in each and one that waits.
use tunio.Base.{ℕ, zero, suc, ◌≡◌, refl, [], ◌∷◌, false, some, arith, if◌then◌else◌}
use tunio.Headers.{ip_protocol_tcp}
use tunio.Tcp.Output.{packet_bytes}
use tunio.Writer.{
  PacketBuffer, TxWriter, Entry, no_space, device_error, chain_at, async_write, on_write_done,
}
use tunio.Writer.Pick.{pick_tx_queue}
use tunio.Writer.Spread.{queue_of, pick_tx_queue-packet_bytes}
use tunio.Writer.Invariant.{IsWriter, Busy, Counts}
use tunio.Writer.Accounting.{on_write_done-Counts}
use tunio.Writer.Order.{pending, join, serve, is_retried, async_write-join, on_write_done-serve}
use tunio.Writer.Drain.{successes, Empty, successes-Empty}
use tunio.Tests.Samples.{sample_stats, sample_segment, source_ip, target_ip}
use tunio.Tests.Wire.{sample-IsSegment}

abbrev short_packet : PacketBuffer
short_packet = record { bytes = 1 ∷ 2 ∷ []; capacity = 1564; headroom = 64 }

abbrev other_packet : PacketBuffer
other_packet = record { bytes = 3 ∷ []; capacity = 1564; headroom = 64 }

abbrev entry : Entry
entry = record { buf = short_packet; handler = some 5; queue = 0; retries_left = 4096 }

abbrev waiting_entry : Entry
waiting_entry = record { buf = other_packet; handler = some 6; queue = 0; retries_left = 4096 }

abbrev sample_writer : TxWriter
sample_writer = record {
  queue_count = 2;
  chains =
      record { waiting = waiting_entry ∷ []; current = some entry }
      ∷ record { waiting = []; current = some (record entry { queue = 1 }) }
      ∷ [];
  pool = [];
  queued_total = 1;
  cancelled = false;
  stats = sample_stats;
  out = [];
}

sample-IsWriter : IsWriter sample_writer
sample-IsWriter = record {
  many = refl;
  count = refl;
  bounded = omega arith;
  stopped = λ h. cc;
  busy = λ i. at_index i;
}
  where
    at_index : (i : ℕ) → Busy (chain_at sample_writer i)
    at_index zero h = cc
    at_index (suc zero) h = cc
    at_index (suc (suc i)) h = refl

pick_tx_queue-packet_bytes_example :
    pick_tx_queue (packet_bytes sample_segment) 4
    ≡ queue_of 4 target_ip source_ip ip_protocol_tcp (1 ∷ 187 ∷ 156 ∷ 64 ∷ []) 4
pick_tx_queue-packet_bytes_example = pick_tx_queue-packet_bytes sample_segment 4 sample-IsSegment

on_write_done-Counts_example : Counts sample_writer 0 (on_write_done sample_writer no_space 0 0)
on_write_done-Counts_example = on_write_done-Counts sample_writer no_space 0 0 sample-IsWriter

async_write-join_example :
    pending (async_write sample_writer other_packet 8) 0
    ≡ join (pending sample_writer) (pick_tx_queue (3 ∷ []) 2) other_packet 0
async_write-join_example = async_write-join sample_writer other_packet 8 sample-IsWriter refl 0

on_write_done-serve_example : pending (on_write_done sample_writer (device_error 5) 0 0) 0 ≡ (
    if is_retried sample_writer (device_error 5) entry
    then pending sample_writer 0
    else serve (pending sample_writer) 0 0)
on_write_done-serve_example = on_write_done-serve sample_writer (device_error 5) 0 0 entry refl 0

successes-Empty_example :
    Empty sample_writer 0 entry (waiting_entry ∷ []) (successes (2 ∷ 1 ∷ []) sample_writer 0)
successes-Empty_example =
    successes-Empty sample_writer 0 entry (waiting_entry ∷ []) (2 ∷ 1 ∷ []) refl refl refl
