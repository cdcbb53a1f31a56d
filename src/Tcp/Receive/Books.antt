-- ===== src/Tcp/Receive/Books.antt =====
-- The receive path keeps the books: what a flow holds is what the shared budget has booked for it.
use tunio.Base.{
  ℕ, ◌+◌, ◌-◌, ◌≤◌, ◌≡◌, inl, inr, List, [], ◌∷◌, Bool, Option, none, some, arith, length, take,
  drop, min, ltb, ◌==◌, length-append, length-drop, Bool-cases,
}
use tunio.Account.{reserve, release}
use tunio.Account.Laws.{IsValid}
use tunio.Tcp.Types.{OooSegment, ReadOp, Sys, read_done, success}
use tunio.Tcp.Output.{emit, send_ack, flush_pending_ack, notify_window_updated}
use tunio.Tcp.Output.Frames.{
  SameBooks, Quiet, send_ack-Quiet, flush_pending_ack-Quiet, note_data_ack-Quiet,
  notify_window_updated-Quiet, emit-Quiet,
}
use tunio.Tcp.Receive.{
  copy_loop, drop_packet, complete_read, consume, hand_out, compact, deliver_eof, flush_reads,
  handle_fin, count_fin, after_fin_flow, enqueue, finish_direct, skip, deliver_direct,
  deliver_queued, deliver_reserved, deliver_data,
}

-- The bytes in the reordering cache.
abbrev pub cache_bytes : List (ℕ × OooSegment) → ℕ
cache_bytes [] = 0
cache_bytes ((seq, seg) ∷ rest) = length seg.bytes + cache_bytes rest

-- The budget is respected and covers what the flow holds; the counters of the two queues are true
-- and within the flow's limit.
pub record Books (s : Sys) : Type 0 where
  pub budget : IsValid s.eng.account
  pub covered : s.flow.rx_bytes + s.flow.ooo_bytes ≤ s.eng.account.used
  pub queued : s.flow.rx_head + s.flow.rx_bytes ≡ length s.flow.rx_data
  pub cached : s.flow.ooo_bytes ≡ cache_bytes s.flow.segments
  pub rx_bound : s.flow.rx_bytes ≤ s.eng.cfg.max_rx_queue_per_flow
  pub ooo_bound : s.flow.ooo_bytes ≤ s.eng.cfg.max_rx_queue_per_flow

-- From `s` to `t` the budget changed by exactly what the flow took or gave back.
pub record Balanced (s t : Sys) : Type 0 where
  pub used :
      t.eng.account.used + (s.flow.rx_bytes + s.flow.ooo_bytes)
      ≡ s.eng.account.used + (t.flow.rx_bytes + t.flow.ooo_bytes)
  pub limit : t.eng.account.limit ≡ s.eng.account.limit
  pub cfg : t.eng.cfg ≡ s.eng.cfg

abbrev pub Kept : Sys → Sys → Type 0
Kept s t = Books t × Balanced s t

pub Kept-refl : {s : Sys} → Books s → Kept s s
Kept-refl b = ground arith

pub Kept-trans : {s t u : Sys} → Kept s t → Kept t u → Kept s u
Kept-trans h k = ground arith

-- What leaves the receive side alone keeps the books.
pub Kept-of_same : {s t : Sys} → Books s → SameBooks s t → Kept s t
Kept-of_same b q = ground arith

pub Kept-then : {s t u : Sys} → Kept s t → Quiet t u → Kept s u
Kept-then k q = Kept-trans k (Kept-of_same k.0 q.0)

pub copy_loop_bounds :
    (bs : List ℕ) (n copied : ℕ)
    → copied ≤ n
    → (copied ≤ copy_loop bs n copied) × (copy_loop bs n copied ≤ n)
unfolding copy_loop
copy_loop_bounds [] n copied h = omega arith
copy_loop_bounds (b ∷ bs) n copied h =
    ground (arith, copy_loop_bounds bs n (copied + min b (n - copied)))

module _ {s : Sys} (b : Books s) where
  drop_packet-Kept : Kept s (drop_packet s)
  unfolding drop_packet
  drop_packet-Kept = ground arith

  compact-Kept : Kept s (compact s)
  unfolding compact
  compact-Kept = ground (arith, length-drop s.flow.rx_head s.flow.rx_data)

  deliver_eof-Kept : (o : Option ReadOp) → Kept s (deliver_eof o s)
  unfolding deliver_eof emit
  deliver_eof-Kept none = Kept-refl b
  deliver_eof-Kept (some op) = ground arith

-- Reading at most what is queued.
consume-Kept : {s : Sys} (n : ℕ) → Books s → n ≤ s.flow.rx_bytes → Kept s (consume s n)
unfolding release
consume-Kept {s} n b h = ground arith

told-Quiet : (s : Sys) → Quiet s (flush_pending_ack (notify_window_updated s))
told-Quiet s =
    ground (arith, notify_window_updated-Quiet s, flush_pending_ack-Quiet (notify_window_updated s))

complete_read-Kept : {s : Sys} (o : Option ReadOp) → Books s → Kept s (complete_read o s)
unfolding complete_read
complete_read-Kept none b = Kept-refl b
complete_read-Kept {s} (some op) b = elim (Bool-cases (ltb 0 s.flow.rx_bytes)) [
  | inr nothing ↦ rw nothing (Kept-refl b)
  | inl waiting ↦
      let copied = copy_loop op.buffers (min op.total s.flow.rx_bytes) 0 in
      let fits : copied ≤ s.flow.rx_bytes =
        omega (arith, copy_loop_bounds op.buffers (min op.total s.flow.rx_bytes) 0) in
      rw waiting (
        Kept-then (Kept-then (consume-Kept copied b fits) (emit-Quiet (consume s copied) _))
          (told-Quiet _))
]

-- Completing reads keeps right books right, and the budget gets back exactly what the flow gave up.
pub flush_reads-Kept : {s : Sys} → Books s → Kept s (flush_reads s)
unfolding flush_reads
flush_reads-Kept {s} b =
    let read = complete_read-Kept s.flow.active_read b in
    let cut = compact-Kept read.0 in Kept-trans read (Kept-trans cut (deliver_eof-Kept cut.0 _))

-- A FIN, due or not, keeps right books right, and the budget changes by exactly what the flow gives back.
pub handle_fin-Kept : {s : Sys} (fin_seq : ℕ) → Books s → Kept s (handle_fin s fin_seq)
unfolding handle_fin
handle_fin-Kept {s} fin_seq b = elim (Bool-cases (fin_seq == s.flow.rcv_nxt)) [
  | inl due ↦ rw due (Kept-trans (acked count) (flush_reads-Kept (acked count).0))
  | inr other ↦ rw other (ground (arith, Kept-refl b, Kept-of_same b (send_ack-Quiet s).0))
]
  where
    count : Kept s (count_fin s)
    count = ground arith

    acked : Kept s (count_fin s) → Kept s (after_fin_flow (send_ack (count_fin s)))
    acked k = ground (arith, Kept-then k (send_ack-Quiet (count_fin s)))

finish_direct-Kept : {s : Sys} (more : Bool) → Books s → Kept s (finish_direct s more)
unfolding finish_direct
finish_direct-Kept {s} more b =
    ground
      (arith, Kept-refl b, flush_reads-Kept b, send_ack-Quiet s, send_ack-Quiet (flush_reads s))

-- A segment whose bytes were booked beforehand.
module _ {s : Sys} (bytes : List ℕ) (b : Books s)
    (fits : s.eng.account.used + length bytes ≤ s.eng.account.limit)
    (room : s.flow.rx_bytes + length bytes ≤ s.eng.cfg.max_rx_queue_per_flow) where
  abbrev booked : Sys
  booked = record s {
    eng = record s.eng {
      account = record s.eng.account { used = s.eng.account.used + length bytes };
    };
  }

  enqueue-Kept : Kept s (enqueue booked bytes (length bytes))
  enqueue-Kept = ground (arith, length-append s.flow.rx_data bytes)

  hand_out-Kept : (n : ℕ) → n ≤ length bytes → Kept s (hand_out booked n bytes)
  unfolding release
  hand_out-Kept n h =
      ground (arith, length-append s.flow.rx_data (drop n bytes), length-drop n bytes)

  deliver_queued-Kept : Kept s (deliver_queued booked bytes)
  unfolding deliver_queued
  deliver_queued-Kept =
      let noted =
        Kept-then enqueue-Kept (note_data_ack-Quiet (enqueue booked bytes (length bytes))) in
      Kept-trans noted (flush_reads-Kept noted.0)

  deliver_direct-Kept : (op : ReadOp) → Kept s (deliver_direct booked op bytes)
  unfolding deliver_direct
  deliver_direct-Kept op =
      let n = min op.total (length bytes) in
      let given = Kept-then (hand_out-Kept n (omega arith)) (
        emit-Quiet (hand_out booked n bytes)
          (read_done op.handler success n (take (copy_loop op.buffers n 0) bytes))) in
      Kept-trans given (finish_direct-Kept _ given.0)

  deliver_reserved-Kept : (o : Option ReadOp) → Kept s (deliver_reserved o booked bytes)
  unfolding deliver_reserved
  deliver_reserved-Kept none = deliver_queued-Kept
  deliver_reserved-Kept (some op) = ground (arith, deliver_queued-Kept, deliver_direct-Kept op)

-- Delivering a segment, on every path, keeps right books right, and the budget changes by exactly what the
-- flow took or gave back.
pub deliver_data-Kept : {s : Sys} (bytes : List ℕ) → Books s → Kept s (deliver_data s bytes)
unfolding deliver_data reserve
deliver_data-Kept {s} bytes b = ground (
  arith,
  Kept-refl b,
  drop_packet-Kept b,
  discarded,
  λ (f : s.eng.account.used + length bytes ≤ s.eng.account.limit)
        (r : s.flow.rx_bytes + length bytes ≤ s.eng.cfg.max_rx_queue_per_flow).
      deliver_reserved-Kept bytes b f r s.flow.active_read,
)
  where
    discarded : Kept s (send_ack (skip s (length bytes)))
    discarded = Kept-then (ground arith) (send_ack-Quiet (skip s (length bytes)))
