-- ===== src/Tcp/Machine/Receiving.antt =====
-- The receive path leaves the send side alone and moves the state by the peer's FIN only.
use tunio.Base.{
  ℕ, ◌≡◌, List, Bool, Option, none, some, arith, length, take, drop, min, ltb, ◌⊎◌, true,
}
use tunio.Account.{reserve}
use tunio.Tcp.Types.{ReadOp, Sys, read_done, success}
use tunio.Tcp.Machine.{SameState}
use tunio.Tcp.Output.{emit, send_ack, note_data_ack, notify_window_updated}
use tunio.Tcp.Output.Frames.{
  SameControl, send_ack-Quiet, flush_pending_ack-Quiet, note_data_ack-Quiet,
  notify_window_updated-Quiet, emit-Quiet,
}
use tunio.Tcp.Receive.{
  copy_loop, drop_packet, complete_read, consume, hand_out, compact, deliver_eof, flush_reads,
  handle_fin, count_fin, after_fin, after_fin_flow, enqueue, finish_direct, skip, deliver_direct,
  deliver_queued, deliver_reserved, deliver_data,
}

pub SameControl-refl : (s : Sys) → SameControl s s
SameControl-refl s = ground arith

pub SameControl-trans : {s t u : Sys} → SameControl s t → SameControl t u → SameControl s u
SameControl-trans a b = ground arith

complete_read-Same : (s : Sys) (o : Option ReadOp) → SameControl s (complete_read o s)
unfolding complete_read
complete_read-Same s none = SameControl-refl s
complete_read-Same s (some op) =
    let copied = copy_loop op.buffers (min op.total s.flow.rx_bytes) 0 in
    let t =
      emit (consume s copied)
        (read_done op.handler success copied (take copied (drop s.flow.rx_head s.flow.rx_data))) in
    ground (
      arith,
      emit-Quiet (consume s copied)
          (read_done op.handler success copied (take copied (drop s.flow.rx_head s.flow.rx_data))),
      notify_window_updated-Quiet t,
      flush_pending_ack-Quiet (notify_window_updated t),
    )

compact-Same : (s : Sys) → SameControl s (compact s)
unfolding compact
compact-Same s = ground arith

deliver_eof-Same : (s : Sys) (o : Option ReadOp) → SameControl s (deliver_eof o s)
unfolding deliver_eof emit
deliver_eof-Same s none = SameControl-refl s
deliver_eof-Same s (some op) = ground arith

pub flush_reads-Same : (s : Sys) → SameControl s (flush_reads s)
unfolding flush_reads
flush_reads-Same s =
    let read = complete_read s.flow.active_read s in
    SameControl-trans (complete_read-Same s s.flow.active_read) (
      SameControl-trans (compact-Same read)
        (deliver_eof-Same (compact read) (compact read).flow.active_read))

finish_direct-Same : (s : Sys) (more : Bool) → SameControl s (finish_direct s more)
unfolding finish_direct
finish_direct-Same s more =
    ground (arith, flush_reads-Same s, send_ack-Quiet s, send_ack-Quiet (flush_reads s))

deliver_reserved-Same :
    (o : Option ReadOp) (s : Sys) (bytes : List ℕ) → SameControl s (deliver_reserved o s bytes)
unfolding deliver_reserved deliver_queued deliver_direct
deliver_reserved-Same none s bytes =
    let t = enqueue s bytes (length bytes) in
    ground (arith, note_data_ack-Quiet t, flush_reads-Same (note_data_ack t))
deliver_reserved-Same (some op) s bytes =
    let t = enqueue s bytes (length bytes) in
    let n = min op.total (length bytes) in
    let e = read_done op.handler success n (take (copy_loop op.buffers n 0) bytes) in
    ground (
      arith,
      note_data_ack-Quiet t,
      flush_reads-Same (note_data_ack t),
      emit-Quiet (hand_out s n bytes) e,
      finish_direct-Same (emit (hand_out s n bytes) e) (ltb n (length bytes)),
    )

-- Delivering data changes nothing on the send side, and never the state.
pub deliver_data-Same : (s : Sys) (bytes : List ℕ) → SameControl s (deliver_data s bytes)
unfolding deliver_data drop_packet
deliver_data-Same s bytes =
    let r = record s {
      eng = record s.eng { account = (reserve s.eng.account (length bytes)).0 };
    } in
    ground (
      arith,
      send_ack-Quiet (skip s (length bytes)),
      deliver_reserved-Same s.flow.active_read r bytes,
    )

-- The peer's FIN.
pub state-handle_fin :
    (s : Sys) (fin_seq : ℕ)
    → SameState s (handle_fin s fin_seq)
      ⊎ (((handle_fin s fin_seq).flow.state ≡ after_fin s.flow.state)
          × ((handle_fin s fin_seq).flow.fin_sent ≡ s.flow.fin_sent)
          × ((handle_fin s fin_seq).flow.fin_received ≡ true))
unfolding handle_fin
state-handle_fin s fin_seq =
    let t = send_ack (count_fin s) in
    ground
      (arith, send_ack-Quiet s, send_ack-Quiet (count_fin s), flush_reads-Same (after_fin_flow t))
