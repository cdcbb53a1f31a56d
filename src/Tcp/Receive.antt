-- ===== src/Tcp/Receive.antt =====
-- src/tcp_engine.cpp: delivery to the application, and the order of arrival.
pub mod Reassembly
pub mod Delivery
pub mod Books
use tunio.Base.{
  ℕ, ◌+◌, ◌-◌, ◌*◌, ◌%◌, ◌^◌, List, [], ◌∷◌, ◌++◌, Bool, true, false, ◌&&◌, ◌||◌, not, Option, none,
  some, u32, length, take, drop, min, ltb, leb, ◌==◌, if◌then◌else◌,
}
use tunio.Config.{incr}
use tunio.Seq.{seq_gt}
use tunio.Account.{reserve, release}
use tunio.Tcp.Types.{
  TcpState, established, fin_wait_2, close_wait, time_wait, success, eof, ReadOp, Engine, Sys,
  Effect, read_done,
}
use tunio.Tcp.Output.{
  is_closed, send_ack, note_data_ack, flush_pending_ack, notify_window_updated, emit,
}

-- The copy loop over the user's buffers: how much of `n` bytes it has copied at the end.
unfoldable pub copy_loop : List ℕ → ℕ → ℕ → ℕ
copy_loop [] n copied = copied
copy_loop (b ∷ bs) n copied =
    if leb n copied then copied else copy_loop bs n (copied + min b (n - copied))

unfoldable pub drop_packet : Sys → Sys
drop_packet s = record s {
  eng = record s.eng { stats = record s.eng.stats { rx_dropped = incr s.eng.stats.rx_dropped } };
}

-- The queue and the budget after a read of `copied` bytes.
abbrev pub consume : Sys → ℕ → Sys
consume s copied =
    let f = s.flow in
    record {
      flow = record f {
        active_read = none;
        rx = record f.rx { rx_head = f.rx_head + copied; rx_bytes = f.rx_bytes - copied };
      };
      eng = record s.eng { account = release s.eng.account copied };
    }

-- The first part of `flush_reads`: a waiting read takes what is queued.
unfoldable pub complete_read : Option ReadOp → Sys → Sys
complete_read none s = s
complete_read (some op) s =
    if ltb 0 s.flow.rx_bytes
    then (let copied = copy_loop op.buffers (min op.total s.flow.rx_bytes) 0 in
        flush_pending_ack (
          notify_window_updated (
            emit (consume s copied) (
              read_done op.handler success copied
                (take copied (drop s.flow.rx_head s.flow.rx_data))))))
    else s

-- The second part: the consumed front is cut off once it is half of the buffer.
unfoldable pub compact : Sys → Sys
compact s =
    let f = s.flow in
    if ltb 0 f.rx_head && leb (length f.rx_data) (f.rx_head * 2)
    then (record s {
      flow = record f { rx = record f.rx { rx_data = drop f.rx_head f.rx_data; rx_head = 0 } };
    })
    else s

-- The third part: with nothing left, a read that waits behind the FIN ends with `eof`.
unfoldable pub deliver_eof : Option ReadOp → Sys → Sys
deliver_eof none s = s
deliver_eof (some op) s =
    if s.flow.rx_bytes == 0 && s.flow.fin_received
    then emit (record s { flow = record s.flow { active_read = none } })
        (read_done op.handler eof 0 [])
    else s

unfoldable pub flush_reads : Sys → Sys
flush_reads s =
    let t = compact (complete_read s.flow.active_read s) in deliver_eof t.flow.active_read t

-- The state after the peer's FIN.
abbrev pub after_fin : TcpState → TcpState
after_fin established = close_wait
after_fin fin_wait_2 = time_wait
after_fin st = st

abbrev pub is_fin_wait_2 : TcpState → Bool
is_fin_wait_2 fin_wait_2 = true
is_fin_wait_2 _ = false

-- The FIN counts once.
abbrev pub count_fin : Sys → Sys
count_fin s = if s.flow.fin_received then s else (record s {
  flow = record s.flow { rcv_nxt = u32 (s.flow.rcv_nxt + 1); fin_received = true };
})

-- The switch on the state.
abbrev pub after_fin_flow : Sys → Sys
after_fin_flow t = record t {
  flow = record t.flow {
    state = after_fin t.flow.state;
    destroy_at =
        if is_fin_wait_2 t.flow.state
        then t.eng.now + t.eng.cfg.tcp_time_wait_timeout
        else t.flow.destroy_at;
  };
}

unfoldable pub handle_fin : Sys → ℕ → Sys
handle_fin s fin_seq =
    if fin_seq == s.flow.rcv_nxt
    then flush_reads (after_fin_flow (send_ack (count_fin s)))
    else if s.flow.fin_received && fin_seq == u32 (s.flow.rcv_nxt + 2 ^ 32 - 1)
    then send_ack s
    else s

-- Bytes join the queue and the sequence moves on.
abbrev pub enqueue : Sys → List ℕ → ℕ → Sys
enqueue s bytes len =
    let f = s.flow in
    record s {
      flow = record f {
        rcv_nxt = u32 (f.rcv_nxt + len);
        rx = record f.rx { rx_data = f.rx_data ++ bytes; rx_bytes = f.rx_bytes + length bytes };
      };
    }

-- The first `n` bytes leave the budget and the rest joins the queue.
abbrev pub hand_out : Sys → ℕ → List ℕ → Sys
hand_out s n bytes =
    let t = enqueue s (drop n bytes) (length bytes) in
    record {
      flow = record t.flow { active_read = none };
      eng = record t.eng { account = release t.eng.account n };
    }

-- The direct path: with an empty queue the waiting read gets the bytes at once, and the rest of the
-- segment is queued before the completion is posted.
-- Behind the completion: nothing more on a flow that was closed, and else an acknowledgement.
unfoldable pub finish_direct : Sys → Bool → Sys
finish_direct s more =
    if is_closed s.flow.state then s else send_ack (if more then flush_reads s else s)

unfoldable pub deliver_direct : Sys → ReadOp → List ℕ → Sys
deliver_direct s op bytes =
    let n = min op.total (length bytes) in
    finish_direct
      (emit (hand_out s n bytes)
        (read_done op.handler success n (take (copy_loop op.buffers n 0) bytes)))
      (ltb n (length bytes))

unfoldable pub deliver_queued : Sys → List ℕ → Sys
deliver_queued s bytes = flush_reads (note_data_ack (enqueue s bytes (length bytes)))

abbrev pub is_empty {ℓ} : {A : Type ℓ} → List A → Bool
is_empty [] = true
is_empty (x ∷ xs) = false

-- Behind the reservation: direct or queued.
unfoldable pub deliver_reserved : Option ReadOp → Sys → List ℕ → Sys
deliver_reserved none s bytes = deliver_queued s bytes
deliver_reserved (some op) s bytes =
    if is_empty s.flow.rx_data then deliver_direct s op bytes else deliver_queued s bytes

-- The sequence moves on past bytes that nobody will read.
abbrev pub skip : Sys → ℕ → Sys
skip s len = record s { flow = record s.flow { rcv_nxt = u32 (s.flow.rcv_nxt + len) } }

unfoldable pub deliver_data : Sys → List ℕ → Sys
deliver_data s bytes =
    let len = length bytes in
    if len == 0
    then s
    else if s.flow.rx_shutdown
    then send_ack (skip s len)
    else if ltb s.eng.cfg.max_rx_queue_per_flow (s.flow.rx_bytes + len)
    then drop_packet s
    else (let (account, fits) = reserve s.eng.account len in
        if fits
        then deliver_reserved s.flow.active_read
            (record s { eng = record s.eng { account = account } }) bytes
        else drop_packet s)
