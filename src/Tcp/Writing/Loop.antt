-- ===== src/Tcp/Writing/Loop.antt =====
-- `write_loop` of src/tcp_engine.cpp: one step from the head of its loop to the next suspension, and
-- one step from there back to the head, for each way in which the wait can end.
use tunio.Base.{
  ℕ, suc, ◌+◌, ◌*◌, Bool, true, false, ◌&&◌, ◌||◌, not, Option, none, some, u32, sub32, min, ltb,
  ◌==◌, if◌then◌else◌,
}
use tunio.Tcp.Types.{
  TcpState, established, success, connection_reset, bad_descriptor, Channel, absent, opened,
  WriteOp, Sys, Segment, write_done, send,
}
use tunio.Tcp.Output.{is_closed, mss, emit}
use tunio.Tcp.Lifecycle.{abort_flow}
use tunio.Tcp.Writing.{build_next_segment, send_window_probe, retransmit_unacked}

abbrev pub backoff_max : ℕ
backoff_max = 60000

-- Where the coroutine stands. A wait keeps the end of the data that it was entered with; `faulted` is
-- the access of an operation that is no longer there.
pub data Point : Type 0 where
  at_head : Point
  handshake_wait : ℕ → Point
  window_wait : ℕ → Point
  device_wait : Point
  ack_wait : ℕ → Point
  finished : Point
  faulted : Point

-- The coroutine's variables.
pub record Writer : Type 0 where
  pub point : Point
  pub persist_interval : ℕ
  pub persist_probes : ℕ
  pub rto : ℕ
  pub retransmits : ℕ
  pub last_una : ℕ

-- How a wait ends: a signal on the channel (or its closing), the timer, the device's write.
pub data Wake : Type 0 where
  signalled timed_out written write_failed : Wake

abbrev pub goto : Writer → Point → Writer
goto w p = record w { point = p }

abbrev pub is_established : TcpState → Bool
is_established established = true
is_established _ = false

abbrev pub open_channel : Channel → Channel
open_channel absent = opened
open_channel c = c

-- The prologue: the channel, the sequence number of the first byte, the timers.
unfoldable pub start : Option WriteOp → Sys → Sys × Writer
start none s = (
  s,
  record {
    point = finished;
    persist_interval = s.eng.cfg.tcp_persist_timeout;
    persist_probes = 0;
    rto = s.eng.cfg.tcp_rto_timeout;
    retransmits = 0;
    last_una = s.flow.snd_una;
  },
)
start (some op) s = (
  record s {
    flow = record s.flow {
      write_ch = open_channel s.flow.write_ch;
      active_write = some (record op { start_seq = s.flow.snd_nxt });
    };
  },
  record {
    point = at_head;
    persist_interval = s.eng.cfg.tcp_persist_timeout;
    persist_probes = 0;
    rto = s.eng.cfg.tcp_rto_timeout;
    retransmits = 0;
    last_una = s.flow.snd_una;
  },
)

-- Behind the loop: an operation that is still there ends with an error.
unfoldable pub epilogue : Option WriteOp → Sys → Writer → Sys × Writer
epilogue none s w = (s, goto w finished)
epilogue (some op) s w = (
  emit (record s { flow = record s.flow { active_write = none } })
      (write_done op.handler (if s.flow.rst then connection_reset else bad_descriptor) 0),
  goto w finished,
)

abbrev pub leave : Sys → Writer → Sys × Writer
leave s w = epilogue s.flow.active_write s w

-- The next chunk goes to the device, or there is none.
unfoldable pub write_chunk : Sys × Option Segment → Writer → Sys × Writer
write_chunk (s, none) w = leave s w
write_chunk (s, some g) w = (emit s (send g), goto w device_wait)

abbrev pub write_end : WriteOp → ℕ
write_end op = u32 (op.start_seq + op.total)

-- All data are acknowledged: the operation succeeds.
abbrev pub complete : Sys → WriteOp → Writer → Sys × Writer
complete s op w = (
  emit (record s { flow = record s.flow { active_write = none } })
      (write_done op.handler success op.total),
  goto w finished,
)

-- One pass of the loop body with an operation, up to the next suspension.
unfoldable pub pass : Sys → WriteOp → Writer → Sys × Writer
pass s op w =
    let in_flight = sub32 s.flow.snd_nxt s.flow.snd_una in
    if op.offset == op.total && s.flow.snd_una == write_end op
    then complete s op w
    else if not (is_established s.flow.state) && not op.implicit_accept
    then (s, goto w (handshake_wait (write_end op)))
    else if s.flow.peer_wnd == 0
    then (s, goto w (window_wait (write_end op)))
    else if ltb op.offset op.total && ltb in_flight s.flow.peer_wnd
    then write_chunk (build_next_segment s op in_flight) w
    else if not (s.flow.snd_una == w.last_una)
    then (s, record w { last_una = s.flow.snd_una })
    else (s, goto w (ack_wait (write_end op)))

-- The loop's condition.
unfoldable pub head : Option WriteOp → Sys → Writer → Sys × Writer
head none s w = leave s w
head (some op) s w = if is_closed s.flow.state || s.flow.rst then leave s w else pass s op w

-- A probe: the next unsent byte, or the first unacknowledged segment again.
unfoldable pub probe : Option WriteOp → Sys → Writer → ℕ → Sys × Writer
probe none s w last = (s, goto w faulted)
probe (some op) s w last = (
  if ltb op.offset op.total
      then send_window_probe s op
      else if not (s.flow.snd_una == last)
      then retransmit_unacked s (mss s.eng.cfg s.flow.key.family)
      else s,
  record w {
    point = at_head;
    persist_interval =
        if ltb w.persist_interval backoff_max
        then min (w.persist_interval * 2) backoff_max
        else w.persist_interval;
  },
)

-- The persist timer fired: the probe is counted first.
abbrev pub persist : Sys → Writer → ℕ → Sys × Writer
persist s w last =
    let counted = record w { persist_probes = suc w.persist_probes } in
    if ltb s.eng.cfg.tcp_persist_max_probes (suc w.persist_probes)
    then (let t = abort_flow s in leave t counted)
    else probe s.flow.active_write s counted last

abbrev pub reset_persist : Sys → Writer → Writer
reset_persist s w = record w {
  point = at_head;
  persist_probes = 0;
  persist_interval = s.eng.cfg.tcp_persist_timeout;
}

abbrev pub reset_rto : Sys → Writer → Writer
reset_rto s w = record w {
  point = at_head;
  rto = s.eng.cfg.tcp_rto_timeout;
  retransmits = 0;
  last_una = s.flow.snd_una;
}

-- The retransmission timer fired.
abbrev pub expire_rto : Sys → Writer → ℕ → Sys × Writer
expire_rto s w last =
    let counted = record w { retransmits = suc w.retransmits } in
    if not (s.flow.snd_una == w.last_una)
    then (s, reset_rto s w)
    else if ltb s.eng.cfg.tcp_rto_max_retransmits (suc w.retransmits)
    then (let t = abort_flow s in leave t counted)
    else (
      if s.flow.snd_una == last then s else retransmit_unacked s s.flow.peer_wnd,
      record counted {
        point = at_head;
        rto = min (w.rto * 2) backoff_max;
        last_una = s.flow.snd_una;
      },
    )

-- The wait for acknowledgements ended by a signal.
abbrev pub ack_signalled : Sys → Writer → Writer
ack_signalled s w =
    if s.flow.snd_una == w.last_una
    then record w { point = at_head; last_una = s.flow.snd_una }
    else reset_rto s w

-- Back from a device write: on an error, or with the operation gone, the loop ends.
unfoldable pub after_write : Option WriteOp → Sys → Writer → Wake → Sys × Writer
after_write o s w write_failed = leave s w
after_write none s w wake = leave s w
after_write (some op) s w wake = (s, goto w at_head)

unfoldable pub wake_window : Wake → Sys → Writer → ℕ → Sys × Writer
wake_window timed_out s w last = persist s w last
wake_window _ s w last = (s, reset_persist s w)

unfoldable pub wake_ack : Wake → Sys → Writer → ℕ → Sys × Writer
wake_ack timed_out s w last = expire_rto s w last
wake_ack _ s w last = (s, ack_signalled s w)

unfoldable pub resume_at : Point → Wake → Sys → Writer → Sys × Writer
resume_at at_head wake s w = head s.flow.active_write s w
resume_at (handshake_wait last) wake s w = (s, goto w at_head)
resume_at (window_wait last) wake s w = wake_window wake s w last
resume_at device_wait wake s w = after_write s.flow.active_write s w wake
resume_at (ack_wait last) wake s w = wake_ack wake s w last
resume_at finished wake s w = (s, w)
resume_at faulted wake s w = (s, w)

-- One step of the coroutine; at the loop's head it needs no event.
unfoldable pub write_step : Wake → Sys × Writer → Sys × Writer
write_step wake (s, w) = resume_at w.point wake s w
