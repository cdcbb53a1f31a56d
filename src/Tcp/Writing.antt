-- ===== src/Tcp/Writing.antt =====
-- src/tcp_engine.cpp: the sending of the user's data, with window probes and retransmission.
pub mod Chunks
pub mod Loop
pub mod Faults
use tunio.Base.{
  ℕ, zero, suc, ◌+◌, ◌-◌, ◌*◌, ◌≤◌, List, [], ◌∷◌, ◌++◌, Bool, true, false, ◌&&◌, ◌||◌, not, Option,
  none, some, u32, sub32, length, take, drop, min, ltb, leb, ◌==◌, if◌then◌else◌,
}
use tunio.Tcp.Types.{WriteOp, Flow, Sys, Segment}
use tunio.Tcp.Output.{tcp_ack, tcp_psh, mss, build_segment, send_segment}

-- The loop that skips the buffers in front of the write position: what is left, the index of its first
-- buffer, and the offset in it.
unfoldable pub locate : List (List ℕ) → ℕ → ℕ → List (List ℕ) × (ℕ × ℕ)
locate [] i off = ([], (i, off))
locate (b ∷ bs) i off =
    if leb (length b) off then locate bs (suc i) (off - length b) else (b ∷ bs, (i, off))

-- The buffers from the write position on, and the operation with the position found.
abbrev pub located : WriteOp → List (List ℕ) × (ℕ × ℕ)
located op = locate (drop op.buf_index op.buffers) op.buf_index op.buf_off

abbrev pub seek : WriteOp → WriteOp
seek op = record op { buf_index = (located op).1.0; buf_off = (located op).1.1 }

abbrev pub set_write : Sys → WriteOp → Sys
set_write s op = record s { flow = record s.flow { active_write = some op } }

-- The least of the bytes left, the bytes of this buffer, one segment, and the peer's free window.
unfoldable pub chunk_size : Sys → WriteOp → List ℕ → ℕ → ℕ
chunk_size s op buffer in_flight = min (op.total - op.offset) (
    min (length buffer - op.buf_off)
      (min (mss s.eng.cfg s.flow.key.family) (sub32 s.flow.peer_wnd in_flight)))

-- The sequence and the position move on when the segment is built.
unfoldable pub take_chunk : Sys → WriteOp → List ℕ → ℕ → Sys × Segment
take_chunk s op buffer chunk =
    let (t, g) =
      build_segment s s.flow.snd_nxt (tcp_ack + tcp_psh) (take chunk (drop op.buf_off buffer))
        false in
    (
      set_write (record t { flow = record t.flow { snd_nxt = u32 (t.flow.snd_nxt + chunk) } })
          (record op { offset = op.offset + chunk; buf_off = op.buf_off + chunk }),
      g,
    )

-- With the buffers from the position on: nothing is left, or a chunk of the first.
unfoldable pub next_chunk : Sys → WriteOp → List (List ℕ) → ℕ → Sys × Option Segment
next_chunk s op [] in_flight = (s, none)
next_chunk s op (b ∷ bs) in_flight =
    if chunk_size s op b in_flight == 0
    then (s, none)
    else (let (t, g) = take_chunk s op b (chunk_size s op b in_flight) in (t, some g))

-- `build_next_segment`; without a segment the source returns false.
unfoldable pub build_next_segment : Sys → WriteOp → ℕ → Sys × Option Segment
build_next_segment s op in_flight =
    next_chunk (set_write s (seek op)) (seek op) (located op).0 in_flight

-- One byte behind the window, without moving the sequence on.
unfoldable pub probe_with : Sys → WriteOp → List (List ℕ) → Sys
probe_with s op [] = s
probe_with s op (b ∷ bs) =
    if leb op.total op.offset
    then s
    else (let t = send_segment s s.flow.snd_nxt tcp_ack (take 1 (drop op.buf_off b)) false in
        record t { flow = record t.flow { probe_in_flight = true } })

unfoldable pub send_window_probe : Sys → WriteOp → Sys
send_window_probe s op = probe_with (set_write s (seek op)) (seek op) (located op).0

-- The buffers behind those that end at or before `off`, and where the first of them starts.
unfoldable pub skip_buffers : List (List ℕ) → ℕ → ℕ → List (List ℕ) × ℕ
skip_buffers [] base off = ([], base)
skip_buffers (b ∷ bs) base off =
    if leb (base + length b) off then skip_buffers bs (base + length b) off else (b ∷ bs, base)

-- How much of buffer `b` the next segment takes.
unfoldable pub resend_size : Sys → List ℕ → ℕ → ℕ → ℕ → ℕ → ℕ
resend_size s b base off last budget =
    min (last - off) (min (length b - (off - base)) (min budget (mss s.eng.cfg s.flow.key.family)))

-- The loop of `retransmit_unacked`; each round sends at least one byte, so `last - off` rounds do.
unfoldable pub resend : ℕ → Sys → ℕ → List (List ℕ) → ℕ → ℕ → ℕ → ℕ → Sys
resend zero s start_seq bs base off last budget = s
resend (suc fuel) s start_seq [] base off last budget = s
resend (suc fuel) s start_seq (b ∷ bs) base off last budget =
    let want = resend_size s b base off last budget in
    let sent =
      send_segment s (u32 (start_seq + off)) (tcp_ack + tcp_psh) (take want (drop (off - base) b))
        false in
    let past = leb (base + length b) (off + want) in
    let rest =
      resend fuel sent start_seq (if past then bs else b ∷ bs)
        (if past then base + length b else base) (off + want) last (budget - want) in
    if leb last off || (budget == 0 || want == 0) then s else rest

-- The unacknowledged part of the user's buffers, from `snd_una` on, at most `max_bytes`.
abbrev pub resend_op : Sys → WriteOp → ℕ → Sys
resend_op s op max_bytes =
    let off = sub32 s.flow.snd_una op.start_seq in
    let last = min (sub32 s.flow.snd_nxt op.start_seq) op.total in
    let (bs, base) = skip_buffers op.buffers 0 off in
    resend (last - off) s op.start_seq bs base off last max_bytes

unfoldable pub retransmit : Option WriteOp → Sys → ℕ → Sys
retransmit none s max_bytes = s
retransmit (some op) s max_bytes = resend_op s op max_bytes

unfoldable pub retransmit_unacked : Sys → ℕ → Sys
retransmit_unacked s max_bytes =
    if s.flow.snd_una == s.flow.snd_nxt then s else retransmit s.flow.active_write s max_bytes
