-- ===== src/Tcp/Receive/Reassembly.antt =====
-- The stream that the application gets: what its reads have returned and what waits to be read.
use tunio.Base.{
  ℕ, ◌+◌, ◌*◌, ◌≡◌, refl, sym, ap, ◌∙◌, List, [], ◌∷◌, ◌++◌, append-nil, append_assoc, Bool, false,
  not, ◌&&◌, ◌||◌, Option, none, some, length, take, drop, min, ltb, leb, ◌==◌, if_both,
  take-append-drop,
}
use tunio.Tcp.Types.{
  Effect, send, read_done, write_done, accept_done, signal_writer, spawn_writer, ReadOp, Sys,
  success,
}
use tunio.Tcp.Output.{
  tcp_ack, is_closed, emit, build_segment, send_segment, send_ack, note_data_ack, flush_pending_ack,
  notify_window_updated, current_wnd, mss,
}
use tunio.Tcp.Receive.{copy_loop, complete_read, consume, compact, deliver_eof, flush_reads}
use tunio.Tcp.Writing.Chunks.{drop-drop}

-- The bytes that the read completions among some effects carry, in order.
abbrev pub read_bytes : List Effect → List ℕ
read_bytes [] = []
read_bytes (read_done h err n bytes ∷ l) = bytes ++ read_bytes l
read_bytes (_ ∷ l) = read_bytes l

pub read_bytes-append : (l m : List Effect) → read_bytes (l ++ m) ≡ read_bytes l ++ read_bytes m
read_bytes-append [] m = refl
read_bytes-append (read_done h err n bytes ∷ l) m =
    ap (λ r. bytes ++ r) (read_bytes-append l m)
    ∙ sym (append_assoc bytes (read_bytes l) (read_bytes m))
read_bytes-append (send g ∷ l) m = read_bytes-append l m
read_bytes-append (write_done h err n ∷ l) m = read_bytes-append l m
read_bytes-append (accept_done h err i ∷ l) m = read_bytes-append l m
read_bytes-append (signal_writer i ∷ l) m = read_bytes-append l m
read_bytes-append (spawn_writer i ∷ l) m = read_bytes-append l m

-- Everything that arrived in order, as far as the application sees it.
unfoldable pub stream : Sys → List ℕ
stream s = read_bytes s.eng.out ++ drop s.flow.rx_head s.flow.rx_data

-- `t` has the stream of `s` and expects the same byte next.
pub record SameStream (s t : Sys) : Type 0 where
  pub stream : stream t ≡ stream s
  pub rcv_nxt : t.flow.rcv_nxt ≡ s.flow.rcv_nxt

pub SameStream-refl : (s : Sys) → SameStream s s
SameStream-refl s = record { stream = refl; rcv_nxt = refl }

pub SameStream-trans : {s t u : Sys} → SameStream s t → SameStream t u → SameStream s u
SameStream-trans a b = record { stream = b.stream ∙ a.stream; rcv_nxt = b.rcv_nxt ∙ a.rcv_nxt }

-- An effect without bytes.
stream_emit : (s : Sys) (e : Effect) → read_bytes (e ∷ []) ≡ [] → SameStream s (emit s e)
unfolding emit stream
stream_emit s e h = record {
  stream =
      ap (λ r. r ++ drop s.flow.rx_head s.flow.rx_data)
        (read_bytes-append s.eng.out (e ∷ [])
          ∙ (ap (λ r. read_bytes s.eng.out ++ r) h ∙ append-nil (read_bytes s.eng.out)));
  rcv_nxt = refl;
}

stream_send :
    (s : Sys) (seq flags : ℕ) (payload : List ℕ) (with_mss : Bool)
    → SameStream s (send_segment s seq flags payload with_mss)
unfolding send_segment build_segment
stream_send s seq flags payload with_mss =
    if_both (SameStream s) (is_closed s.flow.state) (λ _. SameStream-refl s)
      (λ _. SameStream-trans quiet (stream_emit _ _ refl))
  where
    quiet :
        SameStream s
          (build_segment
            (record s { flow = record s.flow { ack_pending = false } })
            seq
            flags
            payload
            with_mss).0
    quiet = unfold build_segment in unfold stream in record { stream = refl; rcv_nxt = refl }

pub stream_ack : (s : Sys) → SameStream s (send_ack s)
unfolding send_ack
stream_ack s = stream_send s s.flow.snd_nxt tcp_ack [] false

stream_flush_ack : (s : Sys) → SameStream s (flush_pending_ack s)
unfolding flush_pending_ack
stream_flush_ack s =
    if_both (SameStream s) s.flow.ack_pending (λ _. stream_ack s) (λ _. SameStream-refl s)

pub stream_note_ack : (s : Sys) → SameStream s (note_data_ack s)
unfolding note_data_ack stream
stream_note_ack s =
    if_both (SameStream s) s.flow.ack_pending (λ _. stream_ack s)
      (λ _. record { stream = refl; rcv_nxt = refl })

stream_window : (s : Sys) → SameStream s (notify_window_updated s)
unfolding notify_window_updated stream
stream_window s =
    if_both (SameStream s) (is_closed s.flow.state) (λ _. SameStream-refl s)
      (λ _.
        SameStream-trans
          (if_both (SameStream s)
            ((last == 0 && leb m wnd) || (not (last == 0) && ltb (last + m) wnd))
            (λ _. stream_ack s) (λ _. SameStream-refl s))
          (record { stream = refl; rcv_nxt = refl }))
  where
    last : ℕ
    last = s.flow.last_wnd_advertised

    wnd : ℕ
    wnd = current_wnd s

    m : ℕ
    m = mss s.eng.cfg s.flow.key.family

-- The bytes that a read takes move from the queue to its completion.
stream_read :
    (s : Sys) (h n c : ℕ)
    → SameStream s
        (emit (consume s c) (read_done h success n (take c (drop s.flow.rx_head s.flow.rx_data))))
unfolding emit stream
stream_read s h n c = record {
  stream =
      ap (λ r. r ++ drop (s.flow.rx_head + c) s.flow.rx_data)
        (read_bytes-append s.eng.out (read_done h success n (take c waiting) ∷ [])
          ∙ ap (λ r. read_bytes s.eng.out ++ r) (append-nil (take c waiting)))
      ∙ (append_assoc (read_bytes s.eng.out) (take c waiting)
            (drop (s.flow.rx_head + c) s.flow.rx_data)
          ∙ ap (λ r. read_bytes s.eng.out ++ r)
              (ap (λ r. take c waiting ++ r)
                  (sym (drop-drop s.flow.rx_head c (s.flow.rx_head + c) s.flow.rx_data refl))
                ∙ take-append-drop c waiting));
  rcv_nxt = refl;
}
  where
    waiting : List ℕ
    waiting = drop s.flow.rx_head s.flow.rx_data

stream_complete : (s : Sys) (o : Option ReadOp) → SameStream s (complete_read o s)
unfolding complete_read
stream_complete s none = SameStream-refl s
stream_complete s (some op) =
    if_both (SameStream s) (ltb 0 s.flow.rx_bytes)
      (λ _.
        SameStream-trans
          (stream_read s op.handler _ (copy_loop op.buffers (min op.total s.flow.rx_bytes) 0))
          (SameStream-trans (stream_window _) (stream_flush_ack _)))
      (λ _. SameStream-refl s)

stream_compact : (s : Sys) → SameStream s (compact s)
unfolding compact stream
stream_compact s =
    if_both (SameStream s)
      (ltb 0 s.flow.rx_head && leb (length s.flow.rx_data) (s.flow.rx_head * 2))
      (λ _. record { stream = refl; rcv_nxt = refl }) (λ _. SameStream-refl s)

stream_eof : (s : Sys) (o : Option ReadOp) → SameStream s (deliver_eof o s)
unfolding deliver_eof
stream_eof s none = SameStream-refl s
stream_eof s (some op) =
    if_both (SameStream s) (s.flow.rx_bytes == 0 && s.flow.fin_received)
      (λ _.
        SameStream-trans {t = record s { flow = record s.flow { active_read = none } }}
          (unfold stream in record { stream = refl; rcv_nxt = refl })
          (stream_emit (record s { flow = record s.flow { active_read = none } }) _ refl))
      (λ _. SameStream-refl s)

-- Completing reads loses, repeats and reorders nothing: the bytes handed out and the bytes still queued
-- together stay the same stream, and no sequence number is consumed.
pub flush_reads-SameStream : (s : Sys) → SameStream s (flush_reads s)
unfolding flush_reads
flush_reads-SameStream s =
    SameStream-trans (stream_complete s s.flow.active_read)
      (SameStream-trans (stream_compact _) (stream_eof _ _))
