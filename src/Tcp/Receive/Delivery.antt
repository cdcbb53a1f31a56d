-- ===== src/Tcp/Receive/Delivery.antt =====
-- The delivery of an arriving segment to the stream.
use tunio.Base.{
  ℕ, ◌+◌, ◌-◌, ◌≤◌, ◌≡◌, refl, sym, ap, ◌∙◌, List, [], ◌∷◌, ◌++◌, append-nil, append_assoc, Bool,
  true, false, Option, none, some, arith, length, take, drop, min, ltb, ◌==◌, u32, if_both,
  take-append-drop, drop-append,
}
use tunio.Account.{reserve}
use tunio.Account.Laws.{reserve_iff, reserve-IsValid}
use tunio.Tcp.Types.{read_done, ReadOp, Sys, success}
use tunio.Tcp.Output.{is_closed, emit}
use tunio.Tcp.Receive.{
  copy_loop, drop_packet, hand_out, enqueue, finish_direct, deliver_direct, deliver_queued,
  deliver_reserved, deliver_data, is_empty,
}
use tunio.Tcp.Receive.Books.{Books}
use tunio.Tcp.Receive.Reassembly.{
  read_bytes, read_bytes-append, stream, SameStream, SameStream-refl, SameStream-trans, stream_ack,
  stream_note_ack, flush_reads-SameStream,
}

abbrev pub total_size : List ℕ → ℕ
total_size [] = 0
total_size (b ∷ bs) = b + total_size bs

-- A waiting read states no more than its buffers hold.
abbrev pub Fits : Option ReadOp → Type 0
Fits none = Unit {0}
Fits (some op) = op.total ≤ total_size op.buffers

-- Buffers with room enough are filled with all there is.
copy_loop_full :
    (bs : List ℕ) (n copied : ℕ)
    → copied ≤ n
    → n ≤ copied + total_size bs
    → copy_loop bs n copied ≡ n
unfolding copy_loop
copy_loop_full [] n copied h k = omega arith
copy_loop_full (b ∷ bs) n copied h k =
    ground (arith, copy_loop_full bs n (copied + min b (n - copied)))

-- From `s` to `t` the stream grew by `bytes`, and the sequence by their number.
pub record Grown (s : Sys) (bytes : List ℕ) (t : Sys) : Type 0 where
  pub stream : stream t ≡ stream s ++ bytes
  pub rcv_nxt : t.flow.rcv_nxt ≡ u32 (s.flow.rcv_nxt + length bytes)

Grown-then : {s t u : Sys} {bytes : List ℕ} → Grown s bytes t → SameStream t u → Grown s bytes u
Grown-then g q = record { stream = q.stream ∙ g.stream; rcv_nxt = q.rcv_nxt ∙ g.rcv_nxt }

enqueue-Grown :
    (s : Sys) (bytes : List ℕ) → Books s → Grown s bytes (enqueue s bytes (length bytes))
unfolding stream
enqueue-Grown s bytes b = record {
  stream =
      ap (λ r. read_bytes s.eng.out ++ r)
        (drop-append s.flow.rx_data bytes s.flow.rx_head (omega (arith, b.queued)))
      ∙ sym (append_assoc (read_bytes s.eng.out) (drop s.flow.rx_head s.flow.rx_data) bytes);
  rcv_nxt = refl;
}

deliver_queued-Grown : (s : Sys) (bytes : List ℕ) → Books s → Grown s bytes (deliver_queued s bytes)
unfolding deliver_queued
deliver_queued-Grown s bytes b =
    Grown-then (Grown-then (enqueue-Grown s bytes b) (stream_note_ack _)) (flush_reads-SameStream _)

-- With an empty queue: the front of the segment goes to the read and the rest becomes the queue.
handed_out :
    (s : Sys) (h n c k : ℕ) (bytes : List ℕ)
    → s.flow.rx_data ≡ []
    → s.flow.rx_head ≡ 0
    → c ≡ k
    → Grown s bytes (emit (hand_out s k bytes) (read_done h success n (take c bytes)))
unfolding stream emit
handed_out s h n c k bytes none_queued at_front same = record {
  stream =
      ap (λ r. r ++ drop s.flow.rx_head (s.flow.rx_data ++ drop k bytes))
        (read_bytes-append s.eng.out (read_done h success n (take c bytes) ∷ [])
          ∙ ap (λ r. read_bytes s.eng.out ++ r) (append-nil (take c bytes)))
      ∙ (append_assoc (read_bytes s.eng.out) (take c bytes)
            (drop s.flow.rx_head (s.flow.rx_data ++ drop k bytes))
          ∙ (ap (λ r. read_bytes s.eng.out ++ (take c bytes ++ r)) rest
              ∙ (ap (λ i. read_bytes s.eng.out ++ (take i bytes ++ drop k bytes)) same
                  ∙ (ap (λ r. read_bytes s.eng.out ++ r) (take-append-drop k bytes)
                      ∙ ap (λ r. r ++ bytes) before))));
  rcv_nxt = refl;
}
  where
    rest : drop s.flow.rx_head (s.flow.rx_data ++ drop k bytes) ≡ drop k bytes
    rest =
        ap (λ i. drop i (s.flow.rx_data ++ drop k bytes)) at_front
        ∙ ap (λ d. d ++ drop k bytes) none_queued

    before : read_bytes s.eng.out ≡ read_bytes s.eng.out ++ drop s.flow.rx_head s.flow.rx_data
    before = sym (
        ap (λ r. read_bytes s.eng.out ++ r) (ap (λ i. drop i s.flow.rx_data) at_front ∙ none_queued)
        ∙ append-nil (read_bytes s.eng.out))

finish_direct-SameStream : (s : Sys) (more : Bool) → SameStream s (finish_direct s more)
unfolding finish_direct
finish_direct-SameStream s more =
    if_both (SameStream s) (is_closed s.flow.state) (λ _. SameStream-refl s)
      (λ _.
        SameStream-trans
          (if_both (SameStream s) more (λ _. flush_reads-SameStream s) (λ _. SameStream-refl s))
          (stream_ack _))

case_false : true ≡ false → ⊥
case_false e = cc

empty_data : (xs : List ℕ) → is_empty xs ≡ true → xs ≡ []
empty_data [] e = refl
empty_data (x ∷ xs) e = cc

deliver_reserved-Grown :
    (s : Sys) (o : Option ReadOp) (bytes : List ℕ)
    → Books s
    → Fits o
    → Grown s bytes (deliver_reserved o s bytes)
unfolding deliver_reserved deliver_direct
deliver_reserved-Grown s none bytes b f = deliver_queued-Grown s bytes b
deliver_reserved-Grown s (some op) bytes b f =
    if_both (Grown s bytes) (is_empty s.flow.rx_data)
      (λ e.
        let none_queued = empty_data s.flow.rx_data e in
        Grown-then
          (handed_out s op.handler _ _ _ bytes none_queued
            (omega (arith, b.queued, ap length none_queued))
            (copy_loop_full op.buffers (min op.total (length bytes)) 0 (omega arith)
              (omega (arith, f))))
          (finish_direct-SameStream _ _))
      (λ _. deliver_queued-Grown s bytes b)

-- The flow with the segment's bytes booked in advance.
abbrev booked : Sys → ℕ → Sys
booked s n = record s { eng = record s.eng { account = (reserve s.eng.account n).0 } }

booked-Books : (s : Sys) (n : ℕ) → Books s → Books (booked s n)
booked-Books s n b =
    ground (arith, reserve_iff s.eng.account n, reserve-IsValid s.eng.account n b.budget)

from_booked :
    {s : Sys} {bytes : List ℕ} (n : ℕ) {t : Sys} → Grown (booked s n) bytes t → Grown s bytes t
unfolding stream
from_booked n g = record { stream = g.stream; rcv_nxt = g.rcv_nxt }

-- The segment fits the flow's queue and the shared budget.
abbrev pub HasRoom : Sys → ℕ → Type 0
HasRoom s n =
    (s.flow.rx_bytes + n ≤ s.eng.cfg.max_rx_queue_per_flow)
    × (s.eng.account.used + n ≤ s.eng.account.limit)

-- On a flow whose books are right, whose waiting read fits its buffers and that still receives: a segment
-- with bytes for which there is room joins the stream, all its bytes behind the earlier ones, and the
-- sequence moves on by their number; one without room leaves the stream and the sequence as they were.
pub deliver_data-Grown :
    (s : Sys) (bytes : List ℕ)
    → Books s
    → Fits s.flow.active_read
    → s.flow.rx_shutdown ≡ false
    → 1 ≤ length bytes
    → (HasRoom s (length bytes) → Grown s bytes (deliver_data s bytes))
      × ((HasRoom s (length bytes) → ⊥) → SameStream s (deliver_data s bytes))
unfolding deliver_data drop_packet stream
deliver_data-Grown s bytes b f on one = (
  λ room.
      if_both (Grown s bytes) (length bytes == 0) (λ e. absurd (ground arith))
        (λ _.
          if_both (Grown s bytes) s.flow.rx_shutdown (λ e. absurd (case_false (sym e ∙ on)))
            (λ _.
              if_both (Grown s bytes)
                (ltb s.eng.cfg.max_rx_queue_per_flow (s.flow.rx_bytes + length bytes))
                (λ e. absurd (ground arith))
                (λ _.
                  if_both (Grown s bytes) (reserve s.eng.account (length bytes)).1
                    (λ _. from_booked (length bytes) (
                      deliver_reserved-Grown (booked s (length bytes)) s.flow.active_read bytes
                        (booked-Books s (length bytes) b) f))
                    (λ e. absurd (ground (arith, reserve_iff s.eng.account (length bytes))))))),
  λ full.
      if_both (SameStream s) (length bytes == 0) (λ e. absurd (ground arith))
        (λ _.
          if_both (SameStream s) s.flow.rx_shutdown (λ e. absurd (case_false (sym e ∙ on)))
            (λ _.
              if_both (SameStream s)
                (ltb s.eng.cfg.max_rx_queue_per_flow (s.flow.rx_bytes + length bytes))
                (λ _. record { stream = refl; rcv_nxt = refl })
                (λ short.
                  if_both (SameStream s) (reserve s.eng.account (length bytes)).1
                    (λ e. absurd (full (ground (arith, reserve_iff s.eng.account (length bytes)))))
                    (λ _. record { stream = refl; rcv_nxt = refl })))),
)
