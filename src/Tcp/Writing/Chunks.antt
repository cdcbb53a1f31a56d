-- ===== src/Tcp/Writing/Chunks.antt =====
-- The chunks of a write: consecutive segments carry consecutive bytes of the user's buffers.
use tunio.Base.{
  ℕ, zero, suc, ◌+◌, ◌-◌, ◌^◌, ◌≤◌, ◌<◌, ◌≡◌, refl, ap, sym, ◌∙◌, List, [], ◌∷◌, ◌++◌, Option, some,
  arith, u32, length, take, drop, leb, ◌==◌, length-take, length-drop, drop-append, if_both,
}
use tunio.Tcp.Types.{WriteOp, Sys, Segment}
use tunio.Tcp.Output.{mss, build_segment, segment_fields}
use tunio.Tcp.Writing.{
  locate, located, seek, set_write, chunk_size, take_chunk, next_chunk, build_next_segment,
}

-- The bytes of a sequence of buffers.
abbrev pub concat : List (List ℕ) → List ℕ
concat [] = []
concat (b ∷ bs) = b ++ concat bs

pub drop-drop {ℓ} :
    {A : Type ℓ} (m n k : ℕ) (xs : List A) → m + n ≡ k → drop n (drop m xs) ≡ drop k xs
drop-drop zero n k xs h = ap (λ i. drop i xs) (omega (arith, h))
drop-drop (suc m) n zero xs h = absurd (omega arith)
drop-drop (suc m) zero (suc k) [] h = refl
drop-drop (suc m) (suc n) (suc k) [] h = refl
drop-drop (suc m) n (suc k) (x ∷ xs) h = drop-drop m n k xs (omega arith)

pub drop_past {ℓ} :
    {A : Type ℓ} (n k : ℕ) (xs ys : List A) → length xs + k ≡ n → drop k ys ≡ drop n (xs ++ ys)
drop_past n k [] ys h = ap (λ i. drop i ys) (omega (arith, h))
drop_past zero k (x ∷ xs) ys h = absurd (omega arith)
drop_past (suc n) k (x ∷ xs) ys h = drop_past n k xs ys (omega arith)

drop_tail {ℓ} :
    {A : Type ℓ} (i : ℕ) (all : List A) {b : A} {bs : List A}
    → b ∷ bs ≡ drop i all
    → bs ≡ drop (suc i) all
drop_tail zero all h = ap (drop 1) h
drop_tail (suc i) [] h = cc
drop_tail (suc i) (x ∷ xs) h = drop_tail i xs h

pub take_append_left {ℓ} :
    {A : Type ℓ} (n : ℕ) (xs ys : List A) → n ≤ length xs → take n (xs ++ ys) ≡ take n xs
take_append_left zero xs ys h = refl
take_append_left (suc n) [] ys h = absurd (omega arith)
take_append_left (suc n) (x ∷ xs) ys h = ap (◌∷◌ x) (take_append_left n xs ys (omega arith))

-- The position of an operation denotes its offset in the user's bytes.
pub record IsPlaced (op : WriteOp) : Type 0 where
  pub total : op.total ≡ length (concat op.buffers)
  pub here :
      drop op.buf_off (concat (drop op.buf_index op.buffers)) ≡ drop op.offset (concat op.buffers)

-- The loop over the buffers only moves the position to where it reads the same bytes.
locate_lem :
    (all bs : List (List ℕ)) (i off : ℕ)
    → bs ≡ drop i all
    → ((locate bs i off).0 ≡ drop (locate bs i off).1.0 all)
      × (drop (locate bs i off).1.1 (concat (locate bs i off).0) ≡ drop off (concat bs))
unfolding locate
locate_lem all [] i off h = (h, refl)
locate_lem all (b ∷ bs) i off h =
    if_both
      (λ (r : List (List ℕ) × (ℕ × ℕ)).
        (r.0 ≡ drop r.1.0 all) × (drop r.1.1 (concat r.0) ≡ drop off (b ++ concat bs)))
      (leb (length b) off)
      (λ e.
        let past = locate_lem all bs (suc i) (off - length b) (drop_tail i all h) in
        (past.0, past.1 ∙ drop_past off (off - length b) b (concat bs) (ground arith)))
      (λ e. (h, refl))

first_size : List (List ℕ) → ℕ
first_size [] = 0
first_size (x ∷ xs) = length x

-- The loop stops in front of a byte of the buffer that it stops at.
locate_front :
    (bs : List (List ℕ)) (i off : ℕ) (b : List ℕ) (rest : List (List ℕ))
    → (locate bs i off).0 ≡ b ∷ rest
    → (locate bs i off).1.1 < length b
unfolding locate first_size
locate_front [] i off b rest h = cc
locate_front (x ∷ xs) i off b rest h =
    if_both (λ (r : List (List ℕ) × (ℕ × ℕ)). r.0 ≡ b ∷ rest → r.1.1 < length b)
      (leb (length x) off) (λ e. locate_front xs (suc i) (off - length x) b rest)
      (λ e k. let same = ap first_size k in ground arith) h

seek-IsPlaced : (op : WriteOp) → IsPlaced op → IsPlaced (seek op)
seek-IsPlaced op p =
    let found = locate_lem op.buffers (drop op.buf_index op.buffers) op.buf_index op.buf_off refl in
    record {
      total = p.total;
      here = ap (λ bs. drop (located op).1.1 (concat bs)) (sym found.0) ∙ (found.1 ∙ p.here);
    }

-- What a chunk is: `t` and `g` after it, from `s` with operation `op`.
pub record Chunk (s : Sys) (op : WriteOp) (in_flight : ℕ) (t : Sys) (g : Segment) : Type 0 where
  pub payload : g.payload ≡ take (length g.payload) (drop op.offset (concat op.buffers))
  pub some_bytes : 1 ≤ length g.payload
  pub whole : op.offset + length g.payload ≤ op.total
  pub in_window : in_flight + length g.payload ≤ s.flow.peer_wnd
  pub in_mss : length g.payload ≤ mss s.eng.cfg s.flow.key.family
  pub seq : g.seq ≡ s.flow.snd_nxt
  pub snd_nxt : t.flow.snd_nxt ≡ u32 (s.flow.snd_nxt + length g.payload)
  pub moved :
      (next : WriteOp) × (t.flow.active_write ≡ some next)
      × (next.offset ≡ op.offset + length g.payload)
      × (next.buffers ≡ op.buffers)
      × IsPlaced next

module _ (s : Sys) (op : WriteOp) (in_flight : ℕ) (b : List ℕ) (bs : List (List ℕ)) where
  chunk_size_bounds :
      in_flight ≤ s.flow.peer_wnd
      → s.flow.peer_wnd < 2 ^ 32
      → (chunk_size s op b in_flight ≤ op.total - op.offset)
        × (chunk_size s op b in_flight ≤ length b - op.buf_off)
        × (chunk_size s op b in_flight ≤ mss s.eng.cfg s.flow.key.family)
        × (in_flight + chunk_size s op b in_flight ≤ s.flow.peer_wnd)
  unfolding chunk_size
  chunk_size_bounds h k = omega arith

  take_payload :
      (n : ℕ)
      → 1 ≤ n
      → n ≤ length b - op.buf_off
      → (length (take n (drop op.buf_off b)) ≡ n)
        × (take n (drop op.buf_off b) ≡ take n (drop op.buf_off (concat (b ∷ bs))))
  take_payload n one h = (
    omega (arith, length-take n (drop op.buf_off b), length-drop op.buf_off b),
    sym (
        ap (take n) (drop-append b (concat bs) op.buf_off (omega arith))
        ∙ take_append_left n (drop op.buf_off b) (concat bs)
            (omega (arith, length-drop op.buf_off b))),
  )

  take_chunk-Chunk :
      (n : ℕ)
      → 1 ≤ n
      → n ≤ length b - op.buf_off
      → op.offset + n ≤ op.total
      → in_flight + n ≤ s.flow.peer_wnd
      → n ≤ mss s.eng.cfg s.flow.key.family
      → IsPlaced op
      → b ∷ bs ≡ drop op.buf_index op.buffers
      → Chunk s op in_flight (take_chunk s op b n).0 (take_chunk s op b n).1
  unfolding take_chunk build_segment segment_fields
  take_chunk-Chunk n one in_buffer whole in_window in_mss p at =
      let (size, same) = take_payload n one in_buffer in
      let front = ap (drop op.buf_off) (ap concat at) ∙ p.here in
      record {
        payload =
            same
            ∙ (ap (take n) front
                ∙ ap (λ k. take k (drop op.offset (concat op.buffers))) (sym size));
        some_bytes = omega (arith, size);
        whole = omega (arith, size);
        in_window = omega (arith, size);
        in_mss = omega (arith, size);
        seq = refl;
        snd_nxt = ap (λ i. u32 (s.flow.snd_nxt + i)) (sym size);
        moved = (
          record op { offset = op.offset + n; buf_off = op.buf_off + n },
          refl,
          omega (arith, size),
          refl,
          record {
            total = p.total;
            here =
                sym (drop-drop op.buf_off n _ (concat (drop op.buf_index op.buffers)) refl)
                ∙ (ap (drop n) p.here ∙ drop-drop op.offset n _ (concat op.buffers) refl);
          },
        );
      }

chunk_size_positive :
    (s : Sys) (op : WriteOp) (b : List ℕ) (in_flight : ℕ)
    → op.offset < op.total
    → op.buf_off < length b
    → in_flight < s.flow.peer_wnd
    → s.flow.peer_wnd < 2 ^ 32
    → 1 ≤ chunk_size s op b in_flight
unfolding chunk_size mss
chunk_size_positive s op b in_flight x y z k = ground arith

abbrev Some : (s : Sys) (op : WriteOp) (in_flight : ℕ) → Sys × Option Segment → Type 0
Some s op in_flight r = (t : Sys) × (g : Segment) × (r ≡ (t, some g)) × Chunk s op in_flight t g

next_chunk-Chunk :
    (s : Sys) (op : WriteOp) (in_flight : ℕ) (bs : List (List ℕ))
    → IsPlaced op
    → bs ≡ drop op.buf_index op.buffers
    → ((b : List ℕ) (rest : List (List ℕ)) → bs ≡ b ∷ rest → op.buf_off < length b)
    → op.offset < op.total
    → in_flight < s.flow.peer_wnd
    → s.flow.peer_wnd < 2 ^ 32
    → Some s op in_flight (next_chunk s op bs in_flight)
unfolding next_chunk
next_chunk-Chunk s op in_flight [] p at front x z k = absurd (
    omega (
      arith,
      p.total,
      length-drop {A = ℕ} op.buf_off [],
      length-drop op.offset (concat op.buffers),
      ap length (ap (drop op.buf_off) (ap concat at) ∙ p.here),
    ))
next_chunk-Chunk s op in_flight (b ∷ bs) p at front x z k =
    let size = chunk_size s op b in_flight in
    let one = chunk_size_positive s op b in_flight x (front b bs refl) z k in
    let (left, in_buffer, in_mss, in_window) =
      chunk_size_bounds s op in_flight b bs (omega arith) k in
    if_both (Some s op in_flight) (chunk_size s op b in_flight == 0) (λ e. absurd (ground arith))
      (λ e. (
        (take_chunk s op b size).0,
        (take_chunk s op b size).1,
        refl,
        take_chunk-Chunk s op in_flight b bs size one in_buffer (omega (arith, left)) in_window
            in_mss p at,
      ))

-- With unsent bytes, a position that denotes the offset and room in the peer's window,
-- `build_next_segment` returns a segment: it carries the next bytes of the user's buffers, at least one,
-- within the window and one segment's size, at the next sequence number, and the position moves on by
-- as many bytes.
pub build_next_segment-Chunk :
    (s : Sys) (op : WriteOp) (in_flight : ℕ)
    → IsPlaced op
    → op.offset < op.total
    → in_flight < s.flow.peer_wnd
    → s.flow.peer_wnd < 2 ^ 32
    → (t : Sys) × (g : Segment) × (build_next_segment s op in_flight ≡ (t, some g))
      × Chunk s op in_flight t g
unfolding build_next_segment
build_next_segment-Chunk s op in_flight p x z k =
    let found = locate_lem op.buffers (drop op.buf_index op.buffers) op.buf_index op.buf_off refl in
    let (t, g, same, c) =
      next_chunk-Chunk (set_write s (seek op)) (seek op) in_flight (located op).0
        (seek-IsPlaced op p) found.0
        (locate_front (drop op.buf_index op.buffers) op.buf_index op.buf_off) x z k in
    (
      t,
      g,
      same,
      record {
        payload = c.payload;
        some_bytes = c.some_bytes;
        whole = c.whole;
        in_window = c.in_window;
        in_mss = c.in_mss;
        seq = c.seq;
        snd_nxt = c.snd_nxt;
        moved = c.moved;
      },
    )
