-- ===== src/Facade/Lifecycle/Slots.antt =====
-- The read slots: start_read starts one read on each, and an ended read is started anew.
use tunio.Base.{
  ℕ, zero, suc, ◌+◌, ◌*◌, ◌/◌, ◌%◌, ◌^◌, ◌≤◌, ◌<◌, ◌≡◌, inl, inr, refl, sym, ap, ◌∙◌, List, [], ◌∷◌,
  ◌++◌, append_assoc, append-nil, arith, Bool, true, false, not, ◌||◌, length, length-append,
  length-replicate, replicate, get_or, leb, ltb, if_no, if_yes, if_both, Bool-cases, ltb→lt, min,
  max, some,
}
use tunio.Facade.Lifecycle.{
  Impl, Call, device_read, set_slot, start_read_slot, start_slots, start_read, DeviceInfo, started,
  k_max_queues, k_read_slots, sweep_started,
}

-- The reads that are started on `n` slots from `i` on.
abbrev pub reads : ℕ → ℕ → ℕ → ℕ → List Call
reads zero i slots epoch = []
reads (suc n) i slots epoch = device_read i (i / slots) epoch ∷ reads n (i + 1) slots epoch

abbrev flags : ℕ → ℕ → List Bool
flags i n = replicate i true ++ replicate n false

get_or-flags : (i n : ℕ) → get_or (flags i (suc n)) i false ≡ false
get_or-flags zero n = refl
get_or-flags (suc i) n = get_or-flags i n

set_slot-flags : (i n : ℕ) → set_slot (flags i (suc n)) i true ≡ flags (suc i) n
set_slot-flags zero n = refl
set_slot-flags (suc i) n = ap (◌∷◌ true) (set_slot-flags i n)

length-flags : (i n : ℕ) → length (flags i n) ≡ i + n
length-flags i n =
    length-append (replicate i true) (replicate n false)
    ∙ omega (arith, length-replicate i true, length-replicate n false)

all_started : (i : ℕ) → flags i 0 ≡ replicate i true
all_started i = append-nil (replicate i true)

free_slot : (o b : Bool) (k i : ℕ) → o ≡ true → i < k → b ≡ false → (not o || leb k i || b) ≡ false
free_slot o b k i r h e = ground arith

no_slot : (o b : Bool) (k i : ℕ) → o ≡ true → k ≤ i → (not o || leb k i || b) ≡ true
no_slot o b k i r h = ground arith

beyond : (i n : ℕ) → ltb i n ≡ false → n ≤ i
beyond i n h = ground arith

length-set_slot : (xs : List Bool) (i : ℕ) (v : Bool) → length (set_slot xs i v) ≡ length xs
length-set_slot [] i v = refl
length-set_slot (x ∷ xs) zero v = refl
length-set_slot (x ∷ xs) (suc i) v = ap suc (length-set_slot xs i v)

set_slot-beyond : (n i : ℕ) → n ≤ i → set_slot (replicate n true) i false ≡ replicate n true
set_slot-beyond zero i h = refl
set_slot-beyond (suc n) zero h = absurd (omega arith)
set_slot-beyond (suc n) (suc i) h = ap (◌∷◌ true) (set_slot-beyond n i (omega arith))

get_or-set_slot : (n i : ℕ) → get_or (set_slot (replicate n true) i false) i false ≡ false
get_or-set_slot zero i = refl
get_or-set_slot (suc n) zero = refl
get_or-set_slot (suc n) (suc i) = get_or-set_slot n i

set_slot-back : (n i : ℕ) → set_slot (set_slot (replicate n true) i false) i true ≡ replicate n true
set_slot-back zero i = refl
set_slot-back (suc n) zero = refl
set_slot-back (suc n) (suc i) = ap (◌∷◌ true) (set_slot-back n i)

module _ (p : Impl) (running : p.is_open ≡ true) where
  start_one :
      (i n : ℕ) (calls : List Call)
      → start_read_slot (record p { read_inflight = flags i (suc n); calls = calls }) i ≡ record p {
        read_inflight = flags (suc i) n;
        calls = calls ++ (device_read i (i / p.slots_per_queue) p.epoch ∷ []);
      }
  unfolding start_read_slot
  start_one i n calls =
      if_no _ _ _ (
        free_slot p.is_open (get_or (flags i (suc n)) i false) (length (flags i (suc n))) i running
          (omega (arith, length-flags i (suc n))) (get_or-flags i n))
      ∙ ap
          (λ xs. record p {
            read_inflight = xs;
            calls = calls ++ (device_read i (i / p.slots_per_queue) p.epoch ∷ []);
          })
          (set_slot-flags i n)

  start_slots-reads :
      (n i : ℕ) (calls : List Call)
      → start_slots n i (record p { read_inflight = flags i n; calls = calls }) ≡ record p {
        read_inflight = replicate (i + n) true;
        calls = calls ++ reads n i p.slots_per_queue p.epoch;
      }
  unfolding start_slots
  start_slots-reads zero i calls =
      let e : i ≡ i + 0 = omega arith in
      ap (λ xs. record p { read_inflight = xs; calls = calls })
        (all_started i ∙ ap (λ k. replicate k true) e)
      ∙ ap (λ cs. record p { read_inflight = replicate (i + 0) true; calls = cs })
          (sym (append-nil calls))
  start_slots-reads (suc n) i calls =
      let read = device_read i (i / p.slots_per_queue) p.epoch in
      let e : i + 1 ≡ suc i = omega arith in
      let k : suc i + n ≡ i + suc n = omega arith in
      ap (start_slots n (i + 1)) (start_one i n calls)
      ∙ ap
          (λ j.
            start_slots n j
              (record p { read_inflight = flags (suc i) n; calls = calls ++ (read ∷ []) }))
          e
      ∙ start_slots-reads n (suc i) (calls ++ (read ∷ []))
      ∙ ap
          (λ j. record p {
            read_inflight = replicate j true;
            calls = (calls ++ (read ∷ [])) ++ reads n (suc i) p.slots_per_queue p.epoch;
          })
          k
      ∙ ap (λ cs. record p { read_inflight = replicate (i + suc n) true; calls = cs })
          (append_assoc calls (read ∷ []) (reads n (suc i) p.slots_per_queue p.epoch)
            ∙ ap (λ j. calls ++ (read ∷ reads n j p.slots_per_queue p.epoch)) (sym e))

  -- start_read on idle slots starts one read on each.
  pub start_read-reads :
      (n : ℕ)
      → start_read (record p { read_inflight = replicate n false }) ≡ record p {
        read_inflight = replicate n true;
        calls = p.calls ++ reads n 0 p.slots_per_queue p.epoch;
      }
  unfolding start_read
  start_read-reads n =
      let e : 0 + n ≡ n = omega arith in
      if_no _ _ _ (ap not running)
      ∙ ap (λ k. start_slots k 0 (record p { read_inflight = replicate n false }))
          (length-replicate n false)
      ∙ start_slots-reads n 0 p.calls
      ∙ ap
          (λ k. record p {
            read_inflight = replicate k true;
            calls = p.calls ++ reads n 0 p.slots_per_queue p.epoch;
          })
          e

  -- A slot whose read ended is read again; beyond the slots, nothing happens.
  pub start_read_slot-again :
      (n i : ℕ)
      → (start_read_slot
          (record p { read_inflight = set_slot (replicate n true) i false })
          i).read_inflight
        ≡ replicate n true
  unfolding start_read_slot
  start_read_slot-again n i = elim (Bool-cases (ltb i n)) [
    | inl e ↦
        ap (λ (q : Impl). q.read_inflight)
          (if_no _ _ _ (
            free_slot p.is_open (get_or (set_slot (replicate n true) i false) i false)
              (length (set_slot (replicate n true) i false)) i running
              (omega (
                arith,
                ltb→lt i n e,
                length-set_slot (replicate n true) i false,
                length-replicate n true,
              ))
              (get_or-set_slot n i)))
        ∙ (set_slot-back n i)
    | inr e ↦
        ap (λ (q : Impl). q.read_inflight)
          (if_yes _ _ _ (
            no_slot p.is_open (get_or (set_slot (replicate n true) i false) i false)
              (length (set_slot (replicate n true) i false)) i running
              (omega (
                arith,
                beyond i n e,
                length-set_slot (replicate n true) i false,
                length-replicate n true,
              ))))
        ∙ set_slot-beyond n i (beyond i n e)
  ]

-- The facade as `started` leaves it.
abbrev pub queues_of : DeviceInfo → ℕ
queues_of d = min (max d.queue_count 1) k_max_queues

abbrev pub slots_of : DeviceInfo → ℕ
slots_of d = max 1 (k_read_slots / queues_of d)

pub started-reads :
    (p : Impl) (d : DeviceInfo)
    → started p d ≡ record p {
      mtu = d.device_mtu;
      device_open = true;
      num_queues = queues_of d;
      slots_per_queue = slots_of d;
      read_bufs = replicate (queues_of d * slots_of d) (d.read_size_hint + 64);
      read_inflight = replicate (queues_of d * slots_of d) true;
      writer = some p.next_gen;
      tcp = some p.next_gen;
      udp = some p.next_gen;
      next_gen = p.next_gen + 1;
      epoch = (p.epoch + 1) % 2 ^ 64;
      is_open = true;
      calls =
          (p.calls ++ (sweep_started p.next_gen ∷ []))
          ++ reads (queues_of d * slots_of d) 0 (slots_of d) ((p.epoch + 1) % 2 ^ 64);
    }
unfolding started
started-reads p d =
    start_read-reads
      (record p {
        mtu = d.device_mtu;
        device_open = true;
        num_queues = queues_of d;
        slots_per_queue = slots_of d;
        read_bufs = replicate (queues_of d * slots_of d) (d.read_size_hint + 64);
        writer = some p.next_gen;
        tcp = some p.next_gen;
        udp = some p.next_gen;
        next_gen = p.next_gen + 1;
        epoch = (p.epoch + 1) % 2 ^ 64;
        is_open = true;
        calls = p.calls ++ (sweep_started p.next_gen ∷ []);
      })
      refl (queues_of d * slots_of d)

-- What a started read leaves alone.
pub record IsFramed (p q : Impl) : Type 0 where
  pub running : q.is_open ≡ p.is_open
  pub epoch : q.epoch ≡ p.epoch
  pub device : q.device_open ≡ p.device_open
  pub writer : q.writer ≡ p.writer
  pub tcp : q.tcp ≡ p.tcp
  pub udp : q.udp ≡ p.udp
  pub next_gen : q.next_gen ≡ p.next_gen
  pub queues : q.num_queues ≡ p.num_queues
  pub slots : q.slots_per_queue ≡ p.slots_per_queue

pub start_read_slot-IsFramed : (p : Impl) (i : ℕ) → IsFramed p (start_read_slot p i)
unfolding start_read_slot
start_read_slot-IsFramed p i =
    if_both (IsFramed p)
      (not p.is_open || leb (length p.read_inflight) i || get_or p.read_inflight i false)
      (λ e. record {
        running = refl;
        epoch = refl;
        device = refl;
        writer = refl;
        tcp = refl;
        udp = refl;
        next_gen = refl;
        queues = refl;
        slots = refl;
      })
      (λ e. record {
        running = refl;
        epoch = refl;
        device = refl;
        writer = refl;
        tcp = refl;
        udp = refl;
        next_gen = refl;
        queues = refl;
        slots = refl;
      })
