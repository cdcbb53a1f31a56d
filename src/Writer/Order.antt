-- ===== src/Writer/Order.antt =====
-- Each queue of the writer is a queue: what is submitted joins its end, what ends was its front.
use tunio.Base.{
  ℕ, ◌+◌, ◌-◌, ◌<◌, ◌≡◌, ◌≢◌, refl, sym, ap, ◌∙◌, List, [], ◌∷◌, ◌++◌, append_assoc, Bool, true,
  false, Option, none, some, length, drop, get_or, arith, ltb, ◌==◌, ◌&&◌, not, subst,
  if◌then◌else◌,
}
use tunio.Writer.{
  PacketBuffer, WriteError, Entry, Chain, TxWriter, idle, chain_at, set_chain, start_write, pump,
  enqueue, is_full, async_write, recycle, finish, done_with, on_write_done, is_transient,
  k_write_retry_limit,
}
use tunio.Writer.Pick.{pick_tx_queue}
use tunio.Writer.Spread.{pick_tx_queue-lt}
use tunio.Writer.Chains.{
  length-set_chain, get_or-set_chain, get_or-set_chain_other, at_or_other, inside_of_current,
}
use tunio.Writer.Invariant.{IsWriter, pump_both}
use tunio.Writer.Accounting.{counted_as, finish_state}

abbrev pub bufs : List Entry → List PacketBuffer
bufs [] = []
bufs (e ∷ es) = e.buf ∷ bufs es

abbrev pub under_way : Option Entry → List PacketBuffer
under_way none = []
under_way (some e) = e.buf ∷ []

-- What a client sees of the writer: for each queue the packets that are not done, oldest first.
abbrev pub Queues : Type 0
Queues = ℕ → List PacketBuffer

abbrev pub packets : Chain → List PacketBuffer
packets c = under_way c.current ++ bufs c.waiting

abbrev pub pending : TxWriter → Queues
pending w i = packets (chain_at w i)

-- The contract of a queue.
abbrev pub join : Queues → ℕ → PacketBuffer → Queues
join m q b i = if i == q then m i ++ (b ∷ []) else m i

abbrev pub serve : Queues → ℕ → Queues
serve m q i = if i == q then drop 1 (m i) else m i

bufs-append : (es : List Entry) (e : Entry) → bufs (es ++ (e ∷ [])) ≡ bufs es ++ (e.buf ∷ [])
bufs-append [] e = refl
bufs-append (x ∷ xs) e = ap (◌∷◌ x.buf) (bufs-append xs e)

-- A chain is set to another one, seen from each queue.
pending-set_chain :
    (cs : List Chain) (q : ℕ) (c : Chain) (P : ℕ → List PacketBuffer → Type 0)
    → q < length cs
    → P q (packets c)
    → ((i : ℕ) → i ≢ q → P i (packets (get_or cs i idle)))
    → (i : ℕ) → P i (packets (get_or (set_chain cs q c) i idle))
pending-set_chain cs q c P h a b i =
    at_or_other (λ j. P j (packets (get_or (set_chain cs q c) j idle))) q i
      (subst (λ d. P q (packets d)) (sym (get_or-set_chain cs q c h)) a)
      (λ n. subst (λ d. P i (packets d)) (sym (get_or-set_chain_other cs q i c n)) (b i n))

pump-pending :
    (w : TxWriter) (q : ℕ) → q < length w.chains → (i : ℕ) → pending (pump w q) i ≡ pending w i
unfolding start_write
pump-pending w q h i =
    pump_both (λ x. pending x i ≡ pending w i) w q (λ r. refl)
      (λ e rest c f.
        pending-set_chain w.chains q (record { waiting = rest; current = some e })
          (λ j xs. xs ≡ pending w j) h (sym (ap packets f)) (λ j n. refl) i)

join_here : (m : Queues) (q : ℕ) (b : PacketBuffer) → join m q b q ≡ m q ++ (b ∷ [])
join_here m q b = ground arith

join_there : (m : Queues) (q i : ℕ) (b : PacketBuffer) → i ≢ q → join m q b i ≡ m i
join_there m q i b n = ground arith

serve_here : (m : Queues) (q : ℕ) → serve m q q ≡ drop 1 (m q)
serve_here m q = ground arith

serve_there : (m : Queues) (q i : ℕ) → i ≢ q → serve m q i ≡ m i
serve_there m q i n = ground arith

enqueue-join :
    (w : TxWriter) (b : PacketBuffer) (handler : Option ℕ)
    → IsWriter w
    → (i : ℕ)
    → pending (enqueue w b handler) i ≡ join (pending w) (pick_tx_queue b.bytes w.queue_count) b i
unfolding enqueue
enqueue-join w b handler v i =
    pump-pending joined q (omega (arith, inside, length-set_chain w.chains q c)) i
    ∙ pending-set_chain w.chains q c (λ j xs. xs ≡ join (pending w) q b j) inside
        (ap (λ xs. under_way (chain_at w q).current ++ xs) (bufs-append (chain_at w q).waiting e)
          ∙ sym (
              append_assoc (under_way (chain_at w q).current) (bufs (chain_at w q).waiting)
                (b ∷ []))
          ∙ sym (join_here (pending w) q b))
        (λ j n. sym (join_there (pending w) q j b n)) i
  where
    q : ℕ
    q = pick_tx_queue b.bytes w.queue_count

    inside : q < length w.chains
    inside = omega (arith, v.many, pick_tx_queue-lt b.bytes w.queue_count)

    e : Entry
    e = record { buf = b; handler = handler; queue = q; retries_left = k_write_retry_limit }

    c : Chain
    c = record (chain_at w q) { waiting = (chain_at w q).waiting ++ (e ∷ []) }

    joined : TxWriter
    joined = record w { chains = set_chain w.chains q c; queued_total = w.queued_total + 1 }

-- A submission with a handler, to a writer whose counters and chains are right and that is neither
-- full nor cancelled: the packet joins the end of the queue that is picked for it, and no other queue
-- changes.
pub async_write-join :
    (w : TxWriter) (b : PacketBuffer) (handler : ℕ)
    → IsWriter w
    → is_full w ≡ false
    → (i : ℕ)
    → pending (async_write w b handler) i
      ≡ join (pending w) (pick_tx_queue b.bytes w.queue_count) b i
unfolding async_write
async_write-join w b handler v h i = rw h (enqueue-join w b (some handler) v i)

-- What a write that is tried again looks like.
abbrev pub is_retried : TxWriter → WriteError → Entry → Bool
is_retried w code e = not w.cancelled && (is_transient code && ltb 0 e.retries_left)

finish-serve :
    (w : TxWriter) (code : WriteError) (n q : ℕ) (e : Entry)
    → (chain_at w q).current ≡ some e
    → (i : ℕ) → pending (finish w code n q e) i ≡ serve (pending w) q i
unfolding finish
finish-serve w code n q e f i =
    pump-pending (record ended { chains = set_chain ended.chains q c }) q
      (omega (arith, inside, length-set_chain ended.chains q c)) i
    ∙ pending-set_chain ended.chains q c (λ j xs. xs ≡ serve (pending w) q j) inside
        (ap (λ (cs : List Chain). bufs (get_or cs q idle).waiting) same
          ∙ sym (ap (λ x. drop 1 (under_way x ++ bufs (chain_at w q).waiting)) f)
          ∙ sym (serve_here (pending w) q))
        (λ j k.
          ap (λ (cs : List Chain). packets (get_or cs j idle)) same
          ∙ sym (serve_there (pending w) q j k))
        i
  where
    ended : TxWriter
    ended = recycle (counted_as w code n e) e.buf

    c : Chain
    c = record (chain_at ended q) { current = none }

    same : ended.chains ≡ w.chains
    same = (finish_state w code n e).chains

    inside : q < length ended.chains
    inside = omega (arith, inside_of_current w.chains q e f, ap length same)

pending_if :
    (b : Bool) (x y : TxWriter) (i : ℕ) {xs ys : List PacketBuffer}
    → pending x i ≡ xs
    → pending y i ≡ ys
    → pending (if b then x else y) i ≡ (if b then xs else ys)
pending_if true x y i h k = h
pending_if false x y i h k = k

-- The device reports on the write that is under way in queue `q`: a fault that passes, with tries left and
-- no cancellation, leaves every queue as it was; anything else takes the front packet off queue `q` and
-- no other packet.
pub on_write_done-serve :
    (w : TxWriter) (code : WriteError) (n q : ℕ) (e : Entry)
    → (chain_at w q).current ≡ some e
    → (i : ℕ)
    → pending (on_write_done w code n q) i
      ≡ (if is_retried w code e then pending w i else serve (pending w) q i)
unfolding on_write_done done_with start_write
on_write_done-serve w code n q e f i = rw f (
    pending_if (is_retried w code e) _ (finish w code n q e) i
      (pending-set_chain w.chains q (record (chain_at w q) { current = some again })
        (λ j xs. xs ≡ pending w j) (inside_of_current w.chains q e f)
        (sym (ap (λ x. under_way x ++ bufs (chain_at w q).waiting) f)) (λ j k. refl) i)
      (finish-serve w code n q e f i))
  where
    again : Entry
    again = record e { retries_left = e.retries_left - 1 }
