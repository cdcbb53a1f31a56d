-- ===== src/Writer/Drain.antt =====
-- A device that takes its writes empties every queue, in order.
use tunio.Base.{
  subst, case_false, not, ◌&&◌, ℕ, suc, ◌<◌, ◌≡◌, refl, sym, ap, ◌∙◌, List, [], ◌∷◌, ◌++◌,
  append-nil, append_assoc, Bool, true, false, Option, none, some, length, get_or, arith, if_both,
  if◌then◌else◌,
}
use tunio.Writer.{
  aborted, PacketBuffer, WriteError, succeeded, Effect, device_write, completion, Entry, Chain,
  TxWriter, idle, chain_at, set_chain, start_write, pump_chain, pump, recycle, complete_write,
  count_done, finish, done_with, on_write_done,
}
use tunio.Writer.Chains.{length-set_chain, get_or-set_chain, inside_of_current}
use tunio.Writer.Order.{bufs}
use tunio.Writer.Accounting.{counted_as, finish_state}

-- The packets given to the device, retries included, and the handlers that were told of success.
abbrev pub written : List Effect → List PacketBuffer
written [] = []
written (device_write queue b ∷ es) = b ∷ written es
written (completion handler code n ∷ es) = written es

abbrev pub is_success : WriteError → Bool
is_success succeeded = true
is_success _ = false

abbrev pub told : List Effect → List ℕ
told [] = []
told (device_write queue b ∷ es) = told es
told (completion handler code n ∷ es) =
    let rest = told es in if is_success code then handler ∷ rest else rest

abbrev pub handler_of : Option ℕ → List ℕ
handler_of none = []
handler_of (some h) = h ∷ []

abbrev pub handlers : List Entry → List ℕ
handlers [] = []
handlers (e ∷ es) = handler_of e.handler ++ handlers es

written-append : (xs ys : List Effect) → written (xs ++ ys) ≡ written xs ++ written ys
written-append [] ys = refl
written-append (device_write queue b ∷ xs) ys = ap (◌∷◌ b) (written-append xs ys)
written-append (completion handler code n ∷ xs) ys = written-append xs ys

told-append : (xs ys : List Effect) → told (xs ++ ys) ≡ told xs ++ told ys
told-append [] ys = refl
told-append (device_write queue b ∷ xs) ys = told-append xs ys
told-append (completion handler succeeded n ∷ xs) ys = ap (◌∷◌ handler) (told-append xs ys)
told-append (completion handler code n ∷ xs) ys = told-append xs ys

-- The device reports a success for queue `q`, once for each of the sizes.
pub successes : List ℕ → TxWriter → ℕ → TxWriter
successes [] w q = w
successes (n ∷ ns) w q = successes ns (on_write_done w succeeded n q) q

recycle-out : (w : TxWriter) (b : PacketBuffer) → (recycle w b).out ≡ w.out
unfolding recycle
recycle-out w b = if_both (λ (x : TxWriter). x.out ≡ w.out) _ (λ h. refl) (λ h. refl)

complete_write-out :
    (w : TxWriter) (h : Option ℕ) (n : ℕ)
    → (written (complete_write w h succeeded n).out ≡ written w.out)
      × (told (complete_write w h succeeded n).out ≡ told w.out ++ handler_of h)
unfolding complete_write
complete_write-out w none n = (refl, sym (append-nil (told w.out)))
complete_write-out w (some h) n = (
  written-append w.out (completion h succeeded n ∷ []) ∙ append-nil (written w.out),
  told-append w.out (completion h succeeded n ∷ []),
)

abbrev next_chain : List Entry → Chain
next_chain [] = idle
next_chain (e ∷ es) = record { waiting = es; current = some e }

abbrev first : List Entry → List PacketBuffer
first [] = []
first (e ∷ es) = e.buf ∷ []

-- The state after entry `e` of queue `q` was written, with `waiting` behind it.
record After (w : TxWriter) (q : ℕ) (e : Entry) (waiting : List Entry) (x : TxWriter) : Type 0 where
  cancelled : x.cancelled ≡ false
  chain : chain_at x q ≡ next_chain waiting
  writes : written x.out ≡ written w.out ++ first waiting
  tells : told x.out ≡ told w.out ++ handler_of e.handler

-- `pump` on a chain without a current entry.
pump_rested :
    (w r : TxWriter) (q : ℕ) (e : Entry) (waiting : List Entry)
    → q < length r.chains
    → r.cancelled ≡ false
    → chain_at r q ≡ record { waiting = waiting; current = none }
    → written r.out ≡ written w.out
    → told r.out ≡ told w.out ++ handler_of e.handler
    → After w q e waiting (pump_chain r q false none waiting)
unfolding pump_chain start_write
pump_rested w r q e [] h c f a b = record {
  cancelled = c;
  chain = f;
  writes = a ∙ sym (append-nil (written w.out));
  tells = b;
}
pump_rested w r q e (x ∷ xs) h c f a b = record {
  cancelled = c;
  chain = get_or-set_chain r.chains q (record { waiting = xs; current = some x }) h;
  writes =
      written-append r.out (device_write x.queue x.buf ∷ [])
      ∙ ap (λ (bs : List PacketBuffer). bs ++ (x.buf ∷ [])) a;
  tells = told-append r.out (device_write x.queue x.buf ∷ []) ∙ append-nil (told r.out) ∙ b;
}

pump_eq :
    (r : TxWriter) (q : ℕ) (waiting : List Entry)
    → r.cancelled ≡ false
    → chain_at r q ≡ record { waiting = waiting; current = none }
    → pump r q ≡ pump_chain r q false none waiting
unfolding pump
pump_eq r q waiting c f = rw f (ap (λ b. pump_chain r q b none waiting) c)

and_false : (b : Bool) → (b && false) ≡ false
and_false true = refl
and_false false = refl

module _ (w : TxWriter) (q n : ℕ) (e : Entry) (waiting : List Entry) (open_ : w.cancelled ≡ false)
    (f : chain_at w q ≡ record { waiting = waiting; current = some e }) where
  ended : TxWriter
  ended = recycle (counted_as w succeeded n e) e.buf

  rested : TxWriter
  unfolding ended
  rested = record ended {
    chains = set_chain ended.chains q (record (chain_at ended q) { current = none });
  }

  ended-out :
      (written ended.out ≡ written w.out) × (told ended.out ≡ told w.out ++ handler_of e.handler)
  unfolding ended count_done
  ended-out =
      let counted = count_done w succeeded in
      let h = complete_write-out counted e.handler n in
      let told_success : counted_as w succeeded n e ≡ complete_write counted e.handler succeeded n =
        ap
          (λ b.
            if b
            then complete_write counted e.handler aborted 0
            else complete_write counted e.handler succeeded n)
          open_ in
      let out_eq : ended.out ≡ (complete_write counted e.handler succeeded n).out =
        recycle-out (counted_as w succeeded n e) e.buf
        ∙ ap (λ (x : TxWriter). x.out) told_success in
      (ap written out_eq ∙ h.0, ap told out_eq ∙ h.1)

  inside : q < length ended.chains
  unfolding ended
  inside = omega (
    arith,
    inside_of_current w.chains q e (ap (λ (c : Chain). c.current) f),
    ap length (finish_state w succeeded n e).chains,
  )

  rested-chain : chain_at rested q ≡ record { waiting = waiting; current = none }
  unfolding rested ended
  rested-chain =
      get_or-set_chain ended.chains q (record (chain_at ended q) { current = none }) inside
      ∙ ap (λ (cs : List Chain). record (get_or cs q idle) { current = none })
          (finish_state w succeeded n e).chains
      ∙ ap (λ (c : Chain). record c { current = none }) f

  finish-After : After w q e waiting (finish w succeeded n q e)
  unfolding finish rested ended
  finish-After =
      let c : ended.cancelled ≡ false = (finish_state w succeeded n e).cancelled ∙ open_ in
      subst (After w q e waiting) (sym (pump_eq rested q waiting c rested-chain)) (
        pump_rested w rested q e waiting
          (omega (
            arith,
            inside,
            length-set_chain ended.chains q (record (chain_at ended q) { current = none }),
          ))
          c rested-chain ended-out.0 ended-out.1)

  done-After : After w q e waiting (on_write_done w succeeded n q)
  unfolding on_write_done done_with
  done-After = rw (ap (λ (c : Chain). c.current) f) (
      if_both (After w q e waiting) (not w.cancelled && false)
        (λ h. absurd (case_false (sym h ∙ and_false (not w.cancelled)))) (λ h. finish-After))

-- A queue whose packets wait behind entry `e`, with the device done after a success for each.
pub record Empty (w : TxWriter) (q : ℕ) (e : Entry) (waiting : List Entry) (x : TxWriter)
    : Type 0 where
  pub chain : chain_at x q ≡ idle
  pub writes : written x.out ≡ written w.out ++ bufs waiting
  pub tells : told x.out ≡ told w.out ++ handlers (e ∷ waiting)

-- A writer that is not cancelled, with a write under way in queue `q`: after the device reported as many
-- successes for the queue as it has packets, the queue is empty and idle, the waiting packets were given
-- to the device in their order and nothing else, and the handlers were told of success in that order.
pub successes-Empty :
    (w : TxWriter) (q : ℕ) (e : Entry) (waiting : List Entry) (ns : List ℕ)
    → w.cancelled ≡ false
    → chain_at w q ≡ record { waiting = waiting; current = some e }
    → length ns ≡ suc (length waiting)
    → Empty w q e waiting (successes ns w q)
unfolding successes
successes-Empty w q e waiting [] c f h = absurd (omega arith)
successes-Empty w q e [] (n ∷ []) c f h =
    let a = done-After w q n e [] c f in
    record {
      chain = a.chain;
      writes = a.writes;
      tells = a.tells ∙ ap (◌++◌ (told w.out)) (sym (append-nil (handler_of e.handler)));
    }
successes-Empty w q e [] (n ∷ m ∷ ns) c f h = absurd (omega arith)
successes-Empty w q e (x ∷ xs) (n ∷ ns) c f h =
    let a = done-After w q n e (x ∷ xs) c f in
    let rest =
      successes-Empty (on_write_done w succeeded n q) q x xs ns a.cancelled a.chain (omega arith) in
    record {
      chain = rest.chain;
      writes =
          rest.writes
          ∙ ap (λ (bs : List PacketBuffer). bs ++ bufs xs) a.writes
          ∙ append_assoc (written w.out) (x.buf ∷ []) (bufs xs);
      tells =
          rest.tells
          ∙ ap (λ (hs : List ℕ). hs ++ handlers (x ∷ xs)) a.tells
          ∙ append_assoc (told w.out) (handler_of e.handler) (handlers (x ∷ xs));
    }
