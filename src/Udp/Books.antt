-- ===== src/Udp/Books.antt =====
-- The queues of a session and the shared budget stay in step on every path.
use tunio.Base.{
  ℕ, ◌+◌, ◌-◌, ◌≤◌, ◌≡◌, ◌⊎◌, inl, inr, refl, sym, ap, ◌∙◌, List, [], ◌∷◌, ◌++◌, Bool, true, false,
  ◌||◌, not, ltb, length, arith, if_both, case_false,
}
use tunio.Account.{Account, reserve, release}
use tunio.Account.Laws.{IsValid, reserve_iff, reserve-IsValid, release-IsValid, release_used}
use tunio.Udp.Types.{Endpoint, Datagram, ReadOp, Session, UdpEngine, set_session, count_drop}
use tunio.Udp.Expiry.{refresh_expiry}
use tunio.Udp.Delivery.{hand_over, deliver_datagram, receive_from, start_receive}
use tunio.Udp.Refresh.{at_self, Unmoved, refresh_expiry-Unmoved}

abbrev pub data_size : List Datagram → ℕ
data_size [] = 0
data_size (d ∷ ds) = length d.data_ + data_size ds

data_size-append : (xs ys : List Datagram) → data_size (xs ++ ys) ≡ data_size xs + data_size ys
data_size-append [] ys = omega arith
data_size-append (x ∷ xs) ys = omega (arith, data_size-append xs ys)

-- A session's queues: the counter is right and within the limit, no datagram waits while a read does, and a
-- closed session holds nothing.
pub record IsTidy (limit : ℕ) (s : Session) : Type 0 where
  pub counted : s.rx_bytes ≡ data_size s.rx_datagrams
  pub bounded : s.rx_bytes ≤ limit
  pub one_side : (length s.pending_reads ≡ 0) ⊎ (length s.rx_datagrams ≡ 0)
  pub ended : s.closed ≡ true → (length s.pending_reads ≡ 0) × (length s.rx_datagrams ≡ 0)

-- Session `i` is in order, the budget is kept, and the session's bytes are among those booked.
pub record InStep (u : UdpEngine) (i : ℕ) : Type 0 where
  pub tidy : IsTidy u.cfg.max_rx_queue_per_flow (u.objects i)
  pub valid : IsValid u.account
  pub booked : (u.objects i).rx_bytes ≤ u.account.used

-- An operation on session `i` leaves it in order, and the budget moves by what the session's queue does.
pub record Kept (u : UdpEngine) (i : ℕ) (x : UdpEngine) : Type 0 where
  pub in_step : InStep x i
  pub balanced : x.account.used + (u.objects i).rx_bytes ≡ u.account.used + (x.objects i).rx_bytes

-- What an operation puts in place of session `i`, and of the budget.
pub placed :
    (u x : UdpEngine) (i : ℕ) (s : Session)
    → x.cfg ≡ u.cfg
    → x.objects i ≡ s
    → IsTidy u.cfg.max_rx_queue_per_flow s
    → IsValid x.account
    → s.rx_bytes ≤ x.account.used
    → x.account.used + (u.objects i).rx_bytes ≡ u.account.used + s.rx_bytes
    → Kept u i x
placed u x i s c h t v b e = record {
  in_step = record { tidy = rw (c, h) t; valid = v; booked = rw h b };
  balanced = rw h e;
}

hand_over-Kept :
    (u : UdpEngine) (i : ℕ) (reads : List ReadOp) (bytes : List ℕ) (sender : Endpoint)
    → InStep u i
    → (u.objects i).closed ≡ false
    → (u.objects i).pending_reads ≡ reads
    → Kept u i (hand_over u i reads bytes sender)
unfolding hand_over
hand_over-Kept u i (op ∷ ops) bytes sender v o r =
    let s : Session = record (u.objects i) { pending_reads = ops } in
    placed u _ i s refl (at_self u i s)
      (record {
        counted = v.tidy.counted;
        bounded = v.tidy.bounded;
        one_side = inr (no_datagrams v.tidy.one_side);
        ended = λ e. absurd (case_false (sym e ∙ o));
      })
      v.valid v.booked refl
  where
    no_datagrams :
        (length (u.objects i).pending_reads ≡ 0) ⊎ (length (u.objects i).rx_datagrams ≡ 0)
        → length (u.objects i).rx_datagrams ≡ 0
    no_datagrams (inl e) = absurd (omega (arith, ap length r))
    no_datagrams (inr e) = e
hand_over-Kept u i [] bytes sender v o r =
    if_both (Kept u i)
      (ltb u.cfg.max_rx_queue_per_flow ((u.objects i).rx_bytes + length bytes)
        || not (reserve u.account (length bytes)).1)
      (λ e. placed u (count_drop u) i (u.objects i) refl refl v.tidy v.valid v.booked refl)
      (λ e. queued (tests _ _ e))
  where
    tests : (b c : Bool) → (b || not c) ≡ false → (b ≡ false) × (c ≡ true)
    tests b c e = ground arith

    s : Session
    s = record (u.objects i) {
      rx_datagrams = (u.objects i).rx_datagrams ++ (record { data_ = bytes; sender = sender } ∷ []);
      rx_bytes = (u.objects i).rx_bytes + length bytes;
    }

    room :
        ltb u.cfg.max_rx_queue_per_flow ((u.objects i).rx_bytes + length bytes) ≡ false
        → (u.objects i).rx_bytes + length bytes ≤ u.cfg.max_rx_queue_per_flow
    room e = ground arith

    queued :
        (ltb u.cfg.max_rx_queue_per_flow ((u.objects i).rx_bytes + length bytes) ≡ false)
          × ((reserve u.account (length bytes)).1 ≡ true)
        → Kept u i (record (set_session u i s) { account = (reserve u.account (length bytes)).0 })
    queued e =
        let law = reserve_iff u.account (length bytes) in
        let used : (reserve u.account (length bytes)).0.used ≡ u.account.used + length bytes =
          ap (λ (a : Account). a.used) (law.1 e.1) in
        placed u _ i s refl (at_self u i s)
          (record {
            counted = omega (
              arith,
              v.tidy.counted,
              data_size-append (u.objects i).rx_datagrams
                  (record { data_ = bytes; sender = sender } ∷ []),
            );
            bounded = room e.0;
            one_side = inl (ap length r);
            ended = λ f. absurd (case_false (sym f ∙ o));
          })
          (reserve-IsValid u.account (length bytes) v.valid) (omega (arith, used, v.booked))
          (omega (arith, used))

Kept-Unmoved : (u x y : UdpEngine) (i : ℕ) → Unmoved u i x → Kept x i y → Kept u i y
Kept-Unmoved u x y i h k = record {
  in_step = k.in_step;
  balanced = omega (arith, k.balanced, h.rx_bytes, ap (λ (a : Account). a.used) h.account);
}

InStep-Unmoved : (u x : UdpEngine) (i : ℕ) → Unmoved u i x → InStep u i → InStep x i
InStep-Unmoved u x i h v = record {
  tidy = record {
    counted = rw (h.rx_bytes, h.rx_datagrams) v.tidy.counted;
    bounded = rw (h.rx_bytes, h.cfg) v.tidy.bounded;
    one_side = rw (h.pending_reads, h.rx_datagrams) v.tidy.one_side;
    ended = rw (h.pending_reads, h.rx_datagrams, h.closed) v.tidy.ended;
  };
  valid = rw h.account v.valid;
  booked = rw (h.rx_bytes, h.account) v.booked;
}

-- A datagram that arrives for a session whose books are right, whether a read waits for it, it is
-- queued or it is dropped: the session's counter, limit and order stay right, the budget stays valid,
-- and it moves by exactly what the session's queue does.
pub deliver_datagram-Kept :
    (u : UdpEngine) (i : ℕ) (bytes : List ℕ) (sender : Endpoint)
    → InStep u i
    → Kept u i (deliver_datagram u i bytes sender)
unfolding deliver_datagram
deliver_datagram-Kept u i bytes sender v =
    let x = refresh_expiry u i in
    let h = refresh_expiry-Unmoved u i in
    if_both (Kept u i) (u.objects i).closed (λ e. record { in_step = v; balanced = refl })
      (λ e. Kept-Unmoved u x (hand_over x i (x.objects i).pending_reads bytes sender) i h (
        hand_over-Kept x i (x.objects i).pending_reads bytes sender (InStep-Unmoved u x i h v)
          (h.closed ∙ e) refl))

receive_from-Kept :
    (u : UdpEngine) (i : ℕ) (dgs : List Datagram) (op : ReadOp)
    → InStep u i
    → (u.objects i).closed ≡ false
    → (u.objects i).rx_datagrams ≡ dgs
    → Kept u i (receive_from u i dgs op)
unfolding receive_from
receive_from-Kept u i [] op v o r =
    let s : Session = record (u.objects i) {
      pending_reads = (u.objects i).pending_reads ++ (op ∷ []);
    } in
    placed u (set_session u i s) i s refl (at_self u i s)
      (record {
        counted = v.tidy.counted;
        bounded = v.tidy.bounded;
        one_side = inr (ap length r);
        ended = λ e. absurd (case_false (sym e ∙ o));
      })
      v.valid v.booked refl
receive_from-Kept u i (dg ∷ dgs) op v o r =
    placed u _ i s refl (at_self u i s)
      (record {
        counted = omega (arith, v.tidy.counted, size);
        bounded = omega (arith, v.tidy.bounded);
        one_side = inl (no_reads v.tidy.one_side);
        ended = λ e. absurd (case_false (sym e ∙ o));
      })
      (release-IsValid u.account n v.valid fits)
      (omega (arith, v.booked, used, fits, size, v.tidy.counted))
      (omega (arith, used, size, v.tidy.counted))
  where
    n : ℕ
    n = length dg.data_

    s : Session
    s = record (u.objects i) { rx_datagrams = dgs; rx_bytes = (u.objects i).rx_bytes - n }

    size : data_size (u.objects i).rx_datagrams ≡ n + data_size dgs
    size = ap data_size r

    fits : n ≤ u.account.used
    fits = omega (arith, v.booked, v.tidy.counted, size)

    used : (release u.account n).used + n ≡ u.account.used
    used = release_used u.account n v.valid fits

    no_reads :
        (length (u.objects i).pending_reads ≡ 0) ⊎ (length (u.objects i).rx_datagrams ≡ 0)
        → length (u.objects i).pending_reads ≡ 0
    no_reads (inl e) = e
    no_reads (inr e) = absurd (omega (arith, ap length r))

-- A read call on a session whose books are right, whether it gets a queued datagram, waits, or fails
-- on a closed session: the session's counter, limit and order stay right, the budget stays valid, and
-- it moves by exactly what the session's queue does.
pub start_receive-Kept :
    (u : UdpEngine) (i : ℕ) (op : ReadOp) → InStep u i → Kept u i (start_receive u i op)
unfolding start_receive
start_receive-Kept u i op v =
    if_both (Kept u i) (u.objects i).closed
      (λ e. placed u _ i (u.objects i) refl refl v.tidy v.valid v.booked refl)
      (λ e. receive_from-Kept u i (u.objects i).rx_datagrams op v e refl)
