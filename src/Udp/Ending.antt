-- ===== src/Udp/Ending.antt =====
-- The end of a session, and what a read gets.
use tunio.Base.{
  ℕ, zero, suc, ◌+◌, ◌-◌, ◌≤◌, ◌≡◌, inl, refl, sym, ap, ◌∙◌, List, [], ◌∷◌, ◌++◌, true, false, none,
  some, ltb, ◌==◌, if◌then◌else◌, length, take, drop, take_all, min, arith, if_both, case_false,
}
use tunio.Config.Keys.{UdpSessionKey, udp_session_key_eq}
use tunio.Account.{Account, release}
use tunio.Account.Laws.{IsValid, release-IsValid, release_used}
use tunio.Udp.Types.{
  Datagram, ReadOp, Session, success, read_done, UdpEngine, set_session, find_session,
  erase_session,
}
use tunio.Udp.Expiry.{remove_session, abort_reads}
use tunio.Udp.Delivery.{copy_to, receive_from, start_receive}
use tunio.Udp.Refresh.{at_self}
use tunio.Udp.Books.{InStep, placed}

find_session-erase_session :
    (key : UdpSessionKey) (table : List (UdpSessionKey × ℕ))
    → find_session key (erase_session key table) ≡ none
unfolding find_session erase_session
find_session-erase_session key [] = refl
find_session-erase_session key (e ∷ es) =
    let rest = find_session-erase_session key es in
    if_both (λ t. find_session key t ≡ none) (udp_session_key_eq key e.0) (λ h. rest)
      (λ h. rw (h, rest) refl)

-- What the end of session `i` makes of an engine.
pub record Removed (u : UdpEngine) (i : ℕ) (x : UdpEngine) : Type 0 where
  pub closed : (x.objects i).closed ≡ true
  pub unreachable : find_session (u.objects i).key x.sessions ≡ none
  pub repaid : x.account.used + (u.objects i).rx_bytes ≡ u.account.used
  pub completions : x.out ≡ u.out ++ abort_reads (u.objects i).pending_reads
  pub in_step : InStep x i
  pub once : remove_session x i ≡ x

closed_stays : (u : UdpEngine) (i : ℕ) → (u.objects i).closed ≡ true → remove_session u i ≡ u
unfolding remove_session
closed_stays u i h = rw h refl

-- The budget after the queued bytes were given back, if there were any.
paid_lem :
    (a : Account) (n : ℕ)
    → IsValid a
    → n ≤ a.used
    → IsValid (if ltb 0 n then release a n else a)
      × ((if ltb 0 n then release a n else a).used + n ≡ a.used)
paid_lem a n v h =
    if_both (λ (b : Account). IsValid b × (b.used + n ≡ a.used)) (ltb 0 n)
      (λ e. (release-IsValid a n v h, release_used a n v h)) (λ e. (v, empty e))
  where
    empty : ltb 0 n ≡ false → a.used + n ≡ a.used
    empty e = ground arith

-- An open session whose books are right is removed: it is closed and its key finds nothing, its queued bytes
-- go back to the budget, each of its waiting reads is completed with operation_aborted, in order, its books
-- stay right, and a second removal changes nothing.
pub remove_session-Removed :
    (u : UdpEngine) (i : ℕ)
    → InStep u i
    → (u.objects i).closed ≡ false
    → Removed u i (remove_session u i)
unfolding remove_session
remove_session-Removed u i v o =
    if_both (λ x. Removed u i x) (u.objects i).closed (λ e. absurd (case_false (sym e ∙ o)))
      (λ e. record {
        closed = ap (λ (t : Session). t.closed) here;
        unreachable = find_session-erase_session (u.objects i).key u.sessions;
        repaid = paid.1;
        completions = refl;
        in_step =
            (placed u _ i ended refl here
              (record {
                counted = refl;
                bounded = omega arith;
                one_side = inl refl;
                ended = λ f. (refl, refl);
              })
              paid.0 (omega arith) (omega (arith, paid.1))).in_step;
        once = closed_stays _ i (ap (λ (t : Session). t.closed) here);
      })
  where
    ended : Session
    ended = record (u.objects i) {
      closed = true;
      pending_accept = false;
      rx_datagrams = [];
      rx_bytes = 0;
      pending_reads = [];
    }

    here : (set_session u i ended).objects i ≡ ended
    here = at_self u i ended

    paid :
        IsValid (
          if ltb 0 (u.objects i).rx_bytes
          then release u.account (u.objects i).rx_bytes
          else u.account)
        × ((if ltb 0 (u.objects i).rx_bytes
                then release u.account (u.objects i).rx_bytes
                else u.account).used
              + (u.objects i).rx_bytes
            ≡ u.account.used)
    paid = paid_lem u.account (u.objects i).rx_bytes v.valid v.booked

abbrev pub total_of : List ℕ → ℕ
total_of [] = 0
total_of (n ∷ ns) = n + total_of ns

take-split : (m n : ℕ) (xs : List ℕ) → m ≤ n → take m xs ++ take (n - m) (drop m xs) ≡ take n xs
take-split zero n xs h = ap (λ k. take k xs) (omega arith)
take-split (suc m) zero xs h = absurd (omega arith)
take-split (suc m) (suc n) [] h = take_all (suc n - suc m) [] (omega arith)
take-split (suc m) (suc n) (x ∷ xs) h =
    ap (◌∷◌ x)
      (ap (λ k. take m xs ++ take k (drop m xs)) (omega arith) ∙ take-split m n xs (omega arith))

-- Buffers with room for `n` bytes together get exactly the first `n`.
pub copy_to-take :
    (sizes : List ℕ) (n : ℕ) (bytes : List ℕ)
    → n ≤ total_of sizes
    → copy_to sizes n bytes ≡ take n bytes
unfolding copy_to
copy_to-take [] zero bytes h = refl
copy_to-take [] (suc n) bytes h = absurd (omega arith)
copy_to-take (size ∷ sizes) n bytes h =
    if_both (λ bs. bs ≡ take n bytes) (n == 0) (λ e. ap (λ k. take k bytes) (zero_lem e))
      (λ e.
        ap (λ bs. take m bytes ++ bs) (copy_to-take sizes (n - m) (drop m bytes) (omega arith))
        ∙ take-split m n bytes (omega arith))
  where
    m : ℕ
    m = min size n

    zero_lem : (n == 0) ≡ true → 0 ≡ n
    zero_lem e = ground arith

-- A read on an open session with a datagram queued, whose total is that of its buffers: it is
-- completed with success, the first datagram's sender, and as much of the datagram as its buffers
-- hold; the others stay queued, in order.
pub start_receive-first :
    (u : UdpEngine) (i : ℕ) (op : ReadOp) (dg : Datagram) (dgs : List Datagram)
    → (u.objects i).closed ≡ false
    → (u.objects i).rx_datagrams ≡ dg ∷ dgs
    → op.total ≡ total_of op.sizes
    → ((start_receive u i op).out
        ≡ u.out
          ++ (read_done op.handler success
                (take (min (length dg.data_) op.total) dg.data_)
                (some dg.sender)
              ∷ []))
      × (((start_receive u i op).objects i).rx_datagrams ≡ dgs)
unfolding start_receive receive_from
start_receive-first u i op dg dgs o r t =
    rw (o, r)
      (
        ap (λ (bs : List ℕ). u.out ++ (read_done op.handler success bs (some dg.sender) ∷ []))
            (copy_to-take op.sizes (min (length dg.data_) op.total) dg.data_ (omega (arith, t))),
        ap (λ (s : Session). s.rx_datagrams) (at_self u i _),
      )
