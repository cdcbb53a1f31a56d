-- ===== src/Udp/Presence.antt =====
-- In every run of the UDP engine an open session has its entry in the heap of the expiry timer.
use tunio.Base.{
  ℕ, ◌+◌, ◌≡◌, inl, inr, refl, sym, ◌∙◌, List, [], ◌∷◌, true, false, ◌&&◌, ◌||◌, not, Option, none,
  some, length, ltb, leb, if_both, subst, subst⁻¹, take, be16, case_false,
}
use tunio.Account.{reserve}
use tunio.Config.Keys.{UdpSessionKey}
use tunio.Tcp.Dispatch.{IpInfo}
use tunio.Udp.Types.{
  Session, ReadOp, Endpoint, Datagram, UdpEngine, UdpError, set_session, erase_session,
  max_pending_new_sessions,
}
use tunio.Udp.Expiry.{remove_session, on_expiry_timer, set_timeout}
use tunio.Udp.Delivery.{
  hand_over, deliver_datagram, notify_session, new_session, with_session, open_session,
  route_datagram, on_packet, receive_from, start_receive, accept_from, async_accept, cancel_from,
  cancel_accepts, is_empty, bad_checksum,
}
use tunio.Udp.Sending.{start_send, send_unless, SendResult, send_packets}
use tunio.Udp.Tracking.{
  InHeap, IsTracked, HasEntry, Unmarked, put_lem, refresh_expiry_self, refresh_expiry-IsTracked,
  on_expiry_timer-IsTracked, same_or_not,
}

-- A session in whose place one with the same closed flag, mark and generation is put.
put_same :
    (u : UdpEngine) (i j : ℕ) (s : Session)
    → (InHeap (u.objects j) u.expiry_heap i → InHeap s u.expiry_heap i)
    → IsTracked u i
    → IsTracked (set_session u j s) i
put_same u i j s f h =
    put_lem u (λ t. InHeap t u.expiry_heap i) i j s
      (λ e. f (subst (λ k. InHeap (u.objects k) u.expiry_heap i) e h)) (λ n. h)

hand_over-IsTracked :
    (u : UdpEngine) (i j : ℕ) (ops : List ReadOp) (bytes : List ℕ) (sender : Endpoint)
    → IsTracked u i
    → IsTracked (hand_over u j ops bytes sender) i
unfolding hand_over
hand_over-IsTracked u i j (op ∷ ops) bytes sender h = put_same u i j _ (λ t. t) h
hand_over-IsTracked u i j [] bytes sender h =
    if_both (λ x. IsTracked x i)
      (ltb u.cfg.max_rx_queue_per_flow ((u.objects j).rx_bytes + length bytes)
        || not (reserve u.account (length bytes)).1)
      (λ b. h) (λ b. put_same u i j _ (λ t. t) h)

deliver_datagram-IsTracked :
    (u : UdpEngine) (i j : ℕ) (bytes : List ℕ) (sender : Endpoint)
    → IsTracked u i
    → IsTracked (deliver_datagram u j bytes sender) i
unfolding deliver_datagram
deliver_datagram-IsTracked u i j bytes sender h =
    if_both (λ x. IsTracked x i) (u.objects j).closed (λ c. h)
      (λ c. hand_over-IsTracked _ i j _ bytes sender (refresh_expiry-IsTracked u i j h))

-- The first datagram of a new session tracks it.
first_datagram :
    (u : UdpEngine) (i : ℕ) (bytes : List ℕ) (sender : Endpoint)
    → Unmarked (u.objects i)
    → (u.objects i).closed ≡ false
    → IsTracked (deliver_datagram u i bytes sender) i
unfolding deliver_datagram
first_datagram u i bytes sender m o =
    if_both (λ x. IsTracked x i) (u.objects i).closed (λ c. absurd (case_false (sym c ∙ o)))
      (λ c. hand_over-IsTracked _ i i _ bytes sender (refresh_expiry_self u i (inr m)))

notify_session-IsTracked :
    (u : UdpEngine) (i j : ℕ) (hs : List ℕ) → IsTracked u i → IsTracked (notify_session u j hs) i
unfolding notify_session
notify_session-IsTracked u i j (x ∷ hs) h = h
notify_session-IsTracked u i j [] h = put_same u i j _ (λ t. t) h

new_lem :
    (u : UdpEngine) (key : UdpSessionKey)
    → (Unmarked ((with_session u key).objects u.fresh))
      × (((with_session u key).objects u.fresh).closed ≡ false)
new_lem u key =
    put_lem u (λ s. Unmarked s × (s.closed ≡ false)) u.fresh u.fresh (new_session u key)
      (λ e. (refl, refl)) (λ n. absurd (n refl))

delivered-IsTracked :
    (u : UdpEngine) (i : ℕ) (key : UdpSessionKey) (bytes : List ℕ) (sender : Endpoint)
    → IsTracked u i
    → IsTracked (deliver_datagram (with_session u key) u.fresh bytes sender) i
delivered-IsTracked u i key bytes sender h = elim (same_or_not i u.fresh) [
  | inl e ↦
      subst⁻¹ (IsTracked (deliver_datagram (with_session u key) u.fresh bytes sender)) e (
        first_datagram (with_session u key) u.fresh bytes sender (new_lem u key).0
          (new_lem u key).1)
  | inr n ↦ deliver_datagram-IsTracked (with_session u key) i u.fresh bytes sender (
      put_lem u (λ s. InHeap s u.expiry_heap i) i u.fresh (new_session u key) (λ e. absurd (n e))
        (λ m. h))
]

open_session-IsTracked :
    (u : UdpEngine) (i : ℕ) (key : UdpSessionKey) (bytes : List ℕ) (sender : Endpoint)
    → IsTracked u i
    → IsTracked (open_session u key bytes sender) i
unfolding open_session
open_session-IsTracked u i key bytes sender h =
    if_both (λ x. IsTracked x i) (leb u.cfg.max_udp_flows (length u.sessions)) (λ b. h)
      (λ b.
        if_both (λ x. IsTracked x i)
          (is_empty u.pending_accepts
            && leb max_pending_new_sessions (length u.pending_new_sessions))
          (λ c. h)
          (λ c.
            notify_session-IsTracked _ i u.fresh _
              (refresh_expiry-IsTracked _ i u.fresh (delivered-IsTracked u i key bytes sender h))))

route_datagram-IsTracked :
    (at : Option ℕ) (u : UdpEngine) (i : ℕ) (key : UdpSessionKey) (bytes : List ℕ)
    (sender : Endpoint)
    → IsTracked u i
    → IsTracked (route_datagram at u key bytes sender) i
unfolding route_datagram
route_datagram-IsTracked none u i key bytes sender h = open_session-IsTracked u i key bytes sender h
route_datagram-IsTracked (some j) u i key bytes sender h =
    if_both (λ x. IsTracked x i) (u.objects j).closed
      (λ c.
        open_session-IsTracked (record u { sessions = erase_session key u.sessions }) i key bytes
          sender h)
      (λ c. deliver_datagram-IsTracked u i j bytes sender h)

on_packet-IsTracked :
    (u : UdpEngine) (i : ℕ) (ip : IpInfo) (payload : List ℕ)
    → IsTracked u i
    → IsTracked (on_packet u ip payload) i
unfolding on_packet
on_packet-IsTracked u i ip payload h =
    let udp_len = be16 payload 4 in
    if_both (λ x. IsTracked x i) (ltb (length payload) 8) (λ b. h)
      (λ b.
        if_both (λ x. IsTracked x i) (ltb udp_len 8 || ltb (length payload) udp_len) (λ c. h)
          (λ c.
            if_both (λ x. IsTracked x i) (bad_checksum ip (take udp_len payload)) (λ d. h)
              (λ d. route_datagram-IsTracked _ u i _ _ _ h)))

start_receive-IsTracked :
    (u : UdpEngine) (i j : ℕ) (op : ReadOp) → IsTracked u i → IsTracked (start_receive u j op) i
unfolding start_receive receive_from
start_receive-IsTracked u i j op h =
    if_both (λ x. IsTracked x i) (u.objects j).closed (λ b. h)
      (λ b. from (u.objects j).rx_datagrams)
  where
    from : (dgs : List Datagram) → IsTracked (receive_from u j dgs op) i
    from [] = put_same u i j _ (λ t. t) h
    from (dg ∷ dgs) = put_same u i j _ (λ t. t) h

accept_from-IsTracked :
    (u : UdpEngine) (i : ℕ) (js : List ℕ) (x : ℕ) → IsTracked u i → IsTracked (accept_from u js x) i
unfolding accept_from
accept_from-IsTracked u i [] x h = h
accept_from-IsTracked u i (j ∷ js) x h =
    if_both (λ y. IsTracked y i) (u.objects j).closed
      (λ b.
        accept_from-IsTracked (set_session u j (record (u.objects j) { pending_accept = false })) i
          js x (put_same u i j _ (λ t. t) h))
      (λ b. put_same u i j _ (λ t. t) h)

cancel_from-IsTracked :
    (u : UdpEngine) (i : ℕ) (hs : List ℕ) → IsTracked u i → IsTracked (cancel_from u hs) i
unfolding cancel_from
cancel_from-IsTracked u i [] h = h
cancel_from-IsTracked u i (x ∷ hs) h = cancel_from-IsTracked _ i hs h

send_unless-IsTracked :
    (o : Option UdpError) (u : UdpEngine) (i j : ℕ) (r : SendResult)
    → IsTracked u i
    → IsTracked (send_unless o u j r).0 i
send_unless-IsTracked none u i j r h = refresh_expiry-IsTracked u i j h
send_unless-IsTracked (some e) u i j r h = h

remove_session-IsTracked :
    (u : UdpEngine) (i j : ℕ) → IsTracked u i → IsTracked (remove_session u j) i
unfolding remove_session
remove_session-IsTracked u i j h =
    if_both (λ x. IsTracked x i) (u.objects j).closed (λ c. h)
      (λ c. put_lem u (λ t. InHeap t u.expiry_heap i) i j _ (λ e. inl refl) (λ n. h))

set_timeout-IsTracked :
    (u : UdpEngine) (i j timeout : ℕ) → IsTracked u i → IsTracked (set_timeout u j timeout) i
unfolding set_timeout
set_timeout-IsTracked u i j timeout h =
    if_both (λ x. IsTracked x i) (u.objects j).closed (λ c. h)
      (λ c. refresh_expiry-IsTracked _ i j (put_same u i j _ (λ t. t) h))

-- What happens to the engine: packets, calls on sessions and acceptors, the timer, and the passing of time.
pub data Step : UdpEngine → UdpEngine → Type 0 where
  packet : (u : UdpEngine) (ip : IpInfo) (payload : List ℕ) → Step u (on_packet u ip payload)
  receive : (u : UdpEngine) (i : ℕ) (op : ReadOp) → Step u (start_receive u i op)
  send :
      (u : UdpEngine) (i family : ℕ) (addr : List ℕ) (port : ℕ) (bytes : List ℕ) (ip_id : ℕ)
      → Step u (start_send u i family addr port bytes ip_id).0
  accepting : (u : UdpEngine) (handler : ℕ) → Step u (async_accept u handler)
  cancel : (u : UdpEngine) → Step u (cancel_accepts u)
  timeout : (u : UdpEngine) (i time : ℕ) → Step u (set_timeout u i time)
  ending : (u : UdpEngine) (i : ℕ) → Step u (remove_session u i)
  fire : (u : UdpEngine) → Step u (on_expiry_timer u)
  wait : (u : UdpEngine) (time : ℕ) → Step u (record u { now = time })

pub data Reach (s : UdpEngine) : UdpEngine → Type 0 where
  here : Reach s s
  next : {t u : UdpEngine} → Reach s t → Step t u → Reach s u

Step-IsTracked : {t u : UdpEngine} → Step t u → (i : ℕ) → IsTracked t i → IsTracked u i
unfolding start_send async_accept cancel_accepts
Step-IsTracked (packet u ip payload) i h = on_packet-IsTracked u i ip payload h
Step-IsTracked (receive u j op) i h = start_receive-IsTracked u i j op h
Step-IsTracked (send u j family addr port bytes ip_id) i h =
    send_unless-IsTracked _ u i j
      (send_packets (u.objects j) u.cfg.mtu (u.objects j).key.family addr port bytes ip_id) h
Step-IsTracked (accepting u x) i h = accept_from-IsTracked u i u.pending_new_sessions x h
Step-IsTracked (cancel u) i h = cancel_from-IsTracked u i u.pending_accepts h
Step-IsTracked (timeout u j time) i h = set_timeout-IsTracked u i j time h
Step-IsTracked (ending u j) i h = remove_session-IsTracked u i j h
Step-IsTracked (fire u) i h = on_expiry_timer-IsTracked u i h
Step-IsTracked (wait u time) i h = h

Reach-IsTracked : {s u : UdpEngine} → Reach s u → (i : ℕ) → IsTracked s i → IsTracked u i
Reach-IsTracked here i h = h
Reach-IsTracked (next r step) i h = Step-IsTracked step i (Reach-IsTracked r i h)

-- Start from an engine without an open session, and let packets, reads, sends, accepts, cancellations, changes of
-- the idle time, ends of sessions, firings of the timer and time follow one another in any way. Then every session
-- that is open has an entry of its present generation in the heap of the expiry timer, and is marked so.
pub Reach-HasEntry :
    (s u : UdpEngine) (i : ℕ)
    → ((j : ℕ) → (s.objects j).closed ≡ true)
    → Reach s u
    → (u.objects i).closed ≡ false
    → ((u.objects i).heap_live ≡ true) × HasEntry i (u.objects i).expiry_gen u.expiry_heap
Reach-HasEntry s u i h r o = elim (Reach-IsTracked r i (inl (h i))) [
  | inl c ↦ absurd (case_false (sym c ∙ o))
  | inr t ↦ t
]
