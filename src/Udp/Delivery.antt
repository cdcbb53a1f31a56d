-- ===== src/Udp/Delivery.antt =====
-- src/udp_engine.cpp: arriving datagrams and the calls that wait for them.
use tunio.Base.{
  ℕ, suc, ◌+◌, ◌-◌, List, [], ◌∷◌, ◌++◌, Bool, true, false, ◌&&◌, ◌||◌, not, Option, none, some,
  ltb, leb, ◌==◌, if◌then◌else◌, length, take, drop, min, be16,
}
use tunio.Config.{incr}
use tunio.Config.Keys.{UdpSessionKey, make_udp_session_key}
use tunio.Account.{reserve, release}
use tunio.Checksum.{tcp_udp_checksum}
use tunio.Headers.{ip_protocol_udp}
use tunio.Tcp.Dispatch.{IpInfo}
use tunio.Udp.Types.{
  Endpoint, Datagram, ReadOp, Session, success, operation_aborted, bad_descriptor, read_done,
  accept_done, UdpEngine, set_session, emit, count_drop, find_session, erase_session,
  max_pending_new_sessions,
}
use tunio.Udp.Expiry.{refresh_expiry, remove_session}

-- `make_udp_endpoint`
abbrev pub make_udp_endpoint : ℕ → List ℕ → ℕ → Endpoint
make_udp_endpoint family addr port = record {
  family = family;
  address = if family == 6 then take 16 addr else take 4 addr;
  port = port;
}

-- The loop that copies `copied_len` bytes into buffers of these sizes: the bytes that they get.
unfoldable pub copy_to : List ℕ → ℕ → List ℕ → List ℕ
copy_to [] copied_len bytes = []
copy_to (size ∷ sizes) copied_len bytes =
    let n = min size copied_len in
    let rest = copy_to sizes (copied_len - n) (drop n bytes) in
    if copied_len == 0 then [] else take n bytes ++ rest

-- The first waiting read gets the datagram; without one it is queued, if there is room.
unfoldable pub hand_over : UdpEngine → ℕ → List ReadOp → List ℕ → Endpoint → UdpEngine
hand_over u i (op ∷ ops) bytes sender =
    emit (set_session u i (record (u.objects i) { pending_reads = ops })) (
      read_done op.handler success (copy_to op.sizes (min (length bytes) op.total) bytes)
        (some sender))
hand_over u i [] bytes sender =
    let s = u.objects i in
    let (account, fits) = reserve u.account (length bytes) in
    if ltb u.cfg.max_rx_queue_per_flow (s.rx_bytes + length bytes) || not fits
    then count_drop u
    else record (set_session u i (record s {
      rx_datagrams = s.rx_datagrams ++ (record { data_ = bytes; sender = sender } ∷ []);
      rx_bytes = s.rx_bytes + length bytes;
    })) { account = account }

unfoldable pub deliver_datagram : UdpEngine → ℕ → List ℕ → Endpoint → UdpEngine
deliver_datagram u i bytes sender =
    let refreshed = refresh_expiry u i in
    if (u.objects i).closed
    then u
    else hand_over refreshed i (refreshed.objects i).pending_reads bytes sender

-- A session that was just made is offered to the application.
unfoldable pub notify_session : UdpEngine → ℕ → List ℕ → UdpEngine
notify_session u i (h ∷ hs) =
    emit (record u { pending_accepts = hs }) (accept_done h success (some i))
notify_session u i [] = record (set_session u i (record (u.objects i) { pending_accept = true })) {
  pending_new_sessions = u.pending_new_sessions ++ (i ∷ []);
}

abbrev pub new_session : UdpEngine → UdpSessionKey → Session
new_session u key = record {
  key = key;
  closed = false;
  pending_accept = false;
  timeout = u.cfg.udp_idle_timeout;
  expiry = u.now + u.cfg.udp_idle_timeout;
  expiry_gen = 0;
  last_heap_push = 0;
  heap_live = false;
  rx_datagrams = [];
  rx_bytes = 0;
  pending_reads = [];
}

abbrev pub is_empty : List ℕ → Bool
is_empty [] = true
is_empty (x ∷ xs) = false

-- The engine with a session for the key, which has the identity that was fresh.
abbrev pub with_session : UdpEngine → UdpSessionKey → UdpEngine
with_session u key = record (set_session u u.fresh (new_session u key)) {
  sessions = (key, u.fresh) ∷ u.sessions;
  fresh = suc u.fresh;
  stats = record u.stats { udp_sessions = incr u.stats.udp_sessions };
}

unfoldable pub open_session : UdpEngine → UdpSessionKey → List ℕ → Endpoint → UdpEngine
open_session u key bytes sender =
    let i = u.fresh in
    let delivered = refresh_expiry (deliver_datagram (with_session u key) i bytes sender) i in
    if leb u.cfg.max_udp_flows (length u.sessions)
    then count_drop u
    else if is_empty u.pending_accepts
        && leb max_pending_new_sessions (length u.pending_new_sessions)
    then count_drop u
    else notify_session delivered i delivered.pending_accepts

-- By what the table holds; a closed session is replaced.
unfoldable pub route_datagram : Option ℕ → UdpEngine → UdpSessionKey → List ℕ → Endpoint → UdpEngine
route_datagram none u key bytes sender = open_session u key bytes sender
route_datagram (some i) u key bytes sender =
    if (u.objects i).closed
    then open_session (record u { sessions = erase_session key u.sessions }) key bytes sender
    else deliver_datagram u i bytes sender

-- An IPv4 sender may leave the checksum out; IPv6 may not.
unfoldable pub bad_checksum : IpInfo → List ℕ → Bool
bad_checksum ip datagram =
    let csum = be16 datagram 6 in
    (ip.family == 6 && csum == 0)
    || (not (csum == 0)
        && not (tcp_udp_checksum ip.family ip.src_ip ip.dst_ip ip_protocol_udp datagram == 0))

unfoldable pub on_packet : UdpEngine → IpInfo → List ℕ → UdpEngine
on_packet u ip payload =
    let udp_len = be16 payload 4 in
    let datagram = take udp_len payload in
    let key = make_udp_session_key ip.src_ip (be16 payload 0) ip.family in
    if ltb (length payload) 8
    then count_drop u
    else if ltb udp_len 8 || ltb (length payload) udp_len
    then count_drop u
    else if bad_checksum ip datagram
    then count_drop u
    else route_datagram (find_session key u.sessions) u key (drop 8 datagram)
        (make_udp_endpoint ip.family ip.dst_ip (be16 payload 2))

-- The first queued datagram goes to this read; without one it waits. (`udp_pop_queued_datagram`)
unfoldable pub receive_from : UdpEngine → ℕ → List Datagram → ReadOp → UdpEngine
receive_from u i [] op =
    set_session u i
      (record (u.objects i) { pending_reads = (u.objects i).pending_reads ++ (op ∷ []) })
receive_from u i (dg ∷ dgs) op =
    let s = u.objects i in
    let n = length dg.data_ in
    emit
      (record (set_session u i (record s { rx_datagrams = dgs; rx_bytes = s.rx_bytes - n })) {
        account = release u.account n;
      })
      (read_done op.handler success (copy_to op.sizes (min n op.total) dg.data_) (some dg.sender))

-- `udp_session_start_receive`, on a session of a live engine.
unfoldable pub start_receive : UdpEngine → ℕ → ReadOp → UdpEngine
start_receive u i op =
    if (u.objects i).closed
    then emit u (read_done op.handler bad_descriptor [] none)
    else receive_from u i (u.objects i).rx_datagrams op

-- The loop of `async_accept` over the sessions that wait: the closed ones are skipped.
unfoldable pub accept_from : UdpEngine → List ℕ → ℕ → UdpEngine
accept_from u [] h = record u {
  pending_new_sessions = [];
  pending_accepts = u.pending_accepts ++ (h ∷ []);
}
accept_from u (i ∷ is) h =
    let taken = set_session u i (record (u.objects i) { pending_accept = false }) in
    let rest = accept_from taken is h in
    if (u.objects i).closed
    then rest
    else emit (record taken { pending_new_sessions = is }) (accept_done h success (some i))

unfoldable pub async_accept : UdpEngine → ℕ → UdpEngine
async_accept u h = accept_from u u.pending_new_sessions h

unfoldable pub cancel_from : UdpEngine → List ℕ → UdpEngine
cancel_from u [] = record u { pending_accepts = [] }
cancel_from u (h ∷ hs) = cancel_from (emit u (accept_done h operation_aborted none)) hs

unfoldable pub cancel_accepts : UdpEngine → UdpEngine
cancel_accepts u = cancel_from u u.pending_accepts

unfoldable pub remove_all : UdpEngine → List (UdpSessionKey × ℕ) → UdpEngine
remove_all u [] = u
remove_all u (e ∷ es) = remove_all (remove_session u e.1) es

-- `close_all`; the sessions are taken in the table's order.
unfoldable pub close_all : UdpEngine → UdpEngine
close_all u =
    let ended = remove_all (record u { timer_waiting = false }) u.sessions in
    record (cancel_accepts (record ended { pending_new_sessions = [] })) { expiry_heap = [] }
